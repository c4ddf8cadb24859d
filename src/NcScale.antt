-- ===== src/NcScale.antt =====
-- src/ncscale_simulation.cc and include/ncscale_simulation.hh: the moves of the NCScale scheme, which the
-- prototype is compared with.
pub mod RoundRobin
pub mod Phases
pub mod Migrations
pub mod Deltas
pub mod Batch
pub mod Total
use stripe_merge.Common.{
  ℕ, zero, suc, ◌+◌, ◌-◌, ◌*◌, ◌/◌, ◌%◌, ◌^◌, Bool, true, false, ◌||◌, ◌&&◌, List, [], ◌∷◌, ◌++◌,
  Option, none, some, ◌==◌, ltb, if◌then◌else◌, length, get_or, set, replicate,
}
use stripe_merge.Migration.{MigrationInfo, migration, blank_task}

pub record NcScale : Type 0 where
  pub rs_k : ℕ
  pub rs_m : ℕ
  pub rs_n : ℕ
  pub batch_size : ℕ
  pub scaling_num : ℕ
  pub single_scaling_num : ℕ
  pub single_total_cost : ℕ
  pub single_mig_cost : ℕ
  pub single_delta_cost : ℕ
  pub old_migration_num : ℕ
  pub old_delta_num : ℕ
  pub new_recv_num : ℕ

-- `uint` arithmetic.
abbrev pub w32 : ℕ → ℕ
w32 x = x % 2 ^ 32

abbrev pub dec32 : ℕ → ℕ
dec32 x = (x + (2 ^ 32 - 1)) % 2 ^ 32

-- The constructor.
unfoldable pub new_ncscale : ℕ → ℕ → NcScale
new_ncscale k m =
    let n = w32 (k + m) in
    let batch = w32 (2 * k * (k + m) * (2 * k + m)) in
    let scaling = batch / 2 in
    let single = scaling / n in
    record {
      rs_k = k;
      rs_m = m;
      rs_n = n;
      batch_size = batch;
      scaling_num = scaling;
      single_scaling_num = single;
      single_total_cost = dec32 n;
      single_mig_cost = k;
      single_delta_cost = dec32 m;
      old_migration_num = w32 (k * single);
      old_delta_num = w32 (dec32 m * single);
      new_recv_num = w32 (single * n);
    }

unfoldable pub get_batch_size : NcScale → ℕ
get_batch_size s = s.batch_size

unfoldable pub get_total_costs : NcScale → ℕ
get_total_costs s = w32 (s.scaling_num * s.single_total_cost)

unfoldable pub get_similar_batch_size : NcScale → ℕ → ℕ
get_similar_batch_size s size = w32 (size / s.batch_size * s.batch_size)

-- `j = ++j % n`.
abbrev pub next : ℕ → ℕ → ℕ
next n j = w32 (j + 1) % n

-- `while (!v[j]) j = ++j % n;`. Every index comes up in `n` rounds; `none` stands for a loop without end.
unfoldable pub skip_empty : ℕ → ℕ → List ℕ → ℕ → Option ℕ
skip_empty zero n v j = none
skip_empty (suc fuel) n v j =
    let rest = skip_empty fuel n v (next n j) in if get_or v j 0 == 0 then rest else some j

-- `--v[j]`.
abbrev pub take_one : List ℕ → ℕ → List ℕ
take_one v j = set v j (dec32 (get_or v j 0))

infixl 5 ◌>>=◌
abbrev pub ◌>>=◌ {ℓ κ} : {A : Type ℓ} {B : Type κ} → Option A → (A → Option B) → Option B
none >>= f = none
some a >>= f = f a

-- The local variables of a phase.
pub record Phase : Type 0 where
  pub scheme : List MigrationInfo
  pub send : List ℕ
  pub recv : List ℕ
  pub j : ℕ
  pub k : ℕ
  pub send_empty_count : ℕ
  pub recv_empty_count : ℕ

-- A round of the first loop: old node `j` sends a block to new node `k`.
unfoldable pub migrate_round : ℕ → ℕ → Phase → Option Phase
unfolding skip_empty migration
migrate_round n rs_k s = do
  j ← skip_empty n n s.send s.j
  k ← skip_empty rs_k rs_k s.recv s.k
  some (record s {
    scheme = s.scheme ++ migration (j + 1) (k + n + 1) 0 ∷ [];
    send = take_one s.send j;
    recv = take_one s.recv k;
    j = next n j;
    k = next rs_k k;
  })

-- `while (i < total_migration)`, on the number of rounds left.
unfoldable pub migrate : ℕ → ℕ → ℕ → Phase → Option Phase
unfolding migrate_round
migrate n rs_k zero s = some s
migrate n rs_k (suc rounds) s = migrate_round n rs_k s >>= migrate n rs_k rounds

-- How the second loop ends: with all blocks sent, or with a node that can only send to itself.
pub data DeltaEnd : Type 0 where
  all_sent : Phase → DeltaEnd
  bad_pair : (bad_pair_node bad_pair_count limit : ℕ) → Phase → DeltaEnd

-- The rest of a round for `j ≠ k`: old node `j` sends a delta block to old node `k`.
unfoldable pub delta_send : ℕ → ℕ → ℕ → Phase → Phase
unfolding migration
delta_send n j k s =
    let send = take_one s.send j in
    let recv = take_one s.recv k in
    record {
      scheme = s.scheme ++ migration (j + 1) (k + 1) 1 ∷ [];
      send = send;
      recv = recv;
      j = next n j;
      k = next n k;
      send_empty_count =
          if get_or send j 0 == 0 then s.send_empty_count + 1 else s.send_empty_count;
      recv_empty_count =
          if get_or recv k 0 == 0 then s.recv_empty_count + 1 else s.recv_empty_count;
    }

-- `while (i < total_delta)`, on fuel, `none` if it runs out: a round that `continue`s leaves `i` alone.
unfoldable pub delta_loop : ℕ → ℕ → ℕ → ℕ → Phase → Option DeltaEnd
unfolding skip_empty delta_send
delta_loop zero n total i s = none
delta_loop (suc fuel) n total i s = elim (ltb i total) [
  | false ↦ some (all_sent s)
  | true ↦ skip_empty n n s.send s.j >>= λ j. skip_empty n n s.recv s.k >>= λ k. elim (j == k) [
    | false ↦ delta_loop fuel n total (i + 1) (delta_send n j k s)
    | true ↦ elim (ltb s.send_empty_count (n - 1)) [
      | true ↦ delta_loop fuel n total i (record s { j = next n j; k = k })
      | false ↦ elim (ltb s.recv_empty_count (n - 1)) [
        | true ↦ delta_loop fuel n total i (record s { j = j; k = next n k })
        | false ↦ some (bad_pair (j + 1) (get_or s.send j 0) (dec32 i) s)
      ]
    ]
  ]
]

-- `while (scheme[index].source == bad || scheme[index].target == bad)`, on fuel.
unfoldable pub find_good : ℕ → ℕ → ℕ → ℕ → List MigrationInfo → ℕ → Option ℕ
find_good zero bad limit first scheme index = none
find_good (suc fuel) bad limit first scheme index =
    let t = get_or scheme index blank_task in
    let rest =
      find_good fuel bad limit first scheme (if ltb index limit then index + 1 else first) in
    if (t.source == bad) || (t.target == bad) then rest else some index

-- The loop over `t` that takes the last blocks round the bad node.
unfoldable pub repair : ℕ → ℕ → ℕ → ℕ → List MigrationInfo → ℕ → Option (List MigrationInfo)
unfolding find_good migration blank_task
repair zero bad limit first scheme index = some scheme
repair (suc t) bad limit first scheme index =
    find_good (2 * length scheme + 2) bad limit first scheme index >>= λ found.
    let old = get_or scheme found blank_task in
    repair t bad limit first
      (set scheme found (record old { target = bad % 2 ^ 16 }) ++ migration bad old.target 1 ∷ [])
      found

unfoldable pub finish : ℕ → DeltaEnd → Option (List MigrationInfo)
unfolding repair
finish first (all_sent s) = some s.scheme
finish first (bad_pair bad count limit s) = repair count bad limit first s.scheme first

-- `get_scheme`; `none` is `exit(-1)` for fewer stripes than a batch, or a loop without end.
unfoldable pub get_scheme : NcScale → ℕ → Option (List MigrationInfo)
unfolding migrate delta_loop finish
get_scheme s stripes_num =
    let ratio = stripes_num / s.batch_size in
    let per_migration = w32 (ratio * s.old_migration_num) in
    let per_delta = w32 (ratio * s.old_delta_num) in
    let per_new_recv = w32 (ratio * s.new_recv_num) in
    let total_migration = w32 (s.rs_n * per_migration) in
    let total_delta = w32 (s.rs_n * per_delta) in
    if ratio == 0
    then none
    else migrate s.rs_n s.rs_k total_migration (record {
      scheme = [];
      send = replicate s.rs_n per_migration;
      recv = replicate s.rs_k per_new_recv;
      j = 0;
      k = 0;
      send_empty_count = 0;
      recv_empty_count = 0;
    })
      >>= λ t.
          delta_loop ((2 * s.rs_n + 1) * (total_delta + 1)) s.rs_n total_delta 0 (record t {
            send = replicate s.rs_n per_delta;
            recv = replicate s.rs_n per_delta;
            j = 0;
            k = 1;
          })
          >>= finish total_migration
