-- ===== src/Node/Master.antt =====
-- The tasks of the master in `TCPNode::start` of src/tcp_node.cc.
use Prim.Native.String.{String}
use mathlib.Core.List.{append_assoc, append-nil, Permᴰ}
use native.Mathlib.Nat.{mod-lt, mod-eq_of_lt, mod_self, mul-add-mod_self_right}
use stripe_merge.Common.{
  ℕ, zero, suc, ◌+◌, ◌-◌, ◌*◌, ◌/◌, ◌%◌, ◌^◌, ◌≤◌, ◌<◌, ◌≡◌, ◌≢◌, refl, sym, ap, ◌∙◌, subst, true,
  false, List, [], ◌∷◌, ◌++◌, none, some, arith, ◌==◌, map, range, All, All-append, dec_lt,
}
use stripe_merge.Migration.{MigrationInfo, migration}
use stripe_merge.Pool.Tasks.{ThreadPool, add_task, set_finished}
use stripe_merge.Matching.Scheme.Merge.{IsMove}
use stripe_merge.Node.{name_tasks, add_tasks, start_master}
use stripe_merge.NcScale.{new_ncscale, get_scheme}
use stripe_merge.NcScale.Batch.{per_node}
use stripe_merge.NcScale.Phases.{old_to_new, old_to_old}
use stripe_merge.NcScale.Total.{get_scheme_lem}

pub All-Perm {ℓ κ} :
    {A : Type ℓ} (P : A → Type κ) {xs ys : List A} → Permᴰ xs ys → All P xs → All P ys
All-Perm P Permᴰ.nil h = h
All-Perm P (Permᴰ.cons e p) h = (subst P e h.0, All-Perm P p h.1)
All-Perm P (Permᴰ.swap e e') h = (subst P e' h.1.0, (subst P e h.0, h.1.1))
All-Perm P (Permᴰ.trans p q) h = All-Perm P q (All-Perm P p h)

-- `std::random_shuffle` permutes its range.
abbrev pub Permutes : (List MigrationInfo → List MigrationInfo) → Type 0
Permutes shuffle = (xs : List MigrationInfo) → Permᴰ xs (shuffle xs)

abbrev pub Differ : MigrationInfo → Type 0
Differ task = task.source ≢ task.target

add_tasks_lem :
    (xs : List MigrationInfo) (pool : ThreadPool)
    → All Differ xs
    → add_tasks xs pool ≡ some (record pool { task_queue = pool.task_queue ++ xs })
unfolding add_tasks add_task
add_tasks_lem [] pool h =
    ap (λ q. some (record pool { task_queue = q })) (sym (append-nil pool.task_queue))
add_tasks_lem (x ∷ xs) pool h =
    let ne : (x.source == x.target) ≡ false = ground (arith, h.0) in
    rw ne (
      add_tasks_lem xs (add_task x pool) h.1
      ∙ ap (λ q. some (record pool { task_queue = q })) (append_assoc pool.task_queue (x ∷ []) xs))

-- A task from a node to itself ends the program.
add_tasks-fails :
    (before : List MigrationInfo) (task : MigrationInfo) (after : List MigrationInfo)
    (pool : ThreadPool)
    → task.source ≡ task.target
    → add_tasks (before ++ task ∷ after) pool ≡ none
unfolding add_tasks
add_tasks-fails [] task after pool e =
    let same : (task.source == task.target) ≡ true = ground (arith, e) in rw same refl
add_tasks-fails (x ∷ before) task after pool e =
    ground (arith, add_tasks-fails before task after (add_task x pool) e)

module _ (store_name : ℕ → ℕ → ℕ → String) where
  pub name_tasks-All :
      (P : ℕ → ℕ → Type 0) (i : ℕ) (xs : List MigrationInfo)
      → All (λ (task : MigrationInfo). P task.source task.target) xs
      → All (λ (task : MigrationInfo). P task.source task.target) (name_tasks store_name i xs)
  unfolding name_tasks
  name_tasks-All P i [] h = tt
  name_tasks-All P i (x ∷ xs) h = (h.0, name_tasks-All P ((i + 1) % 2 ^ 32) xs h.1)

  -- For a shuffle that permutes and a scheme in which no block stays on its node, the master does
  -- not exit; its client's queue grows by the shuffled and named tasks, in their order, and is then
  -- sealed.
  pub start_master_lem :
      (shuffle : List MigrationInfo → List MigrationInfo) (scheme : List MigrationInfo)
      (pool : ThreadPool)
      → Permutes shuffle
      → All Differ scheme
      → start_master store_name shuffle scheme pool
        ≡ some (record {
          task_queue = pool.task_queue ++ name_tasks store_name 0 (shuffle scheme);
          seal_flag = true;
        })
  unfolding start_master set_finished
  start_master_lem shuffle scheme pool p h =
      rw
        (
          start_master,
          add_tasks_lem (name_tasks store_name 0 (shuffle scheme)) pool
              (name_tasks-All (λ s t. s ≢ t) 0 (shuffle scheme) (All-Perm Differ (p scheme) h)),
        )
        refl

map-range-All {κ} :
    (P : MigrationInfo → Type κ) (f : ℕ → MigrationInfo) (i n : ℕ)
    → ((x : ℕ) → P (f x))
    → All P (map f (range i n))
map-range-All P f i zero h = tt
map-range-All P f i (suc n) h = (h i, map-range-All P f (i + 1) n h)

two_up : {n : ℕ} → 1 < n → 0 < n
two_up h = omega arith

-- A number and the next one differ modulo `n`.
next-apart : (n i : ℕ) → 1 < n → i % n ≢ suc i % n
next-apart n i two e =
    let below = mod-lt i (two_up two) in
    let whole : suc i ≡ i / n * n + (i % n + 1) = omega arith in
    let next : suc i % n ≡ (i % n + 1) % n =
      ap (λ x. x % n) whole ∙ mul-add-mod_self_right (i / n) n (i % n + 1) in
    elim (dec_lt (i % n + 1) n) [
      | yes on ↦ absurd (omega (arith, e, next ∙ mod-eq_of_lt on))
      | no last ↦
          let top : i % n + 1 ≡ n = omega (arith, below) in
          absurd (omega (arith, e, next ∙ ap (λ x. x % n) top ∙ mod_self n))
    ]

module _ (n k : ℕ) (two : 1 < n) (some_k : 0 < k) (small : n + k < 2 ^ 16) where
  old_to_new-IsMove : (i : ℕ) → IsMove (n + k) (old_to_new n k i)
  unfolding migration
  old_to_new-IsMove i =
      let from = mod-lt i (two_up two) in let to = mod-lt i some_k in omega (arith, from, to)

  old_to_old-IsMove : (i : ℕ) → IsMove (n + k) (old_to_old n i)
  unfolding migration
  old_to_old-IsMove i =
      let from = mod-lt i (two_up two) in
      let to = mod-lt (suc i) (two_up two) in
      let apart : i % n ≢ suc i % n = next-apart n i two in omega (arith, from, to, apart)

pub moves-Differ : (n : ℕ) (xs : List MigrationInfo) → All (IsMove n) xs → All Differ xs
moves-Differ n [] h = tt
moves-Differ n (x ∷ xs) h = (h.0.differ, moves-Differ n xs h.1)

-- Under the conditions of `get_scheme_lem`, for at most 2^16 nodes and a shuffle that permutes, the
-- scheme of NCScale moves blocks between different nodes of the cluster, and the master accepts
-- every task of it and seals its client's queue.
pub ncscale-start_master :
    (store_name : ℕ → ℕ → ℕ → String) (shuffle : List MigrationInfo → List MigrationInfo)
    (pool : ThreadPool) (k m stripes_num : ℕ)
    → Permutes shuffle
    → 0 < k
    → 0 < m
    → 2 * k * (k + m) * (2 * k + m) ≤ stripes_num
    → stripes_num * (k + m) < 2 ^ 32
    → k + m + k < 2 ^ 16
    → (scheme : List MigrationInfo) × (get_scheme (new_ncscale k m) stripes_num ≡ some scheme)
      × All (IsMove (k + m + k)) scheme
      × (start_master store_name shuffle scheme pool
          ≡ some (record {
            task_queue = pool.task_queue ++ name_tasks store_name 0 (shuffle scheme);
            seal_flag = true;
          }))
ncscale-start_master store_name shuffle pool k m stripes_num p hk hm whole fits small =
    let ratio : ℕ = stripes_num / (per_node k m * (k + m) * 2) in
    let count : ℕ = (k + m) * (ratio * (k * per_node k m)) in
    let count' : ℕ = (k + m) * (ratio * ((m - 1) * per_node k m)) in
    let blocks : List MigrationInfo = map (old_to_new (k + m) k) (range 0 count) in
    let deltas : List MigrationInfo = map (old_to_old (k + m)) (range 0 count') in
    let two : 1 < k + m = omega arith in
    let good : All (IsMove (k + m + k)) (blocks ++ deltas) =
      All-append (IsMove (k + m + k)) blocks deltas
        (map-range-All (IsMove (k + m + k)) (old_to_new (k + m) k) 0 count
          (old_to_new-IsMove (k + m) k two hk small))
        (map-range-All (IsMove (k + m + k)) (old_to_old (k + m)) 0 count'
          (old_to_old-IsMove (k + m) k two hk small)) in
    (
      blocks ++ deltas,
      get_scheme_lem k m stripes_num hk hm whole fits,
      good,
      start_master_lem store_name shuffle (blocks ++ deltas) pool p
          (moves-Differ (k + m + k) (blocks ++ deltas) good),
    )
