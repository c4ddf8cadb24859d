-- ===== src/Programs/Runs.antt =====
-- What the programs of src/node_main.cc and src/matching_main.cc come to.
use Prim.Native.String.{String}
use native.Mathlib.Nat.{div-mul-le_self, mul_comm, mul-le-mul_right}
use stripe_merge.Common.{
  IsShuffle, ℕ, ◌+◌, ◌-◌, ◌*◌, ◌/◌, ◌%◌, ◌^◌, ◌≤◌, ◌<◌, ◌≡◌, refl, subst, true, false, List, [],
  ◌∷◌, ◌++◌, some, arith, ◌==◌, All, ltb, length, Bool-cases, inl, inr,
}
use stripe_merge.Stripe.{Params, generate_random_distributions}
use stripe_merge.Stripe.Deal.{generate-IsRow}
use stripe_merge.Migration.{MigrationInfo}
use stripe_merge.Pool.Tasks.{ThreadPool}
use stripe_merge.Matching.Search.Matched.{dist_based_sending_scheme}
use stripe_merge.Matching.Plan.{greedy_sending_scheme}
use stripe_merge.Matching.Scheme.Merge.{IsMove}
use stripe_merge.Matching.Statistics.{get_sending_scheme}
use stripe_merge.NcScale.{new_ncscale, get_similar_batch_size}
use stripe_merge.NcScale.Batch.{
  per_node, per_node-positive, batch-expand, new_ncscale-exact, le-mul_right,
}
use stripe_merge.NcScale.Total.{batch-positive}
use stripe_merge.Node.{name_tasks, start_master}
use stripe_merge.Node.Master.{Permutes, start_master_lem, ncscale-start_master, moves-Differ}
use stripe_merge.Node.Scheme.{make_scheme, static_all_one_lem, merge-make_scheme}
use stripe_merge.Programs.{starts, node_main, Report, searched, compare, matching_main}

compare_lem :
    (deal_shuffle plan_shuffle : ℕ → List ℕ → List ℕ) (p : Params) (n : ℕ)
    → IsShuffle deal_shuffle
    → IsShuffle plan_shuffle
    → n < 2 ^ 31
    → 2 * (n / 2) ≡ n
    → 0 < p.rs_k
    → 2 * p.rs_k + 2 * p.rs_m < 256
    → 2 * p.rs_k + p.rs_m ≤ p.node_num
    → p.node_num < 2 ^ 16
    → p.rs_m < 31
    → (r : Report) × (compare deal_shuffle plan_shuffle p n ≡ some r)
      × (r.greedy_cost ≡ r.scheme_size % 2 ^ 32)
unfolding compare searched
compare_lem deal_shuffle plan_shuffle p n fair fair' few even some_data small room nodes shift =
    let (dealt, count) =
      generate-IsRow p deal_shuffle n fair (omega (arith, room)) (omega (arith, small)) in
    let rows = generate_random_distributions p deal_shuffle n in
    let all_one = static_all_one_lem p.rs_m shift in
    let (mg1, made1, _, reported, _) =
      dist_based_sending_scheme p n ((2 ^ p.rs_m - 1) % 256) rows plan_shuffle fair' dealt count few
        even some_data small room nodes shift (omega arith) in
    let (mg2, total, made2, _, _, sum, _) =
      greedy_sending_scheme p n rows plan_shuffle fair' dealt count few even some_data small room
        nodes in
    (
      record {
        parity_cost = length (get_sending_scheme plan_shuffle mg1).blocks_to_sent % 2 ^ 32;
        greedy_cost = total;
        scheme_size = length (get_sending_scheme plan_shuffle mg2).blocks_to_sent;
      },
      rw (compare, all_one, searched, made1, reported, made2) refl,
      sum,
    )

-- For arguments that read as an even number of fewer than 2^31 stripes and as parameters with `rs_k`
-- positive, `2 * rs_k + 2 * rs_m < 256`, `rs_m < 31`, at least `2 * rs_k + rs_m` nodes and fewer
-- than 2^16, and for shuffles that permute, `matching_main` ends without an error: both matchings
-- return, and the cost that it reports for StripeMerge-G is the size of the scheme that it prints,
-- in 32 bits.
pub matching_main_lem :
    (strtoul : List ℕ → ℕ) (deal_shuffle plan_shuffle : ℕ → List ℕ → List ℕ)
    (program size nodes k m : List ℕ)
    → IsShuffle deal_shuffle
    → IsShuffle plan_shuffle
    → strtoul size < 2 ^ 31
    → 2 * (strtoul size / 2) ≡ strtoul size
    → 0 < strtoul k
    → 2 * strtoul k + 2 * strtoul m < 256
    → 2 * strtoul k + strtoul m ≤ strtoul nodes
    → strtoul nodes < 2 ^ 16
    → strtoul m < 31
    → (r : Report) × (matching_main strtoul deal_shuffle plan_shuffle
          (program ∷ size ∷ nodes ∷ k ∷ m ∷ [])
        ≡ some r)
      × (r.greedy_cost ≡ r.scheme_size % 2 ^ 32)
unfolding matching_main
matching_main_lem strtoul deal_shuffle plan_shuffle program size nodes k m fair fair' few even
      some_data small room hosts shift =
    let p : Params = record { node_num = strtoul nodes; rs_k = strtoul k; rs_m = strtoul m } in
    let (r, made, same) =
      compare_lem deal_shuffle plan_shuffle p (strtoul size) fair fair' few even some_data small
        room hosts shift in
    let size' : strtoul size % 2 ^ 32 ≡ strtoul size = omega (arith, few) in
    let nodes' : strtoul nodes % 2 ^ 16 ≡ strtoul nodes = omega (arith, hosts) in
    let k' : strtoul k % 2 ^ 8 ≡ strtoul k = omega (arith, small) in
    let m' : strtoul m % 2 ^ 8 ≡ strtoul m = omega (arith, small) in
    (r, rw (size', nodes', k', m') made, same)

-- The arguments of a master.
node_main_lem :
    (strtoul : List ℕ → ℕ) (program size kind : List ℕ)
    → strtoul (48 ∷ []) ≡ 0
    → strtoul size < 2 ^ 32
    → strtoul kind ≤ 2
    → node_main strtoul (program ∷ (48 ∷ []) ∷ size ∷ kind ∷ [])
      ≡ starts 0 (strtoul size) (strtoul kind)
unfolding node_main
node_main_lem strtoul program size kind z few low =
    let kind' : strtoul kind % 2 ^ 32 ≡ strtoul kind = omega (arith, low) in
    let size' : strtoul size % 2 ^ 32 ≡ strtoul size = omega (arith, few) in
    let known : ltb 2 (strtoul kind) ≡ false = ground (arith, low) in
    rw (kind', known, size', z) refl

-- The number of stripes holds a batch as well.
batch-le :
    (k m exp_size : ℕ)
    → 0 < k
    → 0 < m
    → 2 * k * (k + m) * (2 * k + m) ≤ exp_size
    → exp_size < 2 ^ 31
    → (2 * k * (k + m) * (2 * k + m) ≤ get_similar_batch_size (new_ncscale k m) exp_size)
      × (get_similar_batch_size (new_ncscale k m) exp_size ≤ exp_size)
unfolding get_similar_batch_size
batch-le k m exp_size hk hm whole few =
    let batch : ℕ = per_node k m * (k + m) * 2 in
    let expand : 2 * k * (k + m) * (2 * k + m) ≡ batch = batch-expand k m in
    let exact =
      new_ncscale-exact k m (k + m) (per_node k m) refl refl hk hm
        (omega (arith, whole, few, expand)) in
    let below : exp_size / batch * batch ≤ exp_size = div-mul-le_self exp_size batch in
    let some_n : 0 < batch =
      omega (
        arith,
        le-mul_right (per_node k m) (k + m) (omega (arith, hk)),
        per_node-positive k m hk,
      ) in
    let ratio : 0 < exp_size / batch =
      batch-positive batch exp_size some_n (omega (arith, whole, expand)) in
    let above : batch ≤ batch * (exp_size / batch) = le-mul_right batch (exp_size / batch) ratio in
    let same : batch * (exp_size / batch) ≡ exp_size / batch * batch =
      mul_comm batch (exp_size / batch) in
    rw exact (omega (arith, expand, below, above, same, few))

-- For the arguments of a master: index 0, the size of the experiment and a type of at most 2, with
-- `k` and `m` positive, `2 * k + 2 * m < 256`, a size below 2^31 that holds a batch and whose
-- product with `k + m` fits 32 bits, `m < 31` if the type is 0, and shuffles that permute,
-- `node_main` starts node 0, whichever of the three types is asked for the master makes a scheme on
-- `2 * k + m` nodes, its blocks go from nodes of the cluster to other ones, every task of it is
-- accepted, and its client's queue is then sealed.
pub node_main-start_master :
    (strtoul : List ℕ → ℕ) (program size kind : List ℕ) (store_name : ℕ → ℕ → ℕ → String)
    (deal_shuffle plan_shuffle : ℕ → List ℕ → List ℕ)
    (shuffle : List MigrationInfo → List MigrationInfo) (pool : ThreadPool) (k m : ℕ)
    → IsShuffle deal_shuffle
    → IsShuffle plan_shuffle
    → Permutes shuffle
    → strtoul (48 ∷ []) ≡ 0
    → strtoul kind ≤ 2
    → 0 < k
    → 0 < m
    → 2 * k + 2 * m < 256
    → 2 * k * (k + m) * (2 * k + m) ≤ strtoul size
    → strtoul size < 2 ^ 31
    → strtoul size * (k + m) < 2 ^ 32
    → (strtoul kind ≡ 0 → m < 31)
    → (scheme : List MigrationInfo) × (node_main strtoul (program ∷ (48 ∷ []) ∷ size ∷ kind ∷ [])
        ≡ starts 0 (strtoul size) (strtoul kind))
      × (make_scheme deal_shuffle plan_shuffle k m (2 * k + m) (strtoul size) (strtoul kind)
          ≡ some scheme)
      × All (IsMove (2 * k + m)) scheme
      × (start_master store_name shuffle scheme pool
          ≡ some (record {
            task_queue = pool.task_queue ++ name_tasks store_name 0 (shuffle scheme);
            seal_flag = true;
          }))
unfolding make_scheme
node_main-start_master strtoul program size kind store_name deal_shuffle plan_shuffle shuffle pool k
      m fair fair' p z low hk hm small whole few fits shift =
    let started = node_main_lem strtoul program size kind z (omega (arith, few)) low in
    elim (Bool-cases (strtoul kind == 2)) [
      | inr merges ↦
          let (scheme, made, moves) =
            merge-make_scheme deal_shuffle plan_shuffle k m (strtoul size) (strtoul kind) merges
              fair fair' hk hm small whole few shift in
          (
            scheme,
            started,
            made,
            moves,
            start_master_lem store_name shuffle scheme pool p
                (moves-Differ (2 * k + m) scheme moves),
          )
      | inl scales ↦
          let actual = get_similar_batch_size (new_ncscale k m) (strtoul size) in
          let (above, below) = batch-le k m (strtoul size) hk hm whole few in
          let (scheme, made, moves, sent) =
            ncscale-start_master store_name shuffle pool k m actual p hk hm above
              (omega (arith, mul-le-mul_right (k + m) below, fits)) (omega (arith, small)) in
          let hosts : k + m + k ≡ 2 * k + m = omega arith in
          (
            scheme,
            started,
            rw (make_scheme, scales) made,
            subst (λ n. All (IsMove n) scheme) hosts moves,
            sent,
          )
    ]
