-- ===== src/Node/Scheme.antt =====
-- The scheme that the master makes in `TCPNode::start` of src/tcp_node.cc.
use Prim.Native.String.{String}
use native.Mathlib.Nat.{div-mul-le_self}
use stripe_merge.Common.{
  IsShuffle, ℕ, ltb, ◌+◌, ◌-◌, ◌*◌, ◌/◌, ◌%◌, ◌^◌, ◌≤◌, ◌<◌, ◌≡◌, refl, ap₂, ◌∙◌, true, false, List,
  ◌++◌, Option, none, some, arith, ◌==◌, All, Bool-cases, inl, inr,
}
use stripe_merge.Stripe.{Params, generate_random_distributions}
use stripe_merge.Stripe.Deal.{generate-IsRow}
use stripe_merge.Migration.{MigrationInfo}
use stripe_merge.Pool.Tasks.{ThreadPool}
use stripe_merge.Matching.{Generator, new_generator, input_stripes}
use stripe_merge.Matching.CostTable.{static_c}
use stripe_merge.Matching.Greedy.{basic_greedy}
use stripe_merge.Matching.Search.{static_all_one}
use stripe_merge.Matching.Search.Rounds.{dist_based_search}
use stripe_merge.Matching.Scheme.Merge.{IsMove}
use stripe_merge.Matching.Statistics.{get_sending_scheme}
use stripe_merge.Matching.Plan.{greedy_sending_scheme}
use stripe_merge.Matching.Search.Matched.{dist_based_sending_scheme}
use stripe_merge.NcScale.{new_ncscale, get_similar_batch_size, get_scheme}
use stripe_merge.NcScale.Batch.{per_node, batch-expand, new_ncscale-exact}
use stripe_merge.Node.{name_tasks, start_master}
use stripe_merge.Node.Master.{Permutes, start_master_lem, moves-Differ}

-- The arguments narrowed to `uint16_t` and `uint8_t`.
unfoldable pub narrow : ℕ → ℕ → ℕ → Params
narrow k m n = record { node_num = n % 2 ^ 16; rs_k = k % 2 ^ 8; rs_m = m % 2 ^ 8 }

-- The matching by `scheme_type`, in a process that makes no other generator; `none` as in `dist_based_search`
-- and `basic_greedy`.
unfoldable pub match_stripes : ℕ → ℕ → Generator → Option Generator
unfolding basic_greedy dist_based_search static_all_one
match_stripes scheme_type actual_size g = elim (scheme_type == 0) [
  | true ↦ elim (static_all_one none g.rs_m) [
    | none ↦ none
    | some all_one ↦ dist_based_search (static_c none actual_size) all_one g
  ]
  | false ↦ elim (basic_greedy false (static_c none actual_size) g) [
    | none ↦ none
    | some (r, total) ↦ some r
  ]
]

-- The scheme of StripeMerge. `deal_shuffle` and `plan_shuffle` are the calls of `std::shuffle` in
-- `generate_random_distributions` and in `get_one_scheme`.
unfoldable pub merge_scheme :
    (ℕ → List ℕ → List ℕ) → (ℕ → List ℕ → List ℕ) → Params → ℕ → ℕ → Option (List MigrationInfo)
unfolding match_stripes generate_random_distributions new_generator input_stripes get_sending_scheme
merge_scheme deal_shuffle plan_shuffle p actual_size scheme_type =
    let rows = generate_random_distributions p deal_shuffle actual_size in
    elim (match_stripes scheme_type actual_size
      (input_stripes rows (new_generator p actual_size))) [
        | none ↦ none
        | some g ↦ some (get_sending_scheme plan_shuffle g).blocks_to_sent
      ]

-- The scheme before it is shuffled.
unfoldable pub make_scheme :
    (ℕ → List ℕ → List ℕ) → (ℕ → List ℕ → List ℕ) → ℕ → ℕ → ℕ → ℕ → ℕ → Option (List MigrationInfo)
unfolding merge_scheme narrow get_similar_batch_size new_ncscale get_scheme
make_scheme deal_shuffle plan_shuffle k m n exp_size scheme_type =
    let ns = new_ncscale k m in
    let actual_size = get_similar_batch_size ns exp_size in
    elim (scheme_type == 2) [
      | true ↦ get_scheme ns actual_size
      | false ↦ merge_scheme deal_shuffle plan_shuffle (narrow k m n) actual_size scheme_type
    ]

narrow-exact :
    (k m : ℕ)
    → 2 * k + 2 * m < 256
    → narrow k m (2 * k + m) ≡ record { node_num = 2 * k + m; rs_k = k; rs_m = m }
unfolding narrow
narrow-exact k m h =
    let n' : (2 * k + m) % 2 ^ 16 ≡ 2 * k + m = omega arith in
    let k' : k % 2 ^ 8 ≡ k = omega arith in
    let m' : m % 2 ^ 8 ≡ m = omega arith in rw (n', k', m') refl

-- A whole number of batches: at most `exp_size`, and even.
similar_size :
    (k m exp_size : ℕ)
    → 0 < k
    → 0 < m
    → 2 * k * (k + m) * (2 * k + m) ≤ exp_size
    → exp_size < 2 ^ 31
    → (half : ℕ) × (get_similar_batch_size (new_ncscale k m) exp_size ≡ 2 * half)
      × (2 * half < 2 ^ 31)
unfolding get_similar_batch_size
similar_size k m exp_size hk hm whole few =
    let batch : ℕ = per_node k m * (k + m) * 2 in
    let expand : 2 * k * (k + m) * (2 * k + m) ≡ batch = batch-expand k m in
    let exact =
      new_ncscale-exact k m (k + m) (per_node k m) refl refl hk hm
        (omega (arith, whole, few, expand)) in
    let below : exp_size / batch * batch ≤ exp_size = div-mul-le_self exp_size batch in
    (
      exp_size / batch * (per_node k m * (k + m)),
      rw exact (omega (arith, below, few)),
      omega (arith, below, few),
    )

pub static_all_one_lem :
    (rs_m : ℕ) → rs_m < 31 → static_all_one none rs_m ≡ some ((2 ^ rs_m - 1) % 256)
unfolding static_all_one
static_all_one_lem rs_m h = let fits : ltb rs_m 31 ≡ true = ground (arith, h) in rw fits refl

-- StripeMerge on an even number of stripes.
merge_scheme_lem :
    (deal_shuffle plan_shuffle : ℕ → List ℕ → List ℕ) (p : Params) (n scheme_type : ℕ)
    → IsShuffle deal_shuffle
    → IsShuffle plan_shuffle
    → n < 2 ^ 31
    → 2 * (n / 2) ≡ n
    → 0 < p.rs_k
    → 2 * p.rs_k + 2 * p.rs_m < 256
    → 2 * p.rs_k + p.rs_m ≤ p.node_num
    → p.node_num < 2 ^ 16
    → (scheme_type ≡ 0 → p.rs_m < 31)
    → (scheme : List MigrationInfo) × (merge_scheme deal_shuffle plan_shuffle p n scheme_type
        ≡ some scheme)
      × All (IsMove p.node_num) scheme
unfolding merge_scheme match_stripes input_stripes new_generator
merge_scheme_lem deal_shuffle plan_shuffle p n scheme_type fair fair' few even some_data small room
      nodes shift =
    let (dealt, count) =
      generate-IsRow p deal_shuffle n fair (omega (arith, room)) (omega (arith, small)) in
    let rows = generate_random_distributions p deal_shuffle n in
    elim (Bool-cases (scheme_type == 0)) [
      | inl by_parity ↦
          let narrow_m = shift (ground (arith, by_parity)) in
          let all_one = static_all_one_lem p.rs_m narrow_m in
          let (g, made, _, _, moves) =
            dist_based_sending_scheme p n ((2 ^ p.rs_m - 1) % 256) rows plan_shuffle fair' dealt
              count few even some_data small room nodes narrow_m (omega arith) in
          (
            (get_sending_scheme plan_shuffle g).blocks_to_sent,
            rw (merge_scheme, match_stripes, by_parity, all_one, made) refl,
            moves,
          )
      | inr greedy ↦
          let (g, total, made, _, _, _, moves) =
            greedy_sending_scheme p n rows plan_shuffle fair' dealt count few even some_data small
              room nodes in
          (
            (get_sending_scheme plan_shuffle g).blocks_to_sent,
            rw (merge_scheme, match_stripes, greedy, made) refl,
            moves,
          )
    ]

-- The master's scheme by StripeMerge.
pub merge-make_scheme :
    (deal_shuffle plan_shuffle : ℕ → List ℕ → List ℕ) (k m exp_size scheme_type : ℕ)
    → (scheme_type == 2) ≡ false
    → IsShuffle deal_shuffle
    → IsShuffle plan_shuffle
    → 0 < k
    → 0 < m
    → 2 * k + 2 * m < 256
    → 2 * k * (k + m) * (2 * k + m) ≤ exp_size
    → exp_size < 2 ^ 31
    → (scheme_type ≡ 0 → m < 31)
    → (scheme : List MigrationInfo) × (make_scheme deal_shuffle plan_shuffle k m
          (2 * k + m)
          exp_size
          scheme_type
        ≡ some scheme)
      × All (IsMove (2 * k + m)) scheme
unfolding make_scheme
merge-make_scheme deal_shuffle plan_shuffle k m exp_size scheme_type merges fair fair' hk hm small
      whole few shift =
    let (half, size, fits) = similar_size k m exp_size hk hm whole few in
    let (scheme, made, moves) =
      merge_scheme_lem deal_shuffle plan_shuffle
        (record { node_num = 2 * k + m; rs_k = k; rs_m = m }) (2 * half) scheme_type fair fair' fits
        (omega arith) hk small (omega arith) (omega (arith, small)) shift in
    (
      scheme,
      rw (make_scheme, merges)
          (ap₂ (λ p n. merge_scheme deal_shuffle plan_shuffle p n scheme_type)
              (narrow-exact k m small) size
            ∙ made),
      moves,
    )

-- For StripeMerge-G on `2 * k + m` nodes, with `k` and `m` positive, `2 * k + 2 * m < 256`, an
-- experiment size below 2^31 that holds a batch and shuffles that permute, the master makes a
-- scheme, its blocks go from nodes of the cluster to other ones, every task of it is accepted, and
-- its client's queue is then sealed.
pub greedy-start_master :
    (store_name : ℕ → ℕ → ℕ → String) (deal_shuffle plan_shuffle : ℕ → List ℕ → List ℕ)
    (shuffle : List MigrationInfo → List MigrationInfo) (pool : ThreadPool) (k m exp_size : ℕ)
    → IsShuffle deal_shuffle
    → IsShuffle plan_shuffle
    → Permutes shuffle
    → 0 < k
    → 0 < m
    → 2 * k + 2 * m < 256
    → 2 * k * (k + m) * (2 * k + m) ≤ exp_size
    → exp_size < 2 ^ 31
    → (scheme : List MigrationInfo) × (make_scheme deal_shuffle plan_shuffle k m
          (2 * k + m)
          exp_size
          1
        ≡ some scheme)
      × All (IsMove (2 * k + m)) scheme
      × (start_master store_name shuffle scheme pool
          ≡ some (record {
            task_queue = pool.task_queue ++ name_tasks store_name 0 (shuffle scheme);
            seal_flag = true;
          }))
greedy-start_master store_name deal_shuffle plan_shuffle shuffle pool k m exp_size fair fair' p hk
      hm small whole few =
    let (scheme, made, moves) =
      merge-make_scheme deal_shuffle plan_shuffle k m exp_size 1 refl fair fair' hk hm small whole
        few (λ e. omega (arith, e)) in
    (
      scheme,
      made,
      moves,
      start_master_lem store_name shuffle scheme pool p (moves-Differ (2 * k + m) scheme moves),
    )
