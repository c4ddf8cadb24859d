-- ===== src/Matching/Statistics/Total.antt =====
-- The number of blocks of `get_sending_scheme`, and the number that `print_statics` reports.
use mathlib.Core.Bool.{false≢true}
use stripe_merge.Common.{
  range, refl, true, some, ltb, ap, ◌∙◌, IsShuffle, ℕ, ◌+◌, ◌*◌, ◌%◌, ◌^◌, ◌≤◌, ◌<◌, ◌≡◌, sym,
  false, List, [], arith, length, replicate, All, length-replicate, get_or-replicate,
  sum-replicate_zero,
}
use stripe_merge.Matching.{Generator, stripe_at}
use stripe_merge.Matching.Input.{pair_cost-le}
use stripe_merge.Matching.Scheme.Merge.{IsMove}
use stripe_merge.Matching.Statistics.{print_statics, sum_costs, get_sending_scheme, count_pairs}
use stripe_merge.Matching.Greedy.{add_costs}
use stripe_merge.Matching.Greedy.Weights.{
  weighted, paid, paid-replicate, add_costs-weighted, weighted-replicate_zero,
}
use stripe_merge.Matching.Statistics.Pairs.{IsMatching, Before, loops-Grown, count_pairs-paid}

-- A generator whose stripes are all matched, with nothing planned yet.
pub record IsPlannable (g : Generator) : Type 0 where
  pub matching : IsMatching g.params g.stripes_num g.stripes
  pub stripes_small : g.stripes_num < 2 ^ 32
  pub fresh : g.blocks_to_sent ≡ []
  pub blocks : g.rs_n ≡ g.rs_k + g.rs_m
  pub small : 2 * g.rs_k + 2 * g.rs_m < 256
  pub some_data : 0 < g.rs_k
  pub room : 2 * g.rs_k + g.rs_m ≤ g.node_num
  pub nodes : g.node_num < 2 ^ 16

module _ (g : Generator) (r : IsPlannable g) where
  cheap : (x : ℕ) → x < g.stripes_num → (stripe_at g.stripes x).cur_cost < g.rs_n + 1
  cheap x h =
      let pair = r.matching.paired x h in
      let le =
        pair_cost-le g.params g.stripes x (stripe_at g.stripes x).matching_index
          (omega (arith, r.small)) (r.matching.placed x h) (r.matching.placed _ pair.inside) in
      omega (arith, pair.cost, le, r.blocks)

none_seen :
    (shuffle : ℕ → List ℕ → List ℕ) (g : Generator) (fair : IsShuffle shuffle) (r : IsPlannable g)
    → Before shuffle fair g.params g.stripes_num
        (g.rs_n + 1)
        g.stripes
        r.matching
        r.small
        r.some_data
        r.room
        r.nodes
        (cheap g r)
        0
        (replicate g.stripes_num false)
none_seen shuffle g fair r = record {
  whole = length-replicate g.stripes_num false;
  below = λ x h. absurd (omega arith);
  together = λ x h t. absurd (false≢true (sym (get_or-replicate g.stripes_num x false) ∙ t));
}

print_statics_lem : (g : Generator) → g.rs_n < 255 → print_statics g ≡ some (sum_costs g)
unfolding print_statics
print_statics_lem g h = let ends : ltb g.rs_n 255 ≡ true = ground (arith, h) in rw ends refl

-- The sum is the number of blocks, and they are moves.
sum_costs-length :
    (shuffle : ℕ → List ℕ → List ℕ) (g : Generator)
    → IsShuffle shuffle
    → IsPlannable g
    → (sum_costs g ≡ length (get_sending_scheme shuffle g).blocks_to_sent % 2 ^ 32)
      × All (IsMove g.node_num) (get_sending_scheme shuffle g).blocks_to_sent
unfolding sum_costs get_sending_scheme
sum_costs-length shuffle g fair r =
    let grown =
      loops-Grown shuffle fair g.params g.stripes_num (g.rs_n + 1) g.stripes r.matching r.small
        r.some_data r.room r.nodes (cheap g r) g.stripes_num 0 (replicate g.stripes_num false)
        (replicate (g.rs_n + 1) 0) [] (omega arith) (none_seen shuffle g fair r)
        (length-replicate (g.rs_n + 1) 0)
        (omega (arith, sum-replicate_zero (g.rs_n + 1), r.stripes_small)) in
    rw r.fresh (
      omega (
        arith,
        add_costs-weighted 0 _ 0 (omega arith),
        grown.same,
        weighted-replicate_zero 0 (g.rs_n + 1),
      ),
      grown.moves tt,
    )

-- For a generator whose stripes are placed and all matched in pairs at the costs of the pairs, with
-- nothing planned yet, `2 * rs_k + 2 * rs_m < 256`, `rs_k` positive, at least `2 * rs_k + rs_m`
-- nodes and fewer than 2^16, fewer than 2^32 stripes and a shuffle that permutes, the total that
-- `print_statics` returns is the number of blocks of `get_sending_scheme`, in 32 bits, and each
-- block goes from a node of the cluster to another one.
pub get_sending_scheme_lem :
    (shuffle : ℕ → List ℕ → List ℕ) (g : Generator)
    → IsShuffle shuffle
    → IsPlannable g
    → (print_statics g ≡ some (length (get_sending_scheme shuffle g).blocks_to_sent % 2 ^ 32))
      × All (IsMove g.node_num) (get_sending_scheme shuffle g).blocks_to_sent
get_sending_scheme_lem shuffle g fair r =
    let (same, moves) = sum_costs-length shuffle g fair r in
    (print_statics_lem g (omega (arith, r.blocks, r.small)) ∙ ap some same, moves)

-- The total of counts that hold each pair once.
pub print_statics-paid :
    (shuffle : ℕ → List ℕ → List ℕ) (g : Generator) (counts : List ℕ)
    → IsShuffle shuffle
    → IsPlannable g
    → length g.stripes ≡ g.stripes_num
    → 2 * weighted 0 counts ≡ paid (replicate g.stripes_num true) g.stripes
    → print_statics g ≡ some (add_costs 0 counts 0)
unfolding sum_costs
print_statics-paid shuffle g counts fair r whole half =
    let counted : List ℕ =
      count_pairs g.stripes (range 0 g.stripes_num) (replicate g.stripes_num false)
        (replicate (g.rs_n + 1) 0) in
    let total : 2 * weighted 0 counted + paid (replicate g.stripes_num false) g.stripes
        ≡ 2 * weighted 0 (replicate (g.rs_n + 1) 0)
          + paid (replicate g.stripes_num true) g.stripes =
      count_pairs-paid shuffle fair g.params g.stripes_num (g.rs_n + 1) g.stripes r.matching r.small
        r.some_data r.room r.nodes (cheap g r) whole g.stripes_num 0 (replicate g.stripes_num false)
        (replicate (g.rs_n + 1) 0) (omega arith) (none_seen shuffle g fair r)
        (length-replicate (g.rs_n + 1) 0)
        (omega (arith, sum-replicate_zero (g.rs_n + 1), r.stripes_small)) in
    let same : weighted 0 counts ≡ weighted 0 counted = omega (
      arith,
      half,
      total,
      paid-replicate g.stripes_num g.stripes,
      weighted-replicate_zero 0 (g.rs_n + 1),
    ) in
    print_statics_lem g (omega (arith, r.blocks, r.small))
    ∙ ap some (
        add_costs-weighted 0 counted 0 (omega arith)
        ∙ ap (λ w. (0 + w) % 2 ^ 32) (sym same)
        ∙ sym (add_costs-weighted 0 counts 0 (omega arith)))
