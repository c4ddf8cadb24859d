-- ===== src/Matching/Plan.antt =====
-- StripeMerge-G from the rows of the caller to the blocks that are sent.
use mathlib.Core.Option.{some-injective}
use stripe_merge.Common.{
  true, sym, ◌∙◌, IsShuffle, ℕ, ◌+◌, ◌*◌, ◌/◌, ◌%◌, ◌^◌, ◌≤◌, ◌<◌, ◌≡◌, refl, ap, ◌∙◌, subst, false,
  List, arith, length, replicate, All, length-replicate, some, none,
}
use stripe_merge.Stripe.{Params, Stripe, blank}
use stripe_merge.Stripe.Cost.{IsPlaced}
use stripe_merge.Stripe.Deal.{IsRow}
use stripe_merge.Matching.{Generator, new_generator, input_stripes, stripe_at}
use stripe_merge.Matching.CostTable.{static_c}
use stripe_merge.Matching.Greedy.{basic_greedy, add_costs}
use stripe_merge.Matching.Greedy.Result.{IsMatched, picked}
use stripe_merge.Matching.Greedy.Perfect.{
  selected-paid, chosen-all, length-matched, matched, basic_greedy-matched, all-IsMatched,
  matched-blocks,
}
use stripe_merge.Matching.Input.{input_rows-IsPlaced, input_stripes-IsReady}
use stripe_merge.Matching.Scheme.Merge.{IsMove}
use stripe_merge.Matching.Statistics.{print_statics, get_sending_scheme}
use stripe_merge.Matching.Statistics.Pairs.{IsPaired, get_or-replicate-true}
use stripe_merge.Matching.Greedy.Weights.{weighted, paid, paid-all}
use stripe_merge.Matching.Statistics.Total.{print_statics-paid, IsPlannable, get_sending_scheme_lem}

pub IsPlaced-cong :
    (p : Params) (s t : Stripe)
    → t.data_dist ≡ s.data_dist
    → t.parity_dist ≡ s.parity_dist
    → IsPlaced p s
    → IsPlaced p t
IsPlaced-cong p s t d q a = record {
  data_length = ap length d ∙ a.data_length;
  parity_length = ap length q ∙ a.parity_length;
  distinct = rw (d, q) a.distinct;
  inside = rw (d, q) a.inside;
}

IsMatched-IsPaired :
    (p : Params) (n : ℕ) (ss : List Stripe) (x : ℕ)
    → IsMatched p n ss x (stripe_at ss x).matching_index
    → IsPaired p n ss x
IsMatched-IsPaired p n ss x m = record {
  inside = m.inside;
  other = m.other;
  back = m.back;
  cost = m.cost;
}

-- The total is made of counts that hold each pair once.
record IsCounted (total : ℕ) (g : Generator) : Type 0 where
  counts : List ℕ
  whole : length g.stripes ≡ g.stripes_num
  summed : total ≡ add_costs 0 counts 0
  half : 2 * weighted 0 counts ≡ paid (replicate g.stripes_num true) g.stripes

-- After `basic_greedy` on an even number of rows the sending scheme can be made.
basic_greedy-IsPlannable :
    (p : Params) (n : ℕ) (rows : List (List ℕ × List ℕ))
    → All (IsRow p) rows
    → length rows ≡ n
    → n < 2 ^ 31
    → 2 * (n / 2) ≡ n
    → 0 < p.rs_k
    → 2 * p.rs_k + 2 * p.rs_m < 256
    → 2 * p.rs_k + p.rs_m ≤ p.node_num
    → p.node_num < 2 ^ 16
    → (g : Generator) × (total : ℕ) × (basic_greedy false
          (static_c none n)
          (input_stripes rows (new_generator p n))
        ≡ some (g, total))
      × ((x : ℕ) → x < n → IsMatched p n g.stripes x (stripe_at g.stripes x).matching_index)
      × (g.params ≡ p)
      × IsPlannable g
      × IsCounted total g
unfolding new_generator input_stripes
basic_greedy-IsPlannable p n rows a size few even some_data small room nodes =
    let start = input_stripes rows (new_generator p n) in
    let (ready, free, _) = input_stripes-IsReady p n rows a size few (omega (arith, small)) room in
    let after = matched start ready free even in
    let placed : (x : ℕ) → x < n → IsPlaced p (stripe_at after.stripes x) = λ x h.
      let (d, q) = matched-blocks start ready free even x in
      IsPlaced-cong p (stripe_at start.stripes x) (stripe_at after.stripes x) d q (
        input_rows-IsPlaced p 0 rows (replicate n blank) x a
          (omega (arith, size, length-replicate n blank))
          (omega (arith, h, length-replicate n blank))) in
    (
      after,
      add_costs 0 (picked false start ready).selected 0,
      basic_greedy-matched start ready free even,
      all-IsMatched start ready free even,
      refl,
      record {
        matching = record {
          placed = placed;
          paired = λ x h.
              IsMatched-IsPaired p n after.stripes x (all-IsMatched start ready free even x h);
        };
        stripes_small = omega (arith, few);
        fresh = refl;
        blocks = omega (arith, small);
        small = small;
        some_data = some_data;
        room = room;
        nodes = nodes;
      },
      record {
        counts = (picked false start ready).selected;
        whole = length-matched start ready free even;
        summed = refl;
        half =
            selected-paid start ready free even
            ∙ paid-all (picked false start ready).flag (replicate n true) after.stripes
                ((chosen-all start ready free even).0 ∙ sym (length-replicate n true))
                (chosen-all start ready free even).1
                (λ x h. get_or-replicate-true n x (omega (arith, h, length-replicate n true)));
      },
    )

-- For an even number of fewer than 2^31 rows that place their blocks soundly, and under the
-- conditions of `get_sending_scheme_lem` on the parameters and the shuffle, `basic_greedy` after
-- `input_stripes` returns with every stripe matched; its total is the one that `print_statics`
-- returns, and it is the number of blocks that `get_sending_scheme` plans, in 32 bits, and each
-- block goes from a node of the cluster to another one.
pub greedy_sending_scheme :
    (p : Params) (n : ℕ) (rows : List (List ℕ × List ℕ)) (shuffle : ℕ → List ℕ → List ℕ)
    → IsShuffle shuffle
    → All (IsRow p) rows
    → length rows ≡ n
    → n < 2 ^ 31
    → 2 * (n / 2) ≡ n
    → 0 < p.rs_k
    → 2 * p.rs_k + 2 * p.rs_m < 256
    → 2 * p.rs_k + p.rs_m ≤ p.node_num
    → p.node_num < 2 ^ 16
    → (g : Generator) × (total : ℕ) × (basic_greedy false
          (static_c none n)
          (input_stripes rows (new_generator p n))
        ≡ some (g, total))
      × ((x : ℕ) → x < n → IsMatched p n g.stripes x (stripe_at g.stripes x).matching_index)
      × (print_statics g ≡ some total)
      × (total ≡ length (get_sending_scheme shuffle g).blocks_to_sent % 2 ^ 32)
      × All (IsMove p.node_num) (get_sending_scheme shuffle g).blocks_to_sent
greedy_sending_scheme p n rows shuffle fair a size few even some_data small room nodes =
    let (g, total, made, pairs, same, ready, counted) =
      basic_greedy-IsPlannable p n rows a size few even some_data small room nodes in
    let (length, moves) = get_sending_scheme_lem shuffle g fair ready in
    let reported : print_statics g ≡ some total =
      print_statics-paid shuffle g counted.counts fair ready counted.whole counted.half
      ∙ ap some (sym counted.summed) in
    (
      g,
      total,
      made,
      pairs,
      reported,
      some-injective total _ (sym reported ∙ length),
      subst (λ (q : Params). All (IsMove q.node_num) (get_sending_scheme shuffle g).blocks_to_sent)
          same moves,
    )
