-- ===== src/Tests/Searching.antt =====
-- StripeMerge-P on the stripes of `Data`.
use stripe_merge.Common.{
  inc8, map, Option, ◌≡◌, refl, some, none, arith, ℕ, ◌%◌, ◌^◌, ◌<◌, length, All, List, [], ◌∷◌,
  ◌≤◌, ◌≢◌, range,
}
use stripe_merge.Matching.{Generator, input_stripes, new_generator, stripe_at}
use stripe_merge.Matching.CostTable.{static_c, slot}
use stripe_merge.Matching.Search.{build_map, build_rows, next_comb, bit_and, bit_or}
use stripe_merge.Stripe.{
  Params, set_info, compute_cost, parity_loop, parity_step, visit, data_loop, parity_dest,
}
use stripe_merge.Stripe.Deal.{IsRow}
use stripe_merge.Matching.Search.Optimize.{make_optimization}
use stripe_merge.Matching.Search.Rounds.{search_rounds, match_rest, dist_based_search}
use stripe_merge.Matching.Search.Matched.{dist_based_sending_scheme, make_optimization_lem}
use stripe_merge.Matching.Greedy.Result.{IsMatched}
use stripe_merge.Matching.Scheme.Merge.{IsMove}
use stripe_merge.Matching.Statistics.{print_statics, get_sending_scheme}
use stripe_merge.Tests.Data.{five, rows, rows-IsRow, still, still-IsShuffle}

-- The subsets of two out of four blocks: 0011, 0101, 0110, 1001, 1010, 1100.
combs_run : next_comb (next_comb (next_comb 3)) ≡ 9
unfolding next_comb bit_and bit_or
combs_run = refl

dist_based_sending_scheme_example :
    (g : Generator) × (dist_based_search
        (static_c none 2)
        1
        (input_stripes rows (new_generator five 2))
      ≡ some g)
    × ((x : ℕ) → x < 2 → IsMatched five 2 g.stripes x (stripe_at g.stripes x).matching_index)
    × (print_statics g ≡ some (length (get_sending_scheme still g).blocks_to_sent % 2 ^ 32))
    × All (IsMove 5) (get_sending_scheme still g).blocks_to_sent
dist_based_sending_scheme_example =
    dist_based_sending_scheme five 2 1 rows still still-IsShuffle rows-IsRow refl (omega arith) refl
      (omega arith) (omega arith) (omega arith) (omega arith) (omega arith) (omega arith)

-- The first two stripes cost nothing together, nor does each of the others with one of them.
abbrev eight : Params
eight = record { node_num = 8; rs_k = 2; rs_m = 2 }

abbrev exchanged : List (List ℕ × List ℕ)
exchanged =
    (0 ∷ 1 ∷ [], 6 ∷ 7 ∷ [])
    ∷ (2 ∷ 3 ∷ [], 6 ∷ 7 ∷ [])
    ∷ (4 ∷ 5 ∷ [], 6 ∷ 7 ∷ [])
    ∷ (4 ∷ 0 ∷ [], 6 ∷ 7 ∷ [])
    ∷ []

on_eight-IsRow : (a b : ℕ) → a < 6 → b < 6 → a ≢ b → IsRow eight (a ∷ b ∷ [], 6 ∷ 7 ∷ [])
unfolding set_info
on_eight-IsRow a b ha hb ne = λ i s. record {
  data_length = refl;
  parity_length = refl;
  distinct = λ x. ground (arith, ha, hb, ne);
  inside = omega (arith, ha, hb);
}

exchanged-IsRow : All (IsRow eight) exchanged
exchanged-IsRow = (
  on_eight-IsRow 0 1 (omega arith) (omega arith) (λ e. omega (arith, e)),
  (
    on_eight-IsRow 2 3 (omega arith) (omega arith) (λ e. omega (arith, e)),
    (
      on_eight-IsRow 4 5 (omega arith) (omega arith) (λ e. omega (arith, e)),
      (on_eight-IsRow 4 0 (omega arith) (omega arith) (λ e. omega (arith, e)), tt),
    ),
  ),
)

abbrev four : Generator
four = input_stripes exchanged (new_generator eight 4)

abbrev partners : Option Generator → List ℕ
partners none = []
partners (some g) = map (λ s. s.matching_index) g.stripes

-- The rounds match 0 with 1 and 2 with 3, and the exchange 0 with 2 and 1 with 3.
rounds_run :
    partners (search_rounds (static_c none 4) 3 (range 0 2) (build_rows 4 (range 0 4) four))
    ≡ 1 ∷ 0 ∷ 3 ∷ 2 ∷ []
unfolding search_rounds build_rows static_c input_stripes new_generator slot compute_cost
    parity_loop parity_step visit data_loop parity_dest inc8
rounds_run = refl

exchange_run : partners (dist_based_search (static_c none 4) 3 four) ≡ 2 ∷ 3 ∷ 0 ∷ 1 ∷ []
unfolding dist_based_search static_c input_stripes new_generator slot compute_cost parity_loop
    parity_step visit data_loop parity_dest inc8
exchange_run = refl

make_optimization_lem_example :
    (b h t : Generator) × (build_map four ≡ some b)
    × (search_rounds (static_c none 4) 3 (range 0 2) b ≡ some h)
    × (match_rest (static_c none 4) h ≡ some t)
    × (dist_based_search (static_c none 4) 3 four ≡ some (make_optimization (static_c none 4) t))
    × ((x : ℕ) → x < 4 → IsMatched eight 4 t.stripes x (stripe_at t.stripes x).matching_index)
    × ((x : ℕ)
        → x < 4
        → IsMatched eight 4
            (make_optimization (static_c none 4) t).stripes
            x
            (stripe_at (make_optimization (static_c none 4) t).stripes x).matching_index)
    × ((x : ℕ)
        → (stripe_at (make_optimization (static_c none 4) t).stripes x).cur_cost
          ≤ (stripe_at t.stripes x).cur_cost)
make_optimization_lem_example =
    make_optimization_lem eight 4 exchanged exchanged-IsRow refl (omega arith) refl (omega arith)
      (omega arith) (omega arith) 3 (omega arith)
