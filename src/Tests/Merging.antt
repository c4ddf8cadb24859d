-- ===== src/Tests/Merging.antt =====
-- The cost of a merge, its plan, and StripeMerge-G, on the stripes of `Data`.
use stripe_merge.Common.{
  ℕ, ◌+◌, ◌*◌, ◌/◌, ◌≤◌, ◌<◌, ◌≡◌, ◌≢◌, ◌⊎◌, refl, [], ◌∷◌, arith, sum, length, All, none, some,
  true, false, replicate, inc8, dec8,
}
use stripe_merge.Stripe.{
  compute_cost, visit, data_loop, parity_step, parity_loop, parity_dest, uint8_max,
  generate_random_distributions,
}
use stripe_merge.Stripe.Cost.{mismatches}
use stripe_merge.Stripe.Deal.{IsRow, generate-IsRow}
use stripe_merge.Matching.{Generator, stripe_at, new_generator, input_stripes}
use stripe_merge.Matching.Scheme.{
  blocks_on, one_scheme, plan_merge, place_parity, place_parities, count_data, add_block,
  remain_nodes, available_nodes, spread, spread_node,
}
use stripe_merge.Matching.Scheme.Merge.{
  IsMove, Piled, compute_cost-excess, first_free, length-one_scheme, one_scheme-IsMove,
  one_scheme_piles,
}
use stripe_merge.Matching.Scheme.Excess.{excess}
use stripe_merge.Matching.CostTable.{get_cost, static_c, slot, token, token_i, token_j}
use stripe_merge.Matching.CostTable.Cached.{Cached, pair_cost, get_cost_lem, new_table-Cached}
use stripe_merge.Matching.CostTable.Slots.{slot-lt, slot-injective, token-fields}
use stripe_merge.Matching.Greedy.{basic_greedy}
use stripe_merge.Matching.Greedy.Result.{
  IsReady, IsMatched, MatchedWithin, Unmatched, basic_greedy_stable,
}
use stripe_merge.Matching.Input.{IsInput, input_stripes-IsReady}
use stripe_merge.Tests.Data.{
  five, rows, left, right, left-IsPlaced, right-IsPlaced, rows-IsRow, still, still-IsShuffle,
  two_stripes,
}

cost_runs : compute_cost five left right ≡ 3
unfolding compute_cost data_loop parity_loop parity_step parity_dest visit inc8
cost_runs = refl

compute_cost-excess_example :
    (compute_cost five left right
      ≡ excess (plan_merge five left right).hosts + mismatches (2 ∷ []) (3 ∷ []))
    × (sum (plan_merge five left right).hosts ≡ 2 * 2 + 1)
    × (compute_cost five left right ≤ 2 + mismatches (2 ∷ []) (3 ∷ []))
compute_cost-excess_example =
    compute_cost-excess five left right left-IsPlaced right-IsPlaced (omega arith)

generate-IsRow_example :
    All (IsRow five) (generate_random_distributions five still 4)
    × (length (generate_random_distributions five still 4) ≡ 4)
generate-IsRow_example = generate-IsRow five still 4 still-IsShuffle (omega arith) (omega arith)

length-one_scheme_example :
    length (one_scheme still five 0 left right).moves ≡ compute_cost five left right
length-one_scheme_example =
    length-one_scheme five left right left-IsPlaced right-IsPlaced (omega arith) still
      still-IsShuffle 0 (omega arith) (omega arith)

one_scheme-IsMove_example : All (IsMove 5) (one_scheme still five 0 left right).moves
one_scheme-IsMove_example =
    one_scheme-IsMove five left right left-IsPlaced right-IsPlaced (omega arith) still
      still-IsShuffle 0 (omega arith) (omega arith) (omega arith)

one_scheme_piles_example :
    (blocks_on (plan_merge five left right).hosts (first_free still five 0 left right) ≡ 0)
    × (blocks_on (one_scheme still five 0 left right).hosts (first_free still five 0 left right) + 1
        ≡ compute_cost five left right)
    × ((x : ℕ)
        → x ≢ first_free still five 0 left right
        → blocks_on (one_scheme still five 0 left right).hosts x
          ≡ blocks_on (plan_merge five left right).hosts x)
    × All (Piled (first_free still five 0 left right)) (one_scheme still five 0 left right).moves
one_scheme_piles_example =
    one_scheme_piles five left right left-IsPlaced right-IsPlaced (omega arith) still
      still-IsShuffle 0 (omega arith) (omega arith) (omega arith) (omega (arith, cost_runs))

-- Two blocks for the same free node, although another one is free.
piles_run : blocks_on (one_scheme still five 0 left right).hosts 3 ≡ 2
unfolding one_scheme plan_merge count_data place_parities place_parity add_block remain_nodes
    available_nodes spread spread_node inc8 dec8
piles_run = refl

get_cost_lem_example :
    ((get_cost (static_c none 2) five two_stripes.stripes (replicate 1 uint8_max) 1 0).0
      ≡ pair_cost five two_stripes.stripes 1 0)
    × Cached five two_stripes.stripes 2
        (get_cost (static_c none 2) five two_stripes.stripes (replicate 1 uint8_max) 1 0).1
get_cost_lem_example =
    get_cost_lem five two_stripes.stripes 2 (replicate 1 uint8_max) (omega arith)
      (new_table-Cached five two_stripes.stripes 2) 1 0 (λ e. omega arith) (omega arith)
      (omega arith)

slot-lt_example : slot 5 1 3 < 4 * 3 / 2
slot-lt_example = slot-lt 5 4 1 3 refl (omega arith) (omega arith) (omega arith)

slot-injective_example : ◌≡◌ {A = ℕ} 1 1 × ◌≡◌ {A = ℕ} 3 3
slot-injective_example =
    slot-injective 5 4 1 3 1 3 refl (omega arith) (omega arith) (omega arith) (omega arith)
      (omega arith) refl

two_stripes-IsReady : IsReady false two_stripes
two_stripes-IsReady =
    (input_stripes-IsReady five 2 rows rows-IsRow refl (omega arith) (omega arith) (omega arith)).0

input_stripes-IsReady_example :
    IsReady false (input_stripes rows (new_generator five 2))
    × ((x : ℕ) → Unmatched (input_stripes rows (new_generator five 2)).stripes x)
    × ((x : ℕ)
        → x < 2
        → IsInput five rows x (stripe_at (input_stripes rows (new_generator five 2)).stripes x))
input_stripes-IsReady_example =
    input_stripes-IsReady five 2 rows rows-IsRow refl (omega arith) (omega arith) (omega arith)

basic_greedy_stable_example :
    (g' : Generator) × (total : ℕ) × (basic_greedy false
        (static_c none two_stripes.stripes_num)
        two_stripes
      ≡ some (g', total))
    × ((x : ℕ)
        → Unmatched two_stripes.stripes x
        → (stripe_at g'.stripes x).selected ≡ true
        → IsMatched five two_stripes.stripes_num g'.stripes x
            (stripe_at g'.stripes x).matching_index)
    × ((i j : ℕ)
        → i < j
        → j < two_stripes.stripes_num
        → Unmatched two_stripes.stripes i
        → Unmatched two_stripes.stripes j
        → MatchedWithin g'.stripes (pair_cost five two_stripes.stripes i j) i
          ⊎ MatchedWithin g'.stripes (pair_cost five two_stripes.stripes i j) j)
unfolding input_stripes new_generator
basic_greedy_stable_example = basic_greedy_stable false two_stripes two_stripes-IsReady

token-fields_example : (token_i (token 3 70000) ≡ 3) × (token_j (token 3 70000) ≡ 70000)
token-fields_example = token-fields 3 70000 (omega arith) (omega arith)
