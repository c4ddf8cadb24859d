-- ===== src/Matching/Search/Optimize.antt =====
-- `make_optimization` of src/matching_generator.cc: two pairs of stripes change partners where both new
-- pairs cost nothing.
use stripe_merge.Common.{ℕ, Bool, true, false, List, [], ◌∷◌, none, some, ◌==◌, if◌then◌else◌}
use stripe_merge.Matching.{Generator, stripe_at}
use stripe_merge.Matching.CostTable.{get_cost}
use stripe_merge.Matching.Marks.{map_find, mark_matched}

-- `get_cost(i, j)` on the generator.
unfoldable pub cost_in : ℕ → ℕ → ℕ → Generator → ℕ × Generator
unfolding get_cost
cost_in c i j g =
    let (cost, table) = get_cost c g.params g.stripes g.cost_table i j in
    (cost, record g { cost_table = table })

-- `!get_cost(a, b) && !get_cost(d, e)`: the second call is made only if the first returns 0.
unfoldable pub both_free : ℕ → ℕ → ℕ → ℕ → ℕ → Generator → Bool × Generator
unfolding cost_in
both_free c a b d e g =
    let (first, g1) = cost_in c a b g in
    let (second, g2) = cost_in c d e g1 in if first == 0 then (second == 0, g2) else (false, g1)

-- The inner loop, over the pairs of cost 0 that begin at `i`; it breaks after an exchange.
unfoldable pub exchange : ℕ → ℕ → ℕ → List ℕ → Generator → Generator
unfolding both_free mark_matched
exchange c cur_i cur_j [] g = g
exchange c cur_i cur_j (i ∷ rest) g =
    let j = (stripe_at g.stripes i).matching_index in
    let (straight, g1) = both_free c cur_i i cur_j j g in
    elim straight [
      | true ↦ mark_matched cur_i i 0 false (mark_matched cur_j j 0 true g1)
      | false ↦
          let (crossed, g2) = both_free c cur_i j cur_j i g1 in
          elim crossed [
            | true ↦ mark_matched cur_j i 0 false (mark_matched cur_i j 0 true g2)
            | false ↦ exchange c cur_i cur_j rest g2
          ]
    ]

-- The outer loop, over `none_zero_candidate`.
unfoldable pub optimize : ℕ → List ℕ → Generator → Generator
unfolding exchange map_find
optimize c [] g = g
optimize c (cur_i ∷ rest) g =
    let cur = stripe_at g.stripes cur_i in
    optimize c rest (elim (map_find cur.parity_dist g.zero_map) [
      | none ↦ g
      | some zeros ↦ exchange c cur_i cur.matching_index zeros g
    ])

unfoldable pub make_optimization : ℕ → Generator → Generator
unfolding optimize
make_optimization c g = optimize c g.none_zero_candidate g
