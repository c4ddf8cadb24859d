-- ===== src/Matching/Search/Rounds.antt =====
-- `dist_based_search` of src/matching_generator.cc: a round for each cost, then the greedy matching of what
-- is left, then the exchanges.
use stripe_merge.Common.{
  ℕ, ◌+◌, ◌-◌, ◌*◌, ◌^◌, Bool, true, false, not, List, [], ◌∷◌, ◌++◌, Option, none, some, ◌==◌, ltb,
  if◌then◌else◌, set, range,
}
use stripe_merge.Stripe.{uint8_max}
use stripe_merge.Matching.{Generator, stripe_at}
use stripe_merge.Matching.Marks.{mark_matched}
use stripe_merge.Matching.Greedy.{basic_greedy}
use stripe_merge.Matching.Search.{search_for_matching, erase_all, build_map}
use stripe_merge.Matching.Search.Optimize.{make_optimization}

-- The search for a partner of `cur` at `cost`, and whether it succeeds: a partner that an earlier round
-- found at this cost serves if it is free still.
unfoldable pub find_partner : ℕ → ℕ → ℕ → ℕ → Generator → Option (Bool × Generator)
unfolding search_for_matching
find_partner c all_one cost cur g =
    let s = stripe_at g.stripes cur in
    if s.cur_cost == cost
    then if not (stripe_at g.stripes s.matching_index).selected
      then some (true, g)
      else search_for_matching c all_one cur cost (record g {
        stripes =
            set g.stripes cur (record s { matching_index = 2 ^ 32 - 1; cur_cost = uint8_max });
      })
    else search_for_matching c all_one cur cost g

-- The loop over the remaining stripes, with `it_to_del`.
unfoldable pub search_round : ℕ → ℕ → ℕ → List ℕ → List ℕ → Generator → Option (List ℕ × Generator)
unfolding find_partner mark_matched
search_round c all_one cost [] it_to_del g = some (it_to_del, g)
search_round c all_one cost (cur ∷ rest) it_to_del g = elim (stripe_at g.stripes cur).selected [
  | true ↦ search_round c all_one cost rest (it_to_del ++ cur ∷ []) g
  | false ↦ elim (find_partner c all_one cost cur g) [
    | none ↦ none
    | some (succeed, h) ↦
        let s = stripe_at h.stripes cur in
        elim succeed [
          | true ↦
              search_round c all_one cost rest (it_to_del ++ cur ∷ [])
                (mark_matched cur s.matching_index s.cur_cost true h)
          | false ↦ search_round c all_one cost rest it_to_del h
        ]
  ]
]

abbrev pub is_empty : List ℕ → Bool
is_empty [] = true
is_empty (x ∷ xs) = false

-- The loop over the costs of the list, while stripes remain.
unfoldable pub search_rounds : ℕ → ℕ → List ℕ → Generator → Option Generator
unfolding search_round erase_all
search_rounds c all_one [] g = some g
search_rounds c all_one (cost ∷ costs) g = elim (is_empty g.remaining_stripes) [
  | true ↦ some g
  | false ↦ elim (search_round c all_one cost g.remaining_stripes [] g) [
    | none ↦ none
    | some (it_to_del, h) ↦
        search_rounds c all_one costs
          (record h { remaining_stripes = erase_all it_to_del h.remaining_stripes })
  ]
]

-- The greedy matching of the stripes that remain.
unfoldable pub match_rest : ℕ → Generator → Option Generator
unfolding basic_greedy
match_rest c g = elim (is_empty g.remaining_stripes) [
  | true ↦ some g
  | false ↦ elim (basic_greedy true c g) [ none ↦ none | some (h, _) ↦ some h ]
]

-- `dist_based_search`; `none` is `exit(-1)`, a shift that is not defined, a loop of `basic_greedy` without an
-- end, or fuel of `search_combs` that runs out.
unfoldable pub dist_based_search : ℕ → ℕ → Generator → Option Generator
unfolding build_map search_rounds match_rest make_optimization
dist_based_search c all_one g =
    if ltb g.node_num (2 * g.rs_k + g.rs_m) then none else elim (build_map g) [
      | none ↦ none
      | some b ↦ elim (search_rounds c all_one (range 0 g.rs_m) b) [
        | none ↦ none
        | some h ↦ elim (match_rest c h) [ none ↦ none | some t ↦ some (make_optimization c t) ]
      ]
    ]
