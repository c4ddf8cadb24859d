-- ===== src/Matching/Marks.antt =====
-- `MatchingGenerator::mark_matched` of src/matching_generator.cc, and the maps that it keeps.
pub mod Pairs
use stripe_merge.Common.{
  ℕ, ◌≡◌, Bool, true, false, not, List, [], ◌∷◌, ◌++◌, Option, none, some, ◌==◌, if◌then◌else◌,
  get_or, set,
}
use stripe_merge.Stripe.{Stripe, same_dist, cmp_parity}
use stripe_merge.Matching.{Generator, DistMap, stripe_at}

-- `find` of an unordered map.
unfoldable pub map_find : List ℕ → DistMap → Option (List ℕ)
map_find key [] = none
map_find key ((k, v) ∷ m) = if same_dist k key then some v else map_find key m

-- `m[key] = v`.
unfoldable pub map_put : List ℕ → List ℕ → DistMap → DistMap
map_put key v [] = (key, v) ∷ []
map_put key v ((k, w) ∷ m) = if same_dist k key then (k, v) ∷ m else (k, w) ∷ map_put key v m

-- The list of `key`, as the code extends it: found, or begun anew.
unfoldable pub push_front : List ℕ → ℕ → DistMap → DistMap
unfolding map_find map_put
push_front key i m = elim (map_find key m) [
  | none ↦ map_put key (i ∷ []) m
  | some v ↦ map_put key (i ∷ v) m
]

unfoldable pub push_back : List ℕ → ℕ → DistMap → DistMap
unfolding map_find map_put
push_back key i m = elim (map_find key m) [
  | none ↦ map_put key (i ∷ []) m
  | some v ↦ map_put key (v ++ i ∷ []) m
]

-- What `mark_matched` writes into one of the two stripes.
abbrev pub matched_with : ℕ → ℕ → Stripe → Stripe
matched_with j cost s = record s { matching_index = j; cur_cost = cost; selected = true }

unfoldable pub pair_up : ℕ → ℕ → ℕ → List Stripe → List Stripe
pair_up i j cost ss =
    let first = set ss i (matched_with j cost (stripe_at ss i)) in
    set first j (matched_with i cost (stripe_at first j))

-- The whole of `mark_matched(i, j, cost, flag)`.
unfoldable pub mark_matched : ℕ → ℕ → ℕ → Bool → Generator → Generator
unfolding pair_up push_front cmp_parity
mark_matched i j cost flag g =
    let ss = pair_up i j cost g.stripes in
    let pd = (stripe_at ss i).parity_dist in
    let zero_map = if cost == 0 then push_front pd i g.zero_map else g.zero_map in
    let candidates =
      if cost == 0
      then g.none_zero_candidate
      else if cmp_parity (stripe_at ss i) (stripe_at ss j)
      then g.none_zero_candidate ++ i ∷ []
      else g.none_zero_candidate in
    if flag
    then record g { stripes = ss; zero_map = zero_map; none_zero_candidate = candidates }
    else record g { stripes = ss }
