-- ===== src/Matching/Search/Total.antt =====
-- The loops of `dist_based_search` in src/matching_generator.cc, one within the other.
use stripe_merge.Common.{
  ℕ, ◌+◌, ◌-◌, ◌*◌, ◌^◌, ◌%◌, ◌≤◌, ◌<◌, ◌≡◌, refl, sym, ◌∙◌, subst, Bool, true, false, List, [],
  ◌∷◌, ◌++◌, some, arith, ltb, ◌==◌, set, range, AllBelow, AllBelow-count, count-range_above,
  Bool-cases, inl, inr,
}
use stripe_merge.Stripe.{Params, uint8_max}
use stripe_merge.Matching.{Generator, stripe_at, sizes}
use stripe_merge.Matching.Marks.{mark_matched}
use stripe_merge.Matching.Greedy.{basic_greedy, greedy_fill, greedy_pick}
use stripe_merge.Matching.Search.{erase_all, upside, build_map, build_rows}
use stripe_merge.Matching.Search.Combs.{Reaches, search_for_matching-total}
use stripe_merge.Matching.Search.Optimize.{make_optimization}
use stripe_merge.Matching.Search.Rounds.{
  find_partner, search_round, search_rounds, match_rest, is_empty, dist_based_search,
}

mark_matched-sizes :
    (i j cost : ℕ) (flag : Bool) (g : Generator) → sizes (mark_matched i j cost flag g) ≡ sizes g
unfolding mark_matched
mark_matched-sizes i j cost true g = refl
mark_matched-sizes i j cost false g = refl

build_rows-sizes : (up : ℕ) (is : List ℕ) (g : Generator) → sizes (build_rows up is g) ≡ sizes g
unfolding build_rows
build_rows-sizes up [] g = refl
build_rows-sizes up (i ∷ is) g = build_rows-sizes up is _

find_partner-total :
    (c all_one cost cur : ℕ) (g : Generator)
    → Reaches cost (sizes g)
    → all_one < 2 ^ 31
    → (r : Bool × Generator) × (find_partner c all_one cost cur g ≡ some r) × (sizes r.1 ≡ sizes g)
unfolding find_partner
find_partner-total c all_one cost cur g h l =
    elim (Bool-cases ((stripe_at g.stripes cur).cur_cost == cost)) [
      | inl same ↦
          elim (Bool-cases
            (stripe_at g.stripes (stripe_at g.stripes cur).matching_index).selected) [
              | inl taken ↦
                  let reset : Generator = record g {
                    stripes = set g.stripes cur (record (stripe_at g.stripes cur) {
                      matching_index = 2 ^ 32 - 1;
                      cur_cost = uint8_max;
                    });
                  } in
                  let (r, e, p) = search_for_matching-total c all_one cur cost reset h l in
                  (r, rw (find_partner, same, taken) e, p)
              | inr free ↦ ((true, g), rw (find_partner, same, free) refl, refl)
            ]
      | inr other ↦
          let (r, e, p) = search_for_matching-total c all_one cur cost g h l in
          (r, rw (find_partner, other) e, p)
    ]

search_round-total :
    (c all_one cost : ℕ) (rest it_to_del : List ℕ) (g : Generator)
    → Reaches cost (sizes g)
    → all_one < 2 ^ 31
    → (r : List ℕ × Generator) × (search_round c all_one cost rest it_to_del g ≡ some r)
      × (sizes r.1 ≡ sizes g)
unfolding search_round
search_round-total c all_one cost [] it_to_del g h l = ((it_to_del, g), refl, refl)
search_round-total c all_one cost (cur ∷ rest) it_to_del g h l =
    elim (Bool-cases (stripe_at g.stripes cur).selected) [
      | inl taken ↦
          let (r, e, p) = search_round-total c all_one cost rest (it_to_del ++ cur ∷ []) g h l in
          (r, rw (search_round, taken) e, p)
      | inr free ↦
          let (found, e, p) = find_partner-total c all_one cost cur g h l in
          elim (Bool-cases found.0) [
            | inl yes_found ↦
                let s = stripe_at found.1.stripes cur in
                let next = mark_matched cur s.matching_index s.cur_cost true found.1 in
                let q : sizes next ≡ sizes g =
                  mark_matched-sizes cur s.matching_index s.cur_cost true found.1 ∙ p in
                let low : Reaches cost (sizes next) = subst (Reaches cost) (sym q) h in
                let (r, e', p') =
                  search_round-total c all_one cost rest (it_to_del ++ cur ∷ []) next low l in
                (r, rw (search_round, free, e, yes_found) e', p' ∙ q)
            | inr not_found ↦
                let low : Reaches cost (sizes found.1) = subst (Reaches cost) (sym p) h in
                let (r, e', p') = search_round-total c all_one cost rest it_to_del found.1 low l in
                (r, rw (search_round, free, e, not_found) e', p' ∙ p)
          ]
    ]

-- The parameters for which all of the targets can be searched.
abbrev Reachable : List ℕ → Params × ℕ → Type 0
Reachable costs q = AllBelow q.0.rs_m costs × (q.0.rs_m < 31)

pub build_map_lem :
    (g : Generator)
    → g.rs_m < 31
    → build_map g ≡ some (build_rows (2 ^ g.rs_m % 256) (range 0 g.stripes_num) g)
unfolding build_map upside
build_map_lem g h =
    let fits : ltb g.rs_m 32 ≡ true = ground arith in rw (build_map, upside, fits) refl

range-AllBelow : (n : ℕ) → AllBelow n (range 0 n)
range-AllBelow n = AllBelow-count n (range 0 n) (λ x h. ground (arith, count-range_above x 0 n))

search_rounds-total :
    (c all_one : ℕ) (costs : List ℕ) (g : Generator)
    → Reachable costs (sizes g)
    → all_one < 2 ^ 31
    → (r : Generator) × (search_rounds c all_one costs g ≡ some r) × (sizes r ≡ sizes g)
unfolding search_rounds
search_rounds-total c all_one [] g h l = (g, refl, refl)
search_rounds-total c all_one (cost ∷ costs) g h l =
    elim (Bool-cases (is_empty g.remaining_stripes)) [
      | inl over ↦ (g, rw (search_rounds, over) refl, refl)
      | inr more ↦
          let (r, e, p) =
            search_round-total c all_one cost g.remaining_stripes [] g (h.0.0, h.1) l in
          let next : Generator = record r.1 {
            remaining_stripes = erase_all r.0 r.1.remaining_stripes;
          } in
          let (t, e', p') =
            search_rounds-total c all_one costs next (subst (Reachable costs) (sym p) (h.0.1, h.1))
              l in
          (t, rw (search_rounds, more, e) e', p' ∙ p)
    ]

greedy_result : ℕ → Generator → Generator × ℕ
unfolding greedy_fill greedy_pick
greedy_result c g =
    let filled = greedy_fill true c g in
    let s = greedy_pick true filled.levels g in
    (record g { cost_table = filled.table; stripes = s.stripes }, 0)

basic_greedy-total :
    (c : ℕ) (g : Generator)
    → 2 * g.rs_k + g.rs_m ≤ g.node_num
    → g.rs_n < 255
    → (r : Generator × ℕ) × (basic_greedy true c g ≡ some r)
unfolding basic_greedy greedy_result
basic_greedy-total c g h l =
    let enough : ltb g.node_num (2 * g.rs_k + g.rs_m) ≡ false = ground (arith, h) in
    let ends : ltb g.rs_n 255 ≡ true = ground (arith, l) in
    (greedy_result c g, rw (basic_greedy, enough, ends) refl)

match_rest-total :
    (c : ℕ) (g : Generator)
    → 2 * g.rs_k + g.rs_m ≤ g.node_num
    → g.rs_n < 255
    → (r : Generator) × (match_rest c g ≡ some r)
unfolding match_rest
match_rest-total c g h l = elim (Bool-cases (is_empty g.remaining_stripes)) [
  | inl over ↦ (g, rw (match_rest, over) refl)
  | inr more ↦ let (r, e) = basic_greedy-total c g h l in (r.0, rw (match_rest, more, e) refl)
]

pub dist_based_search_total :
    (c all_one : ℕ) (g : Generator)
    → 2 * g.rs_k + g.rs_m ≤ g.node_num
    → g.rs_m < 31
    → g.rs_n < 255
    → all_one < 2 ^ 8
    → (r : Generator) × (dist_based_search c all_one g ≡ some r)
unfolding dist_based_search
dist_based_search_total c all_one g h shift ends l =
    let enough : ltb g.node_num (2 * g.rs_k + g.rs_m) ≡ false = ground (arith, h) in
    let up : ℕ = 2 ^ g.rs_m % 256 in
    let b : Generator = build_rows up (range 0 g.stripes_num) g in
    let same : sizes b ≡ sizes g = build_rows-sizes up (range 0 g.stripes_num) g in
    let (s, e, p) =
      search_rounds-total c all_one (range 0 g.rs_m) b
        (subst (Reachable (range 0 g.rs_m)) (sym same) (range-AllBelow g.rs_m, shift))
        (omega arith) in
    let kept : sizes s ≡ sizes g = p ∙ same in
    let (t, e') =
      match_rest-total c s
        (subst (λ (q : Params × ℕ). 2 * q.0.rs_k + q.0.rs_m ≤ q.0.node_num) (sym kept) h)
        (subst (λ (q : Params × ℕ). q.1 < 255) (sym kept) ends) in
    (make_optimization c t, rw (enough, build_map_lem g shift, e, e') refl)
