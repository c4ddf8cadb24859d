-- ===== src/Matching/Search/Running.antt =====
-- The rounds of `dist_based_search` in src/matching_generator.cc keep the invariant.
use mathlib.Core.Bool.{false≢true}
use stripe_merge.Common.{
  ℕ, ◌-◌, ◌^◌, ◌<◌, ◌≡◌, refl, sym, ap, ◌∙◌, subst, Bool, true, false, List, [], ◌∷◌, ◌++◌, none,
  arith, ◌==◌, set, All, AllBelow, Bool-cases, Option-cases, inl, inr, get_or-set_self,
}
use stripe_merge.Stripe.{Params, Stripe, blank, uint8_max}
use stripe_merge.Matching.{Generator, stripe_at}
use stripe_merge.Matching.CostTable.{static_c}
use stripe_merge.Matching.Marks.{mark_matched}
use stripe_merge.Matching.Search.{erase_all}
use stripe_merge.Matching.Search.Rounds.{find_partner, search_round, search_rounds, is_empty}
use stripe_merge.Matching.Search.Sound.{
  partner, is_selected, cost_of, set-Sound, set-Keeps, set-free,
}
use stripe_merge.Matching.Search.Partner.{Below, same-eq}
use stripe_merge.Matching.Search.Invariant.{
  IsSearch, searched-IsSearch, drop-IsSearch, erase-IsSearch,
}
use stripe_merge.Matching.Search.Finding.{IfSome, Outcome}
use stripe_merge.Matching.Search.Keys.{Looks, search_for_matching-Outcome}
use stripe_merge.Matching.Search.Marked.{mark_matched-IsSearch}

module _ (p : Params) (old : List Stripe) (n : ℕ) (small : n < 2 ^ 31) where
  abbrev c : ℕ
  c = static_c none n

  module _ (it : List ℕ) (all_one cost cur : ℕ) (low : cost < uint8_max) (h : cur < n) where
    abbrev Result : Bool × Generator → Type 0
    Result r = Outcome p old n it cur cost r.0 r.1

    -- The stripe forgets its guess.
    abbrev reset : Generator → Generator
    reset g = record g {
      stripes =
          set g.stripes cur (record (stripe_at g.stripes cur) {
            matching_index = 2 ^ 32 - 1;
            cur_cost = uint8_max;
          });
    }

    reset-Looks :
        (g : Generator)
        → IsSearch p old n it g
        → is_selected g.stripes cur ≡ false
        → Looks p old n it small cur cost h (reset g)
    reset-Looks g a f =
        let s : Stripe = record (stripe_at g.stripes cur) {
          matching_index = 2 ^ 32 - 1;
          cur_cost = uint8_max;
        } in
        let same : stripe_at (reset g).stripes cur ≡ s =
          get_or-set_self g.stripes cur s blank (omega (arith, a.sound.whole, h)) in
        record {
          search =
              searched-IsSearch p old n it g a (reset g).stripes g.cost_table g.parity_map
                g.partial_dist_map
                (set-Sound p old n g.stripes a.sound cur s h f f refl refl (λ ne. absurd (ne refl)))
                (set-Keeps p old n g.stripes a.sound cur s h f f)
                (set-free p old n g.stripes a.sound cur s h f f) a.cached a.domains a.partials;
          free = set-free p old n g.stripes a.sound cur s h f f cur ∙ f;
          fresh = λ e. omega (arith, low, sym (ap (λ (t : Stripe). t.cur_cost) same) ∙ e);
        }

    find_partner-Outcome :
        (g : Generator)
        → IsSearch p old n it g
        → is_selected g.stripes cur ≡ false
        → IfSome Result (find_partner c all_one cost cur g)
    unfolding find_partner
    find_partner-Outcome g a f = elim (Bool-cases (cost_of g.stripes cur == cost)) [
      | inr other ↦
          rw (find_partner, other)
            (search_for_matching-Outcome p old n it small cur cost h all_one g
              (record { search = a; free = f; fresh = λ e. ground (arith, other, e) }))
      | inl same ↦ elim (Bool-cases (is_selected g.stripes (partner g.stripes cur))) [
        | inl taken ↦
            rw (find_partner, same, taken)
              (search_for_matching-Outcome p old n it small cur cost h all_one (reset g)
                (reset-Looks g a f))
        | inr free ↦
            let priced : cost_of g.stripes cur ≡ cost = same-eq (cost_of g.stripes cur) cost same in
            let guess = a.sound.guess cur h f (λ e. omega (arith, low, e, priced)) in
            rw (find_partner, same, free)
              (record {
                search = a;
                still = f;
                found = λ _. record {
                  inside = guess.inside;
                  other = guess.other;
                  free = free;
                  cost = guess.cost;
                };
                unmet = λ e. absurd (false≢true (sym e));
              })
      ]
    ]

  search_round-IsSearch :
      (all_one cost : ℕ) (rest it : List ℕ) (g : Generator)
      → cost < uint8_max
      → All (Below n) rest
      → IsSearch p old n it g
      → IfSome
          (λ (r : List ℕ × Generator). IsSearch p old n r.0 r.1)
          (search_round c all_one cost rest it g)
  unfolding search_round
  search_round-IsSearch all_one cost [] it g low d a = a
  search_round-IsSearch all_one cost (cur ∷ rest) it g low d a =
      elim (Bool-cases (is_selected g.stripes cur)) [
        | inl taken ↦
            rw (search_round, taken)
              (search_round-IsSearch all_one cost rest (it ++ cur ∷ []) g low d.1
                (drop-IsSearch p old n it g a cur taken))
        | inr free ↦
            let o = find_partner-Outcome it all_one cost cur low d.0 g a free in
            elim (Option-cases (find_partner c all_one cost cur g)) [
              | inl e ↦ rw (search_round, free, e) tt
              | inr ((met, t), e) ↦
                  let b : Outcome p old n it cur cost met t =
                    subst (IfSome (λ (r : Bool × Generator). Outcome p old n it cur cost r.0 r.1)) e
                      o in
                  elim (Bool-cases met) [
                    | inl found ↦
                        let f = b.found found in
                        rw (search_round, free, e, found)
                          (search_round-IsSearch all_one cost rest (it ++ cur ∷ [])
                            (mark_matched cur (partner t.stripes cur) (cost_of t.stripes cur) true
                              t)
                            low d.1
                            (mark_matched-IsSearch p old n it cur (partner t.stripes cur)
                              (cost_of t.stripes cur) t b.search (λ z. f.other (sym z)) d.0 f.inside
                              b.still f.free f.cost))
                    | inr unmet ↦
                        rw (search_round, free, e, unmet)
                          (search_round-IsSearch all_one cost rest it t low d.1 b.search)
                  ]
            ]
      ]

  pub search_rounds-IsSearch :
      (all_one : ℕ) (costs : List ℕ) (g : Generator)
      → AllBelow uint8_max costs
      → IsSearch p old n [] g
      → IfSome (IsSearch p old n []) (search_rounds c all_one costs g)
  unfolding search_rounds
  search_rounds-IsSearch all_one [] g low a = a
  search_rounds-IsSearch all_one (cost ∷ costs) g low a =
      elim (Bool-cases (is_empty g.remaining_stripes)) [
        | inl over ↦ rw (search_rounds, over) a
        | inr more ↦
            let o = search_round-IsSearch all_one cost g.remaining_stripes [] g low.0 a.listed a in
            elim (Option-cases (search_round c all_one cost g.remaining_stripes [] g)) [
              | inl e ↦ rw (search_rounds, more, e) tt
              | inr ((it, t), e) ↦
                  let b : IsSearch p old n it t =
                    subst (IfSome (λ (r : List ℕ × Generator). IsSearch p old n r.0 r.1)) e o in
                  rw (search_rounds, more, e)
                    (search_rounds-IsSearch all_one costs
                      (record t { remaining_stripes = erase_all it t.remaining_stripes }) low.1
                      (erase-IsSearch p old n it t b))
            ]
      ]
