-- ===== src/Matching/Search/Keys.antt =====
-- `search_for_matching` of src/matching_generator.cc keeps the invariant.
use mathlib.Core.Bool.{false≢true}
use stripe_merge.Common.{
  ℕ, zero, suc, ◌+◌, ◌-◌, ◌^◌, ◌<◌, ◌≡◌, ◌≢◌, sym, subst, Bool, false, List, [], none, arith, ltb,
  ◌==◌, length, All, Bool-cases, Option-cases, inl, inr,
}
use stripe_merge.Stripe.{Params, Stripe}
use stripe_merge.Matching.{Generator, stripe_at}
use stripe_merge.Matching.CostTable.{static_c}
use stripe_merge.Matching.Marks.{map_find, map_put}
use stripe_merge.Matching.Search.{
  single_search, partial_key, search_key, search_combs, search_same, search_for_matching, next_comb,
}
use stripe_merge.Matching.Search.Sound.{is_selected, cost_of}
use stripe_merge.Matching.Search.Maps.{map_find-All, map_put-AllMap}
use stripe_merge.Matching.Search.Partner.{Below}
use stripe_merge.Matching.Search.Invariant.{IsSearch}
use stripe_merge.Matching.Search.Finding.{IfSome, Outcome, maps-Outcome, single_search-Outcome}

module _ (p : Params) (old : List Stripe) (n : ℕ) (it : List ℕ) (small : n < 2 ^ 31)
    (index target : ℕ) (h : index < n) where
  abbrev c : ℕ
  c = static_c none n

  abbrev Result : Bool × Generator → Type 0
  Result r = Outcome p old n it index target r.0 r.1

  -- A stripe that still looks for a partner.
  pub record Looks (g : Generator) : Type 0 where
    pub search : IsSearch p old n it g
    pub free : is_selected g.stripes index ≡ false
    pub fresh : cost_of g.stripes index ≢ target

  nothing-Outcome : (g : Generator) → Looks g → Outcome p old n it index target false g
  nothing-Outcome g a = record {
    search = a.search;
    still = a.free;
    found = λ t. absurd (false≢true t);
    unmet = λ _. a.fresh;
  }

  single-Outcome :
      (g : Generator) (domain : List ℕ)
      → Looks g
      → All (Below n) domain
      → Outcome p old n it index target
          (single_search c index target domain g).0
          (single_search c index target domain g).2
        × All (Below n) (single_search c index target domain g).1
  single-Outcome g domain a d =
      subst
        (λ q.
          Outcome q old n it index target (single_search c index target domain g).0
            (single_search c index target domain g).2
          × All (Below n) (single_search c index target domain g).1)
        a.search.same_params
        (single_search-Outcome old n it small g
          (subst (λ q. IsSearch q old n it g) (sym a.search.same_params) a.search) index target
          domain h a.free a.fresh d)

  search_key-Outcome :
      (comb : ℕ) (g : Generator) → Looks g → Result (search_key c index target comb g)
  unfolding search_key
  search_key-Outcome comb g a =
      let key = partial_key comb (stripe_at g.stripes index).parity_dist in
      elim (Option-cases (map_find key g.partial_dist_map)) [
        | inl e ↦ rw (search_key, e) (nothing-Outcome g a)
        | inr (domain, e) ↦ elim (Bool-cases (ltb 1 (length domain))) [
          | inr few ↦ rw (search_key, e, few) (nothing-Outcome g a)
          | inl more ↦
              let found =
                map_find-All (Below n) key domain g.partial_dist_map a.search.partials e in
              let (o, left) = single-Outcome g domain a found in
              let r = single_search c index target domain g in
              rw (search_key, e, more)
                (maps-Outcome p old n it index target r.0 r.2 r.2.parity_map
                  (map_put key r.1 r.2.partial_dist_map) o.search.domains
                  (map_put-AllMap (Below n) key r.1 r.2.partial_dist_map left o.search.partials) o)
        ]
      ]

  search_combs-Outcome :
      (fuel all_one comb : ℕ) (g : Generator)
      → Looks g
      → IfSome Result (search_combs fuel c all_one index target comb g)
  unfolding search_combs
  search_combs-Outcome zero all_one comb g a = tt
  search_combs-Outcome (suc fuel) all_one comb g a = elim (Bool-cases (ltb comb all_one)) [
    | inr over ↦ rw (search_combs, over) (nothing-Outcome g a)
    | inl more ↦
        let o = search_key-Outcome comb g a in
        let r = search_key c index target comb g in
        elim (Bool-cases r.0) [
          | inl met ↦
              rw (search_combs, more, met)
                (subst (λ b. Outcome p old n it index target b r.1) met o)
          | inr unmet ↦
              rw (search_combs, more, unmet)
                (search_combs-Outcome fuel all_one (next_comb comb) r.1
                  (record { search = o.search; free = o.still; fresh = o.unmet unmet }))
        ]
  ]

  search_same-Outcome : (g : Generator) → target ≡ 0 → Looks g → Result (search_same c index g)
  unfolding search_same
  search_same-Outcome g z a =
      let pd = (stripe_at g.stripes index).parity_dist in
      elim (Option-cases (map_find pd g.parity_map)) [
        | inl e ↦
            rw (search_same, e)
              (maps-Outcome p old n it index target false g (map_put pd [] g.parity_map)
                g.partial_dist_map (map_put-AllMap (Below n) pd [] g.parity_map tt a.search.domains)
                a.search.partials (nothing-Outcome g a))
        | inr (domain, e) ↦ elim (Bool-cases (ltb 1 (length domain))) [
          | inr few ↦ rw (search_same, e, few) (nothing-Outcome g a)
          | inl more ↦
              let found = map_find-All (Below n) pd domain g.parity_map a.search.domains e in
              let (o, left) = single-Outcome g domain a found in
              let r = single_search c index target domain g in
              let renamed : Outcome p old n it index target r.0
                  (record r.2 { parity_map = map_put pd r.1 r.2.parity_map }) =
                maps-Outcome p old n it index target r.0 r.2 (map_put pd r.1 r.2.parity_map)
                  r.2.partial_dist_map
                  (map_put-AllMap (Below n) pd r.1 r.2.parity_map left o.search.domains)
                  o.search.partials o in
              rw (search_same, e, more)
                (subst
                  (λ t.
                    Outcome p old n it index target (single_search c index t domain g).0
                      (record (single_search c index t domain g).2 {
                        parity_map =
                            map_put pd (single_search c index t domain g).1
                              (single_search c index t domain g).2.parity_map;
                      }))
                  z renamed)
        ]
      ]

  pub search_for_matching-Outcome :
      (all_one : ℕ) (g : Generator)
      → Looks g
      → IfSome Result (search_for_matching c all_one index target g)
  unfolding search_for_matching
  search_for_matching-Outcome all_one g a = elim (Bool-cases (target == 0)) [
    | inl z ↦ rw (search_for_matching, z) (search_same-Outcome g (ground (arith, z)) a)
    | inr nz ↦ elim (Bool-cases (ltb (g.rs_m - target) 31)) [
      | inl fits ↦
          rw (search_for_matching, nz, fits)
            (search_combs-Outcome (all_one + 1) all_one (2 ^ (g.rs_m - target) - 1) g a)
      | inr wide ↦ rw (search_for_matching, nz, wide) tt
    ]
  ]
