-- ===== src/Matching/Search/Finding.antt =====
-- `single_search` and `search_for_matching` of src/matching_generator.cc keep the invariant, and when they
-- succeed the stripe names a partner that is free.
use stripe_merge.Common.{
  ℕ, ◌-◌, ◌^◌, ◌<◌, ◌≡◌, ◌≢◌, refl, sym, ap, ◌∙◌, Bool, true, false, List, [], Option, none, some,
  arith, ltb, ◌==◌, set, All, Bool-cases, inl, inr, remove, get_or-set_self,
}
use stripe_merge.Stripe.{Params, Stripe, blank}
use stripe_merge.Matching.{Generator, stripe_at}
use stripe_merge.Matching.CostTable.{static_c}
use stripe_merge.Matching.CostTable.Cached.{pair_cost}
use stripe_merge.Matching.Search.{Scan, scan, single_search}
use stripe_merge.Matching.Search.Sound.{
  partner, is_selected, cost_of, set-Sound, set-Keeps, set-free,
}
use stripe_merge.Matching.Search.Maps.{AllMap, remove-All, erase_all-All, erase_self-All}
use stripe_merge.Matching.Search.Partner.{Below, same-eq, IsFree, Scanned, scan-Scanned}
use stripe_merge.Matching.Search.Invariant.{IsSearch, searched-IsSearch}

-- What holds of a result, if there is one.
abbrev pub IfSome {ℓ κ} : {A : Type ℓ} → (A → Type κ) → Option A → Type κ
IfSome P none = Unit
IfSome P (some a) = P a

module _ (p : Params) (old : List Stripe) (n : ℕ) (it : List ℕ) (index target : ℕ) where
  -- The stripe names a partner that is free, at the cost of the pair.
  pub record IsFound (ss : List Stripe) : Type 0 where
    pub inside : partner ss index < n
    pub other : partner ss index ≢ index
    pub free : is_selected ss (partner ss index) ≡ false
    pub cost : cost_of ss index ≡ pair_cost p old index (partner ss index)

  pub record Outcome (met : Bool) (g : Generator) : Type 0 where
    pub search : IsSearch p old n it g
    pub still : is_selected g.stripes index ≡ false
    pub found : met ≡ true → IsFound g.stripes
    pub unmet : met ≡ false → cost_of g.stripes index ≢ target

  -- Other maps change nothing.
  pub maps-Outcome :
      (met : Bool) (g : Generator) (domains partials : List (List ℕ × List ℕ))
      → AllMap (Below n) domains
      → AllMap (Below n) partials
      → Outcome met g
      → Outcome met (record g { parity_map = domains; partial_dist_map = partials })
  maps-Outcome met g domains partials d q o = record {
    search =
        searched-IsSearch p old n it g o.search g.stripes g.cost_table domains partials
          o.search.sound (λ x t. refl) (λ x. refl) o.search.cached d q;
    still = o.still;
    found = o.found;
    unmet = o.unmet;
  }

module _ (old : List Stripe) (n : ℕ) (it : List ℕ) (small : n < 2 ^ 31) (g : Generator)
    (a : IsSearch g.params old n it g) (index target : ℕ) (domain : List ℕ) (h : index < n)
    (free : is_selected g.stripes index ≡ false) (fresh : cost_of g.stripes index ≢ target)
    (d : All (Below n) domain) where
  abbrev cur : Stripe
  cur = stripe_at g.stripes index

  abbrev scanned : Scan
  scanned = scan (static_c none n) g.params g.stripes index target domain (record {
    self = none;
    min_cost = cur.cur_cost;
    min_cost_index = 2 ^ 32 - 1;
    cleanup_queue = [];
    table = g.cost_table;
  })

  scanned-Scanned : Scanned g.params old n small g.stripes a.sound index h scanned
  scanned-Scanned =
      scan-Scanned g.params old n small g.stripes a.sound index h target domain _ d
        (record { cached = a.cached; best = inl refl })

  abbrev guessed : Stripe
  guessed = record cur { cur_cost = scanned.min_cost; matching_index = scanned.min_cost_index }

  -- The stripe gets the partner that was found.
  better-Outcome :
      (scanned.min_cost < cost_of g.stripes index)
      → IsFree g.params old n small g.stripes a.sound index h scanned.min_cost_index
          scanned.min_cost
      → Outcome g.params old n it index target
          (scanned.min_cost == target)
          (record g { stripes = set g.stripes index guessed; cost_table = scanned.table })
  better-Outcome less f =
      let same : stripe_at (set g.stripes index guessed) index ≡ guessed =
        get_or-set_self g.stripes index guessed blank (omega (arith, a.sound.whole, h)) in
      record {
        search =
            searched-IsSearch g.params old n it g a (set g.stripes index guessed) scanned.table
              g.parity_map g.partial_dist_map
              (set-Sound g.params old n g.stripes a.sound index guessed h free free refl refl
                (λ _. record { inside = f.inside; other = f.other; cost = f.cost }))
              (set-Keeps g.params old n g.stripes a.sound index guessed h free free)
              (set-free g.params old n g.stripes a.sound index guessed h free free)
              scanned-Scanned.cached a.domains a.partials;
        still = set-free g.params old n g.stripes a.sound index guessed h free free index ∙ free;
        found = λ _.
            let to = ap (λ (s : Stripe). s.matching_index) same in
            record {
              inside = omega (arith, to, f.inside);
              other = λ e. f.other (sym to ∙ e);
              free =
                  ap (is_selected (set g.stripes index guessed)) to
                  ∙ set-free g.params old n g.stripes a.sound index guessed h free free
                      scanned.min_cost_index
                  ∙ f.free;
              cost =
                  ap (λ (s : Stripe). s.cur_cost) same
                  ∙ f.cost
                  ∙ ap (pair_cost g.params old index) (sym to);
            };
        unmet = λ e. ground (arith, e, ap (λ (s : Stripe). s.cur_cost) same);
      }

  worse-Outcome :
      (scanned.min_cost ≡ cost_of g.stripes index)
      → Outcome g.params old n it index target
          (scanned.min_cost == target)
          (record g { cost_table = scanned.table })
  worse-Outcome e = record {
    search =
        searched-IsSearch g.params old n it g a g.stripes scanned.table g.parity_map
          g.partial_dist_map a.sound (λ x t. refl) (λ x. refl) scanned-Scanned.cached a.domains
          a.partials;
    still = free;
    found = λ t. absurd (fresh (sym e ∙ same-eq scanned.min_cost target t));
    unmet = λ _. fresh;
  }

  abbrev searched : Bool × List ℕ × Generator
  searched = single_search (static_c none n) index target domain g

  pub single_search-Outcome :
      Outcome g.params old n it index target searched.0 searched.2 × All (Below n) searched.1
  unfolding single_search
  single_search-Outcome = elim scanned-Scanned.best [
    | inl e ↦
        let not_better : ltb scanned.min_cost cur.cur_cost ≡ false = ground (arith, e) in
        rw not_better (worse-Outcome e, erase_all-All (Below n) scanned.cleanup_queue domain d)
    | inr (less, f) ↦
        let is_better : ltb scanned.min_cost cur.cur_cost ≡ true = ground (arith, less) in
        rw is_better (
          better-Outcome less f,
          erase_all-All (Below n) scanned.cleanup_queue _
              (elim (Bool-cases (scanned.min_cost == target)) [
                | inl met ↦ rw met (
                    erase_self-All (Below n) scanned.self (remove scanned.min_cost_index domain)
                      (remove-All (Below n) scanned.min_cost_index domain d))
                | inr unmet ↦ rw unmet d
              ]),
        )
  ]
