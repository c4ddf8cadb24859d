-- ===== src/Matching/Search/Exchange.antt =====
-- `make_optimization` of src/matching_generator.cc keeps all stripes in pairs at their costs.
use stripe_merge.Common.{
  arith, false, ℕ, ◌^◌, ◌≤◌, ◌<◌, ◌≡◌, ◌≢◌, refl, sym, ap, ◌∙◌, subst, Bool, true, List, [], ◌∷◌,
  none, All, Bool-cases, Option-cases, inl, inr,
}
use stripe_merge.Stripe.{Params, Stripe}
use stripe_merge.Matching.{Generator, stripe_at}
use stripe_merge.Matching.CostTable.{static_c}
use stripe_merge.Matching.CostTable.Cached.{pair_cost}
use stripe_merge.Matching.Marks.{map_find, mark_matched}
use stripe_merge.Matching.Search.Optimize.{both_free, exchange, optimize, make_optimization}
use stripe_merge.Matching.Search.Sound.{partner, cost_of}
use stripe_merge.Matching.Search.Maps.{All-weaken, map_find-All}
use stripe_merge.Matching.Search.Invariant.{IsZero, AllCandidates}
use stripe_merge.Matching.Search.Perfect.{Done, Finished}
use stripe_merge.Matching.Search.Swap.{cost-mate, swap_apart}
use stripe_merge.Matching.Search.Swapped.{swap-Done}
use stripe_merge.Matching.Search.Tested.{IsTested, both_free_lem}

module _ (p : Params) (old : List Stripe) (n : ℕ) (small : n < 2 ^ 31) where
  abbrev c : ℕ
  c = static_c none n

  -- A candidate and its partner, and what comes after it.
  record IsCurrent (g : Generator) (cur_i cur_j : ℕ) (xs : List ℕ) : Type 0 where
    done : Done p old n g
    inside : cur_i < n
    mate : partner g.stripes cur_i ≡ cur_j
    costs : cost_of g.stripes cur_i ≢ 0
    apart : All (λ y. (y ≢ cur_i) × (y ≢ cur_j)) xs
    more : AllCandidates n g.stripes xs

  IsCurrent-Tested :
      (g : Generator) (cur_i cur_j a b d e : ℕ) (xs : List ℕ) (r : Bool × Generator)
      → IsCurrent g cur_i cur_j xs
      → IsTested p old n small g a b d e r
      → IsCurrent r.1 cur_i cur_j xs
  IsCurrent-Tested g cur_i cur_j a b d e xs r k t = record {
    done = t.done;
    inside = k.inside;
    mate = ap (λ ss. partner ss cur_i) t.stripes ∙ k.mate;
    costs = λ z. k.costs (sym (ap (λ ss. cost_of ss cur_i) t.stripes) ∙ z);
    apart = k.apart;
    more = subst (λ ss. AllCandidates n ss xs) (sym t.stripes) k.more;
  }

  -- What an exchange leaves: pairs, candidates, and no stripe that costs more.
  abbrev Cheaper : List ℕ → Generator → Generator → Type 0
  Cheaper xs g h =
      Done p old n h
      × AllCandidates n h.stripes xs
      × ((x : ℕ) → cost_of h.stripes x ≤ cost_of g.stripes x)

  Cheaper-from :
      (xs : List ℕ) (g t h : Generator) → t.stripes ≡ g.stripes → Cheaper xs t h → Cheaper xs g h
  Cheaper-from xs g t h e (d, more, less) =
      (d, more, λ x. subst (λ ss. cost_of h.stripes x ≤ cost_of ss x) e (less x))

  module _ (g : Generator) (cur_i cur_j i j : ℕ) (xs : List ℕ) (k : IsCurrent g cur_i cur_j xs)
      (z : IsZero n g.stripes i) (mate : partner g.stripes i ≡ j) where
    straight-Cheaper :
        pair_cost p old cur_i i ≡ 0
        → pair_cost p old cur_j j ≡ 0
        → Cheaper xs g (mark_matched cur_i i 0 false (mark_matched cur_j j 0 true g))
    straight-Cheaper z1 z2 =
        let (d, stay, less) =
          swap-Done p old n g cur_i i cur_j j k.done k.inside z.inside k.costs z.free k.mate mate z1
            z2 in
        (d, stay xs k.apart k.more, less)

    crossed-Cheaper :
        pair_cost p old cur_i j ≡ 0
        → pair_cost p old cur_j i ≡ 0
        → Cheaper xs g (mark_matched cur_j i 0 false (mark_matched cur_i j 0 true g))
    crossed-Cheaper z1 z2 =
        let f = k.done.perfect in
        let m = f.paired cur_i k.inside in
        let same =
          cost-mate p old n g.stripes f cur_i i k.inside z.inside k.costs z.free cur_i k.inside in
        let (d, stay, less) =
          swap-Done p old n g cur_j i cur_i j k.done (subst (λ x. x < n) k.mate m.inside) z.inside
            (λ e. k.costs (sym same ∙ ap (cost_of g.stripes) k.mate ∙ e)) z.free
            (ap (partner g.stripes) (sym k.mate) ∙ m.back) mate z2 z1 in
        (
          d,
          stay xs
              (All-weaken (λ y. (y ≢ cur_i) × (y ≢ cur_j)) (λ y. (y ≢ cur_j) × (y ≢ cur_i)) xs
                (λ y (e1, e2). (e2, e1)) k.apart)
              k.more,
          less,
        )

  exchange-Cheaper :
      (cur_i cur_j : ℕ) (xs zs : List ℕ) (g : Generator)
      → IsCurrent g cur_i cur_j xs
      → All (IsZero n g.stripes) zs
      → Cheaper xs g (exchange c cur_i cur_j zs g)
  unfolding exchange
  exchange-Cheaper cur_i cur_j xs [] g k z = (k.done, k.more, λ x. omega arith)
  exchange-Cheaper cur_i cur_j xs (i ∷ rest) g k (z, zs) =
      let j = partner g.stripes i in
      let (ne, ne_mate, mate_ne, mates_ne, mate_inside, j_inside) =
        swap_apart p old n g.stripes k.done.perfect cur_i i k.inside z.inside k.costs z.free in
      let cur_j_inside : cur_j < n = subst (λ x. x < n) k.mate mate_inside in
      let cur_j_i : cur_j ≢ i = subst (λ x. x ≢ i) k.mate mate_ne in
      let cur_j_j : cur_j ≢ j = subst (λ x. x ≢ j) k.mate mates_ne in
      let first = both_free c cur_i i cur_j j g in
      let t1 =
        both_free_lem p old n small g cur_i i cur_j j k.done ne cur_j_j k.inside z.inside
          cur_j_inside j_inside in
      let k1 = IsCurrent-Tested g cur_i cur_j cur_i i cur_j j xs first k t1 in
      let second = both_free c cur_i j cur_j i first.1 in
      let t2 =
        both_free_lem p old n small first.1 cur_i j cur_j i t1.done ne_mate cur_j_i k.inside
          j_inside cur_j_inside z.inside in
      let k2 = IsCurrent-Tested first.1 cur_i cur_j cur_i j cur_j i xs second k1 t2 in
      let same = t2.stripes ∙ t1.stripes in
      elim (Bool-cases first.0) [
        | inl straight ↦
            let (e1, e2) = t1.free straight in
            let zero = subst (λ ss. IsZero n ss i) (sym t1.stripes) z in
            rw (exchange, straight)
              (Cheaper-from xs g first.1
                (mark_matched cur_i i 0 false (mark_matched cur_j j 0 true first.1)) t1.stripes
                (straight-Cheaper first.1 cur_i cur_j i j xs k1 zero
                  (ap (λ ss. partner ss i) t1.stripes) e1 e2))
        | inr bent ↦ elim (Bool-cases second.0) [
          | inl crossed ↦
              let (e1, e2) = t2.free crossed in
              let zero = subst (λ ss. IsZero n ss i) (sym same) z in
              rw (exchange, bent, crossed)
                (Cheaper-from xs g second.1
                  (mark_matched cur_j i 0 false (mark_matched cur_i j 0 true second.1)) same
                  (crossed-Cheaper second.1 cur_i cur_j i j xs k2 zero
                    (ap (λ ss. partner ss i) same) e1 e2))
          | inr neither ↦
              rw (exchange, bent, neither)
                (Cheaper-from xs g second.1 (exchange c cur_i cur_j rest second.1) same (
                  exchange-Cheaper cur_i cur_j xs rest second.1 k2
                    (subst (λ ss. All (IsZero n ss) rest) (sym same) zs)))
        ]
      ]

  optimize-Cheaper :
      (xs : List ℕ) (g : Generator)
      → Done p old n g
      → AllCandidates n g.stripes xs
      → Cheaper [] g (optimize c xs g)
  unfolding optimize
  optimize-Cheaper [] g k more = (k, tt, λ x. omega arith)
  optimize-Cheaper (cur_i ∷ rest) g k (now, more) =
      let cur = stripe_at g.stripes cur_i in
      elim (Option-cases (map_find cur.parity_dist g.zero_map)) [
        | inl e ↦ rw (optimize, e) (optimize-Cheaper rest g k more)
        | inr (zs, e) ↦
            let h = exchange c cur_i cur.matching_index zs g in
            let current : IsCurrent g cur_i cur.matching_index rest = record {
              done = k;
              inside = now.inside;
              mate = refl;
              costs = now.costs;
              apart = now.apart;
              more = more;
            } in
            let (d, left, less) =
              exchange-Cheaper cur_i cur.matching_index rest zs g current
                (map_find-All (IsZero n g.stripes) cur.parity_dist zs g.zero_map k.zeros e) in
            let (d', none_left, less') = optimize-Cheaper rest h d left in
            rw (optimize, e) (d', none_left, λ x. omega (arith, less x, less' x))
      ]

  -- The exchanges keep the pairs, and make no stripe dearer.
  pub make_optimization-Done :
      (g : Generator)
      → Finished p old n g
      → Done p old n (make_optimization c g)
        × ((x : ℕ) → cost_of (make_optimization c g).stripes x ≤ cost_of g.stripes x)
  unfolding make_optimization
  make_optimization-Done g (k, candidates) =
      let (d, _, less) = optimize-Cheaper g.none_zero_candidate g k candidates in (d, less)
