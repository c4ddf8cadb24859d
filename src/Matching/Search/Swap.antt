-- ===== src/Matching/Search/Swap.antt =====
-- Two pairs of stripes that change partners, one that costs something and one that costs nothing.
use stripe_merge.Common.{
  ℕ, ◌<◌, ◌≤◌, ◌≡◌, ◌≢◌, sym, ap, ◌∙◌, subst, true, List, [], ◌∷◌, arith, length, All, ℕ_discrete,
}
use stripe_merge.Stripe.{Params, Stripe}
use stripe_merge.Matching.{stripe_at}
use stripe_merge.Matching.CostTable.Cached.{pair_cost}
use stripe_merge.Matching.Greedy.Select.{pair_cost_comm}
use stripe_merge.Matching.Marks.{matched_with, pair_up}
use stripe_merge.Matching.Marks.Pairs.{length-pair_up, pair_up_fst, pair_up_snd, pair_up_ne}
use stripe_merge.Matching.Search.Blocks.{pair_up-SameBlocks}
use stripe_merge.Matching.Search.Sound.{partner, is_selected, cost_of, IsPair}
use stripe_merge.Matching.Search.Invariant.{IsZero, AllCandidates}
use stripe_merge.Matching.Search.Perfect.{IsPerfect}

-- What holds of four numbers and of every other one holds of all.
of_four {ℓ} :
    (a b c d : ℕ) (P : ℕ → Type ℓ)
    → P a
    → P b
    → P c
    → P d
    → ((x : ℕ) → x ≢ a → x ≢ b → x ≢ c → x ≢ d → P x)
    → (x : ℕ) → P x
of_four a b c d P pa pb pc pd rest x = elim (ℕ_discrete x a) [
  | yes e ↦ subst P (sym e) pa
  | no na ↦ elim (ℕ_discrete x b) [
    | yes e ↦ subst P (sym e) pb
    | no nb ↦ elim (ℕ_discrete x c) [
      | yes e ↦ subst P (sym e) pc
      | no nc ↦ elim (ℕ_discrete x d) [ yes e ↦ subst P (sym e) pd | no nd ↦ rest x na nb nc nd ]
    ]
  ]
]

-- Two stripes that are marked with each other at no cost.
marked-IsPair :
    (p : Params) (old : List Stripe) (n : ℕ) (ts : List Stripe) (x y : ℕ) (s t : Stripe)
    → stripe_at ts x ≡ matched_with y 0 s
    → stripe_at ts y ≡ matched_with x 0 t
    → y < n
    → y ≢ x
    → pair_cost p old x y ≡ 0
    → IsPair p old n ts x
marked-IsPair p old n ts x y s t ex ey h ne z =
    let mate = ap (λ (s : Stripe). s.matching_index) ex in
    record {
      inside = omega (arith, mate, h);
      other = λ e. ne (sym mate ∙ e);
      taken = ap (is_selected ts) mate ∙ ap (λ (s : Stripe). s.selected) ey;
      back = ap (partner ts) mate ∙ ap (λ (s : Stripe). s.matching_index) ey;
      cost = ap (λ (s : Stripe). s.cur_cost) ex ∙ sym z ∙ ap (pair_cost p old x) (sym mate);
    }

module _ (p : Params) (old : List Stripe) (n : ℕ) (ss : List Stripe) (f : IsPerfect p old n ss)
    (a b : ℕ) (ha : a < n) (hb : b < n) (ca : cost_of ss a ≢ 0) (cb : cost_of ss b ≡ 0) where
  abbrev c : ℕ
  c = partner ss a

  abbrev d : ℕ
  d = partner ss b

  abbrev ma : IsPair p old n ss a
  ma = f.paired a ha

  abbrev mb : IsPair p old n ss b
  mb = f.paired b hb

  pub cost-mate : (x : ℕ) → x < n → cost_of ss (partner ss x) ≡ cost_of ss x
  cost-mate x h =
      let m = f.paired x h in
      (f.paired (partner ss x) m.inside).cost
      ∙ ap (pair_cost p old (partner ss x)) m.back
      ∙ pair_cost_comm p old (partner ss x) x
      ∙ sym m.cost

  -- The four stripes differ.
  pub swap_apart : (a ≢ b) × (a ≢ d) × (c ≢ b) × (c ≢ d) × (c < n) × (d < n)
  swap_apart = (
    λ e. ca (ap (cost_of ss) e ∙ cb),
    λ e. ca (ap (cost_of ss) e ∙ cost-mate b hb ∙ cb),
    λ e. ca (sym (cost-mate a ha) ∙ ap (cost_of ss) e ∙ cb),
    λ e. ca (sym (cost-mate a ha) ∙ ap (cost_of ss) e ∙ cost-mate b hb ∙ cb),
    ma.inside,
    mb.inside,
  )

  module _ (z1 : pair_cost p old a b ≡ 0) (z2 : pair_cost p old c d ≡ 0) where
    abbrev first : List Stripe
    first = pair_up c d 0 ss

    abbrev pub swapped : List Stripe
    swapped = pair_up a b 0 first

    ab : a ≢ b
    ab = swap_apart.0

    ad : a ≢ d
    ad = swap_apart.1

    cb' : c ≢ b
    cb' = swap_apart.2

    cd : c ≢ d
    cd = swap_apart.3

    size : length first ≡ n
    size = length-pair_up c d 0 ss ∙ f.whole

    at_a : stripe_at swapped a ≡ matched_with b 0 (stripe_at first a)
    at_a = pair_up_fst a b 0 first ab (omega (arith, size, ha))

    at_b : stripe_at swapped b ≡ matched_with a 0 (stripe_at first b)
    at_b = pair_up_snd a b 0 first ab (omega (arith, size, hb))

    at_c : stripe_at swapped c ≡ matched_with d 0 (stripe_at ss c)
    at_c =
        pair_up_ne a b 0 first c ma.other cb'
        ∙ pair_up_fst c d 0 ss cd (omega (arith, f.whole, ma.inside))

    at_d : stripe_at swapped d ≡ matched_with c 0 (stripe_at ss d)
    at_d =
        pair_up_ne a b 0 first d (λ e. ad (sym e)) mb.other
        ∙ pair_up_snd c d 0 ss cd (omega (arith, f.whole, mb.inside))

    stays : (x : ℕ) → x ≢ a → x ≢ b → x ≢ c → x ≢ d → stripe_at swapped x ≡ stripe_at ss x
    stays x na nb nc nd = pair_up_ne a b 0 first x na nb ∙ pair_up_ne c d 0 ss x nc nd

    -- The partner of a stripe that stays is none of the four.
    stays-IsPair : (x : ℕ) → x < n → x ≢ a → x ≢ b → x ≢ c → x ≢ d → IsPair p old n swapped x
    stays-IsPair x h na nb nc nd =
        let m = f.paired x h in
        let y = partner ss x in
        let mine = stays x na nb nc nd in
        let mate = ap (λ (s : Stripe). s.matching_index) mine in
        let theirs : stripe_at swapped y ≡ stripe_at ss y =
          stays y (λ e. nc (sym m.back ∙ ap (partner ss) e))
            (λ e. nd (sym m.back ∙ ap (partner ss) e))
            (λ e. na (sym m.back ∙ ap (partner ss) e ∙ ma.back))
            (λ e. nb (sym m.back ∙ ap (partner ss) e ∙ mb.back)) in
        record {
          inside = omega (arith, mate, m.inside);
          other = λ e. m.other (sym mate ∙ e);
          taken = ap (is_selected swapped) mate ∙ ap (λ (s : Stripe). s.selected) theirs ∙ m.taken;
          back = ap (partner swapped) mate ∙ ap (λ (s : Stripe). s.matching_index) theirs ∙ m.back;
          cost = ap (λ (s : Stripe). s.cur_cost) mine ∙ m.cost ∙ ap (pair_cost p old x) (sym mate);
        }

    pub swapped-IsPerfect : IsPerfect p old n swapped
    swapped-IsPerfect = record {
      whole = length-pair_up a b 0 first ∙ size;
      blocks =
          pair_up-SameBlocks old first a b 0 (omega (arith, size, ha)) (omega (arith, size, hb)) (
            pair_up-SameBlocks old ss c d 0 (omega (arith, f.whole, ma.inside))
              (omega (arith, f.whole, mb.inside)) f.blocks);
      paired =
          of_four a b c d (λ x. x < n → IsPair p old n swapped x)
            (λ _.
              marked-IsPair p old n swapped a b (stripe_at first a) (stripe_at first b) at_a at_b hb
                (λ e. ab (sym e)) z1)
            (λ _.
              marked-IsPair p old n swapped b a (stripe_at first b) (stripe_at first a) at_b at_a ha
                ab (pair_cost_comm p old b a ∙ z1))
            (λ _.
              marked-IsPair p old n swapped c d (stripe_at ss c) (stripe_at ss d) at_c at_d
                mb.inside (λ e. cd (sym e)) z2)
            (λ _.
              marked-IsPair p old n swapped d c (stripe_at ss d) (stripe_at ss c) at_d at_c
                ma.inside cd (pair_cost_comm p old d c ∙ z2))
            (λ x na nb nc nd h. stays-IsPair x h na nb nc nd);
      all =
          of_four a b c d (λ x. x < n → is_selected swapped x ≡ true)
            (λ _. ap (λ (s : Stripe). s.selected) at_a) (λ _. ap (λ (s : Stripe). s.selected) at_b)
            (λ _. ap (λ (s : Stripe). s.selected) at_c) (λ _. ap (λ (s : Stripe). s.selected) at_d)
            (λ x na nb nc nd h. ap (λ (s : Stripe). s.selected) (stays x na nb nc nd) ∙ f.all x h);
    }

    pub swapped-IsZero : (x : ℕ) → IsZero n ss x → IsZero n swapped x
    swapped-IsZero x z = record {
      inside = z.inside;
      taken = swapped-IsPerfect.all x z.inside;
      free =
          of_four a b c d (λ x. cost_of ss x ≡ 0 → cost_of swapped x ≡ 0)
            (λ _. ap (λ (s : Stripe). s.cur_cost) at_a) (λ _. ap (λ (s : Stripe). s.cur_cost) at_b)
            (λ _. ap (λ (s : Stripe). s.cur_cost) at_c) (λ _. ap (λ (s : Stripe). s.cur_cost) at_d)
            (λ x na nb nc nd e. ap (λ (s : Stripe). s.cur_cost) (stays x na nb nc nd) ∙ e) x z.free;
    }

    -- No stripe costs more than before.
    pub swapped-cheaper : (x : ℕ) → cost_of swapped x ≤ cost_of ss x
    swapped-cheaper =
        of_four a b c d (λ x. cost_of swapped x ≤ cost_of ss x)
          (omega (arith, ap (λ (s : Stripe). s.cur_cost) at_a))
          (omega (arith, ap (λ (s : Stripe). s.cur_cost) at_b))
          (omega (arith, ap (λ (s : Stripe). s.cur_cost) at_c))
          (omega (arith, ap (λ (s : Stripe). s.cur_cost) at_d))
          (λ x na nb nc nd. omega (arith, ap (λ (s : Stripe). s.cur_cost) (stays x na nb nc nd)))

    pub third-IsZero : IsZero n swapped c
    third-IsZero = record {
      inside = ma.inside;
      taken = swapped-IsPerfect.all c ma.inside;
      free = ap (λ (s : Stripe). s.cur_cost) at_c;
    }

    -- The candidates that are not of the pair stay.
    pub swapped-AllCandidates :
        (xs : List ℕ)
        → All (λ y. (y ≢ a) × (y ≢ c)) xs
        → AllCandidates n ss xs
        → AllCandidates n swapped xs
    swapped-AllCandidates [] h k = tt
    swapped-AllCandidates (x ∷ xs) h (k, more) =
        let same =
          stays x h.0.0 (λ e. k.costs (ap (cost_of ss) e ∙ cb)) h.0.1
            (λ e. k.costs (ap (cost_of ss) e ∙ cost-mate b hb ∙ cb)) in
        (
          record {
            inside = k.inside;
            taken = swapped-IsPerfect.all x k.inside;
            costs = λ e. k.costs (sym (ap (λ (s : Stripe). s.cur_cost) same) ∙ e);
            apart =
                subst (λ y. All (λ z. (z ≢ x) × (z ≢ y)) xs)
                  (sym (ap (λ (s : Stripe). s.matching_index) same)) k.apart;
          },
          swapped-AllCandidates xs h.1 more,
        )
