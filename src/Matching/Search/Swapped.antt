-- ===== src/Matching/Search/Swapped.antt =====
-- An exchange in `make_optimization` of src/matching_generator.cc: two calls of `mark_matched`.
use stripe_merge.Common.{ℕ, ◌<◌, ◌≤◌, ◌≡◌, ◌≢◌, sym, ap₂, ◌∙◌, subst, true, false, List, All}
use stripe_merge.Stripe.{Params, Stripe}
use stripe_merge.Matching.{Generator, stripe_at}
use stripe_merge.Matching.CostTable.Cached.{pair_cost}
use stripe_merge.Matching.Marks.{pair_up, push_front, mark_matched}
use stripe_merge.Matching.Search.Sound.{partner, cost_of}
use stripe_merge.Matching.Search.Maps.{AllMap, AllMap-weaken, push_front-AllMap}
use stripe_merge.Matching.Search.Invariant.{IsZero, AllCandidates}
use stripe_merge.Matching.Search.Perfect.{IsPerfect, Done}
use stripe_merge.Matching.Search.Swap.{
  swapped, swapped-IsPerfect, swapped-IsZero, swapped-cheaper, third-IsZero, swapped-AllCandidates,
}

-- The two calls of `mark_matched` of an exchange.
pub swap-Done :
    (p : Params) (old : List Stripe) (n : ℕ) (g : Generator) (a b c d : ℕ)
    → Done p old n g
    → a < n
    → b < n
    → cost_of g.stripes a ≢ 0
    → cost_of g.stripes b ≡ 0
    → partner g.stripes a ≡ c
    → partner g.stripes b ≡ d
    → pair_cost p old a b ≡ 0
    → pair_cost p old c d ≡ 0
    → let h = mark_matched a b 0 false (mark_matched c d 0 true g) in
      Done p old n h
      × ((xs : List ℕ)
          → All (λ y. (y ≢ a) × (y ≢ c)) xs
          → AllCandidates n g.stripes xs
          → AllCandidates n h.stripes xs)
      × ((x : ℕ) → cost_of h.stripes x ≤ cost_of g.stripes x)
unfolding mark_matched
swap-Done p old n g a b c d k ha hb ca cb ec ed z1 z2 =
    let mates : pair_cost p old (partner g.stripes a) (partner g.stripes b) ≡ 0 =
      ap₂ (pair_cost p old) ec ed ∙ z2 in
    let ss = swapped p old n g.stripes k.perfect a b ha hb ca cb z1 mates in
    let e : pair_up a b 0 (pair_up c d 0 g.stripes) ≡ ss =
      ap₂ (λ c d. pair_up a b 0 (pair_up c d 0 g.stripes)) (sym ec) (sym ed) in
    let zero : IsZero n ss c =
      subst (IsZero n ss) ec (third-IsZero p old n g.stripes k.perfect a b ha hb ca cb z1 mates) in
    (
      record {
        same_params = k.same_params;
        num = k.num;
        size = k.size;
        fresh = k.fresh;
        perfect =
            subst (IsPerfect p old n) (sym e)
              (swapped-IsPerfect p old n g.stripes k.perfect a b ha hb ca cb z1 mates);
        cached = k.cached;
        zeros =
            subst
              (λ ts.
                AllMap (IsZero n ts)
                  (push_front (stripe_at (pair_up c d 0 g.stripes) c).parity_dist c g.zero_map))
              (sym e)
              (push_front-AllMap (IsZero n ss) (stripe_at (pair_up c d 0 g.stripes) c).parity_dist c
                g.zero_map zero
                (AllMap-weaken (IsZero n g.stripes) (IsZero n ss) g.zero_map
                  (swapped-IsZero p old n g.stripes k.perfect a b ha hb ca cb z1 mates) k.zeros));
      },
      λ xs apart more.
          subst (λ ts. AllCandidates n ts xs) (sym e)
            (swapped-AllCandidates p old n g.stripes k.perfect a b ha hb ca cb z1 mates xs
              (subst (λ z. All (λ y. (y ≢ a) × (y ≢ z)) xs) (sym ec) apart) more),
      λ x.
          subst (λ ts. cost_of ts x ≤ cost_of g.stripes x) (sym e)
            (swapped-cheaper p old n g.stripes k.perfect a b ha hb ca cb z1 mates x),
    )
