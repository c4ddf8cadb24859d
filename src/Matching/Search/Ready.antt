-- ===== src/Matching/Search/Ready.antt =====
-- The stripes that the rounds of `dist_based_search` in src/matching_generator.cc leave are ready for `basic_greedy`.
use mathlib.Core.Bool.{false≢true}
use stripe_merge.Common.{
  zero, suc, ℕ, ◌+◌, ◌*◌, ◌^◌, ◌≤◌, ◌<◌, ◌≡◌, refl, sym, ◌∙◌, subst, Bool, true, false, not, ◌&&◌,
  List, [], ◌∷◌, arith, length, get_or, dec_lt,
}
use stripe_merge.Stripe.{Stripe}
use stripe_merge.Matching.{Generator}
use stripe_merge.Matching.CostTable.Cached.{pair_cost, Cached}
use stripe_merge.Matching.Greedy.Stable.{eligible, length-eligible, get_or-eligible}
use stripe_merge.Matching.Greedy.Result.{IsReady}
use stripe_merge.Matching.Search.Blocks.{pair_cost-SameBlocks, Cached-SameBlocks, free_count}
use stripe_merge.Matching.Search.Sound.{is_selected}
use stripe_merge.Matching.Search.Maps.{count_true-le_length}
use stripe_merge.Matching.Search.Invariant.{IsSearch}

pub beyond : (bs : List Bool) (x : ℕ) → length bs ≤ x → get_or bs x false ≡ false
beyond [] x h = refl
beyond (b ∷ bs) zero h = absurd (omega arith)
beyond (b ∷ bs) (suc x) h = beyond bs x (omega arith)

module _ (old : List Stripe) (n : ℕ) (small : n < 2 ^ 31) (g : Generator)
    (a : IsSearch g.params old n [] g) (hosts : 2 * g.rs_k + g.rs_m ≤ g.node_num)
    (levels : g.rs_k + g.rs_m < 255)
    (costs : (i j : ℕ) → i < j → j < n → pair_cost g.params old i j ≤ g.rs_k + g.rs_m) where
  -- Every stripe that is free is still in the list.
  free-le : free_count g.stripes ≤ length g.remaining_stripes
  free-le = count_true-le_length (eligible true g.stripes) 0 g.remaining_stripes (λ x t.
      let e : 0 + x ≡ x = omega arith in
      let inside : x < length g.stripes = within x t in
      let f : is_selected g.stripes x ≡ false =
        not-free x (sym (get_or-eligible true g.stripes x inside) ∙ t) in
      rw e (a.rest x (omega (arith, inside, a.sound.whole)) f))
    where
      not-free :
          (x : ℕ) → not (true && is_selected g.stripes x) ≡ true → is_selected g.stripes x ≡ false
      not-free x h = ground (arith, h)

      within : (x : ℕ) → get_or (eligible true g.stripes) x false ≡ true → x < length g.stripes
      within x t = elim (dec_lt x (length g.stripes)) [
        | yes l ↦ l
        | no l ↦ absurd (
            false≢true (
              sym (
                beyond (eligible true g.stripes) x
                  (omega (arith, l, length-eligible true g.stripes)))
              ∙ t))
      ]

  pub rest-IsReady : IsReady true g
  rest-IsReady = record {
    whole = a.sound.whole ∙ sym a.num;
    small = omega (arith, a.num, small);
    hosts = hosts;
    levels = omega (arith, levels, a.size);
    costs = λ i j h l. omega (
      arith,
      costs i j h (omega (arith, l, a.num)),
      a.size,
      pair_cost-SameBlocks g.params old g.stripes i j a.sound.blocks,
    );
    cached =
        subst (λ m. Cached g.params g.stripes m g.cost_table) (sym a.num)
          (Cached-SameBlocks g.params old g.stripes n g.cost_table a.sound.blocks a.cached);
    enough = omega (arith, free-le);
  }
