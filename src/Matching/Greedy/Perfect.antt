-- ===== src/Matching/Greedy/Perfect.antt =====
-- `basic_greedy` on an even number of free stripes matches all of them.
use mathlib.Core.Bool.{false≢true}
use stripe_merge.Common.{
  List, length, [], ◌∷◌, length-set, length-replicate, get_or, ◌==◌, ℕ, ◌+◌, ◌*◌, ◌/◌, ◌<◌, ◌≡◌,
  ◌≢◌, refl, sym, ap, ◌∙◌, ◌⊎◌, inl, inr, true, false, arith, Bool-cases, count_true-all_but, none,
  some, ltb, dec_lt,
}
use stripe_merge.Stripe.{Stripe}
use stripe_merge.Matching.{Generator, stripe_at}
use stripe_merge.Matching.CostTable.{static_c}
use stripe_merge.Matching.Greedy.{Pick, greedy_fill, basic_greedy, add_costs}
use stripe_merge.Matching.Greedy.{pick_pair, pick_level, pick_levels, is_free, greedy_pick}
use stripe_merge.Matching.CostTable.{token_i, token_j}
use stripe_merge.Matching.Greedy.Weights.{weighted, paid}
use stripe_merge.Matching.Greedy.Select.{taken, now}
use stripe_merge.Matching.Greedy.Result.{
  filled, start, Unmatched, IsMatched, IsReady, picked, picked-LevelsDone, picked-IsMatched,
  picked-settled,
}

length-pick_pair :
    (cost i j : ℕ) (s : Pick) → length (pick_pair cost i j s).selected ≡ length s.selected
unfolding pick_pair
length-pick_pair cost i j s = length-set s.selected cost (get_or s.selected cost 0 + 1)

length-pick_level :
    (cost : ℕ) (ms : List ℕ) (s : Pick) → length (pick_level cost ms s).selected ≡ length s.selected
unfolding pick_level
length-pick_level cost [] s = refl
length-pick_level cost (m ∷ ms) s =
    let t = pick_pair cost (token_i m) (token_j m) s in
    let one = length-pick_pair cost (token_i m) (token_j m) s in
    elim (Bool-cases (is_free (token_i m) (token_j m) s)) [
      | inr f ↦ rw (pick_level, f) (length-pick_level cost ms s)
      | inl f ↦ elim (Bool-cases (t.num_to_select == 0)) [
        | inl z ↦ rw (pick_level, f, z) one
        | inr z ↦ rw (pick_level, f, z) (length-pick_level cost ms t ∙ one)
      ]
    ]

length-pick_levels :
    (cost : ℕ) (ls : List (List ℕ)) (s : Pick)
    → length (pick_levels cost ls s).selected ≡ length s.selected
unfolding pick_levels
length-pick_levels cost [] s = refl
length-pick_levels cost (l ∷ ls) s =
    let rest =
      length-pick_levels (cost + 1) ls (pick_level cost l s) ∙ length-pick_level cost l s in
    elim (Bool-cases (s.num_to_select == 0)) [
      | inl z ↦ rw (pick_levels, z) refl
      | inr z ↦ rw (pick_levels, z) rest
    ]

module _ (g : Generator) (r : IsReady false g) (free : (x : ℕ) → Unmatched g.stripes x)
    (even : 2 * (g.stripes_num / 2) ≡ g.stripes_num) where
  abbrev chosen : Pick
  chosen = picked false g r

  chosen-selected : (x : ℕ) → (now chosen x).selected ≡ true → taken chosen x ≡ true
  chosen-selected x s = elim (Bool-cases (taken chosen x)) [
    | inl t ↦ t
    | inr f ↦ absurd (
        false≢true (
          sym (free x)
          ∙ ap (λ (a : Stripe). a.selected) (sym ((picked-LevelsDone false g r).inv.free x f))
          ∙ s))
  ]

  -- If one stripe is left, every other one is taken.
  others_taken :
      (i j : ℕ) → i < j → j < g.stripes_num → (taken chosen i ≡ true) ⊎ (taken chosen j ≡ true)
  others_taken i j h l = elim (picked-settled false g r i j h l (free i) (free j)) [
    | inl m ↦ inl (chosen-selected i m.0)
    | inr m ↦ inr (chosen-selected j m.0)
  ]

  other_taken :
      (x y : ℕ)
      → x < g.stripes_num
      → y < g.stripes_num
      → y ≢ x
      → taken chosen x ≡ false
      → taken chosen y ≡ true
  other_taken x y hx hy ne f = elim (dec_lt x y) [
    | yes h ↦ elim (others_taken x y h hy) [ inl t ↦ absurd (false≢true (sym f ∙ t)) | inr t ↦ t ]
    | no h ↦ elim (others_taken y x (omega (arith, h, ne)) hx) [
      | inl t ↦ t
      | inr t ↦ absurd (false≢true (sym f ∙ t))
    ]
  ]

  all_taken : (x : ℕ) → x < g.stripes_num → taken chosen x ≡ true
  all_taken x h = elim (Bool-cases (taken chosen x)) [
    | inl t ↦ t
    | inr f ↦
        let inv = (picked-LevelsDone false g r).inv in
        absurd (
          omega (
            arith,
            even,
            inv.budget,
            inv.flag_size,
            count_true-all_but chosen.flag x (omega (arith, inv.flag_size)) f
                (λ y l ne. other_taken x y h (omega (arith, l, inv.flag_size)) ne f),
          ))
  ]

  -- The generator after `basic_greedy`.
  abbrev pub matched : Generator
  matched = record g {
    cost_table = (greedy_fill false (static_c none g.stripes_num) g).table;
    stripes = chosen.stripes;
  }

  pub basic_greedy-matched :
      basic_greedy false (static_c none g.stripes_num) g
      ≡ some (matched, add_costs 0 chosen.selected 0)
  unfolding basic_greedy
  basic_greedy-matched =
      let ltb_ge : ltb g.node_num (2 * g.rs_k + g.rs_m) ≡ false = ground (arith, r.hosts) in
      let ends : ltb g.rs_n 255 ≡ true = ground (arith, r.levels) in rw (ltb_ge, ends) refl

  pub all-IsMatched :
      (x : ℕ)
      → x < g.stripes_num
      → IsMatched g.params g.stripes_num matched.stripes x
          (stripe_at matched.stripes x).matching_index
  all-IsMatched x h =
      let t = all_taken x h in
      picked-IsMatched false g r x (free x)
        ((picked-LevelsDone false g r).inv.paired x t).1.selected

  pub matched-blocks :
      (x : ℕ)
      → ((stripe_at matched.stripes x).data_dist ≡ (stripe_at g.stripes x).data_dist)
        × ((stripe_at matched.stripes x).parity_dist ≡ (stripe_at g.stripes x).parity_dist)
  matched-blocks x = (
    (picked-LevelsDone false g r).inv.same_data x,
    (picked-LevelsDone false g r).inv.same_parity x,
  )

  -- The total counts every cost once for each of the two stripes of a pair.
  pub selected-paid : 2 * weighted 0 chosen.selected ≡ paid chosen.flag matched.stripes
  unfolding greedy_pick
  selected-paid =
      let size : length chosen.selected ≡ g.rs_n + 1 =
        length-pick_levels 0 (filled false g r) (start false g r)
        ∙ length-replicate (g.rs_n + 1) 0 in
      (picked-LevelsDone false g r).inv.spent (λ i j h l. omega (arith, r.costs i j h l, size))

  pub chosen-all :
      (length chosen.flag ≡ g.stripes_num)
      × ((x : ℕ) → x < length chosen.flag → taken chosen x ≡ true)
  chosen-all =
      let size = (picked-LevelsDone false g r).inv.flag_size in
      (size, λ x h. all_taken x (omega (arith, h, size)))

  pub length-matched : length matched.stripes ≡ g.stripes_num
  length-matched = (picked-LevelsDone false g r).inv.stripes_size
