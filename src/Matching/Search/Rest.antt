-- ===== src/Matching/Search/Rest.antt =====
-- The end of the rounds of `dist_based_search` in src/matching_generator.cc: the greedy matching takes all stripes
-- that are left, if they are even in number.
use mathlib.Core.Bool.{false≢true}
use stripe_merge.Common.{
  ℕ, ◌+◌, ◌*◌, ◌/◌, ◌^◌, ◌≤◌, ◌<◌, ◌≡◌, ◌≢◌, refl, sym, ap, ◌∙◌, subst, true, false, not, List, [],
  ◌∷◌, none, arith, length, get_or, Bool-cases, inl, inr, count, count_true-differ, dec_lt, ltb,
}
use stripe_merge.Stripe.{Stripe}
use stripe_merge.Matching.{Generator}
use stripe_merge.Matching.CostTable.{static_c}
use stripe_merge.Matching.CostTable.Cached.{pair_cost, Cached}
use stripe_merge.Matching.Greedy.{Pick, greedy_fill, basic_greedy}
use stripe_merge.Matching.Greedy.Levels.{greedy_fill_lem}
use stripe_merge.Matching.Greedy.Select.{taken}
use stripe_merge.Matching.Greedy.Stable.{eligible, length-eligible, get_or-eligible}
use stripe_merge.Matching.Greedy.Settled.{LevelsDone}
use stripe_merge.Matching.Greedy.Result.{
  IsReady, picked, filled, start, picked-LevelsDone, picked-settled,
}
use stripe_merge.Matching.Search.Blocks.{
  SameBlocks, pair_cost-SameBlocks, Cached-SameBlocks, SameBlocks-sym,
}
use stripe_merge.Matching.Search.Sound.{partner, is_selected, IsPair, Keeps, Keeps-IsPair}
use stripe_merge.Matching.Search.Maps.{AllMap-weaken}
use stripe_merge.Matching.Search.Invariant.{IsZero, Keeps-IsZero, Keeps-AllCandidates, IsSearch}
use stripe_merge.Matching.Search.Rounds.{match_rest, is_empty}
use stripe_merge.Matching.Search.Finding.{IfSome}
use stripe_merge.Matching.Search.Perfect.{IsPerfect, Finished}
use stripe_merge.Matching.Search.Ready.{beyond, rest-IsReady}

module _ (old : List Stripe) (n : ℕ) (small : n < 2 ^ 31) (g : Generator)
    (a : IsSearch g.params old n [] g) (hosts : 2 * g.rs_k + g.rs_m ≤ g.node_num)
    (levels : g.rs_k + g.rs_m < 255)
    (costs : (i j : ℕ) → i < j → j < n → pair_cost g.params old i j ≤ g.rs_k + g.rs_m) where
  abbrev ready : IsReady true g
  ready = rest-IsReady old n small g a hosts levels costs

  abbrev chosen : Pick
  chosen = picked true g ready

  abbrev done :
      LevelsDone true g.params g.stripes g.stripes_num g.rs_n
        (length g.remaining_stripes / 2)
        ready.whole
        ready.enough
        0
        (filled true g ready)
        (start true g ready)
        chosen
  done = picked-LevelsDone true g ready

  -- A stripe that is selected already is passed over.
  busy : (x : ℕ) → is_selected g.stripes x ≡ true → taken chosen x ≡ false
  busy x t = elim (Bool-cases (taken chosen x)) [
    | inr f ↦ f
    | inl took ↦ absurd (false≢true (sym (done.inv.paired x took).1.allowed ∙ t))
  ]

  keeps : Keeps g.params old n g.stripes chosen.stripes
  keeps x t = done.inv.free x (busy x t)

  selected-taken :
      (x : ℕ)
      → is_selected g.stripes x ≡ false
      → is_selected chosen.stripes x ≡ true
      → taken chosen x ≡ true
  selected-taken x f s = elim (Bool-cases (taken chosen x)) [
    | inl t ↦ t
    | inr left ↦
        absurd
          (false≢true (sym f ∙ ap (λ (a : Stripe). a.selected) (sym (done.inv.free x left)) ∙ s))
  ]

  -- If one stripe is left, all others that were free are taken.
  module _ (x : ℕ) (h : x < n) (left : taken chosen x ≡ false)
      (f : is_selected g.stripes x ≡ false) where
    unselected : is_selected chosen.stripes x ≡ true → ⊥
    unselected s = false≢true (sym left ∙ selected-taken x f s)

    other_taken : (y : ℕ) → y < n → y ≢ x → is_selected g.stripes y ≡ false → taken chosen y ≡ true
    other_taken y l ne fy = elim (dec_lt x y) [
      | yes less ↦ elim (picked-settled true g ready x y less (omega (arith, l, a.num)) f fy) [
        | inl m ↦ absurd (unselected m.0)
        | inr m ↦ selected-taken y fy m.0
      ]
      | no nless ↦
          elim (picked-settled true g ready y x (omega (arith, nless, ne)) (omega (arith, h, a.num))
            fy f) [ inl m ↦ selected-taken y fy m.0 | inr m ↦ absurd (unselected m.0) ]
    ]

    same_flag :
        (y : ℕ) → y ≢ x → get_or chosen.flag y false ≡ get_or (eligible true g.stripes) y false
    same_flag y ne = elim (dec_lt y n) [
      | no over ↦
          beyond chosen.flag y (omega (arith, over, done.inv.flag_size, a.num))
          ∙ sym (
              beyond (eligible true g.stripes) y
                (omega (arith, over, length-eligible true g.stripes, a.sound.whole)))
      | yes l ↦
          let e = get_or-eligible true g.stripes y (omega (arith, l, a.sound.whole)) in
          elim (Bool-cases (is_selected g.stripes y)) [
            | inl t ↦ busy y t ∙ sym (e ∙ ap not t)
            | inr fy ↦ other_taken y l ne fy ∙ sym (e ∙ ap not fy)
          ]
    ]

    no_left : ⊥
    no_left = omega (
      arith,
      a.sound.even,
      done.inv.budget,
      count_true-differ chosen.flag (eligible true g.stripes) x
          (omega (arith, done.inv.flag_size, a.num, length-eligible true g.stripes, a.sound.whole))
          (omega (arith, h, done.inv.flag_size, a.num)) left
          (get_or-eligible true g.stripes x (omega (arith, h, a.sound.whole)) ∙ ap not f) same_flag,
    )

  now_taken : (x : ℕ) → x < n → is_selected g.stripes x ≡ false → taken chosen x ≡ true
  now_taken x h f = elim (Bool-cases (taken chosen x)) [
    | inl t ↦ t
    | inr left ↦ absurd (no_left x h left f)
  ]

  same_blocks : SameBlocks old chosen.stripes
  same_blocks = record {
    raw = λ x. done.inv.same_data x ∙ a.sound.blocks.raw x;
    parity = λ x. done.inv.same_parity x ∙ a.sound.blocks.parity x;
  }

  taken-IsPair : (x : ℕ) → taken chosen x ≡ true → IsPair g.params old n chosen.stripes x
  taken-IsPair x t =
      let m = (done.inv.paired x t).1 in
      record {
        inside = omega (arith, m.inside, a.num);
        other = m.other;
        taken = (done.inv.paired _ m.mate_taken).1.selected;
        back = m.back;
        cost =
            m.cost
            ∙ pair_cost-SameBlocks g.params old g.stripes x (partner chosen.stripes x)
                a.sound.blocks;
      }

  chosen-IsPerfect : IsPerfect g.params old n chosen.stripes
  chosen-IsPerfect = record {
    whole = done.inv.stripes_size ∙ a.num;
    blocks = same_blocks;
    paired = λ x h. elim (Bool-cases (is_selected g.stripes x)) [
      | inl t ↦
          Keeps-IsPair g.params old n g.stripes chosen.stripes x keeps t (a.sound.paired x h t)
      | inr f ↦ taken-IsPair x (now_taken x h f)
    ];
    all = λ x h. elim (Bool-cases (is_selected g.stripes x)) [
      | inl t ↦ ap (λ (s : Stripe). s.selected) (keeps x t) ∙ t
      | inr f ↦ (done.inv.paired x (now_taken x h f)).1.selected
    ];
  }

  abbrev after : Generator
  after = record g {
    cost_table = (greedy_fill true (static_c none g.stripes_num) g).table;
    stripes = chosen.stripes;
  }

  after-Finished : Finished g.params old n after
  after-Finished = (
    record {
      same_params = refl;
      num = a.num;
      size = a.size;
      fresh = a.fresh;
      perfect = chosen-IsPerfect;
      cached = Cached-back (
          subst (λ m. Cached g.params g.stripes m after.cost_table) a.num
            (greedy_fill_lem true g ready.small ready.costs ready.cached).0.cached);
      zeros =
          AllMap-weaken (IsZero n g.stripes) (IsZero n chosen.stripes) g.zero_map
            (λ x z. Keeps-IsZero g.params old n g.stripes chosen.stripes x keeps z) a.zeros;
    },
    Keeps-AllCandidates g.params old n g.stripes chosen.stripes g.none_zero_candidate keeps
        a.candidates,
  )
    where
      Cached-back :
          Cached g.params g.stripes n after.cost_table → Cached g.params old n after.cost_table
      Cached-back =
          Cached-SameBlocks g.params g.stripes old n after.cost_table
            (SameBlocks-sym old g.stripes a.sound.blocks)

  -- No stripe is left.
  over-Finished : is_empty g.remaining_stripes ≡ true → Finished g.params old n g
  over-Finished e = (
    record {
      same_params = refl;
      num = a.num;
      size = a.size;
      fresh = a.fresh;
      perfect = record {
        whole = a.sound.whole;
        blocks = a.sound.blocks;
        paired = λ x h. a.sound.paired x h (all x h);
        all = all;
      };
      cached = a.cached;
      zeros = a.zeros;
    },
    a.candidates,
  )
    where
      nothing : (xs : List ℕ) (x : ℕ) → is_empty xs ≡ true → 0 < count x xs → ⊥
      nothing [] x e h = omega arith
      nothing (y ∷ ys) x e h = false≢true e

      all : (x : ℕ) → x < n → is_selected g.stripes x ≡ true
      all x h = elim (Bool-cases (is_selected g.stripes x)) [
        | inl t ↦ t
        | inr f ↦ absurd (nothing g.remaining_stripes x e (a.rest x h f))
      ]

  rest-Finished : IfSome (Finished g.params old n) (match_rest (static_c none g.stripes_num) g)
  unfolding match_rest basic_greedy
  rest-Finished = elim (Bool-cases (is_empty g.remaining_stripes)) [
    | inl over ↦ rw (match_rest, over) (over-Finished over)
    | inr more ↦
        let enough : ltb g.node_num (2 * g.rs_k + g.rs_m) ≡ false = ground (arith, hosts) in
        let ends : ltb g.rs_n 255 ≡ true = ground (arith, levels, a.size) in
        rw (match_rest, more, basic_greedy, enough, ends) after-Finished
  ]

  pub match_rest-Finished : IfSome (Finished g.params old n) (match_rest (static_c none n) g)
  match_rest-Finished =
      subst (λ m. IfSome (Finished g.params old n) (match_rest (static_c none m) g)) a.num
        rest-Finished
