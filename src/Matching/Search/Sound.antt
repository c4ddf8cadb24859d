-- ===== src/Matching/Search/Sound.antt =====
-- What holds of the stripes at any time of a search: those that are selected are in pairs, and one that is not
-- names a partner once it has a cost.
use mathlib.Core.Bool.{false≢true}
use stripe_merge.Common.{
  ℕ, ◌*◌, ◌/◌, ◌<◌, ◌≡◌, ◌≢◌, sym, ap, ◌∙◌, subst, Bool, true, false, List, arith, length, set,
  length-set, get_or-set_self, get_or-set_ne, ℕ_discrete, if◌then◌else◌,
}
use stripe_merge.Stripe.{Params, Stripe, blank, uint8_max}
use stripe_merge.Matching.{stripe_at}
use stripe_merge.Matching.CostTable.Cached.{pair_cost}
use stripe_merge.Matching.Greedy.Select.{pair_cost_comm}
use stripe_merge.Matching.Marks.{matched_with, pair_up}
use stripe_merge.Matching.Marks.Pairs.{length-pair_up, pair_up_fst, pair_up_snd, pair_up_ne}
use stripe_merge.Matching.Search.Blocks.{
  SameBlocks, SameBlocks-set, pair_up-SameBlocks, free_count, free_count-set,
}

abbrev pub partner : List Stripe → ℕ → ℕ
partner ss x = (stripe_at ss x).matching_index

abbrev pub is_selected : List Stripe → ℕ → Bool
is_selected ss x = (stripe_at ss x).selected

abbrev pub cost_of : List Stripe → ℕ → ℕ
cost_of ss x = (stripe_at ss x).cur_cost

module _ (p : Params) (old : List Stripe) (n : ℕ) where
  pub record IsPair (ss : List Stripe) (x : ℕ) : Type 0 where
    pub inside : partner ss x < n
    pub other : partner ss x ≢ x
    pub taken : is_selected ss (partner ss x) ≡ true
    pub back : partner ss (partner ss x) ≡ x
    pub cost : cost_of ss x ≡ pair_cost p old x (partner ss x)

  -- A stripe that may become the partner of `x`, at the cost that `s` tells.
  pub record IsGuess (x : ℕ) (s : Stripe) : Type 0 where
    pub inside : s.matching_index < n
    pub other : s.matching_index ≢ x
    pub cost : s.cur_cost ≡ pair_cost p old x s.matching_index

  pub record Sound (ss : List Stripe) : Type 0 where
    pub whole : length ss ≡ n
    pub blocks : SameBlocks old ss
    pub paired : (x : ℕ) → x < n → is_selected ss x ≡ true → IsPair ss x
    pub guess :
        (x : ℕ)
        → x < n
        → is_selected ss x ≡ false
        → cost_of ss x ≢ uint8_max
        → IsGuess x (stripe_at ss x)
    pub even : 2 * (free_count ss / 2) ≡ free_count ss

  -- Selected stripes stay as they are.
  abbrev pub Keeps : List Stripe → List Stripe → Type 0
  Keeps ss ts = (x : ℕ) → is_selected ss x ≡ true → stripe_at ts x ≡ stripe_at ss x

  pub Keeps-IsPair :
      (ss ts : List Stripe) (x : ℕ)
      → Keeps ss ts
      → is_selected ss x ≡ true
      → IsPair ss x
      → IsPair ts x
  Keeps-IsPair ss ts x k t a =
      let mine = ap (λ (s : Stripe). s.matching_index) (k x t) in
      let theirs = k (partner ss x) a.taken in
      record {
        inside = omega (arith, mine, a.inside);
        other = λ e. a.other (sym mine ∙ e);
        taken = ap (is_selected ts) mine ∙ ap (λ (s : Stripe). s.selected) theirs ∙ a.taken;
        back = ap (partner ts) mine ∙ ap (λ (s : Stripe). s.matching_index) theirs ∙ a.back;
        cost = ap (λ (s : Stripe). s.cur_cost) (k x t) ∙ a.cost ∙ ap (pair_cost p old x) (sym mine);
      }

  module _ (ss : List Stripe) (a : Sound ss) where
    -- The two stripes of a pair have the same cost.
    pub cost-partner :
        (x : ℕ) → x < n → is_selected ss x ≡ true → cost_of ss (partner ss x) ≡ cost_of ss x
    cost-partner x h t =
        let m = a.paired x h t in
        (a.paired (partner ss x) m.inside m.taken).cost
        ∙ ap (pair_cost p old (partner ss x)) m.back
        ∙ pair_cost_comm p old (partner ss x) x
        ∙ sym m.cost

    -- A free stripe gets another guess.
    module _ (i : ℕ) (s : Stripe) (h : i < n) (free : is_selected ss i ≡ false)
        (still : s.selected ≡ false) where
      set-same : stripe_at (set ss i s) i ≡ s
      set-same = get_or-set_self ss i s blank (omega (arith, a.whole))

      pub set-Keeps : Keeps ss (set ss i s)
      set-Keeps x t =
          get_or-set_ne ss i x s blank
            (λ e. false≢true (sym free ∙ ap (is_selected ss) (sym e) ∙ t))

      pub set-free : (x : ℕ) → is_selected (set ss i s) x ≡ is_selected ss x
      set-free x = elim (ℕ_discrete x i) [
        | yes e ↦
            subst (λ y. is_selected (set ss i s) y ≡ is_selected ss y) (sym e)
              (ap (λ (t : Stripe). t.selected) set-same ∙ still ∙ sym free)
        | no ne ↦ ap (λ (t : Stripe). t.selected) (get_or-set_ne ss i x s blank ne)
      ]

      pub set-Sound :
          s.data_dist ≡ (stripe_at ss i).data_dist
          → s.parity_dist ≡ (stripe_at ss i).parity_dist
          → (s.cur_cost ≢ uint8_max → IsGuess i s)
          → Sound (set ss i s)
      set-Sound d q g = record {
        whole = length-set ss i s ∙ a.whole;
        blocks = SameBlocks-set old ss i s (omega (arith, a.whole)) d q a.blocks;
        paired = λ x l t.
            let was = sym (set-free x) ∙ t in
            Keeps-IsPair ss (set ss i s) x set-Keeps was (a.paired x l was);
        guess = λ x l f c. elim (ℕ_discrete x i) [
          | yes e ↦
              subst (λ y. IsGuess y (stripe_at (set ss i s) y)) (sym e)
                (subst (IsGuess i) (sym set-same) (
                  g (λ z.
                    c (
                      ap (cost_of (set ss i s)) e ∙ ap (λ (t : Stripe). t.cur_cost) set-same ∙ z))))
          | no ne ↦
              let same = get_or-set_ne ss i x s blank ne in
              subst (IsGuess x) (sym same) (
                a.guess x l (sym (set-free x) ∙ f)
                  (λ z. c (ap (λ (t : Stripe). t.cur_cost) same ∙ z)))
        ];
        even =
            let count : free_count (set ss i s) ≡ free_count ss = omega (
              arith,
              free_count-set ss i s (omega (arith, a.whole)),
              ap {B = ℕ} (λ b. if b then 0 else 1) free,
              ap {B = ℕ} (λ b. if b then 0 else 1) still,
            ) in
            omega (arith, count, a.even);
      }

    -- Two free stripes become a pair.
    module _ (i j cost : ℕ) (ne : i ≢ j) (hi : i < n) (hj : j < n) (fi : is_selected ss i ≡ false)
        (fj : is_selected ss j ≡ false) where
      abbrev ts : List Stripe
      ts = pair_up i j cost ss

      at_i : stripe_at ts i ≡ matched_with j cost (stripe_at ss i)
      at_i = pair_up_fst i j cost ss ne (omega (arith, a.whole))

      at_j : stripe_at ts j ≡ matched_with i cost (stripe_at ss j)
      at_j = pair_up_snd i j cost ss ne (omega (arith, a.whole))

      pub pair_up-Keeps : Keeps ss ts
      pair_up-Keeps x t =
          pair_up_ne i j cost ss x (λ e. false≢true (sym fi ∙ ap (is_selected ss) (sym e) ∙ t))
            (λ e. false≢true (sym fj ∙ ap (is_selected ss) (sym e) ∙ t))

      -- What holds of `i`, of `j` and of every other stripe holds of all.
      cases {ℓ} : (P : ℕ → Type ℓ) → P i → P j → ((x : ℕ) → x ≢ i → x ≢ j → P x) → (x : ℕ) → P x
      cases P on_i on_j rest x = elim (ℕ_discrete x i) [
        | yes e ↦ subst P (sym e) on_i
        | no ni ↦ elim (ℕ_discrete x j) [ yes e ↦ subst P (sym e) on_j | no nj ↦ rest x ni nj ]
      ]

      pub pair_up-taken : (is_selected ts i ≡ true) × (is_selected ts j ≡ true)
      pair_up-taken = (ap (λ (s : Stripe). s.selected) at_i, ap (λ (s : Stripe). s.selected) at_j)

      -- A stripe that is free afterwards was free before.
      pub pair_up-free : (x : ℕ) → is_selected ts x ≡ false → is_selected ss x ≡ false
      pair_up-free =
          cases (λ x. is_selected ts x ≡ false → is_selected ss x ≡ false) (λ _. fi) (λ _. fj)
            (λ x ni nj f.
              ap (λ (s : Stripe). s.selected) (sym (pair_up_ne i j cost ss x ni nj)) ∙ f)

      pair_up-even : 2 * (free_count ts / 2) ≡ free_count ts
      unfolding pair_up
      pair_up-even =
          let first : List Stripe = set ss i (matched_with j cost (stripe_at ss i)) in
          let same : stripe_at first j ≡ stripe_at ss j =
            get_or-set_ne ss i j (matched_with j cost (stripe_at ss i)) blank (λ e. ne (sym e)) in
          omega (
            arith,
            a.even,
            free_count-set ss i (matched_with j cost (stripe_at ss i)) (omega (arith, a.whole)),
            free_count-set first j (matched_with i cost (stripe_at first j))
                (omega (arith, a.whole, length-set ss i (matched_with j cost (stripe_at ss i)))),
            ap {B = ℕ} (λ b. if b then 0 else 1) fi,
            ap {B = ℕ} (λ b. if b then 0 else 1) (ap (λ (s : Stripe). s.selected) same ∙ fj),
          )

      module _ (e : cost ≡ pair_cost p old i j) where
        pub pair_up-Sound : Sound ts
        pair_up-Sound = record {
          whole = length-pair_up i j cost ss ∙ a.whole;
          blocks =
              pair_up-SameBlocks old ss i j cost (omega (arith, a.whole)) (omega (arith, a.whole))
                a.blocks;
          paired =
              cases (λ x. x < n → is_selected ts x ≡ true → IsPair ts x)
                (λ _ _. record {
                  inside = omega (arith, ap (λ (s : Stripe). s.matching_index) at_i, hj);
                  other = λ z. ne (sym z ∙ ap (λ (s : Stripe). s.matching_index) at_i);
                  taken =
                      ap (is_selected ts) (ap (λ (s : Stripe). s.matching_index) at_i)
                      ∙ pair_up-taken.1;
                  back =
                      ap (partner ts) (ap (λ (s : Stripe). s.matching_index) at_i)
                      ∙ ap (λ (s : Stripe). s.matching_index) at_j;
                  cost =
                      ap (λ (s : Stripe). s.cur_cost) at_i
                      ∙ e
                      ∙ ap (pair_cost p old i) (sym (ap (λ (s : Stripe). s.matching_index) at_i));
                })
                (λ _ _. record {
                  inside = omega (arith, ap (λ (s : Stripe). s.matching_index) at_j, hi);
                  other = λ z. ne (sym (ap (λ (s : Stripe). s.matching_index) at_j) ∙ z);
                  taken =
                      ap (is_selected ts) (ap (λ (s : Stripe). s.matching_index) at_j)
                      ∙ pair_up-taken.0;
                  back =
                      ap (partner ts) (ap (λ (s : Stripe). s.matching_index) at_j)
                      ∙ ap (λ (s : Stripe). s.matching_index) at_i;
                  cost =
                      ap (λ (s : Stripe). s.cur_cost) at_j
                      ∙ e
                      ∙ pair_cost_comm p old i j
                      ∙ ap (pair_cost p old j) (sym (ap (λ (s : Stripe). s.matching_index) at_j));
                })
                (λ x ni nj h t.
                  let was =
                    ap (λ (s : Stripe). s.selected) (sym (pair_up_ne i j cost ss x ni nj)) ∙ t in
                  Keeps-IsPair ss ts x pair_up-Keeps was (a.paired x h was));
          guess =
              cases
                (λ x.
                  x < n
                  → is_selected ts x ≡ false
                  → cost_of ts x ≢ uint8_max
                  → IsGuess x (stripe_at ts x))
                (λ _ f _. absurd (false≢true (sym f ∙ pair_up-taken.0)))
                (λ _ f _. absurd (false≢true (sym f ∙ pair_up-taken.1)))
                (λ x ni nj h f z.
                  let same = pair_up_ne i j cost ss x ni nj in
                  subst (IsGuess x) (sym same) (
                    a.guess x h (ap (λ (s : Stripe). s.selected) (sym same) ∙ f)
                      (λ c. z (ap (λ (s : Stripe). s.cur_cost) same ∙ c))));
          even = pair_up-even;
        }
