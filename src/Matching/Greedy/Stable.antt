-- ===== src/Matching/Greedy/Stable.antt =====
-- The selection of `basic_greedy` leaves no pair of stripes that would both be cheaper together.
use stripe_merge.Common.{
  ℕ, zero, suc, ◌≤◌, ◌<◌, ◌≡◌, refl, sym, ap, ◌∙◌, ◌⊎◌, inl, inr, Bool, true, false, not, subst,
  List, [], ◌∷◌, arith, Bool-cases, ◌==◌, length, get_or, All, Elem,
}
use stripe_merge.Stripe.{Params, Stripe}
use stripe_merge.Matching.{stripe_at}
use stripe_merge.Matching.CostTable.{token_i, token_j}
use stripe_merge.Matching.Greedy.{Pick, pick_pair, pick_level, passed_over, is_free}
use stripe_merge.Matching.Greedy.Levels.{MayMatch, IsEntry}
use stripe_merge.Matching.Greedy.Select.{
  IsSelection, Later, pick_pair-IsSelection, pick_pair-Later, pick_pair-taken, taken, now,
}

-- Stripe `x` is matched, at a cost of at most `cost`.
abbrev pub Below : Pick → ℕ → ℕ → Type 0
Below s cost x = (taken s x ≡ true) × ((now s x).cur_cost ≤ cost)

abbrev pub Settles : Pick → ℕ → ℕ → ℕ → Type 0
Settles s cost i j = Below s cost i ⊎ Below s cost j

-- Which stripes may be matched.
abbrev pub eligible : Bool → List Stripe → List Bool
eligible remain_flag [] = []
eligible remain_flag (s ∷ ss) = not (passed_over remain_flag s) ∷ eligible remain_flag ss

pub length-eligible :
    (remain_flag : Bool) (ss : List Stripe) → length (eligible remain_flag ss) ≡ length ss
length-eligible remain_flag [] = refl
length-eligible remain_flag (s ∷ ss) = ap suc (length-eligible remain_flag ss)

pub get_or-eligible :
    (remain_flag : Bool) (ss : List Stripe) (x : ℕ)
    → x < length ss
    → get_or (eligible remain_flag ss) x false ≡ not (passed_over remain_flag (stripe_at ss x))
get_or-eligible remain_flag [] x h = absurd (omega arith)
get_or-eligible remain_flag (s ∷ ss) zero h = refl
get_or-eligible remain_flag (s ∷ ss) (suc x) h = get_or-eligible remain_flag ss x (omega arith)

module _ (cost m : ℕ) (ms : List ℕ) (s : Pick) where
  pick_level-last :
      is_free (token_i m) (token_j m) s ≡ true
      → ((pick_pair cost (token_i m) (token_j m) s).num_to_select == 0) ≡ true
      → pick_level cost (m ∷ ms) s ≡ pick_pair cost (token_i m) (token_j m) s
  unfolding pick_level
  pick_level-last free e = ground arith

  pick_level-more :
      is_free (token_i m) (token_j m) s ≡ true
      → ((pick_pair cost (token_i m) (token_j m) s).num_to_select == 0) ≡ false
      → pick_level cost (m ∷ ms) s ≡ pick_level cost ms (pick_pair cost (token_i m) (token_j m) s)
  unfolding pick_level
  pick_level-more free e = ground arith

  pick_level-busy :
      is_free (token_i m) (token_j m) s ≡ false → pick_level cost (m ∷ ms) s ≡ pick_level cost ms s
  unfolding pick_level
  pick_level-busy busy = ground arith

module _ (remain_flag : Bool) (p : Params) (ss : List Stripe) (n rs_n num : ℕ) where
  abbrev pub Inv : ℕ → Pick → Type 0
  Inv limit s = IsSelection p ss n (MayMatch remain_flag p ss n rs_n) num limit s

  abbrev pub After : Pick → Pick → Type 0
  After s t = Later p ss n (MayMatch remain_flag p ss n rs_n) s t

  abbrev pub Entry : ℕ → ℕ → Type 0
  Entry cost m = IsEntry remain_flag p ss n rs_n cost m

  pub After-refl : (s : Pick) → After s s
  After-refl s = record { still = λ x t. t; same = λ x t. refl }

  pub After-trans : (s t u : Pick) → After s t → After t u → After s u
  After-trans s t u a b = record {
    still = λ x h. b.still x (a.still x h);
    same = λ x h. b.same x (a.still x h) ∙ a.same x h;
  }

  Below-After : (s t : Pick) (cost x : ℕ) → After s t → Below s cost x → Below t cost x
  Below-After s t cost x a (h, l) =
      (a.still x h, omega (arith, ap (λ (s : Stripe). s.cur_cost) (a.same x h)))

  pub Settles-After :
      (s t : Pick) (cost i j : ℕ) → After s t → Settles s cost i j → Settles t cost i j
  Settles-After s t cost i j a (inl b) = inl (Below-After s t cost i a b)
  Settles-After s t cost i j a (inr b) = inr (Below-After s t cost j a b)

  pub taken-Below :
      (limit cost x : ℕ) (s : Pick) → Inv limit s → limit ≤ cost → taken s x ≡ true → Below s cost x
  taken-Below limit cost x s a h t = (t, omega (arith, (a.paired x t).1.cheap))

  pub record LevelDone (cost : ℕ) (ms : List ℕ) (s t : Pick) : Type 0 where
    pub inv : Inv cost t
    pub after : After s t
    pub settled :
        (t.num_to_select ≡ 0) ⊎ ((m : ℕ) → Elem m ms → Settles t cost (token_i m) (token_j m))

  -- A token whose pair is settled adds nothing that is not done.
  LevelDone-cons :
      (cost m : ℕ) (ms : List ℕ) (s t u : Pick)
      → After s t
      → Settles t cost (token_i m) (token_j m)
      → LevelDone cost ms t u
      → LevelDone cost (m ∷ ms) s u
  LevelDone-cons cost m ms s t u a b d = record {
    inv = d.inv;
    after = After-trans s t u a d.after;
    settled = rest d.settled;
  }
    where
      rest :
          (u.num_to_select ≡ 0) ⊎ ((k : ℕ) → Elem k ms → Settles u cost (token_i k) (token_j k))
          → (u.num_to_select ≡ 0)
            ⊎ ((k : ℕ) → Elem k (m ∷ ms) → Settles u cost (token_i k) (token_j k))
      rest (inl z) = inl z
      rest (inr f) = inr (λ k. elim [
        | inl e ↦ rw e (Settles-After t u cost (token_i m) (token_j m) d.after b)
        | inr h ↦ f k h
      ])

  taken-Settles :
      (cost i j : ℕ) (s : Pick) → Inv cost s → is_free i j s ≡ false → Settles s cost i j
  taken-Settles cost i j s a h = elim (Bool-cases (taken s i)) [
    | inl t ↦ inl (taken-Below cost cost i s a (omega arith) t)
    | inr f ↦ inr (taken-Below cost cost j s a (omega arith) (ground arith))
  ]

  pub pick_level-LevelDone :
      (cost : ℕ) (ms : List ℕ) (s : Pick)
      → Inv cost s
      → 0 < s.num_to_select
      → All (Entry cost) ms
      → LevelDone cost ms s (pick_level cost ms s)
  pick_level-LevelDone cost [] s a left es =
      unfold pick_level in record { inv = a; after = After-refl s; settled = inr (λ m h. absurd h) }
  pick_level-LevelDone cost (m ∷ ms) s a left (e, es) =
      elim (Bool-cases (is_free (token_i m) (token_j m) s)) [
        | inl free ↦
            let fi : taken s (token_i m) ≡ false = ground arith in
            let fj : taken s (token_j m) ≡ false = ground arith in
            let t = pick_pair cost (token_i m) (token_j m) s in
            let b =
              pick_pair-IsSelection p ss n (MayMatch remain_flag p ss n rs_n) num cost _ _ s a
                e.less e.inside fi fj left e.costs e.may_i e.may_j in
            let l =
              pick_pair-Later p ss n (MayMatch remain_flag p ss n rs_n) num cost _ _ s a e.less
                e.inside fi fj left in
            elim (Bool-cases (t.num_to_select == 0)) [
              | inl none_left ↦
                  subst (LevelDone cost (m ∷ ms) s)
                    (sym (pick_level-last cost m ms s free none_left))
                    (record { inv = b; after = l; settled = inl (ground arith) })
              | inr more ↦
                  subst (LevelDone cost (m ∷ ms) s) (sym (pick_level-more cost m ms s free more)) (
                    LevelDone-cons cost m ms s t _ l
                      (inl (
                        taken-Below cost cost (token_i m) t b (omega arith) (
                          pick_pair-taken p ss n (MayMatch remain_flag p ss n rs_n) num cost _ _ s a
                            e.less e.inside fi fj left)))
                      (pick_level-LevelDone cost ms t b (ground arith) es))
            ]
        | inr busy ↦ subst (LevelDone cost (m ∷ ms) s) (sym (pick_level-busy cost m ms s busy)) (
            LevelDone-cons cost m ms s s _ (After-refl s) (taken-Settles cost _ _ s a busy)
              (pick_level-LevelDone cost ms s a left es))
      ]
