-- ===== src/Matching/Greedy/Settled.antt =====
-- The selection of `basic_greedy` over all levels: it settles every pair, also when it stops early.
use stripe_merge.Common.{
  ℕ, zero, suc, ◌+◌, ◌*◌, ◌≤◌, ◌<◌, ◌≡◌, refl, sym, ap, ◌∙◌, inl, inr, Bool, true, false, not,
  subst, List, [], ◌∷◌, arith, Bool-cases, ◌==◌, length, get_or, set, All, Elem, length-set,
  get_or-set_ne, count_true, count_true-set, count_true-le, ℕ_discrete,
}
use stripe_merge.Stripe.{Params, Stripe}
use stripe_merge.Matching.CostTable.{token_i, token_j}
use stripe_merge.Matching.Greedy.{Pick, pick_level, pick_levels}
use stripe_merge.Matching.Greedy.Levels.{MayMatch, IsEntry}
use stripe_merge.Matching.Greedy.Select.{IsSelection, Later, IsSelection-mono, taken}
use stripe_merge.Matching.Greedy.Stable.{
  Settles, eligible, length-eligible, get_or-eligible, taken-Below, Settles-After, After-refl,
  After-trans, LevelDone, pick_level-LevelDone,
}

module _ (remain_flag : Bool) (p : Params) (ss : List Stripe) (n rs_n num : ℕ)
    (whole : length ss ≡ n) (enough : count_true (eligible remain_flag ss) ≤ 2 * num + 1) where
  abbrev pub Inv : ℕ → Pick → Type 0
  Inv limit s = IsSelection p ss n (MayMatch remain_flag p ss n rs_n) num limit s

  abbrev pub After : Pick → Pick → Type 0
  After s t = Later p ss n (MayMatch remain_flag p ss n rs_n) s t

  abbrev pub Entry : ℕ → ℕ → Type 0
  Entry cost m = IsEntry remain_flag p ss n rs_n cost m

  may-eligible :
      (x : ℕ)
      → x < n
      → MayMatch remain_flag p ss n rs_n x
      → get_or (eligible remain_flag ss) x false ≡ true
  may-eligible x h m = get_or-eligible remain_flag ss x (omega arith) ∙ ap not m

  -- With nothing left to select, at most one stripe that may be matched is free.
  exhausted :
      (limit i j : ℕ) (s : Pick)
      → Inv limit s
      → s.num_to_select ≡ 0
      → i < j
      → j < n
      → MayMatch remain_flag p ss n rs_n i
      → MayMatch remain_flag p ss n rs_n j
      → taken s i ≡ false
      → taken s j ≡ true
  exhausted limit i j s a z h l mi mj fi = elim (Bool-cases (taken s j)) [
    | inl t ↦ t
    | inr fj ↦ absurd (
        omega (
          arith,
          enough,
          a.budget,
          a.flag_size,
          length-set s.flag i true,
          count_true-set s.flag i (omega (arith, a.flag_size)) fi,
          count_true-set (set s.flag i true) j
              (omega (arith, length-set s.flag i true, a.flag_size))
              (get_or-set_ne s.flag i j true false (λ e. omega arith) ∙ fj),
          count_true-le both (eligible remain_flag ss)
              (length-set (set s.flag i true) j true
                ∙ length-set s.flag i true
                ∙ a.flag_size
                ∙ sym whole
                ∙ sym (length-eligible remain_flag ss))
              inside,
        ))
  ]
    where
      both : List Bool
      both = set (set s.flag i true) j true

      inside :
          (x : ℕ) → get_or both x false ≡ true → get_or (eligible remain_flag ss) x false ≡ true
      inside x t = elim (ℕ_discrete x j) [
        | yes e ↦ rw e (may-eligible j l mj)
        | no nj ↦ elim (ℕ_discrete x i) [
          | yes e ↦ rw e (may-eligible i (omega arith) mi)
          | no ni ↦
              let old : taken s x ≡ true =
                sym (
                  get_or-set_ne (set s.flag i true) j x true false nj
                  ∙ get_or-set_ne s.flag i x true false ni)
                ∙ t in
              may-eligible x (a.paired x old).0 (a.paired x old).1.allowed
        ]
      ]

  exhausted-Settles :
      (limit cost m : ℕ) (s : Pick)
      → Inv limit s
      → limit ≤ cost
      → s.num_to_select ≡ 0
      → Entry cost m
      → Settles s cost (token_i m) (token_j m)
  exhausted-Settles limit cost m s a h z e = elim (Bool-cases (taken s (token_i m))) [
    | inl t ↦ inl (taken-Below remain_flag p ss n rs_n num limit cost (token_i m) s a h t)
    | inr f ↦ inr (
        taken-Below remain_flag p ss n rs_n num limit cost (token_j m) s a h
          (exhausted limit (token_i m) (token_j m) s a z e.less e.inside e.may_i e.may_j f))
  ]

  -- The levels from `cost` on: all their pairs are settled.
  pub record LevelsDone (cost : ℕ) (ls : List (List ℕ)) (s t : Pick) : Type 0 where
    pub inv : Inv (cost + length ls) t
    pub after : After s t
    pub settled : (k m : ℕ) → Elem m (get_or ls k []) → Settles t (cost + k) (token_i m) (token_j m)

  get_entries :
      (cost : ℕ) (l : List ℕ) (ls : List (List ℕ))
      → ((k : ℕ) → All (Entry (cost + k)) (get_or (l ∷ ls) k []))
      → (k : ℕ) → All (Entry (cost + 1 + k)) (get_or ls k [])
  get_entries cost l ls es k =
      subst (λ c. All (Entry c) (get_or ls k [])) (omega arith) (es (suc k))

  All-Elem : (P : ℕ → Type 0) (xs : List ℕ) (x : ℕ) → All P xs → Elem x xs → P x
  All-Elem P [] x a h = absurd h
  All-Elem P (y ∷ ys) x a (inl e) = subst P (sym e) a.0
  All-Elem P (y ∷ ys) x a (inr h) = All-Elem P ys x a.1 h

  stopped-LevelsDone :
      (cost : ℕ) (ls : List (List ℕ)) (s : Pick)
      → Inv cost s
      → s.num_to_select ≡ 0
      → ((k : ℕ) → All (Entry (cost + k)) (get_or ls k []))
      → LevelsDone cost ls s s
  stopped-LevelsDone cost ls s a z es = record {
    inv =
        IsSelection-mono p ss n (MayMatch remain_flag p ss n rs_n) num cost (cost + length ls) s
          (omega arith) a;
    after = After-refl remain_flag p ss n rs_n num s;
    settled = λ k m h.
        exhausted-Settles cost (cost + k) m s a (omega arith) z
          (All-Elem (Entry (cost + k)) (get_or ls k []) m (es k) h);
  }

  pick_levels-more :
      (cost : ℕ) (l : List ℕ) (ls : List (List ℕ)) (s : Pick)
      → (s.num_to_select == 0) ≡ false
      → pick_levels cost (l ∷ ls) s ≡ pick_levels (cost + 1) ls (pick_level cost l s)
  unfolding pick_levels
  pick_levels-more cost l ls s h = ground arith

  pick_levels-stop :
      (cost : ℕ) (ls : List (List ℕ)) (s : Pick)
      → (s.num_to_select == 0) ≡ true
      → pick_levels cost ls s ≡ s
  unfolding pick_levels
  pick_levels-stop cost [] s h = refl
  pick_levels-stop cost (l ∷ ls) s h = ground arith

  level-settled :
      (cost m : ℕ) (l : List ℕ) (s t : Pick)
      → LevelDone remain_flag p ss n rs_n num cost l s t
      → All (Entry cost) l
      → Elem m l
      → Settles t cost (token_i m) (token_j m)
  level-settled cost m l s t d es h = elim d.settled [
    | inl z ↦ exhausted-Settles cost cost m t d.inv (omega arith) z (All-Elem (Entry cost) l m es h)
    | inr f ↦ f m h
  ]

  later :
      (cost : ℕ) (l : List ℕ) (ls : List (List ℕ)) (s t u : Pick)
      → LevelDone remain_flag p ss n rs_n num cost l s t
      → All (Entry cost) l
      → ((k m : ℕ) → Elem m (get_or ls k []) → Settles u (cost + 1 + k) (token_i m) (token_j m))
      → After t u
      → (k m : ℕ) → Elem m (get_or (l ∷ ls) k [])
      → Settles u (cost + k) (token_i m) (token_j m)
  later cost l ls s t u d es rest a zero m h =
      subst (λ c. Settles u c (token_i m) (token_j m)) (omega arith)
        (Settles-After remain_flag p ss n rs_n num t u cost (token_i m) (token_j m) a
          (level-settled cost m l s t d es h))
  later cost l ls s t u d es rest a (suc k) m h =
      subst (λ c. Settles u c (token_i m) (token_j m)) (omega arith) (rest k m h)

  pub pick_levels-LevelsDone :
      (cost : ℕ) (ls : List (List ℕ)) (s : Pick)
      → Inv cost s
      → ((k : ℕ) → All (Entry (cost + k)) (get_or ls k []))
      → LevelsDone cost ls s (pick_levels cost ls s)
  pick_levels-LevelsDone cost [] s a es =
      unfold pick_levels in
      record {
        inv = subst (λ k. Inv k s) (omega arith) a;
        after = After-refl remain_flag p ss n rs_n num s;
        settled = λ k m h. absurd h;
      }
  pick_levels-LevelsDone cost (l ∷ ls) s a es = elim (Bool-cases (s.num_to_select == 0)) [
    | inl stop ↦
        subst (LevelsDone cost (l ∷ ls) s) (sym (pick_levels-stop cost (l ∷ ls) s stop))
          (stopped-LevelsDone cost (l ∷ ls) s a (ground arith) es)
    | inr more ↦
        let e0 : All (Entry cost) l = subst (λ c. All (Entry c) l) (omega arith) (es 0) in
        let t = pick_level cost l s in
        let d = pick_level-LevelDone remain_flag p ss n rs_n num cost l s a (ground arith) e0 in
        let r =
          pick_levels-LevelsDone (cost + 1) ls t
            (IsSelection-mono p ss n (MayMatch remain_flag p ss n rs_n) num cost (cost + 1) t
              (omega arith) d.inv)
            (get_entries cost l ls es) in
        subst (LevelsDone cost (l ∷ ls) s) (sym (pick_levels-more cost l ls s more)) (record {
          inv = subst (λ k. Inv k (pick_levels (cost + 1) ls t)) (omega arith) r.inv;
          after = After-trans remain_flag p ss n rs_n num s t _ d.after r.after;
          settled = later cost l ls s t _ d e0 r.settled r.after;
        })
  ]
