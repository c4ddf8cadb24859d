-- ===== src/Matching/Greedy/Select.antt =====
-- The selection of `basic_greedy`: what one selected pair changes.
use stripe_merge.Common.{
  ℕ, ◌+◌, ◌*◌, ◌≤◌, ◌<◌, ◌≡◌, ◌≢◌, refl, sym, ap, ◌∙◌, Bool, true, false, subst, List, arith,
  length, get_or, set, length-set, get_or-set_self, get_or-set_ne, count_true, count_true-set,
  ℕ_discrete,
}
use stripe_merge.Stripe.{Params, Stripe}
use stripe_merge.Matching.{stripe_at}
use stripe_merge.Matching.CostTable.Cached.{pair_cost}
use stripe_merge.Matching.Marks.{matched_with, pair_up}
use stripe_merge.Matching.Marks.Pairs.{length-pair_up, pair_up_fst, pair_up_snd, pair_up_ne}
use stripe_merge.Matching.Greedy.{Pick, pick_pair}
use stripe_merge.Matching.Greedy.Weights.{weighted, weighted-set, paid, paid-set}

pub pair_cost_comm :
    (p : Params) (ss : List Stripe) (i j : ℕ) → pair_cost p ss i j ≡ pair_cost p ss j i
pair_cost_comm p ss i j = elim (ℕ_discrete i j) [ yes e ↦ rw e refl | no ne ↦ ground arith ]

abbrev pub taken : Pick → ℕ → Bool
taken s x = get_or s.flag x false

abbrev pub now : Pick → ℕ → Stripe
now s x = stripe_at s.stripes x

-- The stripes `ss` before the selection; those that `may` be matched.
module _ (p : Params) (ss : List Stripe) (n : ℕ) (may : ℕ → Type 0) where
  -- Stripe `x` is matched with `y`, which is matched with it, at the cost of the pair.
  pub record IsMate (s : Pick) (limit x y : ℕ) : Type 0 where
    pub inside : y < n
    pub other : y ≢ x
    pub mate_taken : taken s y ≡ true
    pub there : (now s x).matching_index ≡ y
    pub back : (now s y).matching_index ≡ x
    pub cost : (now s x).cur_cost ≡ pair_cost p ss x y
    pub cheap : (now s x).cur_cost ≤ limit
    pub selected : (now s x).selected ≡ true
    pub allowed : may x

  pub record IsSelection (num limit : ℕ) (s : Pick) : Type 0 where
    pub flag_size : length s.flag ≡ n
    pub stripes_size : length s.stripes ≡ n
    pub spent :
        ((i j : ℕ) → i < j → j < n → pair_cost p ss i j < length s.selected)
        → 2 * weighted 0 s.selected ≡ paid s.flag s.stripes
    pub budget : count_true s.flag + 2 * s.num_to_select ≡ 2 * num
    pub same_data : (x : ℕ) → (now s x).data_dist ≡ (stripe_at ss x).data_dist
    pub same_parity : (x : ℕ) → (now s x).parity_dist ≡ (stripe_at ss x).parity_dist
    pub free : (x : ℕ) → taken s x ≡ false → now s x ≡ stripe_at ss x
    pub paired : (x : ℕ) → taken s x ≡ true → (x < n) × IsMate s limit x (now s x).matching_index

  -- What is taken stays as it is.
  pub record Later (s s' : Pick) : Type 0 where
    pub still : (x : ℕ) → taken s x ≡ true → taken s' x ≡ true
    pub same : (x : ℕ) → taken s x ≡ true → now s' x ≡ now s x

  IsMate-mono : (s : Pick) (l m x y : ℕ) → l ≤ m → IsMate s l x y → IsMate s m x y
  IsMate-mono s l m x y h a = record {
    inside = a.inside;
    other = a.other;
    mate_taken = a.mate_taken;
    there = a.there;
    back = a.back;
    cost = a.cost;
    cheap = omega (arith, a.cheap);
    selected = a.selected;
    allowed = a.allowed;
  }

  pub IsSelection-mono :
      (num l m : ℕ) (s : Pick) → l ≤ m → IsSelection num l s → IsSelection num m s
  IsSelection-mono num l m s h a = record {
    flag_size = a.flag_size;
    stripes_size = a.stripes_size;
    spent = a.spent;
    budget = a.budget;
    same_data = a.same_data;
    same_parity = a.same_parity;
    free = a.free;
    paired = λ x t. ((a.paired x t).0, IsMate-mono s l m x _ h (a.paired x t).1);
  }

  module _ (num cost i j : ℕ) (s : Pick) (a : IsSelection num cost s) (less : i < j) (room : j < n)
      (fi : taken s i ≡ false) (fj : taken s j ≡ false) (left : 0 < s.num_to_select) where
    abbrev s' : Pick
    s' = pick_pair cost i j s

    taken_other : (x : ℕ) → x ≢ i → x ≢ j → taken s' x ≡ taken s x
    unfolding pick_pair
    taken_other x ni nj =
        get_or-set_ne (set s.flag i true) j x true false nj ∙ get_or-set_ne s.flag i x true false ni

    taken_j : taken s' j ≡ true
    unfolding pick_pair
    taken_j =
        get_or-set_self (set s.flag i true) j true false
          (omega (arith, length-set s.flag i true, a.flag_size))

    taken_i : taken s' i ≡ true
    unfolding pick_pair
    taken_i =
        get_or-set_ne (set s.flag i true) j i true false (λ e. omega arith)
        ∙ get_or-set_self s.flag i true false (omega (arith, a.flag_size))

    now_i : now s' i ≡ matched_with j cost (now s i)
    unfolding pick_pair
    now_i = pair_up_fst i j cost s.stripes (λ e. omega arith) (omega (arith, a.stripes_size))

    now_j : now s' j ≡ matched_with i cost (now s j)
    unfolding pick_pair
    now_j = pair_up_snd i j cost s.stripes (λ e. omega arith) (omega (arith, a.stripes_size))

    now_other : (x : ℕ) → x ≢ i → x ≢ j → now s' x ≡ now s x
    unfolding pick_pair
    now_other = pair_up_ne i j cost s.stripes

    ne_i : (x : ℕ) → taken s x ≡ true → x ≢ i
    ne_i x t e = cc (t, fi, ap (taken s) e)

    ne_j : (x : ℕ) → taken s x ≡ true → x ≢ j
    ne_j x t e = cc (t, fj, ap (taken s) e)

    pub pick_pair-taken : taken s' i ≡ true
    pick_pair-taken = taken_i

    pub pick_pair-Later : Later s s'
    pick_pair-Later = record {
      still = λ x t. taken_other x (ne_i x t) (ne_j x t) ∙ t;
      same = λ x t. now_other x (ne_i x t) (ne_j x t);
    }

    -- What holds of `i`, of `j` and of every other stripe holds of all.
    cases {ℓ} : (P : ℕ → Type ℓ) → P i → P j → ((x : ℕ) → x ≢ i → x ≢ j → P x) → (x : ℕ) → P x
    cases P hi hj rest x = elim (ℕ_discrete x i) [
      | yes e ↦ subst P (sym e) hi
      | no ni ↦ elim (ℕ_discrete x j) [ yes e ↦ subst P (sym e) hj | no nj ↦ rest x ni nj ]
    ]

    module _ (e : pair_cost p ss i j ≡ cost) (mi : may i) (mj : may j) where
      fst-IsMate : IsMate s' cost i j
      fst-IsMate = record {
        inside = room;
        other = λ h. omega arith;
        mate_taken = taken_j;
        there = ap (λ x. x.matching_index) now_i;
        back = ap (λ x. x.matching_index) now_j;
        cost = ap (λ x. x.cur_cost) now_i ∙ sym e;
        cheap = omega (arith, ap (λ x. x.cur_cost) now_i);
        selected = ap (λ x. x.selected) now_i;
        allowed = mi;
      }

      snd-IsMate : IsMate s' cost j i
      snd-IsMate = record {
        inside = omega arith;
        other = λ h. omega arith;
        mate_taken = taken_i;
        there = ap (λ x. x.matching_index) now_j;
        back = ap (λ x. x.matching_index) now_i;
        cost = ap (λ x. x.cur_cost) now_j ∙ sym e ∙ pair_cost_comm p ss i j;
        cheap = omega (arith, ap (λ x. x.cur_cost) now_j);
        selected = ap (λ x. x.selected) now_j;
        allowed = mj;
      }

      other-IsMate : (x y : ℕ) → taken s x ≡ true → IsMate s cost x y → IsMate s' cost x y
      other-IsMate x y t m =
          let ex = pick_pair-Later.same x t in
          let ey = pick_pair-Later.same y m.mate_taken in
          record {
            inside = m.inside;
            other = m.other;
            mate_taken = pick_pair-Later.still y m.mate_taken;
            there = ap (λ (x : Stripe). x.matching_index) ex ∙ m.there;
            back = ap (λ (x : Stripe). x.matching_index) ey ∙ m.back;
            cost = ap (λ (x : Stripe). x.cur_cost) ex ∙ m.cost;
            cheap = omega (arith, ap (λ (x : Stripe). x.cur_cost) ex, m.cheap);
            selected = ap (λ (x : Stripe). x.selected) ex ∙ m.selected;
            allowed = m.allowed;
          }

      abbrev Mated : ℕ → Type 0
      Mated x = taken s' x ≡ true → (x < n) × IsMate s' cost x (now s' x).matching_index

      other-Mated : (x : ℕ) → x ≢ i → x ≢ j → Mated x
      other-Mated x ni nj t =
          let old : taken s x ≡ true = sym (taken_other x ni nj) ∙ t in
          let same = ap (λ (x : Stripe). x.matching_index) (pick_pair-Later.same x old) in
          (
            (a.paired x old).0,
            subst (IsMate s' cost x) (sym same) (other-IsMate x _ old (a.paired x old).1),
          )

      count_taken : count_true s'.flag ≡ count_true s.flag + 2
      unfolding pick_pair
      count_taken = omega (
        arith,
        a.flag_size,
        length-set s.flag i true,
        count_true-set s.flag i (omega (arith, a.flag_size)) fi,
        count_true-set (set s.flag i true) j (omega (arith, length-set s.flag i true, a.flag_size))
            (get_or-set_ne s.flag i j true false (λ h. omega arith) ∙ fj),
      )

      paid_pair : paid s'.flag s'.stripes ≡ paid s.flag s.stripes + 2 * cost
      unfolding pick_pair pair_up
      paid_pair =
          let first : List Stripe = set s.stripes i (matched_with j cost (now s i)) in
          let flag : List Bool = set s.flag i true in
          omega (
            arith,
            paid-set s.flag s.stripes i (matched_with j cost (now s i))
                (a.flag_size ∙ sym a.stripes_size) (omega (arith, a.flag_size)) fi,
            paid-set flag first j (matched_with i cost (stripe_at first j))
                (length-set s.flag i true
                  ∙ a.flag_size
                  ∙ sym a.stripes_size
                  ∙ sym (length-set s.stripes i (matched_with j cost (now s i))))
                (omega (arith, length-set s.flag i true, a.flag_size))
                (get_or-set_ne s.flag i j true false (λ h. omega arith) ∙ fj),
          )

      spent_pair :
          ((k l : ℕ) → k < l → l < n → pair_cost p ss k l < length s'.selected)
          → 2 * weighted 0 s'.selected ≡ paid s'.flag s'.stripes
      unfolding pick_pair
      spent_pair fits =
          let size : length s'.selected ≡ length s.selected =
            length-set s.selected cost (get_or s.selected cost 0 + 1) in
          omega (
            arith,
            paid_pair,
            a.spent (λ k l less room. omega (arith, fits k l less room, size)),
            weighted-set 0 s.selected cost (omega (arith, fits i j less room, size, e)),
          )

      -- The selection of a free pair keeps the invariant, at the cost of that pair.
      pub pick_pair-IsSelection : IsSelection num cost s'
      unfolding pick_pair
      pick_pair-IsSelection = record {
        flag_size = length-set (set s.flag i true) j true ∙ length-set s.flag i true ∙ a.flag_size;
        stripes_size = length-pair_up i j cost s.stripes ∙ a.stripes_size;
        spent = spent_pair;
        budget = omega (arith, a.budget, count_taken);
        same_data =
            cases (λ x. (now s' x).data_dist ≡ (stripe_at ss x).data_dist)
              (ap (λ x. x.data_dist) now_i ∙ a.same_data i)
              (ap (λ x. x.data_dist) now_j ∙ a.same_data j)
              (λ x ni nj. ap (λ x. x.data_dist) (now_other x ni nj) ∙ a.same_data x);
        same_parity =
            cases (λ x. (now s' x).parity_dist ≡ (stripe_at ss x).parity_dist)
              (ap (λ x. x.parity_dist) now_i ∙ a.same_parity i)
              (ap (λ x. x.parity_dist) now_j ∙ a.same_parity j)
              (λ x ni nj. ap (λ x. x.parity_dist) (now_other x ni nj) ∙ a.same_parity x);
        free =
            cases (λ x. taken s' x ≡ false → now s' x ≡ stripe_at ss x) (λ t. cc (taken_i, t))
              (λ t. cc (taken_j, t))
              (λ x ni nj t. now_other x ni nj ∙ a.free x (sym (taken_other x ni nj) ∙ t));
        paired =
            cases Mated
              (λ t. (
                omega arith,
                subst (IsMate s' cost i) (ap (λ x. x.matching_index) (sym now_i)) fst-IsMate,
              ))
              (λ t. (
                omega arith,
                subst (IsMate s' cost j) (ap (λ x. x.matching_index) (sym now_j)) snd-IsMate,
              ))
              other-Mated;
      }
