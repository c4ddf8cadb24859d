-- ===== src/Matching/Statistics/Pairs.antt =====
-- The loops of `print_statics` and of `get_sending_scheme` go over the same pairs: the blocks that are sent are
-- as many as the costs add up to.
use mathlib.Core.Bool.{false≢true}
use stripe_merge.Common.{
  [], replicate, length-replicate, ◌*◌, zero, suc, IsShuffle, ℕ, zero, suc, ◌+◌, ◌*◌, ◌%◌, ◌^◌, ◌≤◌,
  ◌<◌, ◌≡◌, ◌≢◌, refl, sym, ap, ◌∙◌, subst, inl, inr, Bool, true, false, List, ◌++◌, arith,
  Bool-cases, ◌==◌, if◌then◌else◌, length, get_or, set, All, All-append, length-append, length-set,
  get_or-set_self, get_or-set_ne, ℕ_discrete, range, sum, sum-set, get_or-le-sum, dec_lt,
}
use stripe_merge.Stripe.{Params, Stripe, compute_cost}
use stripe_merge.Stripe.Cost.{IsPlaced}
use stripe_merge.Migration.{MigrationInfo}
use stripe_merge.Matching.{stripe_at}
use stripe_merge.Matching.CostTable.Cached.{pair_cost}
use stripe_merge.Matching.Scheme.{one_scheme}
use stripe_merge.Matching.Scheme.Merge.{IsMove, length-one_scheme, one_scheme-IsMove}
use stripe_merge.Matching.Statistics.{is_new, both_seen, count_pairs, send_pairs}
use stripe_merge.Matching.Greedy.Weights.{weighted, weighted-set, paid, paid-flag, paid-all}
use stripe_merge.Matching.Greedy.Select.{pair_cost_comm}

pub get_or-replicate-true : (n x : ℕ) → x < n → get_or (replicate n true) x false ≡ true
get_or-replicate-true zero x h = absurd (omega arith)
get_or-replicate-true (suc n) zero h = refl
get_or-replicate-true (suc n) (suc x) h = get_or-replicate-true n x (omega arith)

-- Stripe `x` is one of a pair, at the cost of that pair.
pub record IsPaired (p : Params) (n : ℕ) (ss : List Stripe) (x : ℕ) : Type 0 where
  pub inside : (stripe_at ss x).matching_index < n
  pub other : (stripe_at ss x).matching_index ≢ x
  pub back : (stripe_at ss (stripe_at ss x).matching_index).matching_index ≡ x
  pub cost : (stripe_at ss x).cur_cost ≡ pair_cost p ss x (stripe_at ss x).matching_index

-- The stripes are placed and all in pairs.
pub record IsMatching (p : Params) (n : ℕ) (ss : List Stripe) : Type 0 where
  pub placed : (x : ℕ) → x < n → IsPlaced p (stripe_at ss x)
  pub paired : (x : ℕ) → x < n → IsPaired p n ss x

module _ (shuffle : ℕ → List ℕ → List ℕ) (fair : IsShuffle shuffle) (p : Params) (n size : ℕ)
    (ss : List Stripe) (m : IsMatching p n ss) (small : 2 * p.rs_k + 2 * p.rs_m < 256)
    (some_data : 0 < p.rs_k) (room : 2 * p.rs_k + p.rs_m ≤ p.node_num) (nodes : p.node_num < 2 ^ 16)
    (fits : (x : ℕ) → x < n → (stripe_at ss x).cur_cost < size) where
  abbrev partner : ℕ → ℕ
  partner x = (stripe_at ss x).matching_index

  abbrev seen : List Bool → ℕ → Bool
  seen flag x = get_or flag x false

  -- The flags before the round for `i`: what comes before is seen, and pairs are seen together.
  pub record Before (i : ℕ) (flag : List Bool) : Type 0 where
    pub whole : length flag ≡ n
    pub below : (x : ℕ) → x < i → seen flag x ≡ true
    pub together : (x : ℕ) → x < n → seen flag x ≡ true → seen flag (partner x) ≡ true

  -- Counts and blocks have grown by as much.
  pub record Grown (count count' : List ℕ) (blocks blocks' : List MigrationInfo) : Type 0 where
    pub same : weighted 0 count' + length blocks ≡ weighted 0 count + length blocks'
    pub moves : All (IsMove p.node_num) blocks → All (IsMove p.node_num) blocks'

  seen_again : (i : ℕ) (flag : List Bool) → Before i flag → seen flag i ≡ true → Before (i + 1) flag
  seen_again i flag b t = record {
    whole = b.whole;
    below = λ x h. elim (ℕ_discrete x i) [
      | yes e ↦ subst (λ y. seen flag y ≡ true) (sym e) t
      | no ne ↦ b.below x (omega arith)
    ];
    together = b.together;
  }

  module _ (i : ℕ) (flag : List Bool) (b : Before i flag) (h : i < n)
      (new : seen flag i ≡ false) where
    abbrev y : ℕ
    y = partner i

    abbrev pair : IsPaired p n ss i
    pair = m.paired i h

    partner-new : seen flag y ≡ false
    partner-new = elim (Bool-cases (seen flag y)) [
      | inr f ↦ f
      | inl t ↦
          absurd
            (false≢true (sym new ∙ sym (ap (seen flag) pair.back) ∙ b.together y pair.inside t))
    ]

    partner-later : i < y
    partner-later = elim (ℕ_discrete y i) [
      | yes e ↦ absurd (pair.other e)
      | no ne ↦ elim (dec_lt y i) [
        | yes l ↦ absurd (false≢true (sym partner-new ∙ b.below y l))
        | no l ↦ omega arith
      ]
    ]

    pair-is_new : is_new flag i y ≡ true
    pair-is_new = rw (new, partner-new) refl

    seen_self : seen (both_seen flag i y) i ≡ true
    seen_self =
        get_or-set_self (set flag y true) i true false
          (omega (arith, length-set flag y true, b.whole))

    seen_partner : seen (both_seen flag i y) y ≡ true
    seen_partner =
        get_or-set_ne (set flag y true) i y true false pair.other
        ∙ get_or-set_self flag y true false (omega (arith, b.whole, pair.inside))

    seen_rest : (x : ℕ) → x ≢ i → x ≢ y → seen (both_seen flag i y) x ≡ seen flag x
    seen_rest x ni ny =
        get_or-set_ne (set flag y true) i x true false ni ∙ get_or-set_ne flag y x true false ny

    both_seen-Before : Before (i + 1) (both_seen flag i y)
    both_seen-Before = record {
      whole = length-set (set flag y true) i true ∙ length-set flag y true ∙ b.whole;
      below = λ x l. elim (ℕ_discrete x i) [
        | yes e ↦ subst (λ z. seen (both_seen flag i y) z ≡ true) (sym e) seen_self
        | no ni ↦ seen_rest x ni (λ e. omega (arith, partner-later)) ∙ b.below x (omega arith)
      ];
      together = λ x l t. elim (ℕ_discrete x i) [
        | yes e ↦ subst (λ z. seen (both_seen flag i y) (partner z) ≡ true) (sym e) seen_partner
        | no ni ↦ elim (ℕ_discrete x y) [
          | yes e ↦
              subst (λ z. seen (both_seen flag i y) z ≡ true) (sym (ap partner e ∙ pair.back))
                seen_self
          | no ny ↦
              seen_rest (partner x) (λ e. ny (sym (m.paired x l).back ∙ ap partner e))
                (λ e. ni (sym (m.paired x l).back ∙ ap partner e ∙ pair.back))
              ∙ b.together x l (sym (seen_rest x ni ny) ∙ t)
        ]
      ];
    }

    cost_lem : (stripe_at ss i).cur_cost ≡ compute_cost p (stripe_at ss i) (stripe_at ss y)
    cost_lem = ground (arith, pair.cost, partner-later)

    -- One pair more.
    sent_length :
        (blocks : List MigrationInfo)
        → length (blocks ++ (one_scheme shuffle p i (stripe_at ss i) (stripe_at ss y)).moves)
          ≡ length blocks + (stripe_at ss i).cur_cost
    sent_length blocks = omega (
      arith,
      length-append blocks (one_scheme shuffle p i (stripe_at ss i) (stripe_at ss y)).moves,
      length-one_scheme p (stripe_at ss i) (stripe_at ss y) (m.placed i h) (m.placed y pair.inside)
          small shuffle fair i room some_data,
      cost_lem,
    )

    sent_moves :
        (blocks : List MigrationInfo)
        → All (IsMove p.node_num) blocks
        → All
            (IsMove p.node_num)
            (blocks ++ (one_scheme shuffle p i (stripe_at ss i) (stripe_at ss y)).moves)
    sent_moves blocks a = All-append (IsMove p.node_num) blocks _ a (
        one_scheme-IsMove p (stripe_at ss i) (stripe_at ss y) (m.placed i h)
          (m.placed y pair.inside) small shuffle fair i room some_data nodes)

    abbrev sent : List MigrationInfo → List MigrationInfo
    sent blocks =
        if (stripe_at ss i).cur_cost == 0
        then blocks
        else blocks ++ (one_scheme shuffle p i (stripe_at ss i) (stripe_at ss y)).moves

    abbrev counted : List ℕ → List ℕ
    counted count =
        set count (stripe_at ss i).cur_cost
          ((get_or count (stripe_at ss i).cur_cost 0 + 1) % 2 ^ 32)

    module _ (count : List ℕ) (blocks : List MigrationInfo) (levels : length count ≡ size) where
      counted-sum : sum count + 1 < 2 ^ 32 → sum (counted count) ≡ sum count + 1
      counted-sum l =
          let c : ℕ = (stripe_at ss i).cur_cost in
          omega (
            arith,
            sum-set count c ((get_or count c 0 + 1) % 2 ^ 32) (omega (arith, fits i h, levels)),
            get_or-le-sum count c,
          )

      counted_weight :
          sum count + 1 < 2 ^ 32
          → weighted 0 (counted count) ≡ weighted 0 count + (stripe_at ss i).cur_cost
      counted_weight l =
          let c : ℕ = (stripe_at ss i).cur_cost in
          let exact : (get_or count c 0 + 1) % 2 ^ 32 ≡ get_or count c 0 + 1 =
            omega (arith, get_or-le-sum count c) in
          ap (λ v. weighted 0 (set count c v)) exact
          ∙ omega (arith, weighted-set 0 count c (omega (arith, fits i h, levels)))

      pair-Grown : sum count + 1 < 2 ^ 32 → Grown count (counted count) blocks (sent blocks)
      pair-Grown l = elim (Bool-cases ((stripe_at ss i).cur_cost == 0)) [
        | inl e ↦
            let nothing : (stripe_at ss i).cur_cost ≡ 0 = ground (arith, e) in
            rw e (record { same = omega (arith, counted_weight l, nothing); moves = λ a. a })
        | inr e ↦ rw e (record {
          same = omega (arith, counted_weight l, sent_length blocks);
          moves = sent_moves blocks;
        })
      ]

  Grown-trans :
      (c c' c'' : List ℕ) (b b' b'' : List MigrationInfo)
      → Grown c c' b b'
      → Grown c' c'' b' b''
      → Grown c c'' b b''
  Grown-trans c c' c'' b b' b'' x y = record {
    same = omega (arith, x.same, y.same);
    moves = λ a. y.moves (x.moves a);
  }

  -- The two loops over the same stripes, with the same flags.
  pub loops-Grown :
      (k i : ℕ) (flag : List Bool) (count : List ℕ) (blocks : List MigrationInfo)
      → i + k ≡ n
      → Before i flag
      → length count ≡ size
      → sum count + k < 2 ^ 32
      → Grown count
          (count_pairs ss (range i k) flag count)
          blocks
          (send_pairs shuffle p ss (range i k) flag blocks)
  unfolding count_pairs send_pairs
  loops-Grown zero i flag count blocks e b s l = record { same = refl; moves = λ a. a }
  loops-Grown (suc k) i flag count blocks e b s l = elim (Bool-cases (seen flag i)) [
    | inl t ↦
        let old : is_new flag i (partner i) ≡ false = rw t refl in
        rw (count_pairs, send_pairs, old)
          (loops-Grown k (i + 1) flag count blocks (omega arith) (seen_again i flag b t) s
            (omega arith))
    | inr f ↦
        let h : i < n = omega arith in
        let new = pair-is_new i flag b h f in
        rw (count_pairs, send_pairs, new)
          (Grown-trans _ _ _ _ _ _ (pair-Grown i flag b h f count blocks s (omega arith)) (
            loops-Grown k (i + 1) (both_seen flag i (partner i)) (counted i flag b h f count)
              (sent i flag b h f blocks) (omega arith) (both_seen-Before i flag b h f)
              (length-set count (stripe_at ss i).cur_cost
                  ((get_or count (stripe_at ss i).cur_cost 0 + 1) % 2 ^ 32)
                ∙ s)
              (omega (arith, counted-sum i flag b h f count blocks s (omega arith)))))
  ]

  module _ (whole : length ss ≡ n) where
    same_cost : (i : ℕ) → i < n → (stripe_at ss (partner i)).cur_cost ≡ (stripe_at ss i).cur_cost
    same_cost i h =
        let pair = m.paired i h in
        (m.paired (partner i) pair.inside).cost
        ∙ ap (pair_cost p ss (partner i)) pair.back
        ∙ pair_cost_comm p ss (partner i) i
        ∙ sym pair.cost

    paid-both_seen :
        (i : ℕ) (flag : List Bool)
        → Before i flag
        → i < n
        → seen flag i ≡ false
        → paid (both_seen flag i (partner i)) ss ≡ paid flag ss + 2 * (stripe_at ss i).cur_cost
    paid-both_seen i flag b h new =
        let pair = m.paired i h in
        let first : List Bool = set flag (partner i) true in
        omega (
          arith,
          same_cost i h,
          paid-flag flag ss (partner i) (b.whole ∙ sym whole) (omega (arith, b.whole, pair.inside))
              (partner-new i flag b h new),
          paid-flag first ss i (length-set flag (partner i) true ∙ b.whole ∙ sym whole)
              (omega (arith, length-set flag (partner i) true, b.whole))
              (get_or-set_ne flag (partner i) i true false (λ e. pair.other (sym e)) ∙ new),
        )

    -- The counts end with half of the costs that were not yet counted.
    pub count_pairs-paid :
        (k i : ℕ) (flag : List Bool) (count : List ℕ)
        → i + k ≡ n
        → Before i flag
        → length count ≡ size
        → sum count + k < 2 ^ 32
        → 2 * weighted 0 (count_pairs ss (range i k) flag count) + paid flag ss
          ≡ 2 * weighted 0 count + paid (replicate n true) ss
    unfolding count_pairs
    count_pairs-paid zero i flag count e b s l = omega (
      arith,
      paid-all flag (replicate n true) ss (b.whole ∙ sym (length-replicate n true))
          (λ x h. b.below x (omega (arith, h, b.whole)))
          (λ x h. get_or-replicate-true n x (omega (arith, h, length-replicate n true))),
    )
    count_pairs-paid (suc k) i flag count e b s l = elim (Bool-cases (seen flag i)) [
      | inl t ↦
          let old : is_new flag i (partner i) ≡ false = rw t refl in
          rw (count_pairs, old)
            (count_pairs-paid k (i + 1) flag count (omega arith) (seen_again i flag b t) s
              (omega arith))
      | inr f ↦
          let h : i < n = omega arith in
          let new = pair-is_new i flag b h f in
          let more : sum count + 1 < 2 ^ 32 = omega arith in
          let rest =
            count_pairs-paid k (i + 1) (both_seen flag i (partner i)) (counted i flag b h f count)
              (omega arith) (both_seen-Before i flag b h f)
              (length-set count (stripe_at ss i).cur_cost
                  ((get_or count (stripe_at ss i).cur_cost 0 + 1) % 2 ^ 32)
                ∙ s)
              (omega (arith, counted-sum i flag b h f count [] s more)) in
          rw (count_pairs, new)
            (omega (
              arith,
              rest,
              counted_weight i flag b h f count [] s more,
              paid-both_seen i flag b h f,
            ))
    ]
