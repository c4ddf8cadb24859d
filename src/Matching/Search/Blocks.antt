-- ===== src/Matching/Search/Blocks.antt =====
-- The stripes keep their blocks while they are matched, so that the costs of pairs stay.
use stripe_merge.Common.{
  ℕ, ◌^◌, ◌<◌, ◌≡◌, ◌≢◌, refl, sym, ◌∙◌, inl, inr, List, none, length, arith, set, true, count_true,
  get_or-set_self, get_or-set_ne, length-set, ◌+◌, if◌then◌else◌, ℕ_discrete, zero, suc, [], ◌∷◌,
  subst, ap,
}
use stripe_merge.Stripe.{Params, Stripe, blank}
use stripe_merge.Matching.{stripe_at}
use stripe_merge.Matching.CostTable.{get_cost, static_c}
use stripe_merge.Matching.CostTable.Cached.{pair_cost, Cached, get_cost_lem}
use stripe_merge.Matching.Marks.{matched_with, pair_up}
use stripe_merge.Matching.Greedy.Result.{compute_cost-cong}
use stripe_merge.Matching.Greedy.Stable.{eligible}

pub record SameBlocks (old ss : List Stripe) : Type 0 where
  pub raw : (x : ℕ) → (stripe_at ss x).data_dist ≡ (stripe_at old x).data_dist
  pub parity : (x : ℕ) → (stripe_at ss x).parity_dist ≡ (stripe_at old x).parity_dist

pub pair_cost-SameBlocks :
    (p : Params) (old ss : List Stripe) (i j : ℕ)
    → SameBlocks old ss
    → pair_cost p ss i j ≡ pair_cost p old i j
pair_cost-SameBlocks p old ss i j b = ground (
  arith,
  compute_cost-cong p (stripe_at ss i) (stripe_at old i) (stripe_at ss j) (stripe_at old j)
      (b.raw i) (b.parity i) (b.raw j) (b.parity j),
  compute_cost-cong p (stripe_at ss j) (stripe_at old j) (stripe_at ss i) (stripe_at old i)
      (b.raw j) (b.parity j) (b.raw i) (b.parity i),
)

pub Cached-SameBlocks :
    (p : Params) (old ss : List Stripe) (n : ℕ) (table : List ℕ)
    → SameBlocks old ss
    → Cached p old n table
    → Cached p ss n table
Cached-SameBlocks p old ss n table b a = record {
  size = a.size;
  sound = λ i j h l. elim (a.sound i j h l) [
    | inl e ↦ inl e
    | inr e ↦ inr (
        e
        ∙ sym (
            compute_cost-cong p (stripe_at ss i) (stripe_at old i) (stripe_at ss j)
              (stripe_at old j) (b.raw i) (b.parity i) (b.raw j) (b.parity j)))
  ];
}

pub SameBlocks-sym : (old ss : List Stripe) → SameBlocks old ss → SameBlocks ss old
SameBlocks-sym old ss b = record { raw = λ x. sym (b.raw x); parity = λ x. sym (b.parity x) }

-- `get_cost` on stripes that were matched since.
pub get_cost-SameBlocks :
    (p : Params) (old ss : List Stripe) (n : ℕ) (table : List ℕ)
    → n < 2 ^ 31
    → SameBlocks old ss
    → Cached p old n table
    → (i j : ℕ) → i ≢ j
    → i < n
    → j < n
    → ((get_cost (static_c none n) p ss table i j).0 ≡ pair_cost p old i j)
      × Cached p old n (get_cost (static_c none n) p ss table i j).1
get_cost-SameBlocks p old ss n table small b a i j ne hi hj =
    let (cost, sound) =
      get_cost_lem p ss n table small (Cached-SameBlocks p old ss n table b a) i j ne hi hj in
    (
      cost ∙ pair_cost-SameBlocks p old ss i j b,
      Cached-SameBlocks p ss old n (get_cost (static_c none n) p ss table i j).1
          (SameBlocks-sym old ss b) sound,
    )

pub SameBlocks-set :
    (old ss : List Stripe) (i : ℕ) (s : Stripe)
    → i < length ss
    → s.data_dist ≡ (stripe_at ss i).data_dist
    → s.parity_dist ≡ (stripe_at ss i).parity_dist
    → SameBlocks old ss
    → SameBlocks old (set ss i s)
SameBlocks-set old ss i s h d q b = record {
  raw = λ x. elim (ℕ_discrete x i) [
    | yes e ↦
        subst (λ y. (stripe_at (set ss i s) y).data_dist ≡ (stripe_at old y).data_dist) (sym e)
          (ap (λ (t : Stripe). t.data_dist) (get_or-set_self ss i s blank h) ∙ d ∙ b.raw i)
    | no ne ↦ ap (λ (t : Stripe). t.data_dist) (get_or-set_ne ss i x s blank ne) ∙ b.raw x
  ];
  parity = λ x. elim (ℕ_discrete x i) [
    | yes e ↦
        subst (λ y. (stripe_at (set ss i s) y).parity_dist ≡ (stripe_at old y).parity_dist) (sym e)
          (ap (λ (t : Stripe). t.parity_dist) (get_or-set_self ss i s blank h) ∙ q ∙ b.parity i)
    | no ne ↦ ap (λ (t : Stripe). t.parity_dist) (get_or-set_ne ss i x s blank ne) ∙ b.parity x
  ];
}

pub pair_up-SameBlocks :
    (old ss : List Stripe) (i j cost : ℕ)
    → i < length ss
    → j < length ss
    → SameBlocks old ss
    → SameBlocks old (pair_up i j cost ss)
unfolding pair_up
pair_up-SameBlocks old ss i j cost h l b =
    let first = set ss i (matched_with j cost (stripe_at ss i)) in
    SameBlocks-set old first j (matched_with i cost (stripe_at first j))
      (omega (arith, l, length-set ss i (matched_with j cost (stripe_at ss i)))) refl refl
      (SameBlocks-set old ss i (matched_with j cost (stripe_at ss i)) h refl refl b)

-- How many stripes are free.
abbrev pub free_count : List Stripe → ℕ
free_count ss = count_true (eligible true ss)

abbrev pub one_free : Stripe → ℕ
one_free s = if s.selected then 0 else 1

pub free_count-set :
    (ss : List Stripe) (i : ℕ) (s : Stripe)
    → i < length ss
    → free_count (set ss i s) + one_free (stripe_at ss i) ≡ free_count ss + one_free s
free_count-set [] i s h = absurd (omega arith)
free_count-set (t ∷ ss) zero s h = ground arith
free_count-set (t ∷ ss) (suc i) s h = omega (arith, free_count-set ss i s (omega arith))
