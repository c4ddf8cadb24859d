-- ===== src/Matching/Greedy/Weights.antt =====
-- The counts of `basic_greedy` and `print_statics` by cost, the sum that `add_costs` makes of them, and the costs
-- of the stripes that are flagged.
use stripe_merge.Common.{
  Bool, if◌then◌else◌, true, false, ◌==◌, ℕ, zero, suc, ◌+◌, ◌*◌, ◌%◌, ◌^◌, ◌<◌, ◌≡◌, refl, List,
  [], ◌∷◌, arith, length, get_or, set, replicate,
}
use stripe_merge.Stripe.{Stripe}
use stripe_merge.Matching.{stripe_at}
use stripe_merge.Matching.Greedy.{add_costs}

-- The sum of cost times count, where the first count is that of the cost `k`.
abbrev pub weighted : ℕ → List ℕ → ℕ
weighted k [] = 0
weighted k (x ∷ xs) = k * x + weighted (k + 1) xs

pub weighted-set :
    (k : ℕ) (xs : List ℕ) (i : ℕ)
    → i < length xs
    → weighted k (set xs i (get_or xs i 0 + 1)) ≡ weighted k xs + (k + i)
weighted-set k [] i h = absurd (omega arith)
weighted-set k (x ∷ xs) zero h = omega arith
weighted-set k (x ∷ xs) (suc i) h = omega (arith, weighted-set (k + 1) xs i (omega arith))

pub weighted-replicate_zero : (k n : ℕ) → weighted k (replicate n 0) ≡ 0
weighted-replicate_zero k zero = refl
weighted-replicate_zero k (suc n) = omega (arith, weighted-replicate_zero (k + 1) n)

pub add_costs-weighted :
    (k : ℕ) (xs : List ℕ) (total : ℕ)
    → total < 2 ^ 32
    → add_costs k xs total ≡ (total + weighted k xs) % 2 ^ 32
unfolding add_costs
add_costs-weighted k [] total h = omega arith
add_costs-weighted k (zero ∷ xs) total h = omega (arith, add_costs-weighted (k + 1) xs total h)
add_costs-weighted k (suc x ∷ xs) total h =
    let ne : (suc x == 0) ≡ false = ground arith in
    let inner : ℕ = (total + k * suc x) % 2 ^ 32 in
    rw ne (omega (arith, add_costs-weighted (k + 1) xs inner (omega arith)))

-- The costs of the stripes whose flag is set.
abbrev pub paid : List Bool → List Stripe → ℕ
paid [] ss = 0
paid (b ∷ bs) [] = 0
paid (b ∷ bs) (s ∷ ss) = (if b then s.cur_cost else 0) + paid bs ss

pub paid-replicate : (n : ℕ) (ss : List Stripe) → paid (replicate n false) ss ≡ 0
paid-replicate zero ss = refl
paid-replicate (suc n) [] = refl
paid-replicate (suc n) (s ∷ ss) = omega (arith, paid-replicate n ss)

-- A flag is set, and its stripe written.
pub paid-set :
    (bs : List Bool) (ss : List Stripe) (i : ℕ) (t : Stripe)
    → length bs ≡ length ss
    → i < length bs
    → get_or bs i false ≡ false
    → paid (set bs i true) (set ss i t) ≡ paid bs ss + t.cur_cost
paid-set [] ss i t e h f = absurd (omega arith)
paid-set (b ∷ bs) [] i t e h f = absurd (omega arith)
paid-set (b ∷ bs) (s ∷ ss) zero t e h f = ground (arith, f)
paid-set (b ∷ bs) (s ∷ ss) (suc i) t e h f =
    omega (arith, paid-set bs ss i t (omega arith) (omega arith) f)

-- A flag is set.
pub paid-flag :
    (bs : List Bool) (ss : List Stripe) (i : ℕ)
    → length bs ≡ length ss
    → i < length bs
    → get_or bs i false ≡ false
    → paid (set bs i true) ss ≡ paid bs ss + (stripe_at ss i).cur_cost
paid-flag [] ss i e h f = absurd (omega arith)
paid-flag (b ∷ bs) [] i e h f = absurd (omega arith)
paid-flag (b ∷ bs) (s ∷ ss) zero e h f = ground (arith, f)
paid-flag (b ∷ bs) (s ∷ ss) (suc i) e h f =
    omega (arith, paid-flag bs ss i (omega arith) (omega arith) f)

-- With all flags set, the costs of all stripes.
pub paid-all :
    (bs cs : List Bool) (ss : List Stripe)
    → length bs ≡ length cs
    → ((x : ℕ) → x < length bs → get_or bs x false ≡ true)
    → ((x : ℕ) → x < length cs → get_or cs x false ≡ true)
    → paid bs ss ≡ paid cs ss
paid-all [] [] ss e h k = refl
paid-all [] (c ∷ cs) ss e h k = absurd (omega arith)
paid-all (b ∷ bs) [] ss e h k = absurd (omega arith)
paid-all (b ∷ bs) (c ∷ cs) [] e h k = refl
paid-all (b ∷ bs) (c ∷ cs) (s ∷ ss) e h k = ground (
  arith,
  h 0 (omega arith),
  k 0 (omega arith),
  paid-all bs cs ss (omega arith) (λ x l. h (suc x) (omega (arith, l)))
      (λ x l. k (suc x) (omega (arith, l))),
)
