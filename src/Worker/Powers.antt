-- ===== src/Worker/Powers.antt =====
-- The coefficients of src/compute_worker.cc: powers in the field that ISA-L computes with.
use stripe_merge.Common.{
  ℕ, zero, suc, ◌-◌, ◌%◌, ◌^◌, ◌<◌, ◌≡◌, refl, sym, ap, ◌∙◌, arith, ◌==◌, true, false, ℕ_discrete,
}
use stripe_merge.Worker.{pow_rounds, get_gf_pow}

module _ (gf_mul : ℕ → ℕ → ℕ)
    (assoc : (x y z : ℕ) → gf_mul (gf_mul x y) z ≡ gf_mul x (gf_mul y z)) where
  pow_rounds-pull :
      (rounds a x y : ℕ)
      → gf_mul x (pow_rounds gf_mul rounds a y) ≡ pow_rounds gf_mul rounds a (gf_mul x y)
  unfolding pow_rounds
  pow_rounds-pull zero a x y = refl
  pow_rounds-pull (suc rounds) a x y =
      pow_rounds-pull rounds a x (gf_mul y a) ∙ ap (pow_rounds gf_mul rounds a) (sym (assoc x y a))

  -- The product of `k` factors.
  abbrev pub power : ℕ → ℕ → ℕ
  power a zero = 1
  power a (suc zero) = a
  power a (suc (suc k)) = gf_mul a (power a (suc k))

  pow_rounds-power : (k a : ℕ) → pow_rounds gf_mul k a a ≡ power a (suc k)
  unfolding pow_rounds
  pow_rounds-power zero a = refl
  pow_rounds-power (suc k) a = sym (pow_rounds-pull k a a a) ∙ ap (gf_mul a) (pow_rounds-power k a)

  power-one : gf_mul 1 1 ≡ 1 → (k : ℕ) → power 1 (suc k) ≡ 1
  power-one one zero = refl
  power-one one (suc k) = ap (gf_mul 1) (power-one one k) ∙ one

  -- When `gf_mul` is associative and 1 times 1 is 1, `get_gf_pow` with an exponent from 1 to 255 is
  -- the power of the coefficient: as many factors multiplied one after the other.
  pub get_gf_pow-power :
      (a k : ℕ) → gf_mul 1 1 ≡ 1 → 0 < k → k < 2 ^ 8 → get_gf_pow gf_mul a k ≡ power a k
  unfolding get_gf_pow
  get_gf_pow-power a k one h l =
      let byte : k % 2 ^ 8 - 1 ≡ k - 1 = omega (arith, l) in
      let whole : suc (k - 1) ≡ k = omega (arith, h) in
      elim (ℕ_discrete a 1) [
        | yes e ↦
            let same : (a == 1) ≡ true = ground (arith, e) in
            let all : power a (suc (k - 1)) ≡ 1 =
              ap (λ b. power b (suc (k - 1))) e ∙ power-one one (k - 1) in
            rw same (sym all ∙ ap (power a) whole)
        | no ne ↦
            let other : (a == 1) ≡ false = ground (arith, ne) in
            rw other (
              ap (λ n. pow_rounds gf_mul n a a) byte
              ∙ pow_rounds-power (k - 1) a
              ∙ ap (power a) whole)
      ]
