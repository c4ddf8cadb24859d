-- ===== src/Worker.antt =====
-- src/compute_worker.cc: the coefficients of the parity blocks. The product of ISA-L is the parameter `gf_mul`.
pub mod Powers
use stripe_merge.Common.{
  ℕ, zero, suc, ◌+◌, ◌-◌, ◌%◌, ◌^◌, Bool, true, false, List, [], ◌∷◌, Option, none, some, ◌==◌,
  if◌then◌else◌, get_or, map, range, inc8,
}

module _ (gf_mul : ℕ → ℕ → ℕ) where
  -- The loop of `get_gf_pow`, on the number of rounds.
  unfoldable pub pow_rounds : ℕ → ℕ → ℕ → ℕ
  pow_rounds zero a result = result
  pow_rounds (suc rounds) a result = pow_rounds rounds a (gf_mul result a)

  -- `k` is a `uint8_t`.
  unfoldable pub get_gf_pow : ℕ → ℕ → ℕ
  unfolding pow_rounds
  get_gf_pow a k = if a == 1 then 1 else pow_rounds (k % 2 ^ 8 - 1) a a

  -- `init_ec_table`: the matrix `{1, (i + 1)^k}` of each parity block, from which ISA-L makes its table.
  unfoldable pub init_ec_table : ℕ → ℕ → List (ℕ × ℕ)
  unfolding get_gf_pow inc8
  init_ec_table rs_k rs_m = map (λ i. (1, get_gf_pow (inc8 i) rs_k)) (range 0 rs_m)
