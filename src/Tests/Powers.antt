-- ===== src/Tests/Powers.antt =====
-- The powers of a coefficient, with the product of numbers in place of the field's.
use stripe_merge.Common.{ℕ, ◌*◌, ◌≡◌, refl, arith}
use stripe_merge.Worker.{get_gf_pow}
use stripe_merge.Worker.Powers.{power, get_gf_pow-power}

abbrev product : ℕ → ℕ → ℕ
product x y = x * y

get_gf_pow-power_example : get_gf_pow product 3 4 ≡ power product (λ x y z. omega arith) 3 4
get_gf_pow-power_example =
    get_gf_pow-power product (λ x y z. omega arith) 3 4 refl (omega arith) (omega arith)
