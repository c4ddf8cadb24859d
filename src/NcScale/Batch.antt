-- ===== src/NcScale/Batch.antt =====
-- The numbers that the constructor of `NCScaleSimulation` computes, without the wrap-around.
use native.Mathlib.Nat.{mul-div_cancel}
use stripe_merge.Common.{
  ℕ, zero, suc, ◌+◌, ◌-◌, ◌*◌, ◌/◌, ◌^◌, ◌≤◌, ◌<◌, ◌≡◌, refl, sym, ap, ap₂, subst, ◌∙◌, arith,
}
use stripe_merge.NcScale.{NcScale, new_ncscale, w32, dec32}

-- Half of a batch, per node.
abbrev pub per_node : ℕ → ℕ → ℕ
per_node k m = k * (2 * k + m)

pub batch-expand : (k m : ℕ) → 2 * k * (k + m) * (2 * k + m) ≡ per_node k m * (k + m) * 2
batch-expand k m = omega arith

pub per_node-positive : (k m : ℕ) → 0 < k → 0 < per_node k m
per_node-positive zero m h = absurd (omega arith)
per_node-positive (suc k) m h = omega arith

pub le-mul_right : (a n : ℕ) → 0 < n → a ≤ a * n
le-mul_right a zero h = absurd (omega arith)
le-mul_right a (suc n) h = omega arith

mul-add_swap : (z k m : ℕ) → z * (k + m) ≡ k * z + m * z
mul-add_swap z k m = omega arith

pub pred-mul : (m z : ℕ) → 0 < m → (m - 1) * z + z ≡ m * z
pred-mul zero z h = absurd (omega arith)
pred-mul (suc m) z h = let e : suc m - 1 ≡ m = omega arith in ap (λ x. x * z + z) e ∙ omega arith

pub factors : (n r x z : ℕ) → n * (r * x) + n * (r * z) ≡ n * (r * (x + z))
factors n r x z = omega arith

-- What the constructor computes when nothing overflows.
abbrev pub exact : (k m n z : ℕ) → NcScale
exact k m n z = record {
  rs_k = k;
  rs_m = m;
  rs_n = n;
  batch_size = z * n * 2;
  scaling_num = z * n;
  single_scaling_num = z;
  single_total_cost = n - 1;
  single_mig_cost = k;
  single_delta_cost = m - 1;
  old_migration_num = k * z;
  old_delta_num = (m - 1) * z;
  new_recv_num = z * n;
}

pub new_ncscale-exact :
    (k m n z : ℕ)
    → k + m ≡ n
    → per_node k m ≡ z
    → 0 < k
    → 0 < m
    → z * n * 2 < 2 ^ 32
    → new_ncscale k m ≡ exact k m n z
unfolding new_ncscale
new_ncscale-exact k m n z e ez hk hm fits =
    let some_z : 0 < z = subst (λ x. 0 < x) ez (per_node-positive k m hk) in
    let some_n : 0 < n = omega arith in
    let n_le : n ≤ n * z = le-mul_right n z some_z in
    let z_le : z ≤ z * n = le-mul_right z n some_n in
    let product : z * (k + m) ≡ z * n = ap (λ x. z * x) e in
    let split : z * n ≡ k * z + m * z = sym product ∙ mul-add_swap z k m in
    let one_less : (m - 1) * z + z ≡ m * z = pred-mul m z hm in
    let e1 : w32 (k + m) ≡ n = omega arith in
    let e2 : 2 * k * (k + m) * (2 * k + m) ≡ z * n * 2 =
      batch-expand k m ∙ ap₂ (λ x y. x * y * 2) ez e in
    let e3 : w32 (z * n * 2) ≡ z * n * 2 = omega arith in
    let e4 : z * n * 2 / 2 ≡ z * n = omega arith in
    let e5 : z * n / n ≡ z = mul-div_cancel z some_n in
    let e6 : dec32 n ≡ n - 1 = omega arith in
    let e7 : dec32 m ≡ m - 1 = omega arith in
    let e8 : w32 (k * z) ≡ k * z = omega arith in
    let e9 : w32 ((m - 1) * z) ≡ (m - 1) * z = omega arith in
    let e10 : w32 (z * n) ≡ z * n = omega arith in rw (e1, e2, e3, e4, e5, e6, e7, e8, e9, e10) refl
