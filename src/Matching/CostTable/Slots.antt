-- ===== src/Matching/CostTable/Slots.antt =====
-- The cells of the triangular table: each pair of stripes has one of its own, and none is outside.
use native.Mathlib.Nat.{mul-le-mul}
use stripe_merge.Common.{
  ℕ, zero, suc, ◌+◌, ◌-◌, ◌*◌, ◌/◌, ◌%◌, ◌^◌, ◌≤◌, ◌<◌, ◌≡◌, sym, ap, ◌∙◌, none, arith, dec_lt,
}
use stripe_merge.Matching.CostTable.{static_c, slot, token, token_i, token_j}

-- Row `i` starts at cell `row n i + i`: the rows before it hold n - 1, n - 2, … cells.
row : ℕ → ℕ → ℕ
row n zero = 0
row n (suc i) = row n i + (n - 2 - i)

row-double : (n i d : ℕ) → d + i + 3 ≡ 2 * n → i < n → 2 * row n i ≡ i * d
unfolding row
row-double n zero d e h = omega arith
row-double n (suc i) d e h = omega (arith, row-double n i (suc d) (omega arith) (omega arith))

row-next : (n i k : ℕ) → i < k → k < n → row n i + n ≤ row n k + k + 1
unfolding row
row-next n i zero h l = absurd (omega arith)
row-next n i (suc k) h l = elim (dec_lt i k) [
  | yes p ↦ omega (arith, row-next n i k p (omega arith))
  | no q ↦ let e : i ≡ k = omega arith in rw e (omega arith)
]

pub static_c_lem : (n : ℕ) → 1 < n → n < 2 ^ 31 → static_c none n + 3 ≡ 2 * n
unfolding static_c
static_c_lem n h l = omega arith

-- Without the wrap-around.
slot-row :
    (c n i j : ℕ) → c + 3 ≡ 2 * n → n < 2 ^ 31 → i < j → j < n → slot c i j ≡ row n i + (j - 1)
unfolding slot
slot-row c n i j e small h l =
    let d : ℕ = c - i in
    let twice : 2 * row n i ≡ i * d = row-double n i d (omega arith) (omega arith) in
    let bound : i * d ≤ 2 ^ 31 * 2 ^ 32 =
      mul-le-mul {n₂ = 2 ^ 31} {m₂ = 2 ^ 32} (omega arith) (omega arith) in
    let sub : (c + (2 ^ 64 - i)) % 2 ^ 64 ≡ d = omega arith in rw sub (omega arith)

square : (n : ℕ) → 1 < n → n * (n - 1) ≡ (n - 1) * (n - 2) + 2 * (n - 1)
square zero h = omega arith
square (suc zero) h = omega arith
square (suc (suc m)) h =
    let e1 : suc (suc m) - 1 ≡ m + 1 = omega arith in
    let e2 : suc (suc m) - 2 ≡ m = omega arith in rw (e1, e2) (omega arith)

-- For fewer than 2^31 stripes and the `c` of that number, the cell of every pair lies in the table.
pub slot-lt :
    (c n i j : ℕ) → c + 3 ≡ 2 * n → n < 2 ^ 31 → i < j → j < n → slot c i j < n * (n - 1) / 2
slot-lt c n i j e small h l =
    let whole : 2 * row n (n - 1) ≡ (n - 1) * (n - 2) =
      row-double n (n - 1) (n - 2) (omega arith) (omega arith) in
    let area : n * (n - 1) ≡ (n - 1) * (n - 2) + 2 * (n - 1) = square n (omega arith) in
    let room : row n i + n ≤ row n (n - 1) + (n - 1) + 1 =
      row-next n i (n - 1) (omega arith) (omega arith) in
    rw (slot-row c n i j e small h l) (omega arith)

-- For fewer than 2^31 stripes and the `c` of that number, different pairs have different cells.
pub slot-injective :
    (c n i j k l : ℕ)
    → c + 3 ≡ 2 * n
    → n < 2 ^ 31
    → i < j
    → j < n
    → k < l
    → l < n
    → slot c i j ≡ slot c k l
    → (i ≡ k) × (j ≡ l)
slot-injective c n i j k l e small hij hj hkl hl s =
    let same : row n i + (j - 1) ≡ row n k + (l - 1) =
      sym (slot-row c n i j e small hij hj) ∙ s ∙ slot-row c n k l e small hkl hl in
    let rows : i ≡ k = elim (dec_lt i k) [
      | yes p ↦ absurd (omega (arith, row-next n i k p (omega arith)))
      | no q ↦ elim (dec_lt k i) [
        | yes p ↦ absurd (omega (arith, row-next n k i p (omega arith)))
        | no r ↦ omega arith
      ]
    ] in
    (rows, omega (arith, ap (row n) rows))

-- For two indexes below 2^32, the fields that `basic_greedy` reads back from a token are the two
-- indexes that it was made of.
pub token-fields :
    (i j : ℕ) → i < 2 ^ 32 → j < 2 ^ 32 → (token_i (token i j) ≡ i) × (token_j (token i j) ≡ j)
unfolding token token_i token_j
token-fields i j hi hj = omega arith
