-- ===== src/Matching/Scheme/Excess.antt =====
-- How many blocks are one too many on their node, in the array `host_blocks_num`.
use stripe_merge.Common.{
  ℕ, zero, suc, ◌+◌, ◌-◌, ◌<◌, ◌≡◌, refl, inl, inr, List, [], ◌∷◌, arith, Bool-cases, if◌then◌else◌,
  ◌==◌, length, get_or, set, replicate, sum, count,
}
use stripe_merge.Matching.Scheme.{available_nodes}

abbrev pub excess : List ℕ → ℕ
excess [] = 0
excess (h ∷ hs) = (h - 1) + excess hs

pub excess-replicate_zero : (n : ℕ) → excess (replicate n 0) ≡ 0
excess-replicate_zero zero = refl
excess-replicate_zero (suc n) = omega (arith, excess-replicate_zero n)

pub excess-set :
    (hs : List ℕ) (x : ℕ)
    → x < length hs
    → excess (set hs x (get_or hs x 0 + 1)) ≡ excess hs + (if get_or hs x 0 == 0 then 0 else 1)
excess-set [] x h = absurd (omega arith)
excess-set (h ∷ hs) zero lt = ground arith
excess-set (h ∷ hs) (suc x) lt = omega (arith, excess-set hs x)

-- The blocks and the free nodes together are the nodes and the blocks that are too many.
pub available-excess :
    (i : ℕ) (hs : List ℕ) → sum hs + length (available_nodes i hs) ≡ length hs + excess hs
unfolding available_nodes
available-excess i [] = omega arith
available-excess i (h ∷ hs) = ground (arith, available-excess (i + 1) hs)

-- A node in `available_nodes` holds no block.
pub available-free :
    (i : ℕ) (hs : List ℕ) (x : ℕ)
    → 0 < count x (available_nodes i hs)
    → (j : ℕ) × (x ≡ i + j) × (j < length hs) × (get_or hs j 0 ≡ 0)
unfolding available_nodes
available-free i [] x h = absurd (omega arith)
available-free i (h ∷ hs) x e = elim (Bool-cases (h == 0)) [
  | inl free ↦ elim (Bool-cases (x == i)) [
    | inl here ↦ (0, ground arith, ground arith, ground arith)
    | inr there ↦
        let (j, p, q, r) = available-free (i + 1) hs x (ground arith) in
        (suc j, omega arith, omega arith, r)
  ]
  | inr used ↦
      let (j, p, q, r) = available-free (i + 1) hs x (ground arith) in
      (suc j, omega arith, omega arith, r)
]
