-- ===== src/Matching/Scheme/Moves.antt =====
-- What `MatchingGenerator::get_one_scheme` plans for a pair of stripes: how many moves, between which
-- nodes, and where the blocks end up.
use stripe_merge.Common.{
  ℕ, suc, ◌+◌, ◌*◌, ◌≤◌, ◌<◌, ◌≡◌, ◌≢◌, Bool, inl, inr, List, [], ◌∷◌, ◌++◌, arith, ◌==◌,
  Bool-cases, if◌then◌else◌, length, All, AllBelow, All-append,
}
use stripe_merge.Stripe.{Tally, parity_step, parity_loop, parity_dest}
use stripe_merge.Stripe.Cost.{mismatches}
use stripe_merge.Migration.{MigrationInfo, migration}
use stripe_merge.Matching.Scheme.{Plan, blocks_on, place_parity, place_parities}
use stripe_merge.Matching.Scheme.Cost.{
  Agrees, visit-Agrees, move-Agrees, hosts-place_parity, moves-place_parity,
}

pub AllBelow-append-left : (n : ℕ) (xs ys : List ℕ) → AllBelow n (xs ++ ys) → AllBelow n xs
AllBelow-append-left n [] ys h = tt
AllBelow-append-left n (x ∷ xs) ys h = (h.0, AllBelow-append-left n xs ys h.1)

pub AllBelow-append-right : (n : ℕ) (xs ys : List ℕ) → AllBelow n (xs ++ ys) → AllBelow n ys
AllBelow-append-right n [] ys h = h
AllBelow-append-right n (x ∷ xs) ys h = AllBelow-append-right n xs ys h.1

parity_dest-lt : (n x y : ℕ) (flag : List Bool) → x < n → y < n → parity_dest flag x y < n
unfolding parity_dest
parity_dest-lt n x y flag hx hy = ground arith

parity_step-Agrees :
    (n placed moved i x y : ℕ) (t : Tally) (s : Plan)
    → x < n
    → y < n
    → moved + placed + 2 < 256
    → Agrees n placed moved t s.hosts
    → Agrees n
        (placed + 1)
        (moved + (if x == y then 0 else 1))
        (parity_step x y t)
        (place_parity i x y s).hosts
unfolding parity_step
parity_step-Agrees n placed moved i x y t s hx hy small a =
    rw (hosts-place_parity i x y t s (a.marks x)) (elim (Bool-cases (x == y)) [
      | inl same ↦
          let e : moved + 0 ≡ moved = omega arith in
          rw same (
            rw e (
              visit-Agrees n placed moved _ t s.hosts a (parity_dest-lt n x y t.flag hx hy)
                (omega arith)))
      | inr other ↦ rw other (
          visit-Agrees n placed (moved + 1) _ _ s.hosts
            (move-Agrees n placed moved x t s.hosts a (omega arith))
            (parity_dest-lt n x y t.flag hx hy) (omega arith))
    ])

-- What the loop over the parity blocks gives: the counts agree, `more` moves are planned and all are as
-- `P` says.
pub record Placed (P : MigrationInfo → Type 0) (n placed moved more : ℕ) (t : Tally) (s s' : Plan)
    : Type 0 where
  pub agrees : Agrees n placed moved t s'.hosts
  pub planned : length s'.moves ≡ length s.moves + more
  pub good : All P s.moves → All P s'.moves

module _ (P : MigrationInfo → Type 0) (n : ℕ) where
  -- A move of parity block `i` is as `P` says.
  abbrev pub ParityGood : Type 0
  ParityGood = (i x y : ℕ) → i < 255 → x < n → y < n → x ≢ y → P (migration (x + 1) (y + 1) (i + 1))

  place_parity-good :
      (i x y : ℕ) (s : Plan)
      → i < 255
      → x < n
      → y < n
      → ParityGood
      → All P s.moves
      → All P (place_parity i x y s).moves
  unfolding place_parity
  place_parity-good i x y s hi hx hy good g = elim (Bool-cases (x == y)) [
    | inl same ↦ rw same g
    | inr other ↦ elim (Bool-cases (blocks_on s.hosts x == 0)) [
      | inl free ↦
          rw (other, free) (All-append P s.moves _ g (good i y x hi hy hx (λ e. ground arith), tt))
      | inr taken ↦
          rw (other, taken) (All-append P s.moves _ g (good i x y hi hx hy (λ e. ground arith), tt))
    ]
  ]

  pub place_parities-Placed :
      (placed moved i : ℕ) (xs ys : List ℕ) (t : Tally) (s : Plan)
      → length xs ≡ length ys
      → AllBelow n xs
      → AllBelow n ys
      → moved + placed + 2 * length xs < 256
      → i + length xs < 256
      → ParityGood
      → Agrees n placed moved t s.hosts
      → Placed P n
          (placed + length xs)
          (moved + mismatches xs ys)
          (mismatches xs ys)
          (parity_loop xs ys t)
          s
          (place_parities i xs ys s)
  unfolding parity_loop place_parities
  place_parities-Placed placed moved i [] [] t s e bx by small hi good a =
      let e1 : placed + 0 ≡ placed = omega arith in
      let e2 : moved + 0 ≡ moved = omega arith in
      rw (e1, e2) (record { agrees = a; planned = omega arith; good = λ g. g })
  place_parities-Placed placed moved i [] (y ∷ ys) t s e bx by small hi good a =
      absurd (omega arith)
  place_parities-Placed placed moved i (x ∷ xs) [] t s e bx by small hi good a =
      absurd (omega arith)
  place_parities-Placed placed moved i (x ∷ xs) (y ∷ ys) t s e bx by small hi good a =
      let step : ℕ = if x == y then 0 else 1 in
      let step-le : step ≤ 1 = ground arith in
      let e1 : placed + suc (length xs) ≡ placed + 1 + length xs = omega arith in
      let e2 : moved + (step + mismatches xs ys) ≡ moved + step + mismatches xs ys = omega arith in
      let r =
        place_parities-Placed (placed + 1) (moved + step) (i + 1) xs ys _ (place_parity i x y s)
          (omega arith) bx.1 by.1 (omega arith) (omega arith) good
          (parity_step-Agrees n placed moved i x y t s bx.0 by.0 (omega arith) a) in
      rw (e1, e2)
        (record {
          agrees = r.agrees;
          planned = omega (arith, r.planned, moves-place_parity i x y s);
          good = λ g. r.good (place_parity-good i x y s (omega arith) bx.0 by.0 good g);
        })
