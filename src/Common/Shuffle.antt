-- ===== src/Common/Shuffle.antt =====
-- What the program relies on of `std::shuffle` of the C++ library.
use Prim.Native.Nat.{ℕ}
use mathlib.Core.Path.{◌≡◌}
use mathlib.Core.List.{List}
use stripe_merge.Common.Lists.{length, count}

-- `std::shuffle` permutes its range, whatever the seed.
pub record IsShuffle (shuffle : ℕ → List ℕ → List ℕ) : Type 0 where
  pub same_length : (seed : ℕ) (xs : List ℕ) → length (shuffle seed xs) ≡ length xs
  pub same_count : (seed z : ℕ) (xs : List ℕ) → count z (shuffle seed xs) ≡ count z xs
