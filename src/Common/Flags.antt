-- ===== src/Common/Flags.antt =====
-- Arrays of `bool`: how many are set.
use Prim.Native.Nat.{ℕ, zero, suc, ◌+◌, ◌≤◌, ◌<◌}
use mathlib.Core.Logic.{◌≢◌}
use mathlib.Core.Path.{◌≡◌, refl, sym, ◌∙◌}
use mathlib.Core.Bool.{Bool, true, false}
use mathlib.Core.List.{List, [], ◌∷◌}
use native.Mathlib.Omega.{arith}
use stripe_merge.Common.Tests.{if◌then◌else◌}
use stripe_merge.Common.Lists.{length, get_or, set, replicate}

abbrev pub count_true : List Bool → ℕ
count_true [] = 0
count_true (b ∷ bs) = (if b then 1 else 0) + count_true bs

pub count_true-replicate : (n : ℕ) → count_true (replicate n false) ≡ 0
count_true-replicate zero = refl
count_true-replicate (suc n) = omega (arith, count_true-replicate n)

pub count_true-set :
    (bs : List Bool) (i : ℕ)
    → i < length bs
    → get_or bs i false ≡ false
    → count_true (set bs i true) ≡ count_true bs + 1
count_true-set [] i h e = absurd (omega arith)
count_true-set (b ∷ bs) zero h e = ground arith
count_true-set (b ∷ bs) (suc i) h e = omega (arith, count_true-set bs i (omega arith) e)

pub count_true-le :
    (bs cs : List Bool)
    → length bs ≡ length cs
    → ((x : ℕ) → get_or bs x false ≡ true → get_or cs x false ≡ true)
    → count_true bs ≤ count_true cs
count_true-le [] cs e h = omega arith
count_true-le (b ∷ bs) [] e h = absurd (omega arith)
count_true-le (b ∷ bs) (d ∷ cs) e h =
    ground (arith, h 0, count_true-le bs cs (omega arith) (λ x. h (suc x)))

pub count_true-all :
    (bs : List Bool)
    → ((x : ℕ) → x < length bs → get_or bs x false ≡ true)
    → count_true bs ≡ length bs
count_true-all [] h = refl
count_true-all (b ∷ bs) h =
    ground (arith, h 0 (omega arith), count_true-all bs (λ x l. h (suc x) (omega (arith, l))))

-- One entry that is not set.
pub count_true-all_but :
    (bs : List Bool) (x : ℕ)
    → x < length bs
    → get_or bs x false ≡ false
    → ((y : ℕ) → y < length bs → y ≢ x → get_or bs y false ≡ true)
    → count_true bs + 1 ≡ length bs
count_true-all_but [] x h e o = absurd (omega arith)
count_true-all_but (b ∷ bs) zero h e o =
    ground
      (arith, e, count_true-all bs (λ y l. o (suc y) (omega (arith, l)) (λ z. omega (arith, z))))
count_true-all_but (b ∷ bs) (suc x) h e o = ground (
  arith,
  o 0 (omega arith) (λ z. omega (arith, z)),
  count_true-all_but bs x (omega arith) e
      (λ y l n. o (suc y) (omega (arith, l)) (λ z. n (omega (arith, z)))),
)

-- One entry that is set in `cs` and not in `bs`, which else agree.
pub count_true-differ :
    (bs cs : List Bool) (x : ℕ)
    → length bs ≡ length cs
    → x < length bs
    → get_or bs x false ≡ false
    → get_or cs x false ≡ true
    → ((y : ℕ) → y ≢ x → get_or bs y false ≡ get_or cs y false)
    → count_true cs ≡ count_true bs + 1
count_true-differ [] cs x e h f t o = absurd (omega arith)
count_true-differ (b ∷ bs) [] x e h f t o = absurd (omega arith)
count_true-differ (b ∷ bs) (d ∷ cs) zero e h f t o =
    let le =
      count_true-le bs cs (omega arith) (λ y l. sym (o (suc y) (λ z. omega (arith, z))) ∙ l) in
    let ge = count_true-le cs bs (omega arith) (λ y l. o (suc y) (λ z. omega (arith, z)) ∙ l) in
    ground (arith, f, t, le, ge)
count_true-differ (b ∷ bs) (d ∷ cs) (suc x) e h f t o =
    let rest =
      count_true-differ bs cs x (omega arith) (omega arith) f t
        (λ y n. o (suc y) (λ z. n (omega (arith, z)))) in
    let first : b ≡ d = o 0 (λ z. omega (arith, z)) in ground (arith, rest, first)
