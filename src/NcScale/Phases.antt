-- ===== src/NcScale/Phases.antt =====
-- The turns of the two loops of `NCScaleSimulation::get_scheme`, and the moves that they make.
use native.Mathlib.Nat.{mod-eq_of_lt, mod_self, mul-add-mod_self_right}
use stripe_merge.Common.{
  ℕ, zero, suc, ◌+◌, ◌-◌, ◌*◌, ◌%◌, ◌^◌, ◌<◌, ◌≡◌, refl, sym, ap, ◌∙◌, List, [], ◌∷◌, ◌++◌, arith,
  map, range, some, dec_lt,
}
use mathlib.Core.List.{append_assoc}
use stripe_merge.Migration.{MigrationInfo, migration}
use stripe_merge.NcScale.{Phase, next, take_one, skip_empty, w32}
use stripe_merge.NcScale.RoundRobin.{Turns, IsOrder, skip_empty_lem, Turns-next}

-- Counters visited from 0 on, and from 1 on.
abbrev pub from_zero : ℕ → ℕ → ℕ
from_zero n x = x

abbrev pub from_one : ℕ → ℕ → ℕ
from_one n zero = n - 1
from_one n (suc x) = x

next_on : (n j : ℕ) → n < 2 ^ 32 → suc j < n → next n j ≡ suc j
next_on n j small h =
    let e : w32 (j + 1) ≡ suc j = omega arith in ap (λ (x : ℕ). x % n) e ∙ mod-eq_of_lt h

next_round : (n j : ℕ) → n < 2 ^ 32 → suc j ≡ n → next n j ≡ 0
next_round n j small h =
    let e : w32 (j + 1) ≡ n = omega arith in ap (λ (x : ℕ). x % n) e ∙ mod_self n

pub from_zero-IsOrder : (n : ℕ) → n < 2 ^ 32 → IsOrder (from_zero n) n
from_zero-IsOrder n small = record {
  below = λ x h. h;
  injective = λ x y hx hy e. e;
  goes_on = λ x h l. next_on n x small l;
  goes_round = λ x h e. next_round n x small e;
}

from_one-injective : (n x y : ℕ) → x < n → y < n → from_one n x ≡ from_one n y → x ≡ y
from_one-injective n zero zero hx hy e = refl
from_one-injective n zero (suc y) hx hy e = absurd (omega arith)
from_one-injective n (suc x) zero hx hy e = absurd (omega arith)
from_one-injective n (suc x) (suc y) hx hy e = omega arith

pub from_one-below : (n x : ℕ) → x < n → from_one n x < n
from_one-below n zero h = omega arith
from_one-below n (suc x) h = omega arith

from_one-goes_on :
    (n x : ℕ)
    → n < 2 ^ 32
    → x < n
    → suc (from_one n x) < n
    → from_one n (next n x) ≡ suc (from_one n x)
from_one-goes_on n zero small h l = absurd (omega arith)
from_one-goes_on n (suc x) small h l = elim (dec_lt (suc (suc x)) n) [
  | yes on ↦ ap (from_one n) (next_on n (suc x) small on)
  | no last ↦ ap (from_one n) (next_round n (suc x) small (omega arith)) ∙ omega arith
]

from_one-goes_round :
    (n x : ℕ) → 1 < n → n < 2 ^ 32 → x < n → suc (from_one n x) ≡ n → from_one n (next n x) ≡ 0
from_one-goes_round n zero two small h l = ap (from_one n) (next_on n 0 small two)
from_one-goes_round n (suc x) two small h l = absurd (omega arith)

pub from_one-IsOrder : (n : ℕ) → 1 < n → n < 2 ^ 32 → IsOrder (from_one n) n
from_one-IsOrder n two small = record {
  below = from_one-below n;
  injective = from_one-injective n;
  goes_on = λ x h l. from_one-goes_on n x small h l;
  goes_round = λ x h e. from_one-goes_round n x two small h e;
}

-- The `i`-th move of the first loop, and of the second.
abbrev pub old_to_new : ℕ → ℕ → ℕ → MigrationInfo
old_to_new n rs_k i = migration (i % n + 1) (i % rs_k + n + 1) 0

abbrev pub old_to_old : ℕ → ℕ → MigrationInfo
old_to_old n i = migration (i % n + 1) (suc i % n + 1) 1

map-range_last {ℓ} :
    {A : Type ℓ} (f : ℕ → A) (i n : ℕ)
    → map f (range i (suc n)) ≡ map f (range i n) ++ f (i + n) ∷ []
map-range_last f i zero = ap (λ k. f k ∷ []) (omega arith)
map-range_last f i (suc n) =
    ap (λ l. f i ∷ l)
      (map-range_last f (i + 1) n ∙ ap (λ k. map f (range (i + 1) n) ++ f k ∷ []) (omega arith))

-- The moves so far: `before`, and those of `i` rounds.
pub record Sends (pos pos' : ℕ → ℕ) (n n' per per' : ℕ) (f : ℕ → MigrationInfo)
    (before : List MigrationInfo) (i : ℕ) (s : Phase) : Type 0 where
  pub sender : Turns pos n per i s.j s.send
  pub receiver : Turns pos' n' per' i s.k s.recv
  pub moves : s.scheme ≡ before ++ map f (range 0 i)

pub moves-next :
    (f : ℕ → MigrationInfo) (before scheme : List MigrationInfo) (i : ℕ) (m : MigrationInfo)
    → scheme ≡ before ++ map f (range 0 i)
    → m ≡ f i
    → scheme ++ m ∷ [] ≡ before ++ map f (range 0 (i + 1))
moves-next f before scheme i m e h =
    let same : i ≡ 0 + i = omega arith in
    let more : suc i ≡ i + 1 = omega arith in
    ap (λ l. l ++ m ∷ []) e
    ∙ append_assoc before (map f (range 0 i)) (m ∷ [])
    ∙ ap (λ x. before ++ (map f (range 0 i) ++ x ∷ [])) (h ∙ ap f same)
    ∙ ap (λ l. before ++ l) (sym (map-range_last f 0 i))
    ∙ ap (λ k. before ++ map f (range 0 k)) more

-- One turn: the search stops at the counter whose turn it is.
pub turn :
    (pos : ℕ → ℕ) (n per i j : ℕ) (v : List ℕ)
    → IsOrder pos n
    → Turns pos n per i j v
    → i < n * per
    → per < 2 ^ 32
    → (skip_empty n n v j ≡ some j) × Turns pos n per (i + 1) (next n j) (take_one v j)
turn pos n per i j v order t h low =
    let fuel : n ≡ suc (n - 1) = omega (arith, t.inside) in
    (
      ap (λ f. skip_empty f n v j) fuel ∙ skip_empty_lem pos n per i j v order t h low (n - 1),
      Turns-next pos n per i j v order t h low,
    )

pub turn-mod : (m per i j : ℕ) (v : List ℕ) → Turns (from_zero m) m per i j v → i % m ≡ j
turn-mod m per i j v t =
    ap (λ (x : ℕ). x % m) t.visits ∙ mul-add-mod_self_right t.rounds m j ∙ mod-eq_of_lt t.inside
