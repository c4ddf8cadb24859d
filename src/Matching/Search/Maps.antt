-- ===== src/Matching/Search/Maps.antt =====
-- What holds of every stripe that a `std::unordered_map` of lists holds.
use stripe_merge.Common.{
  ℕ, ◌+◌, ◌≤◌, ◌<◌, ◌≡◌, ◌≢◌, refl, Bool, true, false, List, [], ◌∷◌, ◌++◌, Option, none, some,
  ◌==◌, All, All-append, Bool-cases, Option-cases, inl, inr, arith, remove, subst, length, get_or,
  count, count-remove, count_true, length-remove, suc,
}
use mathlib.Core.Option.{some-injective, none-ne-some}
use stripe_merge.Stripe.{same_dist}
use stripe_merge.Matching.{DistMap}
use stripe_merge.Matching.Marks.{map_find, map_put, push_front, push_back}
use stripe_merge.Matching.Search.{erase_all, erase_self}

pub All-weaken {ℓ κ μ} :
    {A : Type ℓ} (P : A → Type κ) (Q : A → Type μ) (xs : List A)
    → ((x : A) → P x → Q x)
    → All P xs
    → All Q xs
All-weaken P Q [] f h = tt
All-weaken P Q (x ∷ xs) f h = (f x h.0, All-weaken P Q xs f h.1)

abbrev pub AllMap {κ} : (ℕ → Type κ) → DistMap → Type κ
AllMap P m = All (λ (e : List ℕ × List ℕ). All P e.1) m

pub AllMap-weaken {κ μ} :
    (P : ℕ → Type κ) (Q : ℕ → Type μ) (m : DistMap)
    → ((x : ℕ) → P x → Q x)
    → AllMap P m
    → AllMap Q m
AllMap-weaken P Q [] f h = tt
AllMap-weaken P Q (e ∷ m) f h = (All-weaken P Q e.1 f h.0, AllMap-weaken P Q m f h.1)

module _ {κ} (P : ℕ → Type κ) where
  pub map_find-All : (key v : List ℕ) (m : DistMap) → AllMap P m → map_find key m ≡ some v → All P v
  unfolding map_find
  map_find-All key v [] h e = absurd (none-ne-some v e)
  map_find-All key v ((k, w) ∷ m) h e = elim (Bool-cases (same_dist k key)) [
    | inl same ↦ subst (All P) (some-injective w v (rw same at e)) h.0
    | inr other ↦ map_find-All key v m h.1 (rw other at e)
  ]

  pub map_put-AllMap :
      (key v : List ℕ) (m : DistMap) → All P v → AllMap P m → AllMap P (map_put key v m)
  unfolding map_put
  map_put-AllMap key v [] a h = (a, tt)
  map_put-AllMap key v ((k, w) ∷ m) a h = elim (Bool-cases (same_dist k key)) [
    | inl same ↦ rw same (a, h.1)
    | inr other ↦ rw other (h.0, map_put-AllMap key v m a h.1)
  ]

  pub push_front-AllMap :
      (key : List ℕ) (i : ℕ) (m : DistMap) → P i → AllMap P m → AllMap P (push_front key i m)
  unfolding push_front
  push_front-AllMap key i m a h = elim (Option-cases (map_find key m)) [
    | inl e ↦ rw (push_front, e) (map_put-AllMap key (i ∷ []) m (a, tt) h)
    | inr (v, e) ↦ rw (push_front, e) (map_put-AllMap key (i ∷ v) m (a, map_find-All key v m h e) h)
  ]

  pub push_back-AllMap :
      (key : List ℕ) (i : ℕ) (m : DistMap) → P i → AllMap P m → AllMap P (push_back key i m)
  unfolding push_back
  push_back-AllMap key i m a h = elim (Option-cases (map_find key m)) [
    | inl e ↦ rw (push_back, e) (map_put-AllMap key (i ∷ []) m (a, tt) h)
    | inr (v, e) ↦
        rw (push_back, e)
          (map_put-AllMap key (v ++ i ∷ []) m
            (All-append P v (i ∷ []) (map_find-All key v m h e) (a, tt)) h)
  ]

  pub remove-All : (x : ℕ) (xs : List ℕ) → All P xs → All P (remove x xs)
  unfolding remove
  remove-All x [] h = tt
  remove-All x (y ∷ ys) h = elim (Bool-cases (x == y)) [
    | inl same ↦ rw same h.1
    | inr other ↦ rw other (h.0, remove-All x ys h.1)
  ]

  pub erase_all-All : (xs domain : List ℕ) → All P domain → All P (erase_all xs domain)
  unfolding erase_all
  erase_all-All [] domain h = h
  erase_all-All (x ∷ xs) domain h = erase_all-All xs (remove x domain) (remove-All x domain h)

  pub erase_self-All :
      (self : Option ℕ) (domain : List ℕ) → All P domain → All P (erase_self self domain)
  erase_self-All none domain h = h
  erase_self-All (some x) domain h = remove-All x domain h

-- What is not erased stays.
pub count-erase_all :
    (z : ℕ) (xs domain : List ℕ)
    → All (λ x. z ≢ x) xs
    → 0 < count z domain
    → 0 < count z (erase_all xs domain)
unfolding erase_all
count-erase_all z [] domain a h = h
count-erase_all z (x ∷ xs) domain a h =
    count-erase_all z xs (remove x domain) a.1 (ground (arith, h, a.0, count-remove z x domain))

-- A list that has every number that is set has as many numbers.
pub count_true-le_length :
    (bs : List Bool) (k : ℕ) (xs : List ℕ)
    → ((x : ℕ) → get_or bs x false ≡ true → 0 < count (k + x) xs)
    → count_true bs ≤ length xs
count_true-le_length [] k xs h = omega arith
count_true-le_length (false ∷ bs) k xs h = omega (
  arith,
  count_true-le_length bs (k + 1) xs
      (λ x t. let e : k + 1 + x ≡ k + suc x = omega arith in rw e (h (suc x) t)),
)
count_true-le_length (true ∷ bs) k xs h =
    let here : 0 < count k xs =
      let e : k + 0 ≡ k = omega arith in subst (λ y. 0 < count y xs) e (h 0 refl) in
    let rest = count_true-le_length bs (k + 1) (remove k xs) (λ x t.
      let there : 0 < count (k + suc x) xs = h (suc x) t in
      let e : k + 1 + x ≡ k + suc x = omega arith in
      let ne : (k + suc x == k) ≡ false = ground arith in
      rw e (ground (arith, there, ne, count-remove (k + suc x) k xs))) in
    omega (arith, rest, length-remove k xs here)
