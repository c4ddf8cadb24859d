-- ===== src/Matching/Search/Combs.antt =====
-- The loop of `search_for_matching` in src/matching_generator.cc over the subsets.
use native.Mathlib.Nat.{mul-le-mul}
use stripe_merge.Common.{
  ℕ, zero, suc, ◌+◌, ◌-◌, ◌*◌, ◌/◌, ◌%◌, ◌^◌, ◌≤◌, ◌<◌, ◌≡◌, refl, ◌∙◌, Bool, true, false, some,
  arith, ltb, ◌==◌, dec_lt, ℕ_discrete, Bool-cases, inl, inr,
}
use stripe_merge.Stripe.{Params}
use stripe_merge.Matching.{Generator, sizes}
use stripe_merge.Matching.Search.{
  bit_and, bit_or, next_comb, search_key, search_combs, search_same, search_for_matching,
  single_search,
}

pow-double : (w : ℕ) → 2 ^ suc w ≡ 2 * 2 ^ w
pow-double w = omega arith

pow-positive : (d : ℕ) → 0 < 2 ^ d
pow-positive zero = omega arith
pow-positive (suc d) = omega (arith, pow-double d, pow-positive d)

pow-above : (d : ℕ) → 0 < d → 1 < 2 ^ d
pow-above zero h = absurd (omega arith)
pow-above (suc d) h = omega (arith, pow-double d, pow-positive d)

bit_or-ge : (w a b : ℕ) → b < 2 ^ w → b ≤ bit_or w a b
unfolding bit_or
bit_or-ge zero a b h = omega arith
bit_or-ge (suc w) a b h = ground (arith, pow-double w, bit_or-ge w (a / 2) (b / 2))

bit_and-le : (w a b : ℕ) → bit_and w a b ≤ a
unfolding bit_and
bit_and-le zero a b = omega arith
bit_and-le (suc w) a b =
    let bits : a % 2 * (b % 2) ≤ a % 2 * 1 =
      mul-le-mul {n₂ = a % 2} {m₂ = 1} (omega arith) (omega arith) in
    omega (arith, bit_and-le w (a / 2) (b / 2))

-- A number and its complement have a bit in common.
bit_and-negated : (w a : ℕ) → 0 < a → a < 2 ^ w → 0 < bit_and w a (2 ^ w - a)
unfolding bit_and
bit_and-negated zero a h l = absurd (omega arith)
bit_and-negated (suc w) a h l = elim (ℕ_discrete (a % 2) 0) [
  | yes even ↦
      let half : (2 ^ suc w - a) / 2 ≡ 2 ^ w - a / 2 = omega (arith, pow-double w) in
      let low = bit_and-negated w (a / 2) (omega arith) (omega (arith, pow-double w)) in
      rw half (omega (arith, low))
  | no odd ↦
      let one : a % 2 ≡ 1 = omega arith in
      let other : (2 ^ suc w - a) % 2 ≡ 1 = omega (arith, pow-double w) in
      rw (one, other) (omega arith)
]

next_comb-gt : (comb : ℕ) → 0 < comb → comb < 2 ^ 31 → comb < next_comb comb
unfolding next_comb
next_comb-gt comb h l =
    let x : ℕ = bit_and 32 comb (2 ^ 32 - comb) in
    let some_x = bit_and-negated 32 comb h (omega arith) in
    let small_x = bit_and-le 32 comb (2 ^ 32 - comb) in
    let above =
      bit_or-ge 32 (bit_and 32 comb (2 ^ 32 - 1 - (x + comb)) / x / 2) (x + comb)
        (omega (arith, small_x)) in
    omega (arith, some_x, above)

search_key-sizes :
    (c index target comb : ℕ) (g : Generator) → sizes (search_key c index target comb g).1 ≡ sizes g
unfolding search_key single_search
search_key-sizes c index target comb g = ground arith

search_same-sizes : (c index : ℕ) (g : Generator) → sizes (search_same c index g).1 ≡ sizes g
unfolding search_same single_search
search_same-sizes c index g = ground arith

module _ (fuel c all_one index target comb : ℕ) (g : Generator) where
  search_combs-stop :
      all_one ≤ comb → search_combs (suc fuel) c all_one index target comb g ≡ some (false, g)
  unfolding search_combs
  search_combs-stop h =
      let last : ltb comb all_one ≡ false = ground arith in rw (search_combs, last) refl

  search_combs-met :
      comb < all_one
      → (search_key c index target comb g).0 ≡ true
      → search_combs (suc fuel) c all_one index target comb g
        ≡ some (true, (search_key c index target comb g).1)
  unfolding search_combs
  search_combs-met h e =
      let more : ltb comb all_one ≡ true = ground arith in rw (search_combs, more, e) refl

  search_combs-next :
      comb < all_one
      → (search_key c index target comb g).0 ≡ false
      → search_combs (suc fuel) c all_one index target comb g
        ≡ search_combs fuel c all_one index target
            (next_comb comb)
            (search_key c index target comb g).1
  unfolding search_combs
  search_combs-next h e =
      let more : ltb comb all_one ≡ true = ground arith in rw (search_combs, more, e) refl

-- The fuel of the loop suffices, and what each search keeps of the generator is kept.
search_combs-total :
    (fuel c all_one index target comb : ℕ) (g : Generator)
    → 0 < comb
    → all_one ≤ fuel + comb
    → all_one < 2 ^ 31
    → (r : Bool × Generator) × (search_combs (suc fuel) c all_one index target comb g ≡ some r)
      × (sizes r.1 ≡ sizes g)
search_combs-total zero c all_one index target comb g h f l =
    ((false, g), search_combs-stop 0 c all_one index target comb g (omega arith), refl)
search_combs-total (suc fuel) c all_one index target comb g h f l = elim (dec_lt comb all_one) [
  | no stop ↦
      ((false, g), search_combs-stop (suc fuel) c all_one index target comb g (omega arith), refl)
  | yes more ↦ elim (Bool-cases (search_key c index target comb g).0) [
    | inl met ↦ (
      _,
      search_combs-met (suc fuel) c all_one index target comb g more met,
      search_key-sizes c index target comb g,
    )
    | inr miss ↦
        let gt = next_comb-gt comb h (omega arith) in
        let (r, e, same) =
          search_combs-total fuel c all_one index target (next_comb comb)
            (search_key c index target comb g).1 (omega (arith, gt)) (omega (arith, gt)) l in
        (
          r,
          search_combs-next (suc fuel) c all_one index target comb g more miss ∙ e,
          same ∙ search_key-sizes c index target comb g,
        )
  ]
]

-- The parameters for which a target can be searched.
abbrev pub Reaches : ℕ → Params × ℕ → Type 0
Reaches target q = (target < q.0.rs_m) × (q.0.rs_m < 31)

-- For a target below `rs_m` the search ends.
pub search_for_matching-total :
    (c all_one index target : ℕ) (g : Generator)
    → Reaches target (sizes g)
    → all_one < 2 ^ 31
    → (r : Bool × Generator) × (search_for_matching c all_one index target g ≡ some r)
      × (sizes r.1 ≡ sizes g)
unfolding search_for_matching
search_for_matching-total c all_one index target g h l = elim (ℕ_discrete target 0) [
  | yes e ↦ (search_same c index g, ground (arith, e), search_same-sizes c index g)
  | no ne ↦
      let (r, e, same) =
        search_combs-total all_one c all_one index target (2 ^ (g.rs_m - target) - 1) g
          (omega (arith, pow-above (g.rs_m - target) (omega (arith, h.0)))) (omega arith) l in
      let fuel : all_one + 1 ≡ suc all_one = omega arith in
      let some_target : (target == 0) ≡ false = ground (arith, ne) in
      let fits : ltb (g.rs_m - target) 31 ≡ true = ground (arith, h.1) in
      (r, rw (some_target, fits, fuel) e, same)
]
