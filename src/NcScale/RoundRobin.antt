-- ===== src/NcScale/RoundRobin.antt =====
-- Counters that are visited in turn: none is empty before its turn.
use stripe_merge.Common.{
  ℕ, suc, ◌+◌, ◌-◌, ◌*◌, ◌^◌, ◌<◌, ◌≡◌, ◌≢◌, ap, ◌∙◌, List, arith, ltb, if◌then◌else◌, length,
  get_or, some, length-set, get_or-set_self, get_or-set_ne, ℕ_discrete, dec_lt,
}
use native.Mathlib.Nat.{mod-lt}
use stripe_merge.NcScale.{w32, next, dec32, take_one, skip_empty}

-- After `i` visits of `n` counters that began at `per`, in the order of `pos`: `rounds` whole rounds are
-- over and the counter `j` comes next.
pub record Turns (pos : ℕ → ℕ) (n per i j : ℕ) (v : List ℕ) : Type 0 where
  pub rounds : ℕ
  pub visits : i ≡ rounds * n + pos j
  pub inside : j < n
  pub size : length v ≡ n
  pub left :
      (x : ℕ)
      → x < n
      → get_or v x 0 ≡ (if ltb (pos x) (pos j) then per - (rounds + 1) else per - rounds)

-- The order starts at some index and goes round.
pub record IsOrder (pos : ℕ → ℕ) (n : ℕ) : Type 0 where
  pub below : (x : ℕ) → x < n → pos x < n
  pub injective : (x y : ℕ) → x < n → y < n → pos x ≡ pos y → x ≡ y
  pub goes_on : (x : ℕ) → x < n → suc (pos x) < n → pos (next n x) ≡ suc (pos x)
  pub goes_round : (x : ℕ) → x < n → suc (pos x) ≡ n → pos (next n x) ≡ 0

rounds-lt : (r n p per i : ℕ) → i ≡ r * n + p → i < n * per → r < per
rounds-lt r n p per i e h = elim (dec_lt r per) [
  | yes l ↦ l
  | no g ↦
      let d : ℕ = r - per in
      let s : r ≡ d + per = omega arith in absurd (omega (arith, e, ap (λ (t : ℕ). t * n) s))
]

next-lt : (n j : ℕ) → j < n → next n j < n
next-lt n j h = mod-lt (w32 (j + 1)) (omega arith)

module _ (pos : ℕ → ℕ) (n per i j : ℕ) (v : List ℕ) (order : IsOrder pos n)
    (t : Turns pos n per i j v) (more : i < n * per) (small : per < 2 ^ 32) where
  rounds_left : t.rounds < per
  rounds_left = rounds-lt t.rounds n (pos j) per i t.visits more

  current : get_or v j 0 ≡ per - t.rounds
  current = ground (arith, t.left j t.inside)

  -- The search for a counter that is not empty stops at once.
  pub skip_empty_lem : (fuel : ℕ) → skip_empty (suc fuel) n v j ≡ some j
  unfolding skip_empty
  skip_empty_lem fuel = ground (arith, current, rounds_left)

  taken_self : get_or (take_one v j) j 0 ≡ per - (t.rounds + 1)
  taken_self =
      get_or-set_self v j (dec32 (get_or v j 0)) 0 (omega (arith, t.size, t.inside))
      ∙ omega (arith, current, rounds_left)

  taken_ne : (x : ℕ) → x ≢ j → get_or (take_one v j) x 0 ≡ get_or v x 0
  taken_ne x ne = get_or-set_ne v j x (dec32 (get_or v j 0)) 0 ne

  left_next :
      (x : ℕ)
      → x < n
      → get_or (take_one v j) x 0
        ≡ (if ltb (pos x) (suc (pos j)) then per - (t.rounds + 1) else per - t.rounds)
  left_next x h = elim (ℕ_discrete x j) [
    | yes e ↦ rw e (taken_self ∙ ground arith)
    | no ne ↦
        let apart : pos x ≢ pos j = λ e. ne (order.injective x j h t.inside e) in
        taken_ne x ne ∙ t.left x h ∙ ground arith
  ]

  -- A visit of counter `j` takes one off it and passes on to the next.
  pub Turns-next : Turns pos n per (i + 1) (next n j) (take_one v j)
  Turns-next = elim (dec_lt (suc (pos j)) n) [
    | yes on ↦
        let p = order.goes_on j t.inside on in
        record {
          rounds = t.rounds;
          visits = omega (arith, t.visits, p);
          inside = next-lt n j t.inside;
          size = length-set v j (dec32 (get_or v j 0)) ∙ t.size;
          left = λ x h. rw p (left_next x h);
        }
    | no last ↦
        let top : suc (pos j) ≡ n = omega (arith, order.below j t.inside) in
        let p = order.goes_round j t.inside top in
        record {
          rounds = t.rounds + 1;
          visits = omega (arith, t.visits, p);
          inside = next-lt n j t.inside;
          size = length-set v j (dec32 (get_or v j 0)) ∙ t.size;
          left = λ x h. rw p (left_next x h ∙ ground (arith, order.below x h));
        }
  ]
