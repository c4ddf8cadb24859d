-- ===== src/Stripe/Cost.antt =====
-- Bounds of `Stripe::compute_cost`. The blocks that `a` still has to pay for are those that `b` has put
-- on nodes not yet visited for `a`; a node of `a` found marked uses one of them up.
use stripe_merge.Common.{
  ℕ, suc, ◌+◌, ◌≤◌, ◌<◌, ◌≡◌, ◌≢◌, sym, ◌∙◌, Bool, true, false, inl, inr, List, [], ◌∷◌, ◌++◌,
  arith, if◌then◌else◌, ◌==◌, Bool-cases, length, set, replicate, count, remove, IsDistinct,
  AllBelow, length-remove, count-remove, count-append, get_or-set_ne, get_or-replicate, inc8,
  inc8_lem,
}
use stripe_merge.Stripe.{
  Params, Stripe, Tally, flagged, visit, data_loop, parity_dest, parity_step, parity_loop,
  compute_cost,
}

-- How many parity blocks of two stripes lie on different nodes.
abbrev pub mismatches : List ℕ → List ℕ → ℕ
mismatches (x ∷ xs) (y ∷ ys) = (if x == y then 0 else 1) + mismatches xs ys
mismatches _ _ = 0

-- After the nodes `seen` of `a`, every marked node is one of these or is in `live`, and the cost so far
-- with what `live` may still cost stays within the budget.
record Paid (seen : List ℕ) (budget : ℕ) (t : Tally) : Type 0 where
  live : List ℕ
  covered : (z : ℕ) → flagged t.flag z ≡ true → 0 < count z seen + count z live
  within : t.cost + length live ≤ budget

flagged-set :
    (flag : List Bool) (x z : ℕ)
    → flagged (set flag x true) z ≡ true
    → z ≢ x
    → flagged flag z ≡ true
flagged-set flag x z h ne = sym (get_or-set_ne flag x z true false ne) ∙ h

-- A node of `a`, not seen before, is visited.
visit_own :
    (seen : List ℕ) (budget x : ℕ) (t : Tally)
    → budget < 256
    → count x seen ≡ 0
    → Paid seen budget t
    → Paid (x ∷ seen) budget (visit x t)
unfolding visit
visit_own seen budget x t small fresh p = elim (Bool-cases (flagged t.flag x)) [
  | inl hit ↦ rw hit (record {
    live = remove x p.live;
    covered = λ z h. ground (arith, p.covered z, count-remove z x p.live);
    within = ground (arith, p.covered x, length-remove x p.live, p.within, inc8_lem t.cost);
  })
  | inr miss ↦ rw miss (record {
    live = p.live;
    covered = λ z h. ground (arith, flagged-set t.flag x z, p.covered z);
    within = p.within;
  })
]

-- A node of `b` is visited: the budget grows by one.
visit_other :
    (seen : List ℕ) (budget y : ℕ) (t : Tally)
    → budget + 1 < 256
    → Paid seen budget t
    → Paid seen (budget + 1) (visit y t)
unfolding visit
visit_other seen budget y t small p = elim (Bool-cases (flagged t.flag y)) [
  | inl hit ↦ rw hit (record {
    live = p.live;
    covered = p.covered;
    within = ground (arith, p.within, inc8_lem t.cost);
  })
  | inr miss ↦ rw miss (record {
    live = y ∷ p.live;
    covered = λ z h. ground (arith, flagged-set t.flag y z, p.covered z);
    within = ground (arith, p.within);
  })
]

-- A marked node of `a` uses up a block of `live`, so a move may be charged for it.
consume :
    (seen : List ℕ) (budget x : ℕ) (t : Tally)
    → budget < 256
    → count x seen ≡ 0
    → flagged t.flag x ≡ true
    → Paid seen budget t
    → Paid (x ∷ seen) budget (record t { cost = inc8 t.cost })
consume seen budget x t small fresh hit p = record {
  live = remove x p.live;
  covered = λ z h. ground (arith, p.covered z, count-remove z x p.live);
  within = ground (arith, p.covered x, length-remove x p.live, p.within, inc8_lem t.cost);
}

charge :
    (seen : List ℕ) (budget : ℕ) (t : Tally)
    → budget + 1 < 256
    → Paid seen budget t
    → Paid seen (budget + 1) (record t { cost = inc8 t.cost })
charge seen budget t small p = record {
  live = p.live;
  covered = p.covered;
  within = ground (arith, p.within, inc8_lem t.cost);
}

parity_step-Paid :
    (seen : List ℕ) (budget x y : ℕ) (t : Tally)
    → budget + (if x == y then 0 else 1) < 256
    → count x seen ≡ 0
    → Paid seen budget t
    → Paid (x ∷ seen) (budget + (if x == y then 0 else 1)) (parity_step x y t)
unfolding parity_step parity_dest visit
parity_step-Paid seen budget x y t small fresh p = elim (Bool-cases (x == y)) [
  | inl same ↦
      let e : budget + 0 ≡ budget = omega arith in
      rw same (rw e (visit_own seen budget x t (ground arith) fresh p))
  | inr other ↦ elim (Bool-cases (flagged t.flag x)) [
    | inl hit ↦
        rw (other, hit)
          (visit_other (x ∷ seen) budget y _ (ground arith)
            (consume seen budget x t (ground arith) fresh hit p))
    | inr miss ↦
        rw (other, miss)
          (visit_own seen (budget + 1) x _ (ground arith) fresh
            (charge seen budget t (ground arith) p))
  ]
]

-- What a loop over the nodes `xs` of `a` leaves: all of them seen, at most `extra` added to the budget.
abbrev After : List ℕ → List ℕ → ℕ → Tally → Type 0
After seen xs budget t =
    (s : List ℕ) × ((z : ℕ) → count z s ≡ count z seen + count z xs) × Paid s budget t

data_loop-After :
    (xs ys seen : List ℕ) (budget : ℕ) (t : Tally)
    → length xs ≡ length ys
    → budget + length xs < 256
    → ((z : ℕ) → count z seen + count z xs ≤ 1)
    → Paid seen budget t
    → After seen xs (budget + length xs) (data_loop xs ys t)
unfolding data_loop
data_loop-After [] [] seen budget t e small d p =
    (seen, λ z. omega arith, let e : budget + 0 ≡ budget = omega arith in rw e p)
data_loop-After [] (y ∷ ys) seen budget t e small d p = absurd (omega arith)
data_loop-After (x ∷ xs) [] seen budget t e small d p = absurd (omega arith)
data_loop-After (x ∷ xs) (y ∷ ys) seen budget t e small d p =
    let (s, c, q) =
      data_loop-After xs ys (x ∷ seen) (budget + 1) _ (omega arith) (omega arith)
        (λ z. ground (arith, d z))
        (visit_other (x ∷ seen) budget y _ (omega arith)
          (visit_own seen budget x t (omega arith) (ground (arith, d x)) p)) in
    (
      s,
      λ z. ground (arith, c z),
      let e : budget + suc (length xs) ≡ budget + 1 + length xs = omega arith in rw e q,
    )

parity_loop-After :
    (xs ys seen : List ℕ) (budget : ℕ) (t : Tally)
    → length xs ≡ length ys
    → budget + mismatches xs ys < 256
    → ((z : ℕ) → count z seen + count z xs ≤ 1)
    → Paid seen budget t
    → After seen xs (budget + mismatches xs ys) (parity_loop xs ys t)
unfolding parity_loop
parity_loop-After [] [] seen budget t e small d p =
    (seen, λ z. omega arith, let e : budget + 0 ≡ budget = omega arith in rw e p)
parity_loop-After [] (y ∷ ys) seen budget t e small d p = absurd (omega arith)
parity_loop-After (x ∷ xs) [] seen budget t e small d p = absurd (omega arith)
parity_loop-After (x ∷ xs) (y ∷ ys) seen budget t e small d p =
    let step : ℕ = if x == y then 0 else 1 in
    let (s, c, q) =
      parity_loop-After xs ys (x ∷ seen) (budget + step) _ (omega arith) (omega arith)
        (λ z. ground (arith, d z))
        (parity_step-Paid seen budget x y t (omega arith) (ground (arith, d x)) p) in
    (
      s,
      λ z. ground (arith, c z),
      let e : budget + (step + mismatches xs ys) ≡ budget + step + mismatches xs ys = omega arith in
          rw e q,
    )

pub mismatches-le : (xs ys : List ℕ) → mismatches xs ys ≤ length xs
mismatches-le [] ys = omega arith
mismatches-le (x ∷ xs) [] = omega arith
mismatches-le (x ∷ xs) (y ∷ ys) = ground (arith, mismatches-le xs ys)

-- What `set_info` and a sound placement give: `rs_k` and `rs_m` blocks, on distinct nodes that exist.
pub record IsPlaced (p : Params) (s : Stripe) : Type 0 where
  pub data_length : length s.data_dist ≡ p.rs_k
  pub parity_length : length s.parity_dist ≡ p.rs_m
  pub distinct : IsDistinct (s.data_dist ++ s.parity_dist)
  pub inside : AllBelow p.node_num (s.data_dist ++ s.parity_dist)

-- For two placed stripes with `rs_k + rs_m < 256`, a merge costs at most one move for each data
-- block and one for each pair of parity blocks on different nodes.
pub compute_cost-le :
    (p : Params) (a b : Stripe)
    → p.rs_k + p.rs_m < 256
    → IsPlaced p a
    → IsPlaced p b
    → compute_cost p a b ≤ p.rs_k + mismatches a.parity_dist b.parity_dist
unfolding compute_cost
compute_cost-le p a b small pa pb =
    let fewer = mismatches-le a.parity_dist b.parity_dist in
    let start : Paid [] 0 (record { flag = replicate p.node_num false; cost = 0 }) = record {
      live = [];
      covered = λ z h. cc (get_or-replicate p.node_num z false);
      within = omega arith;
    } in
    let (s, c, q) =
      data_loop-After a.data_dist b.data_dist [] 0 _ (pa.data_length ∙ sym pb.data_length)
        (omega (arith, pa.data_length))
        (λ z. omega (arith, pa.distinct z, count-append z a.data_dist a.parity_dist)) start in
    let (s', c', q') =
      parity_loop-After a.parity_dist b.parity_dist s (0 + length a.data_dist) _
        (pa.parity_length ∙ sym pb.parity_length) (omega (arith, pa.data_length, pa.parity_length))
        (λ z. omega (arith, c z, pa.distinct z, count-append z a.data_dist a.parity_dist)) q in
    omega (arith, q'.within, pa.data_length)
