-- ===== src/NcScale/Total.antt =====
-- `NCScaleSimulation::get_scheme` for a batch that fits 32 bits: every move, in order.
use native.Mathlib.Nat.{div-mul-le_self, lt-mul-div-succ, mul-le-mul}
use mathlib.Core.List.{append-nil}
use stripe_merge.Common.{
  ℕ, zero, suc, ◌+◌, ◌-◌, ◌*◌, ◌/◌, ◌^◌, ◌≤◌, ◌<◌, ◌≡◌, refl, sym, ap, ap₂, subst, ◌∙◌, List, [],
  ◌++◌, map, some, false, arith, dec_lt, ltb, ◌==◌, if◌then◌else◌, length, get_or, replicate, range,
  length-replicate, length-append,
}
use stripe_merge.Migration.{MigrationInfo}
use stripe_merge.NcScale.{
  Phase, new_ncscale, w32, migrate, delta_loop, finish, get_scheme, get_batch_size, get_total_costs,
  ◌>>=◌,
}
use stripe_merge.NcScale.RoundRobin.{Turns}
use stripe_merge.NcScale.Phases.{from_zero, from_one, old_to_new, old_to_old}
use stripe_merge.NcScale.Migrations.{migrate_lem}
use stripe_merge.NcScale.Deltas.{delta_loop_lem}
use stripe_merge.NcScale.Batch.{
  per_node, batch-expand, per_node-positive, le-mul_right, pred-mul, factors, exact,
  new_ncscale-exact,
}

get_or-replicate_below : (n per x : ℕ) → x < n → get_or (replicate n per) x 0 ≡ per
get_or-replicate_below zero per x h = absurd (omega arith)
get_or-replicate_below (suc n) per zero h = refl
get_or-replicate_below (suc n) per (suc x) h = get_or-replicate_below n per x (omega arith)

start_left :
    (pos : ℕ → ℕ) (n per j x : ℕ)
    → pos j ≡ 0
    → x < n
    → get_or (replicate n per) x 0 ≡ (if ltb (pos x) (pos j) then per - 1 else per - 0)
start_left pos n per j x e h = get_or-replicate_below n per x h ∙ ground arith

-- Full counters, before the first visit.
start : (pos : ℕ → ℕ) (n per j : ℕ) → pos j ≡ 0 → j < n → Turns pos n per 0 j (replicate n per)
start pos n per j e h = record {
  rounds = 0;
  visits = omega (arith, e);
  inside = h;
  size = length-replicate n per;
  left = λ x l. start_left pos n per j x e l;
}

abbrev first_phase : ℕ → ℕ → ℕ → ℕ → Phase
first_phase n k per per' = record {
  scheme = [];
  send = replicate n per;
  recv = replicate k per';
  j = 0;
  k = 0;
  send_empty_count = 0;
  recv_empty_count = 0;
}

abbrev second_phase : ℕ → ℕ → Phase → Phase
second_phase n delta t = record t {
  send = replicate n delta;
  recv = replicate n delta;
  j = 0;
  k = 1;
}

-- The body of `get_scheme`, for the numbers of blocks per node.
module _ (n k per per' delta : ℕ) (two : 1 < n) (some_k : 0 < k) (small : n < 2 ^ 32)
    (small' : k < 2 ^ 32) (low : per < 2 ^ 32) (low' : per' < 2 ^ 32) (low_delta : delta < 2 ^ 32)
    (balanced : n * per ≡ k * per') where
  moves_lem :
      (migrate n k (n * per) (first_phase n k per per') >>= λ t.
      delta_loop ((2 * n + 1) * (n * delta + 1)) n (n * delta) 0 (second_phase n delta t)
      >>= finish (n * per))
      ≡ some (map (old_to_new n k) (range 0 (n * per)) ++ map (old_to_old n) (range 0 (n * delta)))
  unfolding finish
  moves_lem =
      let (t, e, m, _, _) =
        migrate_lem n k per per' small small' low low' (n * per) 0 (first_phase n k per per')
          (omega arith) (omega (arith, balanced))
          (record {
            sender = start (from_zero n) n per 0 refl (omega arith);
            receiver = start (from_zero k) k per' 0 refl some_k;
            moves = refl;
          }) in
      let (u, e', m') =
        delta_loop_lem n delta two small low_delta t.scheme (n * delta)
          ((2 * n + 1) * (n * delta + 1)) 0 (second_phase n delta t) (omega arith) (omega arith)
          (record {
            sender = start (from_zero n) n delta 0 refl (omega arith);
            receiver = start (from_one n) n delta 1 refl two;
            moves = sym (append-nil t.scheme);
          }) in
      let all : 0 + n * per ≡ n * per = omega arith in
      rw (e, e', m')
        (ap (λ l. some (l ++ map (old_to_old n) (range 0 (n * delta))))
          (m ∙ ap (λ i. map (old_to_new n k) (range 0 i)) all))

module _ (k m n z r stripes_num : ℕ) (sum_n : k + m ≡ n) (some_k : 0 < k) (some_m : 0 < m)
    (some_z : 0 < z) (is_r : stripes_num / (z * n * 2) ≡ r) (some_r : 0 < r)
    (fits : stripes_num * n < 2 ^ 32) where
  half : r * (z * n) * 2 ≤ stripes_num
  half =
      let same : stripes_num / (z * n * 2) * (z * n * 2) ≡ r * (z * n * 2) =
        ap (λ x. x * (z * n * 2)) is_r in
      omega (arith, div-mul-le_self stripes_num (z * n * 2))

  some_n : 0 < n
  some_n = omega arith

  half_total : r * (z * n) * n ≤ stripes_num * n
  half_total = mul-le-mul {n₂ = stripes_num} {m₂ = n} (omega (arith, half)) (omega arith)

  sent_new : n * (r * (k * z)) + n * (r * (m * z)) < 2 ^ 32
  sent_new =
      let product : r * (z * n) * (k + m) ≡ r * (z * n) * n = ap (λ x. r * (z * n) * x) sum_n in
      omega (arith, half_total)

  exact_moves :
      get_scheme (exact k m n z) stripes_num
      ≡ some (
          map (old_to_new n k) (range 0 (n * (r * (k * z))))
          ++ map (old_to_old n) (range 0 (n * (r * ((m - 1) * z)))))
  unfolding get_scheme
  exact_moves =
      let small : n < 2 ^ 32 = omega (arith, le-mul_right n stripes_num (omega (arith, half))) in
      let low : r * (k * z) ≤ r * (k * z) * n = le-mul_right (r * (k * z)) n some_n in
      let low_delta : r * ((m - 1) * z) ≤ r * ((m - 1) * z) * n =
        le-mul_right (r * ((m - 1) * z)) n some_n in
      let low' : r * (z * n) ≤ r * (z * n) * n = le-mul_right (r * (z * n)) n some_n in
      let less : n * (r * ((m - 1) * z)) + n * (r * z) ≡ n * (r * (m * z)) =
        factors n r ((m - 1) * z) z ∙ ap (λ x. n * (r * x)) (pred-mul m z some_m) in
      let e1 : w32 (r * (k * z)) ≡ r * (k * z) = omega (arith, sent_new) in
      let e2 : w32 (r * ((m - 1) * z)) ≡ r * ((m - 1) * z) = omega (arith, sent_new) in
      let e3 : w32 (r * (z * n)) ≡ r * (z * n) = omega (arith, half_total) in
      let e4 : w32 (n * (r * (k * z))) ≡ n * (r * (k * z)) = omega (arith, sent_new) in
      let e5 : w32 (n * (r * ((m - 1) * z))) ≡ n * (r * ((m - 1) * z)) = omega (arith, sent_new) in
      let e6 : (r == 0) ≡ false = ground arith in
      rw (is_r, e1, e2, e3, e4, e5, e6)
        (moves_lem n k (r * (k * z)) (r * (z * n)) (r * ((m - 1) * z)) (omega arith) some_k small
          (omega arith) (omega (arith, sent_new)) (omega (arith, half_total))
          (omega (arith, sent_new)) (omega arith))

pub batch-positive : (b s : ℕ) → 0 < b → b ≤ s → 0 < s / b
batch-positive b s h l = elim (dec_lt 0 (s / b)) [
  | yes p ↦ p
  | no q ↦
      let none_left : s / b ≡ 0 = omega arith in
      let same : b * (s / b + 1) ≡ b * (0 + 1) = ap (λ x. b * (x + 1)) none_left in
      absurd (omega (arith, subst (λ x. s < x) same (lt-mul-div-succ s h)))
]

-- For at least one data and one parity block, and a number of stripes that holds a batch and whose
-- product with the number of old nodes fits 32 bits, `get_scheme` ends, does not meet a node that
-- can only send to itself, and returns: first the data blocks, each old node in turn to each new
-- node in turn, then the parity deltas, each old node in turn to the next one round.
pub get_scheme_lem :
    (k m stripes_num : ℕ)
    → 0 < k
    → 0 < m
    → 2 * k * (k + m) * (2 * k + m) ≤ stripes_num
    → stripes_num * (k + m) < 2 ^ 32
    → get_scheme (new_ncscale k m) stripes_num
      ≡ some (
          map
            (old_to_new (k + m) k)
            (range 0 ((k + m) * (stripes_num / (per_node k m * (k + m) * 2) * (k * per_node k m))))
          ++ map (old_to_old (k + m)) (
              range 0 (
                (k + m) * (stripes_num / (per_node k m * (k + m) * 2) * ((m - 1) * per_node k m)))))
get_scheme_lem k m stripes_num hk hm whole fits =
    let some_n : 0 < k + m = omega arith in
    let some_z : 0 < per_node k m = per_node-positive k m hk in
    let stripes_le : stripes_num ≤ stripes_num * (k + m) =
      le-mul_right stripes_num (k + m) some_n in
    let batch_le : per_node k m * (k + m) * 2 ≤ stripes_num = omega (arith, batch-expand k m) in
    let z_le : per_node k m ≤ per_node k m * (k + m) = le-mul_right (per_node k m) (k + m) some_n in
    ap (λ s. get_scheme s stripes_num)
      (new_ncscale-exact k m (k + m) (per_node k m) refl refl hk hm (omega arith))
    ∙ exact_moves k m (k + m) (per_node k m) (stripes_num / (per_node k m * (k + m) * 2))
        stripes_num refl hk hm some_z refl
        (batch-positive (per_node k m * (k + m) * 2) stripes_num (omega arith) batch_le) fits

length-map-range : (f : ℕ → MigrationInfo) (i n : ℕ) → length (map f (range i n)) ≡ n
length-map-range f i zero = refl
length-map-range f i (suc n) = omega (arith, length-map-range f (i + 1) n)

expanded :
    (k m r z : ℕ)
    → (k + suc m) * (r * (k * z)) + (k + suc m) * (r * (m * z)) ≡ r * (z * (k + suc m) * (k + m))
expanded k m r z = omega arith

cost_sum :
    (k m r z : ℕ)
    → 0 < m
    → (k + m) * (r * (k * z)) + (k + m) * (r * ((m - 1) * z)) ≡ r * (z * (k + m) * (k + m - 1))
cost_sum k zero r z h = absurd (omega arith)
cost_sum k (suc m) r z h =
    let e : suc m - 1 ≡ m = omega arith in
    let e' : k + suc m - 1 ≡ k + m = omega arith in
    ap (λ x. (k + suc m) * (r * (k * z)) + (k + suc m) * (r * (x * z))) e
    ∙ expanded k m r z
    ∙ ap (λ x. r * (z * (k + suc m) * x)) (sym e')

total_costs_lem :
    (k m stripes_num : ℕ)
    → 0 < k
    → 0 < m
    → 2 * k * (k + m) * (2 * k + m) ≤ stripes_num
    → stripes_num * (k + m) < 2 ^ 32
    → stripes_num / get_batch_size (new_ncscale k m) * get_total_costs (new_ncscale k m)
      ≡ stripes_num / (per_node k m * (k + m) * 2) * (per_node k m * (k + m) * (k + m - 1))
unfolding get_batch_size get_total_costs
total_costs_lem k m stripes_num hk hm whole fits =
    let some_n : 0 < k + m = omega arith in
    let stripes_le : stripes_num ≤ stripes_num * (k + m) =
      le-mul_right stripes_num (k + m) some_n in
    let batch_le : per_node k m * (k + m) * 2 ≤ stripes_num = omega (arith, batch-expand k m) in
    let costs : per_node k m * (k + m) * (k + m - 1) ≤ stripes_num * (k + m) =
      mul-le-mul {n₂ = stripes_num} {m₂ = k + m} (omega arith) (omega arith) in
    let e : w32 (per_node k m * (k + m) * (k + m - 1)) ≡ per_node k m * (k + m) * (k + m - 1) =
      omega arith in
    rw (new_ncscale-exact k m (k + m) (per_node k m) refl refl hk hm (omega arith), e) refl

-- Under the conditions of `get_scheme_lem` the scheme has as many transfers as `get_total_costs`
-- announces for its whole batches.
pub length-get_scheme :
    (k m stripes_num : ℕ)
    → 0 < k
    → 0 < m
    → 2 * k * (k + m) * (2 * k + m) ≤ stripes_num
    → stripes_num * (k + m) < 2 ^ 32
    → (scheme : List MigrationInfo) × (get_scheme (new_ncscale k m) stripes_num ≡ some scheme)
      × (length scheme
          ≡ stripes_num / get_batch_size (new_ncscale k m) * get_total_costs (new_ncscale k m))
length-get_scheme k m stripes_num hk hm whole fits = (
  _,
  get_scheme_lem k m stripes_num hk hm whole fits,
  length-append _ _
      ∙ ap₂ (λ x y. x + y) (length-map-range _ 0 _) (length-map-range _ 0 _)
      ∙ cost_sum k m (stripes_num / (per_node k m * (k + m) * 2)) (per_node k m) hm
      ∙ sym (total_costs_lem k m stripes_num hk hm whole fits),
)
