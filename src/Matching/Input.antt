-- ===== src/Matching/Input.antt =====
-- A generator with the caller's stripes is ready for `basic_greedy`.
use stripe_merge.Common.{
  ℕ, zero, suc, ◌+◌, ◌*◌, ◌^◌, ◌≤◌, ◌<◌, ◌≡◌, refl, ap, ◌∙◌, false, List, [], ◌∷◌, arith, length,
  replicate, All, count_true, length-replicate, get_or, take,
}
use stripe_merge.Stripe.{Params, Stripe, blank, set_info, uint8_max}
use stripe_merge.Stripe.Cost.{IsPlaced, compute_cost-le, mismatches-le}
use stripe_merge.Stripe.Deal.{IsRow}
use stripe_merge.Matching.{new_generator, input_rows, input_stripes, stripe_at}
use stripe_merge.Matching.CostTable.Cached.{pair_cost, new_table-Cached}
use stripe_merge.Matching.Greedy.Stable.{eligible}
use stripe_merge.Matching.Greedy.Result.{IsReady, Unmatched}

pub length-input_rows :
    (p : Params) (i : ℕ) (rows : List (List ℕ × List ℕ)) (ss : List Stripe)
    → length (input_rows p i rows ss) ≡ length ss
unfolding input_rows
length-input_rows p i [] ss = refl
length-input_rows p i ((raw, parity) ∷ rows) [] = refl
length-input_rows p i ((raw, parity) ∷ rows) (s ∷ ss) = ap suc (length-input_rows p (i + 1) rows ss)

pub input_rows-IsPlaced :
    (p : Params) (i : ℕ) (rows : List (List ℕ × List ℕ)) (ss : List Stripe) (x : ℕ)
    → All (IsRow p) rows
    → length rows ≡ length ss
    → x < length ss
    → IsPlaced p (stripe_at (input_rows p i rows ss) x)
unfolding input_rows
input_rows-IsPlaced p i [] ss x a e h = absurd (omega arith)
input_rows-IsPlaced p i ((raw, parity) ∷ rows) [] x a e h = absurd (omega arith)
input_rows-IsPlaced p i ((raw, parity) ∷ rows) (s ∷ ss) zero a e h = a.0 i s
input_rows-IsPlaced p i ((raw, parity) ∷ rows) (s ∷ ss) (suc x) a e h =
    input_rows-IsPlaced p (i + 1) rows ss x a.1 (omega arith) (omega arith)

pub input_rows-Unmatched :
    (p : Params) (i : ℕ) (rows : List (List ℕ × List ℕ)) (n x : ℕ)
    → Unmatched (input_rows p i rows (replicate n blank)) x
unfolding input_rows set_info blank
input_rows-Unmatched p i [] zero x = refl
input_rows-Unmatched p i [] (suc n) zero = refl
input_rows-Unmatched p i [] (suc n) (suc x) = input_rows-Unmatched p i [] n x
input_rows-Unmatched p i ((raw, parity) ∷ rows) zero x = refl
input_rows-Unmatched p i ((raw, parity) ∷ rows) (suc n) zero = refl
input_rows-Unmatched p i ((raw, parity) ∷ rows) (suc n) (suc x) =
    input_rows-Unmatched p (i + 1) rows n x

pub input_rows-cur_cost :
    (p : Params) (i : ℕ) (rows : List (List ℕ × List ℕ)) (n x : ℕ)
    → (stripe_at (input_rows p i rows (replicate n blank)) x).cur_cost ≡ uint8_max
unfolding input_rows set_info blank
input_rows-cur_cost p i [] zero x = refl
input_rows-cur_cost p i [] (suc n) zero = refl
input_rows-cur_cost p i [] (suc n) (suc x) = input_rows-cur_cost p i [] n x
input_rows-cur_cost p i ((raw, parity) ∷ rows) zero x = refl
input_rows-cur_cost p i ((raw, parity) ∷ rows) (suc n) zero = refl
input_rows-cur_cost p i ((raw, parity) ∷ rows) (suc n) (suc x) =
    input_rows-cur_cost p (i + 1) rows n x

count-eligible : (ss : List Stripe) → count_true (eligible false ss) ≡ length ss
count-eligible [] = refl
count-eligible (s ∷ ss) = omega (arith, count-eligible ss)

-- The cost of a pair of placed stripes fits the levels.
pub pair_cost-le :
    (p : Params) (ss : List Stripe) (i j : ℕ)
    → p.rs_k + p.rs_m < 256
    → IsPlaced p (stripe_at ss i)
    → IsPlaced p (stripe_at ss j)
    → pair_cost p ss i j ≤ p.rs_k + p.rs_m
pair_cost-le p ss i j small a b = ground (
  arith,
  compute_cost-le p (stripe_at ss i) (stripe_at ss j) small a b,
  compute_cost-le p (stripe_at ss j) (stripe_at ss i) small b a,
  mismatches-le (stripe_at ss i).parity_dist (stripe_at ss j).parity_dist,
  mismatches-le (stripe_at ss j).parity_dist (stripe_at ss i).parity_dist,
  a.parity_length,
  b.parity_length,
)

-- Stripe `x` is the row, with `x` for its index.
input_rows-set_info :
    (p : Params) (i : ℕ) (rows : List (List ℕ × List ℕ)) (ss : List Stripe) (x : ℕ)
    → length rows ≡ length ss
    → x < length ss
    → stripe_at (input_rows p i rows ss) x
      ≡ set_info p (i + x) (get_or rows x ([], [])).0 (get_or rows x ([], [])).1 (stripe_at ss x)
unfolding input_rows
input_rows-set_info p i [] ss x e h = absurd (omega arith)
input_rows-set_info p i ((raw, parity) ∷ rows) [] x e h = absurd (omega arith)
input_rows-set_info p i ((raw, parity) ∷ rows) (s ∷ ss) zero e h =
    ap (λ j. set_info p j raw parity s) (omega arith)
input_rows-set_info p i ((raw, parity) ∷ rows) (s ∷ ss) (suc x) e h =
    input_rows-set_info p (i + 1) rows ss x (omega arith) (omega arith)
    ∙ ap (λ j. set_info p j (get_or rows x ([], [])).0 (get_or rows x ([], [])).1 (stripe_at ss x))
        (omega arith)

-- What stripe `x` is made of after `input_stripes`: the row's blocks, at its place.
pub record IsInput (p : Params) (rows : List (List ℕ × List ℕ)) (x : ℕ) (s : Stripe) : Type 0 where
  pub placed : IsPlaced p s
  pub index : s.stripe_index ≡ x
  pub raw : s.data_dist ≡ take p.rs_k (get_or rows x ([], [])).0
  pub parity : s.parity_dist ≡ take p.rs_m (get_or rows x ([], [])).1

-- After the constructor and `input_stripes` on a row for each of fewer than 2^31 stripes, rows that
-- place their blocks soundly, with `rs_k + rs_m < 255` and at least `2 * rs_k + rs_m` nodes,
-- `basic_greedy` is ready, no stripe is matched, and each stripe is placed, has its place for an
-- index and holds the first `rs_k` and `rs_m` units of its row.
pub input_stripes-IsReady :
    (p : Params) (n : ℕ) (rows : List (List ℕ × List ℕ))
    → All (IsRow p) rows
    → length rows ≡ n
    → n < 2 ^ 31
    → p.rs_k + p.rs_m < 255
    → 2 * p.rs_k + p.rs_m ≤ p.node_num
    → IsReady false (input_stripes rows (new_generator p n))
      × ((x : ℕ) → Unmatched (input_stripes rows (new_generator p n)).stripes x)
      × ((x : ℕ)
          → x < n
          → IsInput p rows x (stripe_at (input_stripes rows (new_generator p n)).stripes x))
unfolding input_stripes new_generator set_info
input_stripes-IsReady p n rows a e small low room =
    let ss = input_rows p 0 rows (replicate n blank) in
    let size : length ss ≡ n =
      length-input_rows p 0 rows (replicate n blank) ∙ length-replicate n blank in
    let placed = λ (x : ℕ) (h : x < n).
      input_rows-IsPlaced p 0 rows (replicate n blank) x a (omega (arith, length-replicate n blank))
        (omega (arith, length-replicate n blank)) in
    (
      record {
        whole = size;
        small = small;
        hosts = room;
        levels = omega (arith, low);
        costs = λ i j h l. omega (
          arith,
          low,
          pair_cost-le p ss i j (omega (arith, low)) (placed i (omega arith)) (placed j l),
        );
        cached = new_table-Cached p ss n;
        enough = omega (arith, count-eligible ss);
      },
      input_rows-Unmatched p 0 rows n,
      λ x h.
          let made =
            input_rows-set_info p 0 rows (replicate n blank) x
              (omega (arith, e, length-replicate n blank))
              (omega (arith, h, length-replicate n blank)) in
          record {
            placed = placed x h;
            index = ap (λ (s : Stripe). s.stripe_index) made ∙ omega arith;
            raw = ap (λ (s : Stripe). s.data_dist) made;
            parity = ap (λ (s : Stripe). s.parity_dist) made;
          },
    )
