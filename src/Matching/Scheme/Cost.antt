-- ===== src/Matching/Scheme/Cost.antt =====
-- The plan of `get_one_scheme` against the count of `Stripe::compute_cost`.
use stripe_merge.Common.{
  ℕ, suc, ◌+◌, ◌*◌, ◌≤◌, ◌<◌, ◌≡◌, ap, ◌∙◌, true, false, List, [], ◌∷◌, arith, ltb, ◌==◌,
  if◌then◌else◌, length, get_or, set, sum, AllBelow, length-append, length-set, get_or-set_self,
  get_or-set_ne, get_or-le-sum, sum-set, inc8, inc8_lem, ℕ_discrete,
}
use stripe_merge.Stripe.{Tally, flagged, visit, data_loop, parity_dest}
use stripe_merge.Migration.{migration}
use stripe_merge.Matching.Scheme.{Plan, blocks_on, add_block, count_data, place_parity}
use stripe_merge.Matching.Scheme.Excess.{excess, excess-set}
use stripe_merge.Matching.Scheme.Spread.{add_block_self, add_block_ne, length-add_block}

-- The marks and the cost of `compute_cost` beside the counts of `get_one_scheme`, after `placed` blocks
-- and `moved` moves of parity blocks, on `n` nodes.
pub record Agrees (n placed moved : ℕ) (t : Tally) (hosts : List ℕ) : Type 0 where
  pub marks : (x : ℕ) → flagged t.flag x ≡ ltb 0 (blocks_on hosts x)
  pub flag_size : length t.flag ≡ n
  pub host_size : length hosts ≡ n
  pub cost : t.cost ≡ moved + excess hosts
  pub total : sum hosts ≡ placed

pub excess-le-sum : (hs : List ℕ) → excess hs ≤ sum hs
excess-le-sum [] = omega arith
excess-le-sum (h ∷ hs) = omega (arith, excess-le-sum hs)

add_block-plain :
    (x : ℕ) (hosts : List ℕ)
    → sum hosts < 255
    → add_block x hosts ≡ set hosts x (get_or hosts x 0 + 1)
unfolding add_block
add_block-plain x hosts h = ap (set hosts x) (inc8_lem _ (omega (arith, get_or-le-sum hosts x)))

excess-add_block :
    (x : ℕ) (hosts : List ℕ)
    → sum hosts < 255
    → x < length hosts
    → excess (add_block x hosts) ≡ excess hosts + (if blocks_on hosts x == 0 then 0 else 1)
excess-add_block x hosts small h = ap excess (add_block-plain x hosts small) ∙ excess-set hosts x h

sum-add_block :
    (x : ℕ) (hosts : List ℕ)
    → sum hosts < 255
    → x < length hosts
    → sum (add_block x hosts) ≡ sum hosts + 1
sum-add_block x hosts small h =
    ap sum (add_block-plain x hosts small) ∙ omega (arith, sum-set hosts x (get_or hosts x 0 + 1) h)

module _ (n placed moved x : ℕ) (t : Tally) (hosts : List ℕ)
    (a : Agrees n placed moved t hosts) where
  visit-marks :
      x < n
      → placed < 255
      → (z : ℕ) → flagged (visit x t).flag z ≡ ltb 0 (blocks_on (add_block x hosts) z)
  unfolding visit
  visit-marks lt small z =
      let bound = get_or-le-sum hosts x in
      elim (ℕ_discrete z x) [
        | yes e ↦ rw e (
            ground (
              arith,
              a.marks x,
              a.flag_size,
              a.host_size,
              a.total,
              get_or-set_self t.flag x true false,
              add_block_self x hosts,
            ))
        | no ne ↦
            ground
              (arith, a.marks z, get_or-set_ne t.flag x z true false ne, add_block_ne x z hosts ne)
      ]

  length-visit : length (visit x t).flag ≡ length t.flag
  unfolding visit
  length-visit = ground (arith, length-set t.flag x true)

  cost-visit : t.cost < 255 → (visit x t).cost ≡ t.cost + (if blocks_on hosts x == 0 then 0 else 1)
  unfolding visit
  cost-visit h = ground (arith, a.marks x, inc8_lem t.cost)

  pub visit-Agrees :
      x < n → moved + placed + 1 < 256 → Agrees n (placed + 1) moved (visit x t) (add_block x hosts)
  visit-Agrees lt small = record {
    marks = visit-marks lt (omega arith);
    flag_size = length-visit ∙ a.flag_size;
    host_size = length-add_block x hosts ∙ a.host_size;
    cost = omega (
      arith,
      a.cost,
      a.total,
      a.host_size,
      cost-visit,
      excess-le-sum hosts,
      excess-add_block x hosts,
    );
    total = omega (arith, sum-add_block x hosts, a.total, a.host_size);
  }

  -- A parity block moves.
  pub move-Agrees :
      moved + placed + 1 < 256 → Agrees n placed (moved + 1) (record t { cost = inc8 t.cost }) hosts
  move-Agrees small = record {
    marks = a.marks;
    flag_size = a.flag_size;
    host_size = a.host_size;
    cost = omega (arith, a.cost, a.total, excess-le-sum hosts, inc8_lem t.cost);
    total = a.total;
  }

pub data-Agrees :
    (n placed : ℕ) (xs ys : List ℕ) (t : Tally) (hosts : List ℕ)
    → length xs ≡ length ys
    → AllBelow n xs
    → AllBelow n ys
    → placed + 2 * length xs < 256
    → Agrees n placed 0 t hosts
    → Agrees n (placed + 2 * length xs) 0 (data_loop xs ys t) (count_data xs ys hosts)
unfolding data_loop count_data
data-Agrees n placed [] [] t hosts e bx by small a =
    let same : placed + 2 * 0 ≡ placed = omega arith in rw same a
data-Agrees n placed [] (y ∷ ys) t hosts e bx by small a = absurd (omega arith)
data-Agrees n placed (x ∷ xs) [] t hosts e bx by small a = absurd (omega arith)
data-Agrees n placed (x ∷ xs) (y ∷ ys) t hosts e bx by small a =
    let same : placed + 2 * suc (length xs) ≡ placed + 1 + 1 + 2 * length xs = omega arith in
    rw same (
      data-Agrees n (placed + 1 + 1) xs ys _ _ (omega arith) bx.1 by.1 (omega arith) (
        visit-Agrees n (placed + 1) 0 y _ _ (visit-Agrees n placed 0 x t hosts a bx.0 (omega arith))
          by.0 (omega arith)))

pub hosts-place_parity :
    (i x y : ℕ) (t : Tally) (s : Plan)
    → flagged t.flag x ≡ ltb 0 (blocks_on s.hosts x)
    → (place_parity i x y s).hosts ≡ add_block (parity_dest t.flag x y) s.hosts
unfolding place_parity parity_dest
hosts-place_parity i x y t s h = ground arith

pub moves-place_parity :
    (i x y : ℕ) (s : Plan)
    → length (place_parity i x y s).moves ≡ length s.moves + (if x == y then 0 else 1)
unfolding place_parity
moves-place_parity i x y s = ground (
  arith,
  length-append s.moves (migration (y + 1) (x + 1) (i + 1) ∷ []),
  length-append s.moves (migration (x + 1) (y + 1) (i + 1) ∷ []),
)
