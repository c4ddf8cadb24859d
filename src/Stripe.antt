-- ===== src/Stripe.antt =====
-- src/stripe.cc and include/stripe.hh: the layout of a stripe and the cost of merging two stripes.
pub mod Cost
pub mod Deal
use stripe_merge.Common.{
  ℕ, zero, suc, ◌+◌, ◌-◌, ◌^◌, Bool, true, false, ◌&&◌, List, [], ◌∷◌, ◌++◌, if◌then◌else◌, ◌==◌,
  take, drop, get_or, set, replicate, range, inc8,
}

abbrev pub uint32_max : ℕ
uint32_max = 2 ^ 32 - 1

abbrev pub uint8_max : ℕ
uint8_max = 255

-- The static members `node_num`, `rs_k` and `rs_m`.
pub record Params : Type 0 where
  pub node_num : ℕ
  pub rs_k : ℕ
  pub rs_m : ℕ

-- `std::u16string` is a list of UTF-16 units: the nodes that hold the blocks.
pub record Stripe : Type 0 where
  pub stripe_index : ℕ
  pub matching_index : ℕ
  pub cur_cost : ℕ
  pub parity_dist : List ℕ
  pub data_dist : List ℕ
  pub selected : Bool

unfoldable pub blank : Stripe
blank = record {
  stripe_index = uint32_max;
  matching_index = uint32_max;
  cur_cost = uint8_max;
  parity_dist = [];
  data_dist = [];
  selected = false;
}

-- `assign(src, n)` copies the first `n` units of the caller's array.
unfoldable pub set_info : Params → ℕ → List ℕ → List ℕ → Stripe → Stripe
set_info p i data_src parity_src s = record s {
  stripe_index = i;
  data_dist = take p.rs_k data_src;
  parity_dist = take p.rs_m parity_src;
}

-- `==` on `std::u16string`.
abbrev pub same_dist : List ℕ → List ℕ → Bool
same_dist [] [] = true
same_dist (x ∷ xs) (y ∷ ys) = x == y && same_dist xs ys
same_dist _ _ = false

unfoldable pub cmp_parity : Stripe → Stripe → Bool
cmp_parity a b = same_dist a.parity_dist b.parity_dist

-- The local variables of `compute_cost`: the marked nodes and the cost so far.
pub record Tally : Type 0 where
  pub flag : List Bool
  pub cost : ℕ

abbrev pub flagged : List Bool → ℕ → Bool
flagged flag x = get_or flag x false

-- Mark node `x`; if it is marked already, the block is one too many there.
unfoldable pub visit : ℕ → Tally → Tally
visit x t =
    if flagged t.flag x
    then record t { cost = inc8 t.cost }
    else record t { flag = set t.flag x true }

-- The first loop, over `data_dist[i]` of both stripes, which hold `rs_k` units each.
unfoldable pub data_loop : List ℕ → List ℕ → Tally → Tally
data_loop (x ∷ xs) (y ∷ ys) t = data_loop xs ys (visit y (visit x t))
data_loop _ _ t = t

-- Where the new parity block goes: to `b`'s node if `a`'s is taken.
unfoldable pub parity_dest : List Bool → ℕ → ℕ → ℕ
parity_dest flag x y = if x == y then x else if flagged flag x then y else x

-- The body of the second loop.
unfoldable pub parity_step : ℕ → ℕ → Tally → Tally
parity_step x y t =
    visit (parity_dest t.flag x y) (if x == y then t else record t { cost = inc8 t.cost })

unfoldable pub parity_loop : List ℕ → List ℕ → Tally → Tally
parity_loop (x ∷ xs) (y ∷ ys) t = parity_loop xs ys (parity_step x y t)
parity_loop _ _ t = t

unfoldable pub compute_cost : Params → Stripe → Stripe → ℕ
compute_cost p a b =
    (parity_loop a.parity_dist b.parity_dist (
      data_loop a.data_dist b.data_dist
        (record { flag = replicate p.node_num false; cost = 0 }))).cost

-- The loop over the parity blocks, `rs_m` rounds from `j` on: `++j` is on `uint8_t`. A read outside the
-- array gives 0 here.
unfoldable pub deal_parity : List ℕ → ℕ → ℕ → List ℕ
unfolding inc8
deal_parity v zero j = []
deal_parity v (suc c) j = get_or v j 0 ∷ deal_parity v c (inc8 j)

-- What one round of `generate_random_distributions` deals from the shuffled nodes `v`.
unfoldable pub deal : Params → List ℕ → List ℕ × List ℕ
unfolding deal_parity
deal p v = (take p.rs_k v, deal_parity v p.rs_m p.rs_k)

-- The rounds of `generate_random_distributions`. `std::shuffle` with the seeds that `rand` gives is the
-- argument `shuffle`, by round; each round shuffles what the round before it left.
unfoldable pub deal_rounds :
    Params → (ℕ → List ℕ → List ℕ) → ℕ → ℕ → List ℕ → List (List ℕ × List ℕ)
unfolding deal
deal_rounds p shuffle zero i v = []
deal_rounds p shuffle (suc n) i v =
    let w = shuffle i v in deal p w ∷ deal_rounds p shuffle n (i + 1) w

unfoldable pub generate_random_distributions :
    Params → (ℕ → List ℕ → List ℕ) → ℕ → List (List ℕ × List ℕ)
unfolding deal_rounds
generate_random_distributions p shuffle stripes_num =
    deal_rounds p shuffle stripes_num 0 (range 0 p.node_num)
