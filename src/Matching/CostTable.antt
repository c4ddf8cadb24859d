-- ===== src/Matching/CostTable.antt =====
-- `MatchingGenerator::get_cost` of src/matching_generator.cc: costs are kept in a triangular table.
pub mod Slots
pub mod Cached
use stripe_merge.Common.{
  ℕ, ◌+◌, ◌-◌, ◌*◌, ◌/◌, ◌%◌, ◌^◌, Bool, List, Option, none, some, ◌==◌, ltb, if◌then◌else◌, get_or,
  set,
}
use stripe_merge.Stripe.{Params, Stripe, compute_cost, uint8_max}
use stripe_merge.Matching.{stripe_at}

-- The value of the static local `c`, given what it holds, `none` before the first call in the process:
-- it is computed from the `stripes_num` of the generator that calls first, in 32 bits.
unfoldable pub static_c : Option ℕ → ℕ → ℕ
static_c none stripes_num = (2 * stripes_num + (2 ^ 32 - 3)) % 2 ^ 32
static_c (some c) stripes_num = c

-- `(size_t)i * (c - i) / 2 + j - 1`, in 64 bits.
unfoldable pub slot : ℕ → ℕ → ℕ → ℕ
slot c i j = (i * ((c + (2 ^ 64 - i)) % 2 ^ 64) % 2 ^ 64 / 2 + j + (2 ^ 64 - 1)) % 2 ^ 64

-- The lookup for `i < j`: a cell that holds `UINT8_MAX` is filled.
unfoldable pub cost_at : ℕ → Params → List Stripe → List ℕ → ℕ → ℕ → ℕ × List ℕ
cost_at c p ss table i j =
    let found = get_or table (slot c i j) uint8_max in
    let cost = compute_cost p (stripe_at ss i) (stripe_at ss j) in
    if found == uint8_max then (cost, set table (slot c i j) cost) else (found, table)

-- `get_cost(i, j)`: the smaller index comes first. It returns the cost and the table.
unfoldable pub get_cost : ℕ → Params → List Stripe → List ℕ → ℕ → ℕ → ℕ × List ℕ
unfolding cost_at
get_cost c p ss table i j = if ltb j i then cost_at c p ss table j i else cost_at c p ss table i j

-- `(uint64_t)j << 32 | i`, for a 32-bit `i`, and `get_cost(uint64_t token)`.
unfoldable pub token : ℕ → ℕ → ℕ
token i j = j * 2 ^ 32 % 2 ^ 64 + i % 2 ^ 32

unfoldable pub token_i : ℕ → ℕ
token_i t = t % 2 ^ 32

unfoldable pub token_j : ℕ → ℕ
token_j t = t / 2 ^ 32 % 2 ^ 32

unfoldable pub get_cost_token : ℕ → Params → List Stripe → List ℕ → ℕ → ℕ × List ℕ
unfolding get_cost token_i token_j
get_cost_token c p ss table t = get_cost c p ss table (token_i t) (token_j t)
