-- ===== src/Matching.antt =====
-- src/matching_generator.cc and include/matching_generator.hh: the state of `MatchingGenerator`.
pub mod CostTable
pub mod Marks
pub mod Greedy
pub mod Scheme
pub mod Input
pub mod Search
pub mod Statistics
pub mod Plan
use stripe_merge.Common.{
  ℕ, zero, suc, ◌+◌, ◌-◌, ◌*◌, ◌/◌, ◌%◌, ◌^◌, ◌≡◌, Bool, true, false, List, [], ◌∷◌, ◌==◌,
  if◌then◌else◌, get_or, set, replicate,
}
use stripe_merge.Stripe.{Params, Stripe, blank, set_info, uint8_max, same_dist}
use stripe_merge.Migration.{MigrationInfo}

-- A `std::unordered_map<std::u16string, std::list<uint>>`, by its entries.
abbrev pub DistMap : Type 0
DistMap = List (List ℕ × List ℕ)

pub record Generator : Type 0 where
  pub params : Params
  pub open params use *
  pub rs_n : ℕ
  pub stripes_num : ℕ
  pub stripes : List Stripe
  pub cost_table : List ℕ
  pub remaining_stripes : List ℕ
  pub parity_map : DistMap
  pub partial_dist_map : DistMap
  pub zero_map : DistMap
  pub none_zero_candidate : List ℕ
  pub blocks_to_sent : List MigrationInfo

-- The numbers that the matchings do not change.
abbrev pub sizes : Generator → Params × ℕ
sizes g = (g.params, g.rs_n)

-- The constructor. `table_size` is computed in 64 bits.
unfoldable pub new_generator : Params → ℕ → Generator
unfolding blank
new_generator p n = record {
  params = p;
  rs_n = (p.rs_k + p.rs_m) % 256;
  stripes_num = n;
  stripes = replicate n blank;
  cost_table = replicate (n * (n - 1) / 2) uint8_max;
  remaining_stripes = [];
  parity_map = [];
  partial_dist_map = [];
  zero_map = [];
  none_zero_candidate = [];
  blocks_to_sent = [];
}

-- `stripes[i]`.
abbrev pub stripe_at : List Stripe → ℕ → Stripe
stripe_at ss i = get_or ss i blank

-- `input_stripes`, over the arrays of the caller from stripe `i` on.
unfoldable pub input_rows : Params → ℕ → List (List ℕ × List ℕ) → List Stripe → List Stripe
unfolding set_info
input_rows p i [] ss = ss
input_rows p i ((raw, parity) ∷ rest) [] = []
input_rows p i ((raw, parity) ∷ rest) (s ∷ ss) =
    set_info p i raw parity s ∷ input_rows p (i + 1) rest ss

unfoldable pub input_stripes : List (List ℕ × List ℕ) → Generator → Generator
unfolding input_rows
input_stripes rows g = record g { stripes = input_rows g.params 0 rows g.stripes }
