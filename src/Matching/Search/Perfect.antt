-- ===== src/Matching/Search/Perfect.antt =====
-- The state of `dist_based_search` in src/matching_generator.cc when all stripes are in pairs.
use stripe_merge.Common.{ℕ, ◌<◌, ◌≡◌, true, List, [], length, ◌+◌}
use stripe_merge.Stripe.{Params, Stripe}
use stripe_merge.Matching.{Generator}
use stripe_merge.Matching.CostTable.Cached.{Cached}
use stripe_merge.Matching.Search.Blocks.{SameBlocks}
use stripe_merge.Matching.Search.Sound.{is_selected, IsPair}
use stripe_merge.Matching.Search.Maps.{AllMap}
use stripe_merge.Matching.Search.Invariant.{IsZero, AllCandidates}

-- All stripes are in pairs.
pub record IsPerfect (p : Params) (old : List Stripe) (n : ℕ) (ss : List Stripe) : Type 0 where
  pub whole : length ss ≡ n
  pub blocks : SameBlocks old ss
  pub paired : (x : ℕ) → x < n → IsPair p old n ss x
  pub all : (x : ℕ) → x < n → is_selected ss x ≡ true

-- The state when all stripes are in pairs.
pub record Done (p : Params) (old : List Stripe) (n : ℕ) (g : Generator) : Type 0 where
  pub same_params : g.params ≡ p
  pub num : g.stripes_num ≡ n
  pub size : g.rs_n ≡ p.rs_k + p.rs_m
  pub fresh : g.blocks_to_sent ≡ []
  pub perfect : IsPerfect p old n g.stripes
  pub cached : Cached p old n g.cost_table
  pub zeros : AllMap (IsZero n g.stripes) g.zero_map

abbrev pub Finished : Params → List Stripe → ℕ → Generator → Type 0
Finished p old n g = Done p old n g × AllCandidates n g.stripes g.none_zero_candidate
