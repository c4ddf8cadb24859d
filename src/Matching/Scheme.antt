-- ===== src/Matching/Scheme.antt =====
-- `MatchingGenerator::get_one_scheme` of src/matching_generator.cc: the moves that merge one pair.
pub mod Excess
pub mod Spread
pub mod Cost
pub mod Moves
pub mod Merge
use stripe_merge.Common.{
  ℕ, zero, suc, ◌+◌, ◌-◌, Bool, true, false, List, [], ◌∷◌, ◌++◌, ◌==◌, ltb, if◌then◌else◌, get_or,
  set, replicate, inc8, dec8,
}
use stripe_merge.Stripe.{Params, Stripe}
use stripe_merge.Migration.{MigrationInfo, migration}

-- `host_blocks_num[x]` and `++host_blocks_num[x]`, on `uint8_t`.
abbrev pub blocks_on : List ℕ → ℕ → ℕ
blocks_on hosts x = get_or hosts x 0

unfoldable pub add_block : ℕ → List ℕ → List ℕ
add_block x hosts = set hosts x (inc8 (blocks_on hosts x))

-- The loop over the data blocks of both stripes.
unfoldable pub count_data : List ℕ → List ℕ → List ℕ → List ℕ
count_data (x ∷ xs) (y ∷ ys) hosts = count_data xs ys (add_block y (add_block x hosts))
count_data _ _ hosts = hosts

-- The local variables while the moves are planned: `host_blocks_num`, `available_nodes` and the moves.
pub record Plan : Type 0 where
  pub hosts : List ℕ
  pub available : List ℕ
  pub moves : List MigrationInfo

-- Round `i` of the loop over the parity blocks, at `a.parity_dist[i]` and `b.parity_dist[i]`.
unfoldable pub place_parity : ℕ → ℕ → ℕ → Plan → Plan
unfolding add_block migration
place_parity i x y s =
    if x == y
    then record s { hosts = add_block x s.hosts }
    else if blocks_on s.hosts x == 0
    then record s {
      hosts = add_block x s.hosts;
      moves = s.moves ++ migration (y + 1) (x + 1) (i + 1) ∷ [];
    }
    else record s {
      hosts = add_block y s.hosts;
      moves = s.moves ++ migration (x + 1) (y + 1) (i + 1) ∷ [];
    }

unfoldable pub place_parities : ℕ → List ℕ → List ℕ → Plan → Plan
place_parities i (x ∷ xs) (y ∷ ys) s = place_parities (i + 1) xs ys (place_parity i x y s)
place_parities i _ _ s = s

-- `remain_nodes` and `available_nodes`, from node `i` on.
unfoldable pub remain_nodes : ℕ → List ℕ → List ℕ
remain_nodes i [] = []
remain_nodes i (h ∷ hs) = if ltb 1 h then i ∷ remain_nodes (i + 1) hs else remain_nodes (i + 1) hs

unfoldable pub available_nodes : ℕ → List ℕ → List ℕ
available_nodes i [] = []
available_nodes i (h ∷ hs) =
    if h == 0 then i ∷ available_nodes (i + 1) hs else available_nodes (i + 1) hs

-- `pop_back` of a `std::deque`.
unfoldable pub pop_back : List ℕ → List ℕ
pop_back [] = []
pop_back (x ∷ []) = []
pop_back (x ∷ y ∷ ys) = x ∷ pop_back (y ∷ ys)

-- The inner loop of the last part: `j` rounds at node `i`, as long as a node is available. The target is
-- read at the front of the deque, and the back of the deque is removed.
unfoldable pub spread_node : ℕ → ℕ → List ℕ → Plan → Plan
unfolding add_block migration pop_back
spread_node i zero available s = record s { available = available }
spread_node i (suc j) [] s = record s { available = [] }
spread_node i (suc j) (target ∷ rest) s = spread_node i j (pop_back (target ∷ rest)) (record s {
  hosts = add_block target s.hosts;
  moves = s.moves ++ migration (i + 1) (target + 1) 0 ∷ [];
})

-- The outer loop, over the queue of the nodes that hold more than one block.
unfoldable pub spread : List ℕ → Plan → Plan
spread [] s = s
spread (i ∷ is) s = spread is (spread_node i (dec8 (blocks_on s.hosts i)) s.available s)

-- The plan before the shuffle.
unfoldable pub plan_merge : Params → Stripe → Stripe → Plan
plan_merge p a b = place_parities 0 a.parity_dist b.parity_dist (record {
  hosts = count_data a.data_dist b.data_dist (replicate p.node_num 0);
  available = [];
  moves = [];
})

-- The moves for the pair `a`, `b`. `std::shuffle` with the stripe's index as its seed is `shuffle`.
unfoldable pub one_scheme : (ℕ → List ℕ → List ℕ) → Params → ℕ → Stripe → Stripe → Plan
one_scheme shuffle p index a b =
    let s = plan_merge p a b in
    spread (remain_nodes 0 s.hosts)
      (record s { available = shuffle index (available_nodes 0 s.hosts) })
