-- ===== src/Matching/Scheme/Merge.antt =====
-- The results on `MatchingGenerator::get_one_scheme`: the number of moves, their ends, and the node that
-- the blocks in excess go to.
use stripe_merge.Common.{
  IsShuffle, ℕ, zero, suc, ◌+◌, ◌*◌, ◌^◌, ◌≤◌, ◌<◌, ◌≡◌, ◌≢◌, ◌⊎◌, inl, inr, refl, sym, ap, ◌∙◌,
  false, List, [], ◌∷◌, arith, length, get_or, replicate, count, sum, All, length-replicate,
  get_or-replicate, get_or-le-sum, sum-replicate_zero, dec_lt,
}
use stripe_merge.Stripe.{Params, Stripe, data_loop, parity_loop, compute_cost, Tally}
use stripe_merge.Stripe.Cost.{mismatches, IsPlaced, compute_cost-le}
use stripe_merge.Migration.{MigrationInfo, migration}
use stripe_merge.Matching.Scheme.{
  Plan, blocks_on, count_data, plan_merge, one_scheme, available_nodes,
}
use stripe_merge.Matching.Scheme.Excess.{
  excess, excess-replicate_zero, available-excess, available-free,
}
use stripe_merge.Matching.Scheme.Spread.{Front, Sent, spread_nodes-Sent}
use stripe_merge.Matching.Scheme.Cost.{Agrees, data-Agrees, excess-le-sum}
use stripe_merge.Matching.Scheme.Moves.{
  AllBelow-append-left, AllBelow-append-right, ParityGood, Placed, place_parities-Placed,
}

-- A move between two different nodes of a cluster of `n`, which are counted from 1.
pub record IsMove (n : ℕ) (m : MigrationInfo) : Type 0 where
  pub from_in : (0 < m.source) × (m.source ≤ n)
  pub to_in : (0 < m.target) × (m.target ≤ n)
  pub differ : m.source ≢ m.target

migration-IsMove :
    (n x y c : ℕ) → n < 2 ^ 16 → x < n → y < n → x ≢ y → IsMove n (migration (x + 1) (y + 1) c)
unfolding migration
migration-IsMove n x y c h hx hy ne = omega arith

-- A move of a parity block, which has a coefficient, or one of a data block from another node to `free`.
abbrev pub Piled : ℕ → MigrationInfo → Type 0
Piled free m = (m.coefficient ≢ 0) ⊎ ((m.target ≡ free + 1) × (m.source ≢ m.target))

migration-Piled :
    (n x free : ℕ)
    → n < 2 ^ 16
    → x < n
    → free < n
    → x ≢ free
    → Piled free (migration (x + 1) (free + 1) 0)
unfolding migration
migration-Piled n x free h hx hf ne =
    inr (omega (arith, h, hf), λ e. ne (omega (arith, e, h, hx, hf)))

parity-Piled : (free i x y : ℕ) → i < 255 → Piled free (migration (x + 1) (y + 1) (i + 1))
unfolding migration
parity-Piled free i x y h = inl (λ e. omega (arith, e, h))

-- The front of a deque, 0 if there is none.
abbrev pub front : List ℕ → ℕ
front [] = 0
front (x ∷ xs) = x

Front-front : (xs : List ℕ) → Front (front xs) xs
Front-front [] = tt
Front-front (x ∷ xs) = refl

count-front : (xs : List ℕ) → 0 < length xs → 0 < count (front xs) xs
count-front [] h = absurd (omega arith)
count-front (x ∷ xs) h = ground arith

front-nil : (xs : List ℕ) → length xs ≡ 0 → front xs ≡ 0
front-nil [] h = refl
front-nil (x ∷ xs) h = absurd (omega arith)

excess-ge : (hs : List ℕ) (x : ℕ) → get_or hs x 0 ≤ excess hs + 1
excess-ge [] x = omega arith
excess-ge (h ∷ hs) zero = omega arith
excess-ge (h ∷ hs) (suc x) = omega (arith, excess-ge hs x)

-- The marks and the cost of `compute_cost` when it ends.
abbrev tally : Params → Stripe → Stripe → Tally
tally p a b =
    parity_loop a.parity_dist b.parity_dist
      (data_loop a.data_dist b.data_dist (record { flag = replicate p.node_num false; cost = 0 }))

-- The node at the front of the shuffled deque of free nodes.
abbrev pub first_free : (ℕ → List ℕ → List ℕ) → Params → ℕ → Stripe → Stripe → ℕ
first_free shuffle p index a b = front (shuffle index (available_nodes 0 (plan_merge p a b).hosts))

-- The plan once the free nodes are shuffled.
abbrev shuffled : (ℕ → List ℕ → List ℕ) → Params → ℕ → Stripe → Stripe → Plan
shuffled shuffle p index a b = record (plan_merge p a b) {
  available = shuffle index (available_nodes 0 (plan_merge p a b).hosts);
}

module _ (p : Params) (a b : Stripe) (pa : IsPlaced p a) (pb : IsPlaced p b)
    (small : 2 * p.rs_k + 2 * p.rs_m < 256) where
  plan_merge-Placed :
      (P : MigrationInfo → Type 0)
      → ParityGood P p.node_num
      → Placed P p.node_num
          (0 + 2 * length a.data_dist + length a.parity_dist)
          (0 + mismatches a.parity_dist b.parity_dist)
          (mismatches a.parity_dist b.parity_dist)
          (tally p a b)
          (record {
            hosts = count_data a.data_dist b.data_dist (replicate p.node_num 0);
            available = [];
            moves = [];
          })
          (plan_merge p a b)
  unfolding plan_merge
  plan_merge-Placed P good =
      place_parities-Placed P p.node_num (0 + 2 * length a.data_dist) 0 0 a.parity_dist
        b.parity_dist _ _ (pa.parity_length ∙ sym pb.parity_length)
        (AllBelow-append-right p.node_num a.data_dist a.parity_dist pa.inside)
        (AllBelow-append-right p.node_num b.data_dist b.parity_dist pb.inside)
        (omega (arith, pa.data_length, pa.parity_length)) (omega (arith, pa.parity_length)) good
        (data-Agrees p.node_num 0 a.data_dist b.data_dist _ _ (pa.data_length ∙ sym pb.data_length)
          (AllBelow-append-left p.node_num a.data_dist a.parity_dist pa.inside)
          (AllBelow-append-left p.node_num b.data_dist b.parity_dist pb.inside)
          (omega (arith, pa.data_length))
          (record {
            marks = λ x. ground (
              arith,
              get_or-replicate p.node_num x false,
              get_or-replicate {A = ℕ} p.node_num x 0,
            );
            flag_size = length-replicate p.node_num false;
            host_size = length-replicate p.node_num 0;
            cost = omega (arith, excess-replicate_zero p.node_num);
            total = sum-replicate_zero p.node_num;
          }))

  -- For two placed stripes with `2 * rs_k + 2 * rs_m < 256`, the cost of a merge is exactly the
  -- number of blocks that are one too many on their node in the plan, in which the `2 * rs_k + rs_m`
  -- blocks of the merged stripe all stand, plus one for each pair of parity blocks on different
  -- nodes. It is at most one for each data block and one for each of these pairs.
  pub compute_cost-excess :
      (compute_cost p a b
        ≡ excess (plan_merge p a b).hosts + mismatches a.parity_dist b.parity_dist)
      × (sum (plan_merge p a b).hosts ≡ 2 * p.rs_k + p.rs_m)
      × (compute_cost p a b ≤ p.rs_k + mismatches a.parity_dist b.parity_dist)
  unfolding compute_cost
  compute_cost-excess =
      let counted = (plan_merge-Placed (λ _. Unit {0}) (λ i x y hi hx hy ne. tt)).agrees in
      (
        omega (arith, counted.cost),
        omega (arith, counted.total, pa.data_length, pa.parity_length),
        compute_cost-le p a b (omega (arith, small)) pa pb,
      )

  module _ (shuffle : ℕ → List ℕ → List ℕ) (fair : IsShuffle shuffle) (index : ℕ)
      (room : 2 * p.rs_k + p.rs_m ≤ p.node_num) (some_data : 0 < p.rs_k) where
    -- What the plan before the shuffle is known for.
    counted :
        Agrees p.node_num
          (0 + 2 * length a.data_dist + length a.parity_dist)
          (0 + mismatches a.parity_dist b.parity_dist)
          (tally p a b)
          (plan_merge p a b).hosts
    counted = (plan_merge-Placed (λ _. Unit {0}) (λ i x y hi hx hy ne. tt)).agrees

    enough : excess (plan_merge p a b).hosts ≤ length (available_nodes 0 (plan_merge p a b).hosts)
    enough = omega (
      arith,
      counted.total,
      counted.host_size,
      pa.data_length,
      pa.parity_length,
      available-excess 0 (plan_merge p a b).hosts,
    )

    first_free_lem :
        0 < length (available_nodes 0 (plan_merge p a b).hosts)
        → ((first_free shuffle p index a b) < p.node_num)
          × (blocks_on (plan_merge p a b).hosts (first_free shuffle p index a b) ≡ 0)
    first_free_lem h =
        let hosts = (plan_merge p a b).hosts in
        let (j, e, lt, free) = available-free 0 hosts (first_free shuffle p index a b) (
          omega (
            arith,
            fair.same_count index (first_free shuffle p index a b) (available_nodes 0 hosts),
            count-front (shuffle index (available_nodes 0 hosts)),
            fair.same_length index (available_nodes 0 hosts),
          )) in
        let here : (first_free shuffle p index a b) ≡ j = omega arith in
        (omega (arith, counted.host_size), ap (blocks_on hosts) here ∙ free)

    first_free_empty :
        0 < length (available_nodes 0 (plan_merge p a b).hosts)
        → blocks_on (plan_merge p a b).hosts (first_free shuffle p index a b) ≡ 0
    first_free_empty h = (first_free_lem h).1

    first_free-lt : (first_free shuffle p index a b) < p.node_num
    first_free-lt =
        let free = available_nodes 0 (plan_merge p a b).hosts in
        elim (dec_lt 0 (length free)) [
          | yes h ↦ (first_free_lem h).0
          | no h ↦ omega (arith, front-nil (shuffle index free), fair.same_length index free)
        ]

    first_free-room :
        blocks_on (plan_merge p a b).hosts (first_free shuffle p index a b)
          + excess (plan_merge p a b).hosts
        < 256
    first_free-room =
        let hosts = (plan_merge p a b).hosts in
        let few : sum hosts < 256 =
          omega (arith, counted.total, pa.data_length, pa.parity_length) in
        elim (dec_lt 0 (length (available_nodes 0 hosts))) [
          | yes h ↦ omega (arith, first_free_empty h, excess-le-sum hosts)
          | no h ↦ omega (arith, enough, get_or-le-sum hosts (first_free shuffle p index a b))
        ]

    one_scheme-Sent :
        (P : MigrationInfo → Type 0)
        → ((x : ℕ)
            → x < p.node_num
            → x ≢ (first_free shuffle p index a b)
            → P (migration (x + 1) ((first_free shuffle p index a b) + 1) 0))
        → Sent P
            (first_free shuffle p index a b)
            (excess (plan_merge p a b).hosts)
            (shuffled shuffle p index a b).available
            (shuffled shuffle p index a b)
            (one_scheme shuffle p index a b)
    unfolding one_scheme
    one_scheme-Sent P good =
        let hosts = (plan_merge p a b).hosts in
        spread_nodes-Sent P (first_free shuffle p index a b) p.node_num 0 hosts
          (shuffled shuffle p index a b) (omega (arith, counted.host_size))
          (λ x h. ap (blocks_on hosts) (omega arith))
          (λ x.
            omega (arith, get_or-le-sum hosts x, counted.total, pa.data_length, pa.parity_length))
          (λ x h e.
            let same : x ≡ (first_free shuffle p index a b) = omega arith in
            omega (arith, first_free_empty, excess-ge hosts x, enough, ap (blocks_on hosts) same))
          good (Front-front _)
          (omega (arith, enough, fair.same_length index (available_nodes 0 hosts)))
          (omega (arith, first_free-lt, counted.host_size)) first_free-room

    -- For two placed stripes, with `2 * rs_k + 2 * rs_m < 256`, `rs_k` positive, at least `2 * rs_k
    -- + rs_m` nodes and a shuffle that permutes, the plan for a pair has as many moves as
    -- `compute_cost` says.
    pub length-one_scheme : length (one_scheme shuffle p index a b).moves ≡ compute_cost p a b
    unfolding compute_cost
    length-one_scheme = omega (
      arith,
      (plan_merge-Placed (λ _. Unit {0}) (λ i x y hi hx hy ne. tt)).planned,
      (one_scheme-Sent (λ _. Unit {0}) (λ x h ne. tt)).planned,
      counted.cost,
    )

    -- Under the conditions of `length-one_scheme` and with fewer than 2^16 nodes, if the pair costs
    -- more than its parity blocks do, one node receives every data block that is too many on its
    -- node: `front` is read and the back of the deque removed. That node has no block before these
    -- moves and ends with as many as the rest of the cost, every other node keeps what it had, and
    -- each move of the plan is one of a parity block, with a coefficient that is not 0, or goes from
    -- another node to that one.
    pub one_scheme_piles :
        p.node_num < 2 ^ 16
        → mismatches a.parity_dist b.parity_dist < compute_cost p a b
        → (blocks_on (plan_merge p a b).hosts (first_free shuffle p index a b) ≡ 0)
          × (blocks_on (one_scheme shuffle p index a b).hosts (first_free shuffle p index a b)
                + mismatches a.parity_dist b.parity_dist
              ≡ compute_cost p a b)
          × ((x : ℕ)
              → x ≢ (first_free shuffle p index a b)
              → blocks_on (one_scheme shuffle p index a b).hosts x
                ≡ blocks_on (plan_merge p a b).hosts x)
          × All (Piled (first_free shuffle p index a b)) (one_scheme shuffle p index a b).moves
    unfolding compute_cost
    one_scheme_piles nodes h =
        let free = first_free shuffle p index a b in
        let sent =
          one_scheme-Sent (Piled free)
            (λ x q ne. migration-Piled p.node_num x free nodes q first_free-lt ne) in
        let empty : blocks_on (plan_merge p a b).hosts free ≡ 0 =
          first_free_empty (omega (arith, counted.cost, enough, h)) in
        (
          empty,
          omega (arith, sent.piled, counted.cost, empty),
          sent.others,
          sent.good (
              (plan_merge-Placed (Piled free)
                  (λ i x y hi hx hy ne. parity-Piled free i x y hi)).good
                tt),
        )

    -- Under the conditions of `length-one_scheme` and with fewer than 2^16 nodes, each move of the
    -- plan goes from a node of the cluster to another one.
    pub one_scheme-IsMove :
        p.node_num < 2 ^ 16 → All (IsMove p.node_num) (one_scheme shuffle p index a b).moves
    one_scheme-IsMove h =
        (one_scheme-Sent (IsMove p.node_num) (λ x q ne.
            migration-IsMove p.node_num x (first_free shuffle p index a b) 0 h q first_free-lt
              ne)).good
          ((plan_merge-Placed (IsMove p.node_num)
              (λ i x y hi hx hy ne. migration-IsMove p.node_num x y (i + 1) h hx hy ne)).good
            tt)
