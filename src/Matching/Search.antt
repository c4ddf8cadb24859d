-- ===== src/Matching/Search.antt =====
-- The search by parity distribution (StripeMerge-P) of src/matching_generator.cc. A list of stripes holds
-- an index once, so that an iterator into it is the index, and `erase` removes that index.
pub mod Combs
pub mod Optimize
pub mod Rounds
pub mod Total
pub mod Blocks
pub mod Sound
pub mod Maps
pub mod Partner
pub mod Invariant
pub mod Finding
pub mod Keys
pub mod Marked
pub mod Running
pub mod Perfect
pub mod Swap
pub mod Swapped
pub mod Tested
pub mod Exchange
pub mod Built
pub mod Matched
pub mod Ready
pub mod Rest
use stripe_merge.Common.{
  ℕ, zero, suc, ◌+◌, ◌-◌, ◌*◌, ◌/◌, ◌%◌, ◌^◌, Bool, true, false, not, List, [], ◌∷◌, ◌++◌, Option,
  none, some, ◌==◌, ltb, if◌then◌else◌, length, set, range, remove,
}
use stripe_merge.Stripe.{Params, Stripe, uint8_max}
use stripe_merge.Matching.{Generator, DistMap, stripe_at}
use stripe_merge.Matching.CostTable.{get_cost}
use stripe_merge.Matching.Marks.{map_find, map_put, push_back, mark_matched}
use stripe_merge.Matching.Greedy.{basic_greedy}

-- The blocks of `pd` at the one bits of `bits`, the lowest bit first.
unfoldable pub chosen : ℕ → List ℕ → List ℕ
chosen bits [] = []
chosen bits (x ∷ xs) = if bits % 2 == 1 then x ∷ chosen (bits / 2) xs else chosen (bits / 2) xs

-- The key of `partial_dist_map` for the subset `comb`.
unfoldable pub partial_key : ℕ → List ℕ → List ℕ
unfolding chosen
partial_key comb pd = chosen comb pd ++ comb % 2 ^ 16 ∷ []

-- The inner loop of `build_map`, over the subsets `s` of the list.
unfoldable pub build_partial : ℕ → List ℕ → List ℕ → DistMap → DistMap
unfolding partial_key push_back
build_partial index pd [] m = m
build_partial index pd (s ∷ rest) m =
    build_partial index pd rest (push_back (partial_key s pd) index m)

-- `const uint8_t upside = 1 << rs_m`; `none` where the shift of an `int` is not defined.
unfoldable pub upside : ℕ → Option ℕ
upside rs_m = if ltb rs_m 32 then some (2 ^ rs_m % 256) else none

-- The outer loop of `build_map`, for `index` of the list.
unfoldable pub build_rows : ℕ → List ℕ → Generator → Generator
unfolding build_partial push_back
build_rows up [] g = g
build_rows up (index ∷ rest) g =
    let pd = (stripe_at g.stripes index).parity_dist in
    build_rows up rest (record g {
      parity_map = push_back pd index g.parity_map;
      remaining_stripes = g.remaining_stripes ++ index ∷ [];
      partial_dist_map = build_partial index pd (range 1 (up - 1)) g.partial_dist_map;
    })

unfoldable pub build_map : Generator → Option Generator
unfolding upside build_rows
build_map g = elim (upside g.rs_m) [
  | none ↦ none
  | some up ↦ some (build_rows up (range 0 g.stripes_num) g)
]

-- The local variables of `single_search`. `self` is `self_it`; `peer_it` points at `min_cost_index`.
pub record Scan : Type 0 where
  pub self : Option ℕ
  pub min_cost : ℕ
  pub min_cost_index : ℕ
  pub cleanup_queue : List ℕ
  pub table : List ℕ

-- The loop over the search domain; it breaks when the target is met.
unfoldable pub scan : ℕ → Params → List Stripe → ℕ → ℕ → List ℕ → Scan → Scan
unfolding get_cost
scan c p ss index target [] s = s
scan c p ss index target (j ∷ js) s = elim (stripe_at ss j).selected [
  | true ↦ scan c p ss index target js (record s { cleanup_queue = s.cleanup_queue ++ j ∷ [] })
  | false ↦ elim (j == index) [
    | true ↦ scan c p ss index target js (record s { self = some j })
    | false ↦
        let (cost, table) = get_cost c p ss s.table index j in
        elim (ltb cost s.min_cost) [
          | false ↦ scan c p ss index target js (record s { table = table })
          | true ↦
              let better = record s { min_cost = cost; min_cost_index = j; table = table } in
              elim (cost == target) [ true ↦ better | false ↦ scan c p ss index target js better ]
        ]
  ]
]

-- The iterators of the queue are erased.
unfoldable pub erase_all : List ℕ → List ℕ → List ℕ
unfolding remove
erase_all [] domain = domain
erase_all (x ∷ xs) domain = erase_all xs (remove x domain)

abbrev pub erase_self : Option ℕ → List ℕ → List ℕ
erase_self none domain = domain
erase_self (some x) domain = remove x domain

-- `single_search`: whether the target is met, the domain and the generator.
unfoldable pub single_search : ℕ → ℕ → ℕ → List ℕ → Generator → Bool × List ℕ × Generator
unfolding scan erase_all remove
single_search c index target domain g =
    let cur = stripe_at g.stripes index in
    let s = scan c g.params g.stripes index target domain (record {
      self = none;
      min_cost = cur.cur_cost;
      min_cost_index = 2 ^ 32 - 1;
      cleanup_queue = [];
      table = g.cost_table;
    }) in
    let met = s.min_cost == target in
    let better = ltb s.min_cost cur.cur_cost in
    let ss =
      if better
      then set g.stripes index
          (record cur { cur_cost = s.min_cost; matching_index = s.min_cost_index })
      else g.stripes in
    let left =
      if better
      then (if met then erase_self s.self (remove s.min_cost_index domain) else domain)
      else domain in
    (met, erase_all s.cleanup_queue left, record g { stripes = ss; cost_table = s.table })

-- `a & b` and `a | b` on words of `w` bits.
unfoldable pub bit_and : ℕ → ℕ → ℕ → ℕ
bit_and zero a b = 0
bit_and (suc w) a b = a % 2 * (b % 2) + 2 * bit_and w (a / 2) (b / 2)

unfoldable pub bit_or : ℕ → ℕ → ℕ → ℕ
bit_or zero a b = 0
bit_or (suc w) a b = (if a % 2 == 0 then b % 2 else 1) + 2 * bit_or w (a / 2) (b / 2)

-- The next number with as many one bits: `x = comb & -comb`, `y = x + comb`,
-- `comb = (((comb & ~y) / x) >> 1) | y`, on 32 bits.
unfoldable pub next_comb : ℕ → ℕ
unfolding bit_and bit_or
next_comb comb =
    let x = bit_and 32 comb (2 ^ 32 - comb) in
    let y = x + comb in bit_or 32 (bit_and 32 comb (2 ^ 32 - 1 - y) / x / 2) y

-- `static const uint8_t all_one`: set by the first call in the process, like `c` of `get_cost`; `none` where
-- `(1 << rs_m) - 1` is not defined in an `int`.
unfoldable pub static_all_one : Option ℕ → ℕ → Option ℕ
static_all_one none rs_m = if ltb rs_m 31 then some ((2 ^ rs_m - 1) % 256) else none
static_all_one (some all_one) rs_m = some all_one

-- A round of the loop over the subsets: the list of the key is searched when it holds another stripe.
unfoldable pub search_key : ℕ → ℕ → ℕ → ℕ → Generator → Bool × Generator
unfolding partial_key map_find map_put single_search
search_key c index target comb g =
    let key = partial_key comb (stripe_at g.stripes index).parity_dist in
    elim (map_find key g.partial_dist_map) [
      | none ↦ (false, g)
      | some domain ↦
          if ltb 1 (length domain)
          then (let (met, left, h) = single_search c index target domain g in
              (met, record h { partial_dist_map = map_put key left h.partial_dist_map }))
          else (false, g)
    ]

-- The loop over the subsets, on fuel, `none` if it runs out.
unfoldable pub search_combs : ℕ → ℕ → ℕ → ℕ → ℕ → ℕ → Generator → Option (Bool × Generator)
unfolding search_key next_comb
search_combs zero c all_one index target comb g = none
search_combs (suc fuel) c all_one index target comb g = elim (ltb comb all_one) [
  | false ↦ some (false, g)
  | true ↦
      let (met, h) = search_key c index target comb g in
      elim met [
        | true ↦ some (true, h)
        | false ↦ search_combs fuel c all_one index target (next_comb comb) h
      ]
]

-- `parity_map[pd]`, which begins an empty list where there is none.
unfoldable pub search_same : ℕ → ℕ → Generator → Bool × Generator
unfolding map_find map_put single_search
search_same c index g =
    let pd = (stripe_at g.stripes index).parity_dist in
    elim (map_find pd g.parity_map) [
      | none ↦ (false, record g { parity_map = map_put pd [] g.parity_map })
      | some domain ↦
          if ltb 1 (length domain)
          then (let (met, left, h) = single_search c index 0 domain g in
              (met, record h { parity_map = map_put pd left h.parity_map }))
          else (false, g)
    ]

-- `search_for_matching(index, target_cost)`, for a target below `rs_m`; `none` where `(1 << k) - 1` is not
-- defined in an `int`, or fuel of `search_combs` that runs out.
unfoldable pub search_for_matching : ℕ → ℕ → ℕ → ℕ → Generator → Option (Bool × Generator)
unfolding search_same search_combs
search_for_matching c all_one index target g =
    if target == 0
    then some (search_same c index g)
    else if ltb (g.rs_m - target) 31
    then search_combs (all_one + 1) c all_one index target (2 ^ (g.rs_m - target) - 1) g
    else none
