-- ===== src/Matching/Greedy.antt =====
-- `MatchingGenerator::basic_greedy` of src/matching_generator.cc (StripeMerge-G).
pub mod Levels
pub mod Weights
pub mod Select
pub mod Stable
pub mod Settled
pub mod Result
pub mod Perfect
use stripe_merge.Common.{
  ℕ, zero, suc, ◌+◌, ◌-◌, ◌*◌, ◌/◌, ◌%◌, ◌^◌, Bool, true, false, not, ◌&&◌, ◌||◌, List, [], ◌∷◌,
  ◌++◌, Option, none, some, ◌==◌, ltb, if◌then◌else◌, length, get_or, set, replicate, range,
}
use stripe_merge.Stripe.{Params, Stripe}
use stripe_merge.Matching.{Generator, stripe_at}
use stripe_merge.Matching.CostTable.{get_cost, token, token_i, token_j}
use stripe_merge.Matching.Marks.{pair_up}

-- `level[cost].push_back(token)`. A write outside the array changes nothing here.
unfoldable pub push_level : ℕ → ℕ → List (List ℕ) → List (List ℕ)
push_level cost t levels = set levels cost (get_or levels cost [] ++ t ∷ [])

-- With `remain_flag`, the stripes that are selected already are passed over.
abbrev pub passed_over : Bool → Stripe → Bool
passed_over remain_flag s = remain_flag && s.selected

-- The cost table and the levels, which the first loops fill.
pub record Fill : Type 0 where
  pub table : List ℕ
  pub levels : List (List ℕ)

module _ (remain_flag : Bool) (c : ℕ) (p : Params) (ss : List Stripe) where
  unfoldable pub fill_pair : ℕ → ℕ → Fill → Fill
  unfolding push_level
  fill_pair i j s =
      if passed_over remain_flag (stripe_at ss j)
      then s
      else let (cost, table) = get_cost c p ss s.table i j in
        record { table = table; levels = push_level cost (token i j) s.levels }

  -- The inner loop, for `j` of the list.
  unfoldable pub fill_row : ℕ → List ℕ → Fill → Fill
  fill_row i [] s = s
  fill_row i (j ∷ js) s = fill_row i js (fill_pair i j s)

  -- The outer loop, for `i` of the list, among `n` stripes.
  unfoldable pub fill_rows : ℕ → List ℕ → Fill → Fill
  unfolding fill_row
  fill_rows n [] s = s
  fill_rows n (i ∷ is) s = fill_rows n is (
      if passed_over remain_flag (stripe_at ss i)
      then s
      else fill_row i (range (i + 1) (n - (i + 1))) s)

-- The local variables of the selection.
pub record Pick : Type 0 where
  pub selected : List ℕ
  pub num_to_select : ℕ
  pub flag : List Bool
  pub stripes : List Stripe

-- The pair `i`, `j` is selected at `cost`.
unfoldable pub pick_pair : ℕ → ℕ → ℕ → Pick → Pick
unfolding pair_up
pick_pair cost i j s = record {
  selected = set s.selected cost (get_or s.selected cost 0 + 1);
  num_to_select = s.num_to_select - 1;
  flag = set (set s.flag i true) j true;
  stripes = pair_up i j cost s.stripes;
}

abbrev pub is_free : ℕ → ℕ → Pick → Bool
is_free i j s = not (get_or s.flag i false) && not (get_or s.flag j false)

-- The loop over the tokens of a level; it breaks when nothing is left to select.
unfoldable pub pick_level : ℕ → List ℕ → Pick → Pick
pick_level cost [] s = s
pick_level cost (m ∷ ms) s = elim (is_free (token_i m) (token_j m) s) [
  | true ↦ elim ((pick_pair cost (token_i m) (token_j m) s).num_to_select == 0) [
    | true ↦ pick_pair cost (token_i m) (token_j m) s
    | false ↦ pick_level cost ms (pick_pair cost (token_i m) (token_j m) s)
  ]
  | false ↦ pick_level cost ms s
]

-- The loop over the levels, from `cost` on. For `rs_n < 255` the counter `cur_cost` takes each of their
-- indices once; `basic_greedy` says what `rs_n = 255` comes to.
unfoldable pub pick_levels : ℕ → List (List ℕ) → Pick → Pick
pick_levels cost [] s = s
pick_levels cost (l ∷ ls) s =
    let rest = pick_levels (cost + 1) ls (pick_level cost l s) in
    if s.num_to_select == 0 then s else rest

-- The sum of `cur_cost * selected[cur_cost]`, in 32 bits, from `cost` on, for `rs_n < 255`: the callers
-- say what `rs_n = 255` comes to.
unfoldable pub add_costs : ℕ → List ℕ → ℕ → ℕ
add_costs cost [] total = total
add_costs cost (k ∷ ks) total =
    add_costs (cost + 1) ks (if k == 0 then total else (total + cost * k) % 2 ^ 32)

-- The levels as they are filled, and the selection from them.
unfoldable pub greedy_fill : Bool → ℕ → Generator → Fill
unfolding fill_rows
greedy_fill remain_flag c g =
    fill_rows remain_flag c g.params g.stripes g.stripes_num (range 0 g.stripes_num)
      (record { table = g.cost_table; levels = replicate (g.rs_n + 1) [] })

unfoldable pub greedy_pick : Bool → List (List ℕ) → Generator → Pick
unfolding pick_levels
greedy_pick remain_flag levels g = pick_levels 0 levels (record {
  selected = replicate (g.rs_n + 1) 0;
  num_to_select = if remain_flag then length g.remaining_stripes / 2 else g.stripes_num / 2;
  flag = replicate g.stripes_num false;
  stripes = g.stripes;
})

-- `basic_greedy(remain_flag)`; `none` is `exit(-1)`, or a loop without an end: the counters of `uint8_t` never
-- pass an `rs_n` of 255, so that the first loop then ends only when nothing is left to select, and the second
-- one, which is left out with `remain_flag`, not at all. `c` is the static of `get_cost`.
unfoldable pub basic_greedy : Bool → ℕ → Generator → Option (Generator × ℕ)
unfolding greedy_fill greedy_pick add_costs
basic_greedy remain_flag c g =
    if ltb g.node_num (2 * g.rs_k + g.rs_m)
    then none
    else let filled = greedy_fill remain_flag c g in
      let s = greedy_pick remain_flag filled.levels g in
      if ltb g.rs_n 255 || (remain_flag && s.num_to_select == 0)
      then some (
        record g { cost_table = filled.table; stripes = s.stripes },
        if remain_flag then 0 else add_costs 0 s.selected 0,
      )
      else none
