-- ===== src/Programs.antt =====
-- src/node_main.cc and src/matching_main.cc. `strtoul` of the C library is a parameter; an argument is the list
-- of its characters.
pub mod Runs
pub mod Delivery
use stripe_merge.Common.{
  ℕ, ◌+◌, ◌*◌, ◌%◌, ◌^◌, Bool, true, false, not, ◌&&◌, ◌||◌, List, [], ◌∷◌, Option, none, some,
  ◌==◌, ltb, if◌then◌else◌, length, get_or,
}
use stripe_merge.Stripe.{Params, generate_random_distributions}
use stripe_merge.Matching.{Generator, new_generator, input_stripes}
use stripe_merge.Matching.CostTable.{static_c}
use stripe_merge.Matching.Greedy.{basic_greedy}
use stripe_merge.Matching.Search.{static_all_one}
use stripe_merge.Matching.Search.Rounds.{dist_based_search}
use stripe_merge.Matching.Statistics.{print_statics, get_sending_scheme}

-- What node_main.cc comes to: `exit(-1)`, or `start` of the node that it makes.
pub data NodeRun : Type 0 where
  exits : NodeRun
  starts : (self_index exp_size scheme_type : ℕ) → NodeRun

-- `tot_costs` of matching_main.cc, and the size that it prints.
pub record Report : Type 0 where
  pub parity_cost : ℕ
  pub greedy_cost : ℕ
  pub scheme_size : ℕ

-- The search, then the value of `print_statics`.
unfoldable pub searched : ℕ → Option ℕ → Generator → Option ℕ
unfolding dist_based_search print_statics
searched c none g = none
searched c (some all_one) g = elim (dist_based_search c all_one g) [
  | none ↦ none
  | some mg1 ↦ print_statics mg1
]

-- The comparison of StripeMerge-P with StripeMerge-G on the same stripes. Both generators have as many
-- stripes, so that the statics that the first one sets are those of the second one.
unfoldable pub compare : (ℕ → List ℕ → List ℕ) → (ℕ → List ℕ → List ℕ) → Params → ℕ → Option Report
unfolding generate_random_distributions new_generator input_stripes static_c static_all_one searched
    basic_greedy get_sending_scheme
compare deal_shuffle plan_shuffle p stripes_num =
    let g =
      input_stripes (generate_random_distributions p deal_shuffle stripes_num)
        (new_generator p stripes_num) in
    let c = static_c none stripes_num in
    elim (searched c (static_all_one none p.rs_m) g) [
      | none ↦ none
      | some parity_cost ↦ elim (basic_greedy false c g) [
        | none ↦ none
        | some (mg2, total) ↦ some (record {
          parity_cost = parity_cost;
          greedy_cost = total;
          scheme_size = length (get_sending_scheme plan_shuffle mg2).blocks_to_sent;
        })
      ]
    ]

module _ (strtoul : List ℕ → ℕ) where
  -- `main` of node_main.cc. The character '0' is 48, and a string ends with a 0.
  unfoldable pub node_main : List (List ℕ) → NodeRun
  node_main argv =
      let first = get_or (get_or argv 1 []) 0 0 in
      let exp_type = strtoul (get_or argv 3 []) % 2 ^ 32 in
      if not ((length argv == 2 && not (first == 48)) || (length argv == 4 && first == 48))
      then exits
      else if not (first == 48)
      then starts (strtoul (get_or argv 1 []) % 2 ^ 16) 0 0
      else if ltb 2 exp_type
      then exits
      else starts (strtoul (get_or argv 1 []) % 2 ^ 16) (strtoul (get_or argv 2 []) % 2 ^ 32)
          exp_type

  -- `main` of matching_main.cc; `none` is `exit(-1)`, or as in the two matchings.
  unfoldable pub matching_main :
      (ℕ → List ℕ → List ℕ) → (ℕ → List ℕ → List ℕ) → List (List ℕ) → Option Report
  unfolding compare
  matching_main deal_shuffle plan_shuffle argv =
      if length argv == 5
      then compare deal_shuffle plan_shuffle
          (record {
            node_num = strtoul (get_or argv 2 []) % 2 ^ 16;
            rs_k = strtoul (get_or argv 3 []) % 2 ^ 8;
            rs_m = strtoul (get_or argv 4 []) % 2 ^ 8;
          })
          (strtoul (get_or argv 1 []) % 2 ^ 32)
      else none
