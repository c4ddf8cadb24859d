-- ===== src/Matching/Statistics.antt =====
-- `print_statics`, `get_sending_scheme` and `random_match` of src/matching_generator.cc.
pub mod Pairs
pub mod Total
use stripe_merge.Common.{
  ℕ, ◌+◌, ◌%◌, ◌^◌, Option, none, some, ltb, Bool, true, false, not, ◌&&◌, List, [], ◌∷◌, ◌++◌,
  ◌==◌, if◌then◌else◌, get_or, set, replicate, range,
}
use stripe_merge.Stripe.{Params, Stripe}
use stripe_merge.Migration.{MigrationInfo}
use stripe_merge.Matching.{Generator, stripe_at}
use stripe_merge.Matching.CostTable.{get_cost}
use stripe_merge.Matching.Marks.{mark_matched}
use stripe_merge.Matching.Greedy.{add_costs}
use stripe_merge.Matching.Scheme.{one_scheme}

-- Both loops visit a pair at the first of its stripes. A read of `flag` outside the array, at a stripe
-- without a partner, is not defined; the model reads `false` there and a write does nothing.
abbrev pub is_new : List Bool → ℕ → ℕ → Bool
is_new flag i j = not (get_or flag i false) && not (get_or flag j false)

abbrev pub both_seen : List Bool → ℕ → ℕ → List Bool
both_seen flag i j = set (set flag j true) i true

-- The first loop of `print_statics`, for `i` of the list.
unfoldable pub count_pairs : List Stripe → List ℕ → List Bool → List ℕ → List ℕ
count_pairs ss [] flag count = count
count_pairs ss (i ∷ is) flag count =
    let s = stripe_at ss i in
    elim (is_new flag i s.matching_index) [
      | true ↦
          count_pairs ss is (both_seen flag i s.matching_index)
            (set count s.cur_cost ((get_or count s.cur_cost 0 + 1) % 2 ^ 32))
      | false ↦ count_pairs ss is flag count
    ]

-- The counts of `print_statics` summed up.
unfoldable pub sum_costs : Generator → ℕ
unfolding count_pairs add_costs
sum_costs g =
    add_costs 0
      (count_pairs g.stripes (range 0 g.stripes_num) (replicate g.stripes_num false)
        (replicate (g.rs_n + 1) 0))
      0

-- The value of `print_statics`; `none` for `rs_n = 255`, which its counter of `uint8_t` never passes.
unfoldable pub print_statics : Generator → Option ℕ
unfolding sum_costs
print_statics g = if ltb g.rs_n 255 then some (sum_costs g) else none

-- The loop of `get_sending_scheme`, for `i` of the list.
unfoldable pub send_pairs :
    (ℕ → List ℕ → List ℕ)
    → Params
    → List Stripe
    → List ℕ
    → List Bool
    → List MigrationInfo
    → List MigrationInfo
unfolding one_scheme
send_pairs shuffle p ss [] flag blocks = blocks
send_pairs shuffle p ss (i ∷ is) flag blocks =
    let s = stripe_at ss i in
    elim (is_new flag i s.matching_index) [
      | true ↦ send_pairs shuffle p ss is (both_seen flag i s.matching_index) (
          if s.cur_cost == 0
          then blocks
          else blocks ++ (one_scheme shuffle p i s (stripe_at ss s.matching_index)).moves)
      | false ↦ send_pairs shuffle p ss is flag blocks
    ]

unfoldable pub get_sending_scheme : (ℕ → List ℕ → List ℕ) → Generator → Generator
unfolding send_pairs
get_sending_scheme shuffle g = elim g.blocks_to_sent [
  | [] ↦ record g {
    blocks_to_sent =
        send_pairs shuffle g.params g.stripes (range 0 g.stripes_num)
          (replicate g.stripes_num false) [];
  }
  | _ ∷ _ ↦ g
]

-- The loop of `random_match`, over an even number of shuffled positions.
unfoldable pub match_two : ℕ → List ℕ → Generator → Generator
unfolding get_cost mark_matched
match_two c (i ∷ j ∷ rest) g =
    let (cost, table) = get_cost c g.params g.stripes g.cost_table i j in
    match_two c rest (mark_matched i j cost false (record g { cost_table = table }))
match_two c _ g = g

-- `random_match`, where `shuffle` is `std::random_shuffle`.
unfoldable pub random_match : (List ℕ → List ℕ) → ℕ → Generator → Generator
unfolding match_two
random_match shuffle c g = match_two c (shuffle (range 0 g.stripes_num)) g
