-- ===== src/Tests/Planning.antt =====
-- The sending scheme, and the master's scheme by StripeMerge-G.
use Prim.Native.String.{String}
use mathlib.Core.List.Permᴰ
use stripe_merge.Common.{
  ℕ, zero, suc, ◌+◌, ◌*◌, ◌%◌, ◌^◌, ◌<◌, ◌≡◌, refl, List, [], ◌∷◌, ◌++◌, none, some, true, false,
  arith, length, All, inc8,
}
use stripe_merge.Stripe.{
  Stripe, compute_cost, visit, data_loop, parity_step, parity_loop, parity_dest,
}
use stripe_merge.Stripe.Cost.{IsPlaced}
use stripe_merge.Migration.{MigrationInfo}
use stripe_merge.Pool.Tasks.{new_thread_pool}
use stripe_merge.Matching.{Generator, new_generator, input_stripes, stripe_at}
use stripe_merge.Matching.CostTable.{static_c}
use stripe_merge.Matching.Greedy.{basic_greedy}
use stripe_merge.Matching.Greedy.Result.{IsMatched}
use stripe_merge.Matching.Scheme.Merge.{IsMove}
use stripe_merge.Matching.Statistics.{print_statics, get_sending_scheme}
use stripe_merge.Matching.Statistics.Pairs.{IsPaired}
use stripe_merge.Matching.Statistics.Total.{get_sending_scheme_lem}
use stripe_merge.Matching.Plan.{greedy_sending_scheme}
use stripe_merge.Node.{name_tasks, start_master}
use stripe_merge.Node.Master.{Permutes}
use stripe_merge.Node.Scheme.{make_scheme, greedy-start_master}
use stripe_merge.Tests.Data.{
  five, rows, left, right, left-IsPlaced, right-IsPlaced, rows-IsRow, still, still-IsShuffle,
}

-- The two stripes, matched with each other.
abbrev pair : List Stripe
pair =
    record left { selected = true; matching_index = 1; cur_cost = 3 }
    ∷ record right { selected = true; matching_index = 0; cur_cost = 3 }
    ∷ []

abbrev paired : Generator
paired = record (new_generator five 2) { stripes = pair }

pair-IsPlaced : (x : ℕ) → x < 2 → IsPlaced five (stripe_at pair x)
pair-IsPlaced zero h = record {
  data_length = refl;
  parity_length = refl;
  distinct = left-IsPlaced.distinct;
  inside = left-IsPlaced.inside;
}
pair-IsPlaced (suc zero) h = record {
  data_length = refl;
  parity_length = refl;
  distinct = right-IsPlaced.distinct;
  inside = right-IsPlaced.inside;
}
pair-IsPlaced (suc (suc x)) h = absurd (omega arith)

pair-IsPaired : (x : ℕ) → x < 2 → IsPaired five 2 pair x
unfolding compute_cost data_loop parity_loop parity_step parity_dest visit inc8
pair-IsPaired zero h = record {
  inside = omega arith;
  other = λ e. omega (arith, e);
  back = refl;
  cost = refl;
}
pair-IsPaired (suc zero) h = record {
  inside = omega arith;
  other = λ e. omega (arith, e);
  back = refl;
  cost = refl;
}
pair-IsPaired (suc (suc x)) h = absurd (omega arith)

get_sending_scheme_lem_example :
    (print_statics paired ≡ some (length (get_sending_scheme still paired).blocks_to_sent % 2 ^ 32))
    × All (IsMove 5) (get_sending_scheme still paired).blocks_to_sent
unfolding new_generator
get_sending_scheme_lem_example = get_sending_scheme_lem still paired still-IsShuffle (record {
  matching = record { placed = pair-IsPlaced; paired = pair-IsPaired };
  stripes_small = omega arith;
  fresh = refl;
  blocks = refl;
  small = omega arith;
  some_data = omega arith;
  room = omega arith;
  nodes = omega arith;
})

greedy_sending_scheme_example :
    (g : Generator) × (total : ℕ) × (basic_greedy false
        (static_c none 2)
        (input_stripes rows (new_generator five 2))
      ≡ some (g, total))
    × ((x : ℕ) → x < 2 → IsMatched five 2 g.stripes x (stripe_at g.stripes x).matching_index)
    × (print_statics g ≡ some total)
    × (total ≡ length (get_sending_scheme still g).blocks_to_sent % 2 ^ 32)
    × All (IsMove 5) (get_sending_scheme still g).blocks_to_sent
greedy_sending_scheme_example =
    greedy_sending_scheme five 2 rows still still-IsShuffle rows-IsRow refl (omega arith) refl
      (omega arith) (omega arith) (omega arith) (omega arith)

abbrev in_order : List MigrationInfo → List MigrationInfo
in_order xs = xs

in_order-Permutes : Permutes in_order
in_order-Permutes xs = Permᴰ.refl xs

abbrev unnamed : ℕ → ℕ → ℕ → String
unnamed target source index = "test/store/f"

greedy-start_master_example :
    (scheme : List MigrationInfo) × (make_scheme still still 2 1 (2 * 2 + 1) 100 1 ≡ some scheme)
    × All (IsMove (2 * 2 + 1)) scheme
    × (start_master unnamed in_order scheme new_thread_pool
        ≡ some (record {
          task_queue = new_thread_pool.task_queue ++ name_tasks unnamed 0 (in_order scheme);
          seal_flag = true;
        }))
greedy-start_master_example =
    greedy-start_master unnamed still still in_order new_thread_pool 2 1 100 still-IsShuffle
      still-IsShuffle in_order-Permutes (omega arith) (omega arith) (omega arith) (omega arith)
      (omega arith)
