-- ===== src/Tests/Pools.antt =====
-- Short runs of the two pools.
use stripe_merge.Common.{
  ℕ, ◌+◌, ◌*◌, ◌≡◌, refl, List, [], ◌∷◌, ◌++◌, map, range, true, arith, count,
}
use stripe_merge.Migration.{MigrationInfo, migration}
use stripe_merge.Pool.Tasks.{
  ThreadPool, new_thread_pool, add_task, get_task, set_finished, Runs, begin, added, taken,
  finished, Runs_fifo,
}
use stripe_merge.Pool.Blocks.{MemoryPool, new_memory_pool, get_block, Uses, opened, got}
use stripe_merge.Pool.Blocks.Shared.{Uses-whole, get_block_exclusive}

abbrev task : MigrationInfo
task = migration 1 2 0

abbrev drained : ThreadPool
drained = record { task_queue = []; seal_flag = true }

-- A task is added, the pool is sealed, and the task is taken.
sealed_run : Runs (task ∷ []) (task ∷ []) drained
unfolding new_thread_pool add_task set_finished get_task
sealed_run = taken task refl refl (finished (added task begin))

Runs_fifo_example : ◌≡◌ {A = List MigrationInfo} (task ∷ []) ((task ∷ []) ++ [])
Runs_fifo_example = Runs_fifo (task ∷ []) (task ∷ []) drained sealed_run

-- Blocks of 16 bytes, one after the other.
abbrev apart : ℕ → ℕ
apart i = 16 * (i + 1)

abbrev two_blocks : MemoryPool
two_blocks = new_memory_pool apart 2

abbrev one_block : MemoryPool
one_block = record two_blocks { free_queue = 1 ∷ [] }

one_got : Uses apart 2 (16 ∷ []) one_block
unfolding get_block new_memory_pool
one_got = got 16 refl opened

Uses-whole_example :
    count 16 (16 ∷ []) + count 16 (map apart one_block.free_queue)
    ≡ count 16 (map apart (range 0 2))
Uses-whole_example = Uses-whole apart 2 (16 ∷ []) one_block 16 one_got

get_block_exclusive_example : count 32 (16 ∷ []) ≡ 0
unfolding get_block new_memory_pool
get_block_exclusive_example =
    get_block_exclusive apart 2 32 (16 ∷ []) one_block (record one_block { free_queue = [] })
      (λ i j l g e. omega arith) one_got refl
