-- ===== src/Tests/Serving.antt =====
-- A server that receives one block, with one worker of each kind, and with two.
use stripe_merge.Common.{
  ℕ, ◌+◌, ◌*◌, ◌<◌, ◌≡◌, ◌⊎◌, refl, true, false, List, [], ◌∷◌, some, none, arith,
}
use stripe_merge.Migration.{MigrationInfo, blank_task, migration}
use stripe_merge.Pool.Tasks.{add_task, get_task, set_finished, new_thread_pool}
use stripe_merge.Pool.Blocks.{new_memory_pool, get_block, release_block, find_block}
use stripe_merge.Server.{
  Server, new_server, receive_round, close, compute_take, compute_give, write_take, write_done,
  Step, Reach, receives, closes, takes, gives, picks, stores, here, next,
}
use stripe_merge.Server.Accepting.{
  Accept, refused, accepted, Connections, serves_node, serves_master, wait_for_connection,
  wait_for_connection_lem,
}
use stripe_merge.Server.Finish.{IsSame, server_loses_nothing}
use stripe_merge.Server.Drain.{left, server_drains}

abbrev apart : ℕ → ℕ
apart i = 16 * (i + 1)

abbrev recv : ℕ → MigrationInfo → ℕ → ℕ
recv ptr task memory = memory + ptr

abbrev encode : ℕ × ℕ → MigrationInfo → ℕ → ℕ
encode row task memory = memory + row.1

abbrev store : MigrationInfo → ℕ → ℕ
store task memory = memory + 1

abbrev task : MigrationInfo
task = record blank_task { source = 1; target = 2; coefficient = 0; mem_ptr = some 16 }

abbrev finished : Server ℕ
finished = record (new_server apart 1 1 0) {
  mem_pool = record (new_memory_pool apart 2) { free_queue = 1 ∷ 0 ∷ [] };
  c_worker = record { task_queue = []; seal_flag = true };
  w_worker = record { task_queue = []; seal_flag = true };
  memory = 17;
  receiving = false;
  compute_live = 0;
  write_live = 0;
  received = task ∷ [];
  written = task ∷ [];
}

whole_run : Reach recv encode store [] (new_server apart 1 1 0) finished
unfolding new_server receive_round close compute_take compute_give write_take write_done get_task
    set_finished add_task new_memory_pool get_block release_block find_block new_thread_pool
    blank_task migration
whole_run =
    next
      (next
        (next
          (next (next (next here (receives (migration 1 2 0) refl refl)) (closes refl))
            (takes (omega arith) refl))
          (picks (omega arith) refl))
        (stores [] task [] refl))
      (picks (omega arith) refl)

server_loses_nothing_example : IsSame finished.received finished.written
unfolding new_server
server_loses_nothing_example =
    server_loses_nothing recv encode store [] apart 1 0 finished whole_run refl refl

server_drains_example :
    ((t : Server ℕ) → Step recv encode store [] finished t → left t < left finished)
    × (((finished.compute_live ≡ 0) × (finished.write_live ≡ 0))
        ⊎ ((t : Server ℕ) × Step recv encode store [] finished t))
unfolding new_server
server_drains_example = server_drains recv encode store [] apart 1 0 finished whole_run refl

-- With two workers of each kind, the first compute worker that stops seals the write queue. The task that
-- the other one still has is added after the write workers have gone, and never written.
abbrev late : MigrationInfo
late = record blank_task { source = 1; target = 2; coefficient = 1; mem_ptr = some 16 }

abbrev lost : Server ℕ
lost = record (new_server apart 1 2 0) {
  mem_pool = record (new_memory_pool apart 2) { free_queue = 1 ∷ [] };
  c_worker = record { task_queue = []; seal_flag = true };
  w_worker = record { task_queue = late ∷ []; seal_flag = true };
  memory = 17;
  receiving = false;
  compute_live = 0;
  write_live = 0;
  received = late ∷ [];
}

lost_run : Reach recv encode store [] (new_server apart 1 2 0) lost
unfolding new_server receive_round close compute_take compute_give write_take write_done get_task
    set_finished add_task new_memory_pool get_block release_block find_block new_thread_pool
    blank_task migration
lost_run =
    next
      (next
        (next
          (next
            (next
              (next (next (next here (receives (migration 1 2 1) refl refl)) (closes refl))
                (takes (omega arith) refl))
              (takes (omega arith) refl))
            (picks (omega arith) refl))
          (picks (omega arith) refl))
        (gives [] late [] refl))
      (takes (omega arith) refl)

-- A failure, node 2, then the master.
abbrev arrivals : List (Accept ℕ)
arrivals = refused ∷ accepted 10 (some 2) ∷ accepted 11 (some 0) ∷ []

wait_for_connection_lem_example :
    (t : Connections ℕ) × (wait_for_connection 2 0 arrivals
        (record { client_index = 7; master_sock = none; thr = [] })
      ≡ some t)
    × (t.thr ≡ serves_node 10 ∷ serves_master ∷ [])
wait_for_connection_lem_example =
    wait_for_connection_lem 2 7 arrivals (omega arith) (omega arith) (tt, (tt, (tt, tt)))
