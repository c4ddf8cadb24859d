-- ===== src/Tests/Running.antt =====
-- The programs, run with decimal arguments.
use Prim.Native.String.{String}
use mathlib.Core.List.Permᴰ
use stripe_merge.Common.{
  ℕ, ◌+◌, ◌-◌, ◌*◌, ◌%◌, ◌^◌, ◌≡◌, refl, List, [], ◌∷◌, ◌++◌, some, true, false, Bool, not, ◌==◌,
  map, length, suc, arith, All,
}
use stripe_merge.Migration.{MigrationInfo, blank_task, migration}
use stripe_merge.Pool.Tasks.{ThreadPool, new_thread_pool, add_task, set_finished}
use stripe_merge.Client.{
  SocketAddress, TcpClient, new_tcp_client, start_client, demo_tasks, add_demo_tasks, demo_task,
}
use stripe_merge.Client.Peers.{others}
use stripe_merge.Client.Shutdown.{farewell}
use stripe_merge.Client.Start.{message, address_for, start_client_lem}
use stripe_merge.Matching.Scheme.Merge.{IsMove}
use stripe_merge.Node.{name_tasks, start_master}
use stripe_merge.Node.Master.{Permutes}
use stripe_merge.Node.Scheme.{make_scheme}
use stripe_merge.Programs.{exits, starts, node_main, Report, matching_main}
use stripe_merge.Programs.Runs.{matching_main_lem, node_main-start_master}
use stripe_merge.Programs.Delivery.{master_delivers}
use stripe_merge.Tests.Data.{still, still-IsShuffle}

-- Digits only.
abbrev digits : ℕ → List ℕ → ℕ
digits n [] = n
digits n (x ∷ xs) = digits (n * 10 + (x - 48)) xs

abbrev decimal : List ℕ → ℕ
decimal xs = digits 0 xs

abbrev unnamed : ℕ → ℕ → ℕ → String
unnamed target source index = "test/store/f"

abbrev in_order : List MigrationInfo → List MigrationInfo
in_order xs = xs

in_order-Permutes : Permutes in_order
in_order-Permutes xs = Permᴰ.refl xs

-- A data node, a master without its arguments and an unknown type.
node_run : node_main decimal ([] ∷ (51 ∷ []) ∷ []) ≡ starts 3 0 0
unfolding node_main
node_run = refl

usage_run : node_main decimal ([] ∷ (48 ∷ []) ∷ []) ≡ exits
unfolding node_main
usage_run = refl

type_run : node_main decimal ([] ∷ (48 ∷ []) ∷ (49 ∷ []) ∷ (51 ∷ []) ∷ []) ≡ exits
unfolding node_main
type_run = refl

matching_main_lem_example :
    (r : Report) × (matching_main decimal still still
        ([] ∷ (52 ∷ []) ∷ (53 ∷ []) ∷ (50 ∷ []) ∷ (49 ∷ []) ∷ [])
      ≡ some r)
    × (r.greedy_cost ≡ r.scheme_size % 2 ^ 32)
matching_main_lem_example =
    matching_main_lem decimal still still [] (52 ∷ []) (53 ∷ []) (50 ∷ []) (49 ∷ []) still-IsShuffle
      still-IsShuffle (omega arith) refl (omega arith) (omega arith) (omega arith) (omega arith)
      (omega arith)

node_main-start_master_example :
    (scheme : List MigrationInfo) × (node_main decimal
        ([] ∷ (48 ∷ []) ∷ (49 ∷ 48 ∷ 48 ∷ []) ∷ (50 ∷ []) ∷ [])
      ≡ starts 0 100 2)
    × (make_scheme still still 2 1 (2 * 2 + 1) 100 2 ≡ some scheme)
    × All (IsMove (2 * 2 + 1)) scheme
    × (start_master unnamed in_order scheme new_thread_pool
        ≡ some (record {
          task_queue = new_thread_pool.task_queue ++ name_tasks unnamed 0 (in_order scheme);
          seal_flag = true;
        }))
node_main-start_master_example =
    node_main-start_master decimal [] (49 ∷ 48 ∷ 48 ∷ []) (50 ∷ []) unnamed still still in_order
      new_thread_pool 2 1 still-IsShuffle still-IsShuffle in_order-Permutes refl (omega arith)
      (omega arith) (omega arith) (omega arith) (omega arith) (omega arith) (omega arith)
      (λ e. omega (arith, e))

abbrev cluster : List SocketAddress
cluster =
    record { ip = "10.0.0.1"; port = 15000 }
    ∷ record { ip = "10.0.0.2"; port = 15001 }
    ∷ record { ip = "10.0.0.3"; port = 15002 }
    ∷ record { ip = "10.0.0.4"; port = 15003 }
    ∷ record { ip = "10.0.0.5"; port = 15004 }
    ∷ []

-- Every flag arrives.
abbrev arrives : SocketAddress → Bool
arrives address = true

abbrev queue : ThreadPool
queue = record { task_queue = record blank_task { source = 1; target = 3 } ∷ []; seal_flag = true }

start_client_lem_example :
    (c d : TcpClient) × (new_tcp_client 1 (others 1 1 cluster) ≡ some c)
    × (start_client arrives true 2 (record c { pool = queue }) ≡ some d)
    × (d.sent
        ≡ map (message (address_for 1 cluster) (not (1 == 0))) queue.task_queue
          ++ map farewell (others 1 1 cluster))
start_client_lem_example =
    start_client_lem 1 cluster arrives queue (omega arith) (omega arith)
      (refl, (refl, (refl, (refl, (refl, tt))))) refl
      (
        record {
          from_node = λ e. omega (arith, e);
          to_node = omega arith;
          other = λ e. omega (arith, e);
        },
        tt,
      )

-- Twenty tasks, then the end of the queue.
demo_run :
    (c : TcpClient)
    → c.pool ≡ new_thread_pool
    → (length (demo_tasks c).pool.task_queue ≡ 20) × ((demo_tasks c).pool.seal_flag ≡ true)
unfolding demo_tasks add_demo_tasks demo_task migration new_thread_pool add_task set_finished
demo_run c e = rw e (refl, refl)

master_delivers_example :
    (scheme : List MigrationInfo) × (pool : ThreadPool) × (c d : TcpClient) × (node_main decimal
        ([] ∷ (48 ∷ []) ∷ (49 ∷ 48 ∷ 48 ∷ []) ∷ (48 ∷ []) ∷ [])
      ≡ starts 0 100 0)
    × (make_scheme still still 2 1 (2 * 2 + 1) 100 0 ≡ some scheme)
    × (start_master unnamed in_order scheme new_thread_pool ≡ some pool)
    × (new_tcp_client 0 (others 0 1 cluster) ≡ some c)
    × (start_client arrives true (suc (length pool.task_queue)) (record c { pool = pool }) ≡ some d)
    × (d.sent
        ≡ map (message (address_for 0 cluster) false) (name_tasks unnamed 0 (in_order scheme))
          ++ map farewell (others 0 1 cluster))
master_delivers_example =
    master_delivers decimal [] (49 ∷ 48 ∷ 48 ∷ []) (48 ∷ []) unnamed still still in_order 2 1
      cluster arrives still-IsShuffle still-IsShuffle in_order-Permutes refl (omega arith)
      (omega arith) (omega arith) (omega arith) (omega arith) (omega arith) (omega arith)
      (λ e. omega arith) (omega arith) (omega arith) (refl, (refl, (refl, (refl, (refl, tt)))))
