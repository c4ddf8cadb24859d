-- ===== src/Tests/Cluster.antt =====
-- A cluster of three nodes: its configuration, the way of a task, and the tasks of the master.
use Prim.Native.String.{String}
use mathlib.Core.List.Permᴰ
use stripe_merge.Common.{
  map, ℕ, suc, ◌+◌, ◌-◌, ◌<◌, ◌≡◌, ◌≢◌, refl, true, false, List, [], ◌∷◌, ◌++◌, some, none, arith,
  length, get_elem?, All, if◌then◌else◌, ◌==◌,
}
use stripe_merge.Migration.{MigrationInfo, blank_task}
use stripe_merge.Pool.Tasks.{ThreadPool}
use stripe_merge.Client.{SocketAddress, TcpClient, new_tcp_client, conn_at, client_round, sends}
use stripe_merge.Client.{send_shutdown_signal}
use stripe_merge.Client.Shutdown.{farewell, send_shutdown_signal_lem}
use stripe_merge.Client.{connect_all, connect_one, all_connected, peers, without}
use stripe_merge.Pool.Tasks.{new_thread_pool}
use stripe_merge.Client.Peers.{others, new_tcp_client_lem}
use stripe_merge.Client.Route.{after_send, task_route}
use stripe_merge.Matching.Scheme.Merge.{IsMove}
use stripe_merge.NcScale.{new_ncscale, get_scheme}
use stripe_merge.Node.{
  Fstream, Config, parsed, aborts, unfinished, parse_config, name_tasks, start_master,
}
use stripe_merge.Node.Parse.{
  Holds, line, ended, port_at, after_params, parse_config_lem, parse_config_aborts,
}
use stripe_merge.Node.Master.{Permutes, start_master_lem, ncscale-start_master}

-- A word of a file: an address or a number.
abbrev word : String → ℕ → String × ℕ
word text number = (text, number)

abbrev number_of : List (String × ℕ) → ℕ × List (String × ℕ)
number_of [] = (0, [])
number_of ((text, number) ∷ rest) = (number, rest)

abbrev text_of : List (String × ℕ) → String × List (String × ℕ)
text_of [] = ("", [])
text_of ((text, number) ∷ rest) = (text, rest)

-- Reads at the end fail, which the loop never asks of such a file.
abbrev words : List (String × ℕ) → Fstream (List (String × ℕ))
words file = record {
  start = λ fn. some file;
  eof = λ s. elim s [ [] ↦ true | _ ∷ _ ↦ false ];
  fail = λ s. false;
  read_number = number_of;
  read_word = text_of;
}

abbrev three_nodes : List (String × ℕ)
three_nodes =
    word "" 2
    ∷ word "" 1
    ∷ word "10.0.0.1" 0
    ∷ word "" 15000
    ∷ word "10.0.0.2" 0
    ∷ word "" 15001
    ∷ word "10.0.0.3" 0
    ∷ word "" 15002
    ∷ []

abbrev cluster : List SocketAddress
cluster =
    record { ip = "10.0.0.1"; port = 15000 }
    ∷ record { ip = "10.0.0.2"; port = 15001 }
    ∷ record { ip = "10.0.0.3"; port = 15002 }
    ∷ []

three_lines : Holds (words three_nodes) (after_params (words three_nodes) three_nodes) cluster
three_lines = line refl refl (line refl refl (line refl refl (ended refl)))

parse_config_lem_example :
    (cfg : Config) × (c : TcpClient) × (parse_config
        (words three_nodes)
        4
        2
        "config/nodes_config.ini"
      ≡ parsed cfg)
    × (cfg.rs_k ≡ 2)
    × (cfg.rs_m ≡ 1)
    × (cfg.node_num ≡ length cluster)
    × (cfg.self_port ≡ (if 2 == 0 then none else port_at cluster (2 - 1)))
    × (new_tcp_client 2 cfg.targets ≡ some c)
    × ((x : ℕ) → x < length cluster → suc x ≢ 2 → conn_at c (suc x) ≡ get_elem? cluster x)
parse_config_lem_example =
    parse_config_lem (words three_nodes) 4 2 "config/nodes_config.ini" three_nodes cluster refl refl
      three_lines (omega arith) (omega arith) (omega arith) (omega arith)

parse_config_aborts_example :
    (parse_config (words three_nodes) 4 2 "config/nodes_config.ini" ≡ aborts → cluster ≡ [])
    × (cluster ≡ [] → parse_config (words three_nodes) 4 2 "config/nodes_config.ini" ≡ aborts)
    × (parse_config (words three_nodes) 4 2 "config/nodes_config.ini" ≢ unfinished)
parse_config_aborts_example =
    parse_config_aborts (words three_nodes) 4 2 "config/nodes_config.ini" three_nodes cluster refl
      refl three_lines (omega arith) (omega arith)

new_tcp_client_lem_example :
    (c : TcpClient) × (new_tcp_client 3 (others 3 1 cluster) ≡ some c)
    × (c.node_index ≡ 3)
    × ((x : ℕ) → x < length cluster → suc x ≢ 3 → conn_at c (suc x) ≡ get_elem? cluster x)
new_tcp_client_lem_example = new_tcp_client_lem 3 cluster (omega arith) (omega arith)

abbrev task : MigrationInfo
task = record blank_task { source = 1; target = 3; coefficient = 1 }

abbrev one_task : ThreadPool
one_task = record { task_queue = task ∷ []; seal_flag = false }

task_route_example :
    (master source : TcpClient) × (new_tcp_client 0 (others 0 1 cluster) ≡ some master)
    × (new_tcp_client 1 (others 1 1 cluster) ≡ some source)
    × (client_round true (record master { pool = one_task })
        ≡ sends (
            after_send
              (record master { pool = one_task })
              task
              []
              (record { ip = "10.0.0.1"; port = 15000 })))
    × (client_round true (record source { pool = one_task })
        ≡ sends (
            after_send
              (record source { pool = one_task })
              task
              []
              (record { ip = "10.0.0.3"; port = 15002 })))
task_route_example =
    task_route cluster task [] one_task 0 2 (record { ip = "10.0.0.1"; port = 15000 })
      (record { ip = "10.0.0.3"; port = 15002 }) refl refl (λ e. omega (arith, e)) refl refl
      (omega arith) refl

abbrev still : List MigrationInfo → List MigrationInfo
still xs = xs

still-Permutes : Permutes still
still-Permutes xs = Permᴰ.refl xs

abbrev unnamed : ℕ → ℕ → ℕ → String
unnamed target source index = "test/store/f"

start_master_lem_example :
    start_master unnamed still (task ∷ []) one_task
    ≡ some
        (record { task_queue = (task ∷ []) ++ name_tasks unnamed 0 (task ∷ []); seal_flag = true })
start_master_lem_example =
    start_master_lem unnamed still (task ∷ []) one_task still-Permutes ((λ e. omega (arith, e)), tt)

ncscale-start_master_example :
    (scheme : List MigrationInfo) × (get_scheme (new_ncscale 2 2) 100 ≡ some scheme)
    × All (IsMove (2 + 2 + 2)) scheme
    × (start_master unnamed still scheme one_task
        ≡ some
            (record { task_queue = (task ∷ []) ++ name_tasks unnamed 0 scheme; seal_flag = true }))
ncscale-start_master_example =
    ncscale-start_master unnamed still one_task 2 2 100 still-Permutes (omega arith) (omega arith)
      (omega arith) (omega arith) (omega arith)

send_shutdown_signal_lem_example :
    (c : TcpClient) × (new_tcp_client 0 (others 0 1 cluster) ≡ some c)
    × ((s : TcpClient)
        → s.node_index ≡ c.node_index
        → s.node_conns ≡ c.node_conns
        → s.conn_num ≡ c.conn_num
        → (d : TcpClient) × (send_shutdown_signal s ≡ some d)
          × (d.sent ≡ s.sent ++ map farewell (others 0 1 cluster)))
send_shutdown_signal_lem_example = send_shutdown_signal_lem 0 cluster (omega arith) (omega arith)

-- A node whose index is not in the cluster waits for a connection that was never begun.
stranger_run : new_tcp_client 9 cluster ≡ none
unfolding new_tcp_client connect_all connect_one all_connected peers without new_thread_pool
stranger_run = refl
