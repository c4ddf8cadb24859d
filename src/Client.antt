-- ===== src/Client.antt =====
-- src/tcp_client.cc and include/tcp_client.hh: the sending side of a node. A connection stands for the address
-- that it leads to; that `connect_one` waits until it is made, and what sockets do, is not modelled.
pub mod Peers
pub mod Route
pub mod Shutdown
pub mod Start
use Prim.Native.String.{String}
use stripe_merge.Common.{
  ℕ, zero, suc, ◌+◌, ◌%◌, ◌^◌, Bool, true, false, not, ◌&&◌, List, [], ◌∷◌, ◌++◌, Option, none,
  some, ◌==◌, ltb, if◌then◌else◌, length, get_or, set, replicate, range,
}
use stripe_merge.Migration.{MigrationInfo, blank_task, migration}
use stripe_merge.Pool.Tasks.{ThreadPool, new_thread_pool, add_task, get_task, set_finished}

pub record SocketAddress : Type 0 where
  pub ip : String
  pub port : ℕ

-- What goes out on a connection: the header, and whether the chunk of `test/stdfile` follows.
pub record Message : Type 0 where
  pub to : SocketAddress
  pub header : MigrationInfo
  pub with_chunk : Bool

-- `req_mtxs` tells whether the mutexes exist; `sent` records what was written.
pub record TcpClient : Type 0 where
  pub pool : ThreadPool
  pub node_index : ℕ
  pub conn : Option SocketAddress
  pub node_conns : List (Option SocketAddress)
  pub req_mtxs : Bool
  pub conn_num : ℕ
  pub sent : List Message

-- `connect_one(sock_addr, index)`.
unfoldable pub connect_one : SocketAddress → ℕ → TcpClient → TcpClient
connect_one address index c =
    if index == 0
    then record c { conn = some address }
    else record c { node_conns = set c.node_conns index (some address) }

-- `j` passes over the index of the node itself.
abbrev pub slot_for : ℕ → ℕ → ℕ
slot_for node_index j = if j == node_index then (j + 1) % 2 ^ 16 else j

-- The loop of the constructor over the addresses. Its threads write different connections.
unfoldable pub connect_all : ℕ → List SocketAddress → TcpClient → TcpClient
unfolding connect_one
connect_all j [] c = c
connect_all j (address ∷ rest) c =
    connect_all ((slot_for c.node_index j + 1) % 2 ^ 16) rest
      (connect_one address (slot_for c.node_index j) c)

-- The indexes of `for (j = 1; j <= conn_num + (node_index ? 1 : 0); ++j)` without `node_index`.
unfoldable pub without : ℕ → List ℕ → List ℕ
without x [] = []
without x (y ∷ ys) = if y == x then without x ys else y ∷ without x ys

unfoldable pub peers : ℕ → ℕ → List ℕ
unfolding without
peers node_index conn_num =
    without node_index (range 1 (conn_num + (if node_index == 0 then 0 else 1)))

abbrev pub conn_at : TcpClient → ℕ → Option SocketAddress
conn_at c index = get_or c.node_conns index none

abbrev pub is_some {ℓ} : {A : Type ℓ} → Option A → Bool
is_some none = false
is_some (some a) = true

unfoldable pub all_connected : TcpClient → List ℕ → Bool
all_connected c [] = true
all_connected c (j ∷ js) = is_some (conn_at c j) && all_connected c js

-- `TCPClient(i, sa, thr_num)`; `none` is the exception of a `join` on a thread that was not started.
unfoldable pub new_tcp_client : ℕ → List SocketAddress → Option TcpClient
unfolding connect_all all_connected peers new_thread_pool
new_tcp_client i sa =
    let c = connect_all 1 sa (record {
      pool = new_thread_pool;
      node_index = i;
      conn = none;
      node_conns = replicate (length sa + 2) none;
      req_mtxs = true;
      conn_num = length sa % 2 ^ 16;
      sent = [];
    }) in
    if all_connected c (peers i (length sa % 2 ^ 16)) then some c else none

-- The connection that `run` takes for `task`. `lck_flag` is a static local: whether the mutexes existed at
-- the first call in the process.
abbrev pub host_of : TcpClient → MigrationInfo → ℕ
host_of c task = if c.node_index == 0 then task.source else task.target

unfoldable pub cur_conn : Bool → TcpClient → MigrationInfo → Option SocketAddress
cur_conn lck_flag c task = if lck_flag then conn_at c (host_of c task) else c.conn

-- How a round of `run` ends: it waits for a task, leaves the loop, has sent, or is `exit(-1)`.
pub data Round : Type 0 where
  waits : Round
  leaves : TcpClient → Round
  sends : TcpClient → Round
  exits : Round

unfoldable pub client_round : Bool → TcpClient → Round
unfolding get_task cur_conn
client_round lck_flag c = elim (get_task c.pool) [
  | none ↦ waits
  | some (task, rest) ↦
      if (task.source == 0) && (task.target == 0)
      then leaves (record c { pool = rest })
      else elim (cur_conn lck_flag c task) [
        | none ↦ exits
        | some address ↦ sends (record c {
          pool = rest;
          sent =
              c.sent
              ++ record { to = address; header = task; with_chunk = not (c.node_index == 0) } ∷ [];
        })
      ]
]

-- `send_shutdown_signal`, for the peers of the list; `none` is `exit(-1)`.
unfoldable pub signal_all : List ℕ → TcpClient → Option TcpClient
unfolding blank_task
signal_all [] c = some c
signal_all (i ∷ is) c = elim (conn_at c i) [
  | none ↦ none
  | some address ↦ signal_all is (record c {
    node_conns = set c.node_conns i none;
    sent = c.sent ++ record { to = address; header = blank_task; with_chunk = false } ∷ [];
  })
]

unfoldable pub send_shutdown_signal : TcpClient → Option TcpClient
unfolding signal_all peers
send_shutdown_signal c = signal_all (peers c.node_index c.conn_num) c

-- `wait_start_flag(index)`: whether it returns, where `read` tells of a connection whether `read_n` on it does
-- not fail. A connection that was not made fails.
abbrev pub flag_read : (SocketAddress → Bool) → Option SocketAddress → Bool
flag_read read none = false
flag_read read (some address) = read address

unfoldable pub wait_start_flag : (SocketAddress → Bool) → TcpClient → ℕ → Bool
wait_start_flag read c index = flag_read read (if index == 0 then c.conn else conn_at c index)

-- The threads of `start_client` that wait for the flags, one for each index of the list.
unfoldable pub wait_start_flags : (SocketAddress → Bool) → TcpClient → List ℕ → Bool
unfolding wait_start_flag
wait_start_flags read c [] = true
wait_start_flags read c (i ∷ is) = wait_start_flag read c i && wait_start_flags read c is

-- `run` of the one thread of the client on the queue as it is, on fuel: `none` is a round that waits for a
-- task or is `exit(-1)`, or fuel that runs out.
unfoldable pub run_client : Bool → ℕ → TcpClient → Option TcpClient
unfolding client_round
run_client lck_flag zero c = none
run_client lck_flag (suc fuel) c = elim (client_round lck_flag c) [
  | waits ↦ none
  | leaves d ↦ some d
  | sends d ↦ run_client lck_flag fuel d
  | exits ↦ none
]

unfoldable pub start_client : (SocketAddress → Bool) → Bool → ℕ → TcpClient → Option TcpClient
unfolding wait_start_flags run_client send_shutdown_signal peers
start_client read lck_flag fuel c =
    if wait_start_flags read c (if c.req_mtxs then peers c.node_index c.conn_num else 0 ∷ [])
    then elim (run_client lck_flag fuel c) [ none ↦ none | some d ↦ send_shutdown_signal d ]
    else none

-- `demo_tasks`: twenty tasks, the odd ones with a coefficient.
unfoldable pub demo_task : ℕ → MigrationInfo
unfolding migration
demo_task i =
    let task = record (migration 0 1 (i % 2)) { index = i } in
    if i % 2 == 0 then task else record task { target_fn = "test/stdfile" }

unfoldable pub add_demo_tasks : List ℕ → ThreadPool → ThreadPool
unfolding demo_task add_task
add_demo_tasks [] pool = pool
add_demo_tasks (i ∷ is) pool = add_demo_tasks is (add_task (demo_task i) pool)

unfoldable pub demo_tasks : TcpClient → TcpClient
unfolding add_demo_tasks set_finished
demo_tasks c = record c { pool = set_finished (add_demo_tasks (range 0 20) c.pool) }
