-- ===== src/Client/Route.antt =====
-- The way of a task through src/tcp_client.cc: from the master to the source node, and from there to the target.
use mathlib.Core.Option.{none-ne-some}
use stripe_merge.Common.{
  ℕ, zero, suc, ◌+◌, ◌^◌, ◌<◌, ◌≡◌, ◌≢◌, refl, ap, ◌∙◌, true, false, not, ◌&&◌, List, [], ◌∷◌, ◌++◌,
  some, arith, ◌==◌, length, get_elem?,
}
use stripe_merge.Migration.{MigrationInfo}
use stripe_merge.Pool.Tasks.{ThreadPool, get_task-head}
use stripe_merge.Client.{
  SocketAddress, TcpClient, conn_at, host_of, cur_conn, client_round, sends, new_tcp_client,
}
use stripe_merge.Client.Peers.{others, new_tcp_client_lem}

-- What the client looks like when the head of its queue has gone out to `address`.
abbrev pub after_send : TcpClient → MigrationInfo → List MigrationInfo → SocketAddress → TcpClient
after_send c task rest address = record c {
  pool = record c.pool { task_queue = rest };
  sent =
      c.sent ++ record { to = address; header = task; with_chunk = not (c.node_index == 0) } ∷ [];
}

pub client_round-sends :
    (c : TcpClient) (task : MigrationInfo) (rest : List MigrationInfo) (address : SocketAddress)
    → c.pool.task_queue ≡ task ∷ rest
    → task.source ≢ 0
    → conn_at c (host_of c task) ≡ some address
    → client_round true c ≡ sends (after_send c task rest address)
unfolding client_round cur_conn
client_round-sends c task rest address q source conn =
    let busy : (task.source == 0) && (task.target == 0) ≡ false = ground (arith, source) in
    rw (client_round, get_task-head c.pool task rest q, busy, conn) refl

below :
    (nodes : List SocketAddress) (x : ℕ) (a : SocketAddress)
    → get_elem? nodes x ≡ some a
    → x < length nodes
below [] x a e = absurd (none-ne-some a e)
below (b ∷ nodes) zero a e = omega arith
below (b ∷ nodes) (suc x) a e = omega (arith, below nodes x a e)

host-master :
    (c : TcpClient) (task : MigrationInfo) → c.node_index ≡ 0 → host_of c task ≡ task.source
host-master c task e = ground (arith, e)

host-source :
    (c : TcpClient) (task : MigrationInfo) (s : ℕ)
    → c.node_index ≡ suc s
    → host_of c task ≡ task.target
host-source c task s e = ground (arith, e)

-- For a task between two different nodes of a cluster of fewer than 2^16 - 2 nodes, at the head of
-- the queue, a round of the master's client sends it to its source, and a round of the client of the
-- source sends it to its target. The flag `lck_flag` is set, as it is in a process whose first
-- client has mutexes.
pub task_route :
    (nodes : List SocketAddress) (task : MigrationInfo) (rest : List MigrationInfo)
    (pool : ThreadPool) (s t : ℕ) (from to : SocketAddress)
    → task.source ≡ suc s
    → task.target ≡ suc t
    → s ≢ t
    → get_elem? nodes s ≡ some from
    → get_elem? nodes t ≡ some to
    → length nodes + 2 < 2 ^ 16
    → pool.task_queue ≡ task ∷ rest
    → (master source : TcpClient) × (new_tcp_client 0 (others 0 1 nodes) ≡ some master)
      × (new_tcp_client (suc s) (others (suc s) 1 nodes) ≡ some source)
      × (client_round true (record master { pool = pool })
          ≡ sends (after_send (record master { pool = pool }) task rest from))
      × (client_round true (record source { pool = pool })
          ≡ sends (after_send (record source { pool = pool }) task rest to))
task_route nodes task rest pool s t from to es et apart hs ht small q =
    let in_s = below nodes s from hs in
    let in_t = below nodes t to ht in
    let (m, made_m, index_m, conns_m) = new_tcp_client_lem 0 nodes (omega arith) small in
    let (d, made_d, index_d, conns_d) = new_tcp_client_lem (suc s) nodes (omega arith) small in
    let up : task.source ≢ 0 = λ e. omega (arith, es, e) in
    let host_m : host_of m task ≡ suc s = host-master m task index_m ∙ es in
    let host_d : host_of d task ≡ suc t = host-source d task s index_d ∙ et in
    (
      m,
      d,
      made_m,
      made_d,
      client_round-sends (record m { pool = pool }) task rest from q up
          (ap (conn_at m) host_m ∙ conns_m s in_s (λ e. omega arith) ∙ hs),
      client_round-sends (record d { pool = pool }) task rest to q up
          (ap (conn_at d) host_d ∙ conns_d t in_t (λ e. apart (omega arith)) ∙ ht),
    )
