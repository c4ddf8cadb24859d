-- ===== src/Programs/Delivery.antt =====
-- A master from its arguments to the messages of its client: src/node_main.cc, src/tcp_node.cc and
-- src/tcp_client.cc together.
use Prim.Native.String.{String}
use stripe_merge.Common.{
  IsShuffle, ℕ, ◌+◌, ◌*◌, ◌^◌, ◌≤◌, ◌<◌, ◌≡◌, refl, Bool, true, false, List, [], ◌∷◌, ◌++◌, some,
  map, arith, All, length, suc,
}
use stripe_merge.Migration.{MigrationInfo}
use stripe_merge.Pool.Tasks.{ThreadPool, new_thread_pool}
use stripe_merge.Matching.Scheme.Merge.{IsMove}
use stripe_merge.Client.{SocketAddress, TcpClient, new_tcp_client, start_client}
use stripe_merge.Client.Peers.{others}
use stripe_merge.Client.Shutdown.{farewell}
use stripe_merge.Client.Start.{IsSendable, message, address_for, start_client_lem}
use stripe_merge.Node.{name_tasks, start_master}
use stripe_merge.Node.Master.{Permutes, name_tasks-All, All-Perm}
use stripe_merge.Node.Scheme.{make_scheme}
use stripe_merge.Programs.{starts, node_main}
use stripe_merge.Programs.Runs.{node_main-start_master}

IsMove-IsSendable :
    (n : ℕ) (nodes : List SocketAddress) (xs : List MigrationInfo)
    → n ≤ length nodes
    → All (λ (task : MigrationInfo). (0 < task.source) × (task.source ≤ n)) xs
    → All (IsSendable 0 nodes) xs
IsMove-IsSendable n nodes [] h a = tt
IsMove-IsSendable n nodes (x ∷ xs) h (a, more) = (
  record {
    from_node = λ e. omega (arith, e, a);
    to_node = omega (arith, a, h);
    other = λ e. omega (arith, e, a);
  },
  IsMove-IsSendable n nodes xs h more,
)

IsMove-sources :
    (n : ℕ) (xs : List MigrationInfo)
    → All (IsMove n) xs
    → All (λ (task : MigrationInfo). (0 < task.source) × (task.source ≤ n)) xs
IsMove-sources n [] a = tt
IsMove-sources n (x ∷ xs) (a, more) = (a.from_in, IsMove-sources n xs more)

-- For the arguments of a master: index 0, the size of the experiment and a type of at most 2, under
-- the conditions on `k`, `m`, the type, the size and the shuffles of `node_main-start_master`, in a
-- cluster of at least `2 * k + m` nodes and fewer than 2^16 - 2 whose flags all arrive: `node_main`
-- starts node 0, the master makes a scheme and queues its tasks, its client is made, and
-- `start_client` on this queue ends after it has sent each task of the shuffled scheme, in its
-- order, to the address of its source, and then the signal to stop to each node.
pub master_delivers :
    (strtoul : List ℕ → ℕ) (program size kind : List ℕ) (store_name : ℕ → ℕ → ℕ → String)
    (deal_shuffle plan_shuffle : ℕ → List ℕ → List ℕ)
    (shuffle : List MigrationInfo → List MigrationInfo) (k m : ℕ) (nodes : List SocketAddress)
    (read : SocketAddress → Bool)
    → IsShuffle deal_shuffle
    → IsShuffle plan_shuffle
    → Permutes shuffle
    → strtoul (48 ∷ []) ≡ 0
    → strtoul kind ≤ 2
    → 0 < k
    → 0 < m
    → 2 * k + 2 * m < 256
    → 2 * k * (k + m) * (2 * k + m) ≤ strtoul size
    → strtoul size < 2 ^ 31
    → strtoul size * (k + m) < 2 ^ 32
    → (strtoul kind ≡ 0 → m < 31)
    → 2 * k + m ≤ length nodes
    → length nodes + 2 < 2 ^ 16
    → All (λ a. read a ≡ true) nodes
    → (scheme : List MigrationInfo) × (pool : ThreadPool) × (c d : TcpClient) × (node_main strtoul
          (program ∷ (48 ∷ []) ∷ size ∷ kind ∷ [])
        ≡ starts 0 (strtoul size) (strtoul kind))
      × (make_scheme deal_shuffle plan_shuffle k m (2 * k + m) (strtoul size) (strtoul kind)
          ≡ some scheme)
      × (start_master store_name shuffle scheme new_thread_pool ≡ some pool)
      × (new_tcp_client 0 (others 0 1 nodes) ≡ some c)
      × (start_client read true (suc (length pool.task_queue)) (record c { pool = pool }) ≡ some d)
      × (d.sent
          ≡ map (message (address_for 0 nodes) false) (name_tasks store_name 0 (shuffle scheme))
            ++ map farewell (others 0 1 nodes))
unfolding new_thread_pool
master_delivers strtoul program size kind store_name deal_shuffle plan_shuffle shuffle k m nodes
      read fair fair' p z low hk hm small whole few fits shift room count arrive =
    let (scheme, started, made, moves, sent) =
      node_main-start_master strtoul program size kind store_name deal_shuffle plan_shuffle shuffle
        new_thread_pool k m fair fair' p z low hk hm small whole few fits shift in
    let n : ℕ = 2 * k + m in
    let tasks = name_tasks store_name 0 (shuffle scheme) in
    let sources : All (λ (task : MigrationInfo). (0 < task.source) × (task.source ≤ n)) tasks =
      name_tasks-All store_name (λ s t. (0 < s) × (s ≤ n)) 0 (shuffle scheme)
        (All-Perm (λ (task : MigrationInfo). (0 < task.source) × (task.source ≤ n)) (p scheme)
          (IsMove-sources n scheme moves)) in
    let pool : ThreadPool = record { task_queue = tasks; seal_flag = true } in
    let (c, d, client, ended, told) =
      start_client_lem 0 nodes read pool (omega arith) count arrive refl
        (IsMove-IsSendable n nodes tasks room sources) in
    (scheme, pool, c, d, started, made, sent, client, ended, told)
