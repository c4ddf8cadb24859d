-- ===== src/Client/Start.antt =====
-- `start_client` of src/tcp_client.cc on a queue that is sealed.
use mathlib.Core.List.{append_assoc, append-nil}
use mathlib.Core.Option.{some-injective}
use stripe_merge.Common.{
  ℕ, suc, ◌+◌, ◌-◌, ◌^◌, ◌≤◌, ◌<◌, ◌≡◌, ◌≢◌, refl, sym, ap, ap₂, ◌∙◌, subst, Bool, true, false, not,
  List, [], ◌∷◌, ◌++◌, some, map, arith, ◌==◌, if◌then◌else◌, length, get_elem?, get_elem?-get_or,
  get_or, range, All, ℕ_discrete,
}
use stripe_merge.Migration.{MigrationInfo, blank_task}
use stripe_merge.Pool.Tasks.{ThreadPool, get_task-sealed}
use stripe_merge.Client.{
  SocketAddress, Message, TcpClient, conn_at, host_of, client_round, new_tcp_client,
  wait_start_flag, run_client, start_client, send_shutdown_signal, wait_start_flags, peers, without,
}
use stripe_merge.Client.Peers.{others, others-count, new_tcp_client_lem}
use stripe_merge.Client.Route.{after_send, client_round-sends}
use stripe_merge.Client.Shutdown.{
  farewell, new_tcp_client-members, without-own, without-other, send_shutdown_signal_lem,
}

-- The queue is empty and sealed.
run_client-leaves :
    (fuel : ℕ) (c : TcpClient)
    → c.pool.task_queue ≡ []
    → c.pool.seal_flag ≡ true
    → run_client true (suc fuel) c ≡ some c
unfolding run_client client_round blank_task
run_client-leaves fuel c q sealed =
    rw (run_client, client_round, get_task-sealed c.pool q, sealed) refl

-- Every flag arrives.
wait_start_flags-arrive :
    (read : SocketAddress → Bool) (i j : ℕ) (nodes : List SocketAddress) (c : TcpClient)
    → 0 < j
    → All (λ a. read a ≡ true) nodes
    → ((x : ℕ) → x < length nodes → j + x ≢ i → conn_at c (j + x) ≡ get_elem? nodes x)
    → wait_start_flags read c (without i (range j (length nodes))) ≡ true
unfolding wait_start_flags wait_start_flag without
wait_start_flags-arrive read i j [] c up r h = refl
wait_start_flags-arrive read i j (a ∷ nodes) c up r h =
    let rest = wait_start_flags-arrive read i (j + 1) nodes c (omega arith) r.1 (λ x l ne.
      let shift : j + 1 + x ≡ j + suc x = omega arith in
      ap (conn_at c) shift ∙ h (suc x) (omega (arith, l)) (λ o. ne (shift ∙ o))) in
    elim (ℕ_discrete j i) [
      | yes e ↦ ap (wait_start_flags read c) (own e) ∙ rest
      | no ne ↦
          let same : j + 0 ≡ j = omega arith in
          let conn : conn_at c j ≡ some a =
            ap (conn_at c) (sym same) ∙ h 0 (omega arith) (λ o. ne (sym same ∙ o)) in
          let data_node : (j == 0) ≡ false = ground (arith, up) in
          ap (wait_start_flags read c) (without-other i j (range (j + 1) (length nodes)) ne)
          ∙ (rw (wait_start_flags, data_node, conn, r.0) rest)
    ]
  where
    own :
        j ≡ i
        → without i (j ∷ range (j + 1) (length nodes)) ≡ without i (range (j + 1) (length nodes))
    own e =
        subst
          (λ y.
            without i (y ∷ range (j + 1) (length nodes)) ≡ without i (range (j + 1) (length nodes)))
          (sym e) (without-own i (range (j + 1) (length nodes)))

module _ (address : MigrationInfo → SocketAddress) where
  -- What goes out for a task.
  abbrev pub message : Bool → MigrationInfo → Message
  message chunk task = record { to = address task; header = task; with_chunk = chunk }

  abbrev pub Leads : TcpClient → MigrationInfo → Type 0
  Leads c task = (task.source ≢ 0) × (conn_at c (host_of c task) ≡ some (address task))

  run_client-sends :
      (tasks : List MigrationInfo) (c : TcpClient)
      → c.pool.task_queue ≡ tasks
      → c.pool.seal_flag ≡ true
      → All (Leads c) tasks
      → (d : TcpClient) × (run_client true (suc (length tasks)) c ≡ some d)
        × (d.sent ≡ c.sent ++ map (message (not (c.node_index == 0))) tasks)
        × (d.node_index ≡ c.node_index)
        × (d.node_conns ≡ c.node_conns)
        × (d.conn_num ≡ c.conn_num)
  unfolding run_client
  run_client-sends [] c q sealed h =
      (c, run_client-leaves 0 c q sealed, sym (append-nil c.sent), refl, refl, refl)
  run_client-sends (task ∷ rest) c q sealed (h, hs) =
      let next = after_send c task rest (address task) in
      let (d, made, sent, index, conns, num) = run_client-sends rest next refl sealed hs in
      (
        d,
        rw (run_client, client_round-sends c task rest (address task) q h.0 h.1) made,
        sent
            ∙ append_assoc c.sent (message (not (c.node_index == 0)) task ∷ [])
                (map (message (not (c.node_index == 0))) rest),
        index,
        conns,
        num,
      )

-- The node that client `i`, 0 for the master, sends a task to.
abbrev pub host_for : ℕ → MigrationInfo → ℕ
host_for i task = if i == 0 then task.source else task.target

abbrev pub address_for : ℕ → List SocketAddress → MigrationInfo → SocketAddress
address_for i nodes task = get_or nodes (host_for i task - 1) (record { ip = ""; port = 0 })

-- A task that client `i` can send.
pub record IsSendable (i : ℕ) (nodes : List SocketAddress) (task : MigrationInfo) : Type 0 where
  pub from_node : task.source ≢ 0
  pub to_node : (0 < host_for i task) × (host_for i task ≤ length nodes)
  pub other : host_for i task ≢ i

module _ (i : ℕ) (nodes : List SocketAddress) (c : TcpClient) (index : c.node_index ≡ i)
    (conns : (x : ℕ) → x < length nodes → suc x ≢ i → conn_at c (suc x) ≡ get_elem? nodes x) where
  sendable-Leads :
      (task : MigrationInfo) → IsSendable i nodes task → Leads (address_for i nodes) c task
  sendable-Leads task a =
      let x : ℕ = host_for i task - 1 in
      let host : host_of c task ≡ suc x =
        ap (λ y. host_for y task) index ∙ (omega (arith, a.to_node)) in
      (
        a.from_node,
        ap (conn_at c) host
            ∙ conns x (omega (arith, a.to_node)) (λ e. a.other (omega (arith, e, a.to_node)))
            ∙ get_elem?-get_or nodes x (record { ip = ""; port = 0 }) (omega (arith, a.to_node)),
      )

  sendable-Leads_all :
      (tasks : List MigrationInfo)
      → All (IsSendable i nodes) tasks
      → All (Leads (address_for i nodes) c) tasks
  sendable-Leads_all [] h = tt
  sendable-Leads_all (task ∷ tasks) h = (sendable-Leads task h.0, sendable-Leads_all tasks h.1)

-- When the flags are there and the rounds and the signal succeed.
start_client-steps :
    (read : SocketAddress → Bool) (fuel : ℕ) (c t d : TcpClient)
    → c.req_mtxs ≡ true
    → wait_start_flags read c (peers c.node_index c.conn_num) ≡ true
    → run_client true fuel c ≡ some t
    → send_shutdown_signal t ≡ some d
    → start_client read true fuel c ≡ some d
unfolding start_client
start_client-steps read fuel c t d mtxs flags ran ended =
    let has : (if c.req_mtxs then peers c.node_index c.conn_num else 0 ∷ [])
        ≡ peers c.node_index c.conn_num =
      ap (λ b. if b then peers c.node_index c.conn_num else 0 ∷ []) mtxs in
    rw (start_client, has, flags, ran) ended

-- For client `i` of a cluster of fewer than 2^16 - 2 nodes, 0 for the master, to which all flags
-- arrive, and a sealed queue of tasks that have a source and that go to other nodes of the cluster,
-- the client is made, and `start_client` ends after it has sent each task to the address of its
-- source if it is the master and of its target if it is not, in the order of the queue, and then the
-- signal to stop to each other node, in the order of the nodes.
pub start_client_lem :
    (i : ℕ) (nodes : List SocketAddress) (read : SocketAddress → Bool) (pool : ThreadPool)
    → i ≤ length nodes
    → length nodes + 2 < 2 ^ 16
    → All (λ a. read a ≡ true) nodes
    → pool.seal_flag ≡ true
    → All (IsSendable i nodes) pool.task_queue
    → (c d : TcpClient) × (new_tcp_client i (others i 1 nodes) ≡ some c)
      × (start_client read true (suc (length pool.task_queue)) (record c { pool = pool }) ≡ some d)
      × (d.sent
          ≡ map (message (address_for i nodes) (not (i == 0))) pool.task_queue
            ++ map farewell (others i 1 nodes))
unfolding peers
start_client_lem i nodes read pool h small arrive sealed tasks =
    let (c, made, index, conns) = new_tcp_client_lem i nodes h small in
    let (num, sent, mtxs) = new_tcp_client-members i (others i 1 nodes) c made in
    let c' : TcpClient = record c { pool = pool } in
    let whole : c.conn_num + (if c.node_index == 0 then 0 else 1) ≡ length nodes =
      ground (arith, others-count i nodes h, num, index) in
    let flags : wait_start_flags read c' (peers c.node_index c.conn_num) ≡ true =
      ap₂ (λ y n. wait_start_flags read c' (without y (range 1 n))) index whole
      ∙ wait_start_flags-arrive read i 1 nodes c' (omega arith) arrive (λ x l ne.
        let e : 1 + x ≡ suc x = omega arith in ap (conn_at c) e ∙ conns x l (λ o. ne (e ∙ o))) in
    let (t, ran, told, index', conns', num') =
      run_client-sends (address_for i nodes) pool.task_queue c' refl sealed
        (sendable-Leads_all i nodes c' index conns pool.task_queue tasks) in
    let (c2, made2, rest) = send_shutdown_signal_lem i nodes h small in
    let e : c ≡ c2 = some-injective c c2 (sym made ∙ made2) in
    let (d, ended, farewells) =
      rest t (index' ∙ ap (λ (x : TcpClient). x.node_index) e)
        (conns' ∙ ap (λ (x : TcpClient). x.node_conns) e)
        (num' ∙ ap (λ (x : TcpClient). x.conn_num) e) in
    (
      c,
      d,
      made,
      start_client-steps read (suc (length pool.task_queue)) c' t d mtxs flags ran ended,
      farewells
          ∙ ap (λ ms. ms ++ map farewell (others i 1 nodes))
              (told
                ∙ ap₂
                    (λ xs y.
                      xs ++ map (message (address_for i nodes) (not (y == 0))) pool.task_queue)
                    sent index),
    )
