-- ===== src/Node/Relay/Served.antt =====
-- The tasks of a data node of a cluster: sent to their targets, each once and in order, and to the end.
use stripe_merge.Common.{
  ℕ, suc, ◌+◌, ◌-◌, ◌^◌, ◌≤◌, ◌<◌, ◌≡◌, ◌≢◌, refl, ap, ◌∙◌, ap₂, true, false, not, List, [], ◌∷◌,
  ◌++◌, some, map, All, arith, ◌==◌, length, get_elem?, get_elem?-get_or, get_or, ◌⊎◌,
}
use stripe_merge.Migration.{MigrationInfo, blank_task}
use stripe_merge.Client.{SocketAddress, TcpClient, Message, new_tcp_client, conn_at, host_of}
use stripe_merge.Client.Peers.{others, new_tcp_client_lem}
use stripe_merge.Node.Relay.{Relay, RelayStep, RelayReach}
use stripe_merge.Node.Relay.Rounds.{is_stop}
use stripe_merge.Node.Relay.Sent.{Good, message}
use stripe_merge.Node.Relay.Progress.{work_left, Step-work_left}
use stripe_merge.Node.Relay.Ends.{serving, all_sent, keeps_going}

-- A task for node `i` of the cluster to send: it has a source, and its target is another node.
pub record IsTask (nodes : List SocketAddress) (i : ℕ) (task : MigrationInfo) : Type 0 where
  pub from_node : task.source ≢ 0
  pub to_node : (0 < task.target) × (task.target ≤ length nodes)
  pub other : task.target ≢ i

-- The address of the target, and what the block is sent as.
abbrev pub address_of : List SocketAddress → MigrationInfo → SocketAddress
address_of nodes task = get_or nodes (task.target - 1) (record { ip = ""; port = 0 })

abbrev pub delivery : List SocketAddress → MigrationInfo → Message
delivery nodes task = record { to = address_of nodes task; header = task; with_chunk = true }

blank_task-is_stop : is_stop blank_task ≡ true
unfolding blank_task
blank_task-is_stop = refl

module _ (nodes : List SocketAddress) (x : ℕ) (c : TcpClient) (index : c.node_index ≡ suc x)
    (conns : (y : ℕ) → y < length nodes → suc y ≢ suc x → conn_at c (suc y) ≡ get_elem? nodes y)
    (tasks : List MigrationInfo) where
  task-Good :
      (task : MigrationInfo)
      → IsTask nodes (suc x) task
      → Good c (address_of nodes) tasks blank_task blank_task-is_stop task
  task-Good task a =
      let busy : is_stop task ≡ false = ground (arith, a.from_node) in
      let host : host_of c task ≡ suc (task.target - 1) = ground (arith, index, a.to_node) in
      let y : ℕ = task.target - 1 in
      (
        busy,
        ap (conn_at c) host
            ∙ conns y (omega (arith, a.to_node)) (λ e. a.other (omega (arith, e, a.to_node)))
            ∙ get_elem?-get_or nodes y (record { ip = ""; port = 0 }) (omega (arith, a.to_node)),
      )

  tasks-Good :
      (xs : List MigrationInfo)
      → All (IsTask nodes (suc x)) xs
      → All (Good c (address_of nodes) tasks blank_task blank_task-is_stop) xs
  tasks-Good [] h = tt
  tasks-Good (task ∷ xs) h = (task-Good task h.0, tasks-Good xs h.1)

  map-message :
      (xs : List MigrationInfo)
      → map (message c (address_of nodes) tasks blank_task blank_task-is_stop) xs
        ≡ map (delivery nodes) xs
  map-message [] = refl
  map-message (task ∷ xs) =
      let data_node : not (c.node_index == 0) ≡ true = ground (arith, index) in
      ap₂
        (λ b (ms : List Message).
          record { to = address_of nodes task; header = task; with_chunk = b } ∷ ms)
        data_node (map-message xs)

-- When the master gives a data node of a cluster of fewer than 2^16 - 2 nodes tasks that have a
-- source and whose targets are other nodes, and then the signal to stop, then once the client has
-- left its loop it has sent each task to the address of its target, each once and in the order of
-- the master, in whichever order the threads ran.
pub relay_sends :
    (nodes : List SocketAddress) (x : ℕ) (tasks : List MigrationInfo)
    → x < length nodes
    → length nodes + 2 < 2 ^ 16
    → All (IsTask nodes (suc x)) tasks
    → (c : TcpClient) × (new_tcp_client (suc x) (others (suc x) 1 nodes) ≡ some c)
      × ((s : Relay)
          → RelayReach (serving c (tasks ++ blank_task ∷ [])) s
          → s.sending ≡ false
          → s.client.sent ≡ c.sent ++ map (delivery nodes) tasks)
relay_sends nodes x tasks h small good =
    let (c, made, index, conns) = new_tcp_client_lem (suc x) nodes (omega arith) small in
    (
      c,
      made,
      λ s run over.
          all_sent c (address_of nodes) tasks blank_task blank_task-is_stop
            (tasks-Good nodes x c index conns tasks tasks good) s run over
          ∙ ap (λ ms. c.sent ++ ms) (map-message nodes x c index conns tasks tasks),
    )

-- Under the conditions of `relay_sends`, every step of the node lowers the measure `work_left`, and
-- some step is possible until the client has left its loop: every task is sent in the end.
pub relay_ends :
    (nodes : List SocketAddress) (x : ℕ) (tasks : List MigrationInfo)
    → x < length nodes
    → length nodes + 2 < 2 ^ 16
    → All (IsTask nodes (suc x)) tasks
    → (c : TcpClient) × (new_tcp_client (suc x) (others (suc x) 1 nodes) ≡ some c)
      × ((s : Relay)
          → RelayReach (serving c (tasks ++ blank_task ∷ [])) s
          → ((t : Relay) → RelayStep s t → work_left t < work_left s)
            × ((s.sending ≡ false) ⊎ ((t : Relay) × RelayStep s t)))
relay_ends nodes x tasks h small good =
    let (c, made, index, conns) = new_tcp_client_lem (suc x) nodes (omega arith) small in
    (
      c,
      made,
      λ s run. (
        Step-work_left s,
        keeps_going c (address_of nodes) tasks blank_task blank_task-is_stop
            (tasks-Good nodes x c index conns tasks tasks good) s run,
      ),
    )
