-- ===== src/Tests/Relaying.antt =====
-- Node 1 of three nodes, with two tasks of the master.
use stripe_merge.Common.{◌<◌, ◌≡◌, List, [], ◌∷◌, ◌++◌, some, false, map, All, arith, ◌⊎◌}
use stripe_merge.Migration.{MigrationInfo, blank_task}
use stripe_merge.Client.{SocketAddress, TcpClient, new_tcp_client}
use stripe_merge.Client.Peers.{others}
use stripe_merge.Node.Relay.{Relay, RelayStep, RelayReach}
use stripe_merge.Node.Relay.Progress.{work_left}
use stripe_merge.Node.Relay.Ends.{serving}
use stripe_merge.Node.Relay.Served.{IsTask, delivery, relay_sends, relay_ends}

abbrev nodes : List SocketAddress
nodes =
    record { ip = "10.0.0.1"; port = 15000 }
    ∷ record { ip = "10.0.0.2"; port = 15001 }
    ∷ record { ip = "10.0.0.3"; port = 15002 }
    ∷ []

abbrev tasks : List MigrationInfo
tasks =
    record blank_task { source = 1; target = 3; coefficient = 1 }
    ∷ record blank_task { source = 1; target = 2; index = 1 }
    ∷ []

tasks-IsTask : All (IsTask nodes 1) tasks
tasks-IsTask = (
  record {
    from_node = λ e. omega (arith, e);
    to_node = omega arith;
    other = λ e. omega (arith, e);
  },
  (
    record {
      from_node = λ e. omega (arith, e);
      to_node = omega arith;
      other = λ e. omega (arith, e);
    },
    tt,
  ),
)

relay_sends_example :
    (c : TcpClient) × (new_tcp_client 1 (others 1 1 nodes) ≡ some c)
    × ((s : Relay)
        → RelayReach (serving c (tasks ++ blank_task ∷ [])) s
        → s.sending ≡ false
        → s.client.sent ≡ c.sent ++ map (delivery nodes) tasks)
relay_sends_example = relay_sends nodes 0 tasks (omega arith) (omega arith) tasks-IsTask

relay_ends_example :
    (c : TcpClient) × (new_tcp_client 1 (others 1 1 nodes) ≡ some c)
    × ((s : Relay)
        → RelayReach (serving c (tasks ++ blank_task ∷ [])) s
        → ((t : Relay) → RelayStep s t → work_left t < work_left s)
          × ((s.sending ≡ false) ⊎ ((t : Relay) × RelayStep s t)))
relay_ends_example = relay_ends nodes 0 tasks (omega arith) (omega arith) tasks-IsTask
