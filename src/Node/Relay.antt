-- ===== src/Node/Relay.antt =====
-- The tasks of a data node in `TCPNode::start` of src/tcp_node.cc: `TCPServer::run` (src/tcp_server.cc) reads them
-- from the master, the loop of `start` hands them to the client, and `TCPClient::run` sends the blocks.
pub mod Rounds
pub mod Order
pub mod Sent
pub mod Progress
pub mod Ends
pub mod Served
use stripe_merge.Common.{ℕ, ◌≡◌, Bool, true, false, not, List, [], ◌∷◌, some}
use stripe_merge.Migration.{MigrationInfo}
use stripe_merge.Pool.Tasks.{ThreadPool, add_task, set_finished}
use stripe_merge.Client.{TcpClient, client_round, sends, leaves}
use stripe_merge.Node.{relay_round}

-- The headers that the master's connection still brings, the queue of the server, the client, and which of the
-- two loops go on.
pub record Relay : Type 0 where
  pub headers : List MigrationInfo
  pub server : ThreadPool
  pub client : TcpClient
  pub relaying : Bool
  pub sending : Bool

-- The steps of the three threads, in any order.
pub data RelayStep : Relay → Relay → Type 0 where
  reads :
      {s : Relay} (header : MigrationInfo) (rest : List MigrationInfo)
      → s.headers ≡ header ∷ rest
      → RelayStep s (record s { headers = rest; server = add_task header s.server })
  hangs_up :
      {s : Relay}
      → s.headers ≡ []
      → s.server.seal_flag ≡ false
      → RelayStep s (record s { server = set_finished s.server })
  relays :
      {s : Relay} (over : Bool) (server pool : ThreadPool)
      → s.relaying ≡ true
      → relay_round s.server s.client.pool ≡ some (over, server, pool)
      → RelayStep s (record s {
        server = server;
        client = record s.client { pool = pool };
        relaying = not over;
      })
  transmits :
      {s : Relay} (client : TcpClient)
      → s.sending ≡ true
      → client_round true s.client ≡ sends client
      → RelayStep s (record s { client = client })
  stops :
      {s : Relay} (client : TcpClient)
      → s.sending ≡ true
      → client_round true s.client ≡ leaves client
      → RelayStep s (record s { client = client; sending = false })

pub data RelayReach (s : Relay) : Relay → Type 0 where
  here : RelayReach s s
  next : {t u : Relay} → RelayReach s t → RelayStep t u → RelayReach s u
