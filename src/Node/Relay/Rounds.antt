-- ===== src/Node/Relay/Rounds.antt =====
-- What a round of the loop of `TCPNode::start` and of `TCPClient::run` does, by the queue that it meets.
use mathlib.Core.Option.{none-ne-some}
use stripe_merge.Common.{
  ◌≡◌, refl, ap, ◌∙◌, subst, Bool, true, false, ◌&&◌, ◌==◌, List, [], ◌∷◌, Option, none, some,
  Bool-cases, Option-cases, inl, inr, if◌then◌else◌,
}
use stripe_merge.Migration.{MigrationInfo, blank_task}
use stripe_merge.Pool.Tasks.{
  ThreadPool, add_task, set_finished, get_task, get_task-head, get_task-sealed,
}
use stripe_merge.Client.{
  SocketAddress, TcpClient, Round, waits, sends, leaves, exits, client_round, cur_conn, conn_at,
  host_of,
}
use stripe_merge.Client.Route.{after_send}
use stripe_merge.Node.{relay_round}

-- The test of both loops for the signal to stop.
abbrev pub is_stop : MigrationInfo → Bool
is_stop task = (task.source == 0) && (task.target == 0)

pub data Next (p : ThreadPool) : Type 0 where
  waiting : p.task_queue ≡ [] → p.seal_flag ≡ false → get_task p ≡ none → Next p
  ended : p.task_queue ≡ [] → p.seal_flag ≡ true → get_task p ≡ some (blank_task, p) → Next p
  head :
      (task : MigrationInfo) (rest : List MigrationInfo)
      → p.task_queue ≡ task ∷ rest
      → get_task p ≡ some (task, record p { task_queue = rest })
      → Next p

pub upcoming_task : (p : ThreadPool) → Next p
upcoming_task p = go p.task_queue refl
  where
    go : (q : List MigrationInfo) → p.task_queue ≡ q → Next p
    go [] e = elim (Bool-cases p.seal_flag) [
      | inl sealed ↦
          ended e sealed
            (get_task-sealed p e ∙ ap (λ b. if b then some (blank_task, p) else none) sealed)
      | inr unsealed ↦
          waiting e unsealed
            (get_task-sealed p e ∙ ap (λ b. if b then some (blank_task, p) else none) unsealed)
    ]
    go (task ∷ rest) e = head task rest e (get_task-head p task rest e)

-- A round of the relay.
pub data Relayed (server client : ThreadPool) : Bool → ThreadPool → ThreadPool → Type 0 where
  passes :
      (task : MigrationInfo) (rest : List MigrationInfo)
      → server.task_queue ≡ task ∷ rest
      → is_stop task ≡ false
      → Relayed server client false (record server { task_queue = rest }) (add_task task client)
  signal :
      (task : MigrationInfo) (rest : List MigrationInfo)
      → server.task_queue ≡ task ∷ rest
      → is_stop task ≡ true
      → Relayed server client true (record server { task_queue = rest }) (set_finished client)
  dry :
      server.task_queue ≡ []
      → server.seal_flag ≡ true
      → Relayed server client true server (set_finished client)

abbrev relay_or :
    ThreadPool
    → ThreadPool
    → Option (Bool × ThreadPool × ThreadPool)
    → Bool × ThreadPool × ThreadPool
relay_or s c none = (true, s, c)
relay_or s c (some r) = r

pub relay_round-Relayed :
    (server client s c : ThreadPool) (over : Bool)
    → relay_round server client ≡ some (over, s, c)
    → Relayed server client over s c
unfolding relay_round blank_task
relay_round-Relayed server client s c over e = elim (upcoming_task server) [
  | waiting q o g ↦ absurd (none-ne-some (over, s, c) (rw (relay_round, g) at e))
  | ended q o g ↦
      subst (λ (r : Bool × ThreadPool × ThreadPool). Relayed server client r.0 r.1 r.2)
        (ap (relay_or server client) (rw (relay_round, g) at e)) (dry q o)
  | head task rest q g ↦ elim (Bool-cases (is_stop task)) [
    | inl h ↦
        subst (λ (r : Bool × ThreadPool × ThreadPool). Relayed server client r.0 r.1 r.2)
          (ap (relay_or server client) (rw (relay_round, g, h) at e)) (signal task rest q h)
    | inr h ↦
        subst (λ (r : Bool × ThreadPool × ThreadPool). Relayed server client r.0 r.1 r.2)
          (ap (relay_or server client) (rw (relay_round, g, h) at e)) (passes task rest q h)
  ]
]

-- A round of the client.
pub data Went (c : TcpClient) : Round → Type 0 where
  pauses : c.pool.task_queue ≡ [] → c.pool.seal_flag ≡ false → Went c waits
  ends : c.pool.task_queue ≡ [] → c.pool.seal_flag ≡ true → Went c (leaves c)
  told :
      (task : MigrationInfo) (rest : List MigrationInfo)
      → c.pool.task_queue ≡ task ∷ rest
      → is_stop task ≡ true
      → Went c (leaves (record c { pool = record c.pool { task_queue = rest } }))
  fails :
      (task : MigrationInfo) (rest : List MigrationInfo)
      → c.pool.task_queue ≡ task ∷ rest
      → is_stop task ≡ false
      → conn_at c (host_of c task) ≡ none
      → Went c exits
  went :
      (task : MigrationInfo) (rest : List MigrationInfo) (address : SocketAddress)
      → c.pool.task_queue ≡ task ∷ rest
      → is_stop task ≡ false
      → conn_at c (host_of c task) ≡ some address
      → Went c (sends (after_send c task rest address))

pub client_round-Went : (c : TcpClient) → Went c (client_round true c)
unfolding client_round cur_conn blank_task
client_round-Went c = elim (upcoming_task c.pool) [
  | waiting q o g ↦ rw (client_round, g) (pauses q o)
  | ended q o g ↦ rw (client_round, g) (ends q o)
  | head task rest q g ↦ elim (Bool-cases (is_stop task)) [
    | inl h ↦ rw (client_round, g, h) (told task rest q h)
    | inr h ↦ elim (Option-cases (conn_at c (host_of c task))) [
      | inl f ↦ rw (client_round, g, h, f) (fails task rest q h f)
      | inr (address, f) ↦ rw (client_round, g, h, f) (went task rest address q h f)
    ]
  ]
]
