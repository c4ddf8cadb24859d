-- ===== src/Node/Relay/Sent.antt =====
-- What a data node has sent: the tasks that the master gave it, in their order.
use mathlib.Core.Bool.{false≢true}
use mathlib.Core.List.{append_assoc, append-nil, cons-ne-nil, map-append}
use mathlib.Core.Option.{some-injective}
use stripe_merge.Common.{
  ℕ, ◌≡◌, refl, sym, ap, ap₂, ◌∙◌, subst, Bool, true, false, not, ◌==◌, List, [], ◌∷◌, ◌++◌, Option,
  none, some, map, All, get_or, not-true, if◌then◌else◌, All-append,
}
use stripe_merge.Migration.{MigrationInfo}
use stripe_merge.Pool.Tasks.{ThreadPool, add_task, set_finished}
use stripe_merge.Client.{SocketAddress, TcpClient, Message, sends, leaves, conn_at, host_of}
use stripe_merge.Node.Relay.{Relay}
use stripe_merge.Node.Relay.Rounds.{is_stop, Relayed, passes, signal, dry, Went, ends, told, went}
use stripe_merge.Node.Relay.Order.{All-right, cut, both_nil, no_stop}

module _ (c : TcpClient) (route : MigrationInfo → SocketAddress) (tasks : List MigrationInfo)
    (stop : MigrationInfo) (signal_last : is_stop stop ≡ true) where
  -- A task, whose connection leads to where it is routed.
  abbrev pub Good : MigrationInfo → Type 0
  Good task = (is_stop task ≡ false) × (conn_at c (host_of c task) ≡ some (route task))

  abbrev pub message : MigrationInfo → Message
  message task = record { to = route task; header = task; with_chunk = not (c.node_index == 0) }

  -- Every task is in one place, and the places keep the order.
  pub record Forwards (s : Relay) : Type 0 where
    pub done : List MigrationInfo
    pub index : s.client.node_index ≡ c.node_index
    pub conns : s.client.node_conns ≡ c.node_conns
    pub sent : s.client.sent ≡ c.sent ++ map message done
    pub good : All Good (done ++ s.client.pool.task_queue)
    pub going :
        s.relaying ≡ true
        → done ++ s.client.pool.task_queue ++ s.server.task_queue ++ s.headers ≡ tasks ++ stop ∷ []
    pub gone :
        s.relaying ≡ false
        → (done ++ s.client.pool.task_queue ≡ tasks) × (s.server.task_queue ≡ []) × (s.headers ≡ [])
    pub unsealed : s.client.pool.seal_flag ≡ not s.relaying
    pub hung_up : s.server.seal_flag ≡ true → s.headers ≡ []
    pub left : s.sending ≡ false → (s.relaying ≡ false) × (s.client.pool.task_queue ≡ [])

  busy_tasks : (xs : List MigrationInfo) → All Good xs → All (λ x. is_stop x ≡ false) xs
  busy_tasks [] h = tt
  busy_tasks (x ∷ xs) h = (h.0.0, busy_tasks xs h.1)

  module _ (all_good : All Good tasks) where
    pub reads-Forwards :
        (s : Relay) (header : MigrationInfo) (rest : List MigrationInfo)
        → s.headers ≡ header ∷ rest
        → Forwards s
        → Forwards (record s { headers = rest; server = add_task header s.server })
    unfolding add_task
    reads-Forwards s header rest q a = record {
      done = a.done;
      index = a.index;
      conns = a.conns;
      sent = a.sent;
      good = a.good;
      going = λ on.
          ap (λ xs. xs ++ rest)
            (sym
              (append_assoc (a.done ++ s.client.pool.task_queue) s.server.task_queue (header ∷ [])))
          ∙ append_assoc (a.done ++ s.client.pool.task_queue ++ s.server.task_queue) (header ∷ [])
              rest
          ∙ ap (λ xs. a.done ++ s.client.pool.task_queue ++ s.server.task_queue ++ xs) (sym q)
          ∙ a.going on;
      gone = λ off. absurd (cons-ne-nil header rest (sym q ∙ (a.gone off).2));
      unsealed = a.unsealed;
      hung_up = λ h. absurd (cons-ne-nil header rest (sym q ∙ a.hung_up h));
      left = a.left;
    }

    pub hangs_up-Forwards :
        (s : Relay)
        → s.headers ≡ []
        → Forwards s
        → Forwards (record s { server = set_finished s.server })
    unfolding set_finished
    hangs_up-Forwards s q a = record {
      done = a.done;
      index = a.index;
      conns = a.conns;
      sent = a.sent;
      good = a.good;
      going = a.going;
      gone = a.gone;
      unsealed = a.unsealed;
      hung_up = λ h. q;
      left = a.left;
    }

    -- A task that comes from the master is a good one.
    fresh-Good :
        (before : List MigrationInfo) (task : MigrationInfo) (after : List MigrationInfo)
        → before ++ task ∷ after ≡ tasks ++ stop ∷ []
        → is_stop task ≡ false
        → Good task
    fresh-Good before task after e h =
        let P : MigrationInfo → Type 0 = λ x. is_stop x ≡ false → Good x in
        let whole : All P (tasks ++ stop ∷ []) =
          All-append P tasks (stop ∷ []) (weaken tasks all_good)
            (λ g. absurd (false≢true (sym g ∙ signal_last)), tt) in
        (All-right P before (task ∷ after) (subst (All P) (sym e) whole)).0 h
      where
        weaken : (xs : List MigrationInfo) → All Good xs → All (λ x. is_stop x ≡ false → Good x) xs
        weaken [] g = tt
        weaken (x ∷ xs) g = (λ _. g.0, weaken xs g.1)

    pub relays-Forwards :
        (s : Relay) (over : Bool) (server pool : ThreadPool)
        → s.relaying ≡ true
        → Relayed s.server s.client.pool over server pool
        → Forwards s
        → Forwards (record s {
          server = server;
          client = record s.client { pool = pool };
          relaying = not over;
        })
    unfolding add_task set_finished
    relays-Forwards s _ _ _ on (passes task rest q h) a =
        let queue = s.client.pool.task_queue in
        let whole : a.done ++ queue ++ (task ∷ rest) ++ s.headers ≡ tasks ++ stop ∷ [] =
          ap (λ xs. a.done ++ queue ++ xs ++ s.headers) (sym q) ∙ a.going on in
        let good =
          fresh-Good (a.done ++ queue) task (rest ++ s.headers)
            (sym (append_assoc (a.done ++ queue) (task ∷ rest) s.headers) ∙ whole) h in
        record {
          done = a.done;
          index = a.index;
          conns = a.conns;
          sent = a.sent;
          good =
              subst (All Good) (append_assoc a.done queue (task ∷ []))
                (All-append Good (a.done ++ queue) (task ∷ []) a.good (good, tt));
          going = λ _.
              ap (λ xs. xs ++ rest ++ s.headers) (sym (append_assoc a.done queue (task ∷ [])))
              ∙ ap (λ xs. xs ++ s.headers) (append_assoc (a.done ++ queue) (task ∷ []) rest)
              ∙ whole;
          gone = λ off. absurd (false≢true (sym off));
          unsealed = a.unsealed ∙ ap not on;
          hung_up = a.hung_up;
          left = λ h. absurd (false≢true (sym (a.left h).0 ∙ on));
        }
    relays-Forwards s _ _ _ on (signal task rest q h) a =
        let queue = s.client.pool.task_queue in
        let whole : a.done ++ queue ++ (task ∷ rest) ++ s.headers ≡ tasks ++ stop ∷ [] =
          ap (λ xs. a.done ++ queue ++ xs ++ s.headers) (sym q) ∙ a.going on in
        let (all, over) =
          cut (a.done ++ queue) (rest ++ s.headers) tasks task stop
            (busy_tasks (a.done ++ queue) a.good) (busy_tasks tasks all_good) h
            (sym (append_assoc (a.done ++ queue) (task ∷ rest) s.headers) ∙ whole) in
        let (none_left, hung) = both_nil rest s.headers over in
        record {
          done = a.done;
          index = a.index;
          conns = a.conns;
          sent = a.sent;
          good = a.good;
          going = λ off. absurd (false≢true off);
          gone = λ _. (all, none_left, hung);
          unsealed = refl;
          hung_up = a.hung_up;
          left = λ h. absurd (false≢true (sym (a.left h).0 ∙ on));
        }
    relays-Forwards s _ _ _ on (dry q o) a =
        let before : List MigrationInfo = a.done ++ s.client.pool.task_queue in
        absurd (
          no_stop before tasks stop (busy_tasks before a.good) signal_last (
            sym (append-nil before)
            ∙ sym (append-nil (before ++ []))
            ∙ ap₂ (λ xs ys. before ++ xs ++ ys) (sym q) (sym (a.hung_up o))
            ∙ a.going on))

    pub transmits-Forwards :
        (s : Relay) (client : TcpClient)
        → s.sending ≡ true
        → Went s.client (sends client)
        → Forwards s
        → Forwards (record s { client = client })
    transmits-Forwards s _ on (went task rest address q h f) a =
        let ready : All Good (a.done ++ task ∷ rest) =
          subst (λ xs. All Good (a.done ++ xs)) q a.good in
        let same : (a.done ++ task ∷ []) ++ rest ≡ a.done ++ s.client.pool.task_queue =
          append_assoc a.done (task ∷ []) rest ∙ ap (λ xs. a.done ++ xs) (sym q) in
        let conn : conn_at s.client (host_of s.client task) ≡ conn_at c (host_of c task) =
          ap₂
            (λ (i : ℕ) (conns : List (Option SocketAddress)).
              get_or conns (if i == 0 then task.source else task.target) none)
            a.index a.conns in
        let to : address ≡ route task =
          some-injective address (route task)
            (sym f ∙ conn ∙ (All-right Good a.done (task ∷ rest) ready).0.1) in
        record {
          done = a.done ++ task ∷ [];
          index = a.index;
          conns = a.conns;
          sent =
              ap₂ (λ (xs : List Message) (m : Message). xs ++ m ∷ []) a.sent
                (ap₂
                  (λ (to : SocketAddress) (i : ℕ). record {
                    to = to;
                    header = task;
                    with_chunk = not (i == 0);
                  })
                  to a.index)
              ∙ append_assoc c.sent (map message a.done) (message task ∷ [])
              ∙ ap (λ xs. c.sent ++ xs) (sym (map-append message a.done (task ∷ [])));
          good = subst (All Good) (sym (append_assoc a.done (task ∷ []) rest)) ready;
          going = λ h. ap (λ xs. xs ++ s.server.task_queue ++ s.headers) same ∙ a.going h;
          gone = λ h. (same ∙ (a.gone h).0, (a.gone h).1, (a.gone h).2);
          unsealed = a.unsealed;
          hung_up = a.hung_up;
          left = λ off. absurd (false≢true (sym off ∙ on));
        }

    pub stops-Forwards :
        (s : Relay) (client : TcpClient)
        → s.sending ≡ true
        → Went s.client (leaves client)
        → Forwards s
        → Forwards (record s { client = client; sending = false })
    stops-Forwards s _ on (ends q o) a = record {
      done = a.done;
      index = a.index;
      conns = a.conns;
      sent = a.sent;
      good = a.good;
      going = a.going;
      gone = a.gone;
      unsealed = a.unsealed;
      hung_up = a.hung_up;
      left = λ _. (not-true s.relaying s.client.pool.seal_flag a.unsealed o, q);
    }
    stops-Forwards s _ on (told task rest q h) a = absurd (
        false≢true (
          sym
            (All-right Good a.done (task ∷ rest)
              (subst (λ xs. All Good (a.done ++ xs)) q a.good)).0.0
          ∙ h))
