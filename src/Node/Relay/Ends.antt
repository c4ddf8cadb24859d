-- ===== src/Node/Relay/Ends.antt =====
-- The results on the tasks of a data node.
use mathlib.Core.List.{append-nil}
use stripe_merge.Common.{
  ℕ, ◌≡◌, refl, sym, ap, ◌∙◌, subst, Bool, true, false, not, List, [], ◌∷◌, ◌++◌, none, some, map,
  All, if◌then◌else◌, ◌⊎◌, inl, inr, Bool-cases, ap₂, ◌==◌, get_or, Option,
}
use mathlib.Core.Bool.{false≢true}
use mathlib.Core.Option.{none-ne-some}
use stripe_merge.Migration.{MigrationInfo}
use stripe_merge.Pool.Tasks.{ThreadPool, new_thread_pool}
use stripe_merge.Client.{SocketAddress, TcpClient, Round, client_round, conn_at, host_of}
use stripe_merge.Client.Route.{after_send}
use stripe_merge.Node.{relay_round}
use stripe_merge.Node.Relay.Progress.{relay_round-ready}
use stripe_merge.Node.Relay.{
  Relay, RelayStep, reads, hangs_up, relays, transmits, stops, RelayReach, here, next,
}
use stripe_merge.Node.Relay.Rounds.{
  is_stop, relay_round-Relayed, Went, pauses, ends, told, fails, went, client_round-Went,
}
use stripe_merge.Node.Relay.Order.{All-right}
use stripe_merge.Node.Relay.Sent.{
  Good, message, Forwards, reads-Forwards, hangs_up-Forwards, relays-Forwards, transmits-Forwards,
  stops-Forwards,
}

-- The node when it begins to serve, with a client that has no task yet.
abbrev pub serving : TcpClient → List MigrationInfo → Relay
serving c headers = record {
  headers = headers;
  server = new_thread_pool;
  client = record c { pool = new_thread_pool };
  relaying = true;
  sending = true;
}

module _ (c : TcpClient) (route : MigrationInfo → SocketAddress) (tasks : List MigrationInfo)
    (stop : MigrationInfo) (signal_last : is_stop stop ≡ true)
    (all_good : All (Good c route tasks stop signal_last) tasks) where
  Step-Forwards :
      (s t : Relay)
      → RelayStep s t
      → Forwards c route tasks stop signal_last s
      → Forwards c route tasks stop signal_last t
  Step-Forwards s _ (reads header rest q) a =
      reads-Forwards c route tasks stop signal_last all_good s header rest q a
  Step-Forwards s _ (hangs_up q o) a =
      hangs_up-Forwards c route tasks stop signal_last all_good s q a
  Step-Forwards s _ (relays over server pool on e) a =
      relays-Forwards c route tasks stop signal_last all_good s over server pool on
        (relay_round-Relayed s.server s.client.pool server pool over e) a
  Step-Forwards s _ (transmits client on e) a =
      transmits-Forwards c route tasks stop signal_last all_good s client on
        (subst (Went s.client) e (client_round-Went s.client)) a
  Step-Forwards s _ (stops client on e) a =
      stops-Forwards c route tasks stop signal_last all_good s client on
        (subst (Went s.client) e (client_round-Went s.client)) a

  Reach-Forwards :
      (s t : Relay)
      → RelayReach s t
      → Forwards c route tasks stop signal_last s
      → Forwards c route tasks stop signal_last t
  Reach-Forwards s _ here a = a
  Reach-Forwards s t (next {t = u} r e) a = Step-Forwards u t e (Reach-Forwards s u r a)

  serving-Forwards : Forwards c route tasks stop signal_last (serving c (tasks ++ stop ∷ []))
  unfolding new_thread_pool
  serving-Forwards = record {
    done = [];
    index = refl;
    conns = refl;
    sent = sym (append-nil c.sent);
    good = tt;
    going = λ _. refl;
    gone = λ off. absurd (false≢true (sym off));
    unsealed = refl;
    hung_up = λ h. absurd (false≢true h);
    left = λ off. absurd (false≢true (sym off));
  }

  module _ (s : Relay) (run : RelayReach (serving c (tasks ++ stop ∷ [])) s) where
    reached : Forwards c route tasks stop signal_last s
    reached = Reach-Forwards (serving c (tasks ++ stop ∷ [])) s run serving-Forwards

    -- What is sent when the client has left its loop.
    pub all_sent :
        s.sending ≡ false
        → s.client.sent ≡ c.sent ++ map (message c route tasks stop signal_last) tasks
    all_sent off =
        let a = reached in
        let (over, queue) = a.left off in
        let done : a.done ≡ tasks =
          sym (append-nil a.done) ∙ ap (λ xs. a.done ++ xs) (sym queue) ∙ (a.gone over).0 in
        a.sent ∙ ap (λ xs. c.sent ++ map (message c route tasks stop signal_last) xs) done

    abbrev Going : Type 0
    Going = (s.sending ≡ false) ⊎ ((t : Relay) × RelayStep s t)

    -- The client, once its queue is sealed.
    sealed-Going :
        (r : Round)
        → client_round true s.client ≡ r
        → Went s.client r
        → s.relaying ≡ false
        → s.sending ≡ true
        → Going
    sealed-Going _ e (pauses q o) off on =
        absurd (false≢true (sym o ∙ reached.unsealed ∙ ap not off))
    sealed-Going _ e (ends q o) off on = inr (_, stops s.client on e)
    sealed-Going _ e (told task rest q h) off on =
        inr (_, stops (record s.client { pool = record s.client.pool { task_queue = rest } }) on e)
    sealed-Going _ e (fails task rest q h f) off on =
        let a = reached in
        let ready =
          All-right (Good c route tasks stop signal_last) a.done (task ∷ rest)
            (subst (λ xs. All (Good c route tasks stop signal_last) (a.done ++ xs)) q a.good) in
        absurd (none-ne-some (route task) (sym f ∙ conn_same task ∙ ready.0.1))
      where
        conn_same :
            (task : MigrationInfo)
            → conn_at s.client (host_of s.client task) ≡ conn_at c (host_of c task)
        conn_same task =
            ap₂
              (λ (i : ℕ) (conns : List (Option SocketAddress)).
                get_or conns (if i == 0 then task.source else task.target) none)
              reached.index reached.conns
    sealed-Going _ e (went task rest address q h f) off on =
        inr (_, transmits (after_send s.client task rest address) on e)

    pub keeps_going : Going
    keeps_going = go s.headers refl
      where
        relayed :
            s.relaying ≡ true
            → (o : Option (Bool × ThreadPool × ThreadPool)) → relay_round s.server s.client.pool ≡ o
            → s.server.seal_flag ≡ true
            → Going
        relayed on none e h = absurd (relay_round-ready s.server s.client.pool h e)
        relayed on (some (over, server, pool)) e h = inr (_, relays over server pool on e)

        go : (xs : List MigrationInfo) → s.headers ≡ xs → Going
        go (header ∷ rest) q = inr (_, reads header rest q)
        go [] q = elim (Bool-cases s.server.seal_flag) [
          | inr unsealed ↦ inr (_, hangs_up q unsealed)
          | inl h ↦ elim (Bool-cases s.relaying) [
            | inl on ↦ relayed on (relay_round s.server s.client.pool) refl h
            | inr off ↦ elim (Bool-cases s.sending) [
              | inr over ↦ inl over
              | inl on ↦
                  sealed-Going (client_round true s.client) refl (client_round-Went s.client) off on
            ]
          ]
        ]
