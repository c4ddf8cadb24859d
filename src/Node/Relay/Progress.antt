-- ===== src/Node/Relay/Progress.antt =====
-- A data node that relays tasks comes to its end.
use mathlib.Core.Bool.{false≢true}
use mathlib.Core.Option.{none-ne-some}
use stripe_merge.Common.{
  ℕ, ◌+◌, ◌*◌, ◌<◌, ◌≡◌, ◌≢◌, sym, ap, ◌∙◌, subst, Bool, true, false, not, [], ◌∷◌, none, arith,
  if◌then◌else◌, length, length-append, inl, inr, Bool-cases,
}
use stripe_merge.Migration.{blank_task}
use stripe_merge.Pool.Tasks.{ThreadPool, add_task, set_finished}
use stripe_merge.Client.{TcpClient, sends, leaves}
use stripe_merge.Node.{relay_round}
use stripe_merge.Node.Relay.{Relay, RelayStep, reads, hangs_up, relays, transmits, stops}
use stripe_merge.Node.Relay.Rounds.{
  is_stop, waiting, ended, head, upcoming_task, Relayed, passes, signal, dry, relay_round-Relayed,
  Went, ends, told, went, client_round-Went,
}

abbrev one_if : Bool → ℕ
one_if b = if b then 1 else 0

-- What is left to do.
abbrev pub work_left : Relay → ℕ
work_left s =
    3 * length s.headers
    + 2 * length s.server.task_queue
    + length s.client.pool.task_queue
    + one_if (not s.server.seal_flag)
    + one_if s.relaying
    + one_if s.sending

relays-work_left :
    (s : Relay) (over : Bool) (server pool : ThreadPool)
    → s.relaying ≡ true
    → Relayed s.server s.client.pool over server pool
    → work_left (record s {
      server = server;
      client = record s.client { pool = pool };
      relaying = not over;
    })
      < work_left s
unfolding add_task set_finished
relays-work_left s _ _ _ on (passes task rest q h) =
    omega (arith, ap length q, ap one_if on, length-append s.client.pool.task_queue (task ∷ []))
relays-work_left s _ _ _ on (signal task rest q h) = omega (arith, ap length q, ap one_if on)
relays-work_left s _ _ _ on (dry q o) = omega (arith, ap one_if on)

transmits-work_left :
    (s : Relay) (client : TcpClient)
    → Went s.client (sends client)
    → work_left (record s { client = client }) < work_left s
transmits-work_left s _ (went task rest address q h f) = omega (arith, ap length q)

stops-work_left :
    (s : Relay) (client : TcpClient)
    → s.sending ≡ true
    → Went s.client (leaves client)
    → work_left (record s { client = client; sending = false }) < work_left s
stops-work_left s _ on (ends q o) = omega (arith, ap one_if on)
stops-work_left s _ on (told task rest q h) = omega (arith, ap one_if on, ap length q)

pub Step-work_left : (s t : Relay) → RelayStep s t → work_left t < work_left s
unfolding add_task set_finished
Step-work_left s _ (reads header rest q) =
    omega (arith, ap length q, length-append s.server.task_queue (header ∷ []))
Step-work_left s _ (hangs_up q o) = omega (arith, ap (λ b. one_if (not b)) o)
Step-work_left s _ (relays over server pool on e) =
    relays-work_left s over server pool on
      (relay_round-Relayed s.server s.client.pool server pool over e)
Step-work_left s _ (transmits client on e) =
    transmits-work_left s client (subst (Went s.client) e (client_round-Went s.client))
Step-work_left s _ (stops client on e) =
    stops-work_left s client on (subst (Went s.client) e (client_round-Went s.client))

-- With a sealed queue the relay does not wait.
pub relay_round-ready :
    (server client : ThreadPool) → server.seal_flag ≡ true → relay_round server client ≢ none
unfolding relay_round blank_task
relay_round-ready server client h e = elim (upcoming_task server) [
  | waiting q o g ↦ absurd (false≢true (sym o ∙ h))
  | ended q o g ↦
      absurd (none-ne-some (true, server, set_finished client) (sym (rw (relay_round, g) at e)))
  | head task rest q g ↦
      let left : ThreadPool = record server { task_queue = rest } in
      elim (Bool-cases (is_stop task)) [
        | inl b ↦
            absurd
              (none-ne-some (true, left, set_finished client) (sym (rw (relay_round, g, b) at e)))
        | inr b ↦
            absurd
              (none-ne-some (false, left, add_task task client) (sym (rw (relay_round, g, b) at e)))
      ]
]
