-- ===== src/Server/Moves.antt =====
-- What the rounds of the threads of src/tcp_server.cc do, by the state that they find.
use mathlib.Core.Bool.{false≢true}
use mathlib.Core.Option.{none-ne-some}
use stripe_merge.Common.{
  ℕ, ◌-◌, ◌≡◌, refl, sym, ap, ◌∙◌, subst, Bool, true, false, List, [], ◌∷◌, ◌++◌, Option, none,
  some, ◌==◌, if◌then◌else◌, All, Bool-cases, Option-cases, ◌⊎◌, inl, inr,
}
use stripe_merge.Migration.{MigrationInfo, blank_task}
use stripe_merge.Pool.Tasks.{
  ThreadPool, add_task, get_task, set_finished, get_task-head, get_task-sealed,
}
use stripe_merge.Pool.Blocks.{get_block}
use stripe_merge.Server.{Server, receive_round, compute_take, write_take}

-- A task has its block of memory.
abbrev pub HasBlock : MigrationInfo → Type 0
HasBlock task = (ptr : ℕ) × (task.mem_ptr ≡ some ptr)

-- What `get_task` does with a queue of tasks that have their blocks.
pub data Taken (s : ThreadPool) : Option (MigrationInfo × ThreadPool) → Type 0 where
  waits : s.task_queue ≡ [] → s.seal_flag ≡ false → Taken s none
  stops : s.task_queue ≡ [] → s.seal_flag ≡ true → Taken s (some (blank_task, s))
  works :
      (task : MigrationInfo) (rest : List MigrationInfo)
      → s.task_queue ≡ task ∷ rest
      → Taken s (some (task, record s { task_queue = rest }))

pub get_task-Taken : (s : ThreadPool) → Taken s (get_task s)
get_task-Taken s = go s.task_queue refl s.seal_flag refl
  where
    go :
        (q : List MigrationInfo)
        → s.task_queue ≡ q
        → (b : Bool) → s.seal_flag ≡ b
        → Taken s (get_task s)
    go [] e true h =
        subst (Taken s)
          (sym (get_task-sealed s e ∙ ap (λ b. if b then some (blank_task, s) else none) h))
          (stops e h)
    go [] e false h =
        subst (Taken s)
          (sym (get_task-sealed s e ∙ ap (λ b. if b then some (blank_task, s) else none) h))
          (waits e h)
    go (task ∷ rest) e b h = subst (Taken s) (sym (get_task-head s task rest e)) (works task rest e)

module _ {ℓ} {Mem : Type ℓ} where
  -- What `receive_round` does when it does not break.
  pub record Received (task : MigrationInfo) (s t : Server Mem) : Type ℓ where
    pub queued :
        ((t.c_worker ≡ add_task task s.c_worker) × (t.w_worker ≡ s.w_worker))
        ⊎ ((t.w_worker ≡ add_task task s.w_worker) × (t.c_worker ≡ s.c_worker))
    pub block : HasBlock task
    pub received : t.received ≡ s.received ++ task ∷ []
    pub written : t.written ≡ s.written
    pub computing : t.computing ≡ s.computing
    pub writing : t.writing ≡ s.writing
    pub compute_live : t.compute_live ≡ s.compute_live
    pub write_live : t.write_live ≡ s.write_live
    pub receiving : t.receiving ≡ s.receiving

  abbrev server_or : Server Mem → Option (Bool × Server Mem) → Server Mem
  server_or s none = s
  server_or s (some (b, t)) = t

  abbrev broke : Option (Bool × Server Mem) → Bool
  broke none = true
  broke (some (b, t)) = b

  pub receive_round-Received :
      (recv : ℕ → MigrationInfo → Mem → Mem) (header : MigrationInfo) (s t : Server Mem)
      → receive_round recv header s ≡ some (false, t)
      → (task : MigrationInfo) × Received task s t
  unfolding receive_round
  receive_round-Received recv header s t e = elim (Bool-cases (header.source == header.target)) [
    | inl same ↦ absurd (false≢true (sym (ap broke (rw (receive_round, same) at e))))
    | inr other ↦ elim (Option-cases (get_block s.mem_pool)) [
      | inl full ↦ absurd (none-ne-some (false, t) (rw (receive_round, other, full) at e))
      | inr ((ptr, rest), g) ↦ elim (Bool-cases (header.coefficient == 0)) [
        | inl is_data ↦
            let task : MigrationInfo = record header { mem_ptr = some ptr } in
            (
              task,
              subst (Received task s)
                  (ap (server_or s) (rw (receive_round, other, g, is_data) at e))
                  (record {
                    queued = inr (refl, refl);
                    block = (ptr, refl);
                    received = refl;
                    written = refl;
                    computing = refl;
                    writing = refl;
                    compute_live = refl;
                    write_live = refl;
                    receiving = refl;
                  }),
            )
        | inr is_parity ↦
            let task : MigrationInfo = record header { mem_ptr = some ptr } in
            (
              task,
              subst (Received task s)
                  (ap (server_or s) (rw (receive_round, other, g, is_parity) at e))
                  (record {
                    queued = inl (refl, refl);
                    block = (ptr, refl);
                    received = refl;
                    written = refl;
                    computing = refl;
                    writing = refl;
                    compute_live = refl;
                    write_live = refl;
                    receiving = refl;
                  }),
            )
      ]
    ]
  ]

  abbrev taken_server : Server Mem → Option (Server Mem) → Server Mem
  taken_server s none = s
  taken_server s (some t) = t

  -- What a round of a worker begins with: the signal to stop, or a task.
  pub data Took (s : Server Mem) (queue : ThreadPool) (stopped : Server Mem)
      (held : MigrationInfo → ThreadPool → Server Mem) : Server Mem → Type ℓ where
    stop : queue.task_queue ≡ [] → queue.seal_flag ≡ true → Took s queue stopped held stopped
    work :
        (task : MigrationInfo) (rest : List MigrationInfo)
        → queue.task_queue ≡ task ∷ rest
        → Took s queue stopped held (held task (record queue { task_queue = rest }))

  abbrev pub compute_stopped : Server Mem → Server Mem
  compute_stopped s = record s {
    w_worker = set_finished s.w_worker;
    compute_live = s.compute_live - 1;
  }

  abbrev pub compute_held : Server Mem → MigrationInfo → ThreadPool → Server Mem
  compute_held s task rest = record s { c_worker = rest; computing = s.computing ++ task ∷ [] }

  abbrev pub write_stopped : Server Mem → Server Mem
  write_stopped s = record s { write_live = s.write_live - 1 }

  abbrev pub write_held : Server Mem → MigrationInfo → ThreadPool → Server Mem
  write_held s task rest = record s { w_worker = rest; writing = s.writing ++ task ∷ [] }

  pub compute_take-Took :
      (s t : Server Mem)
      → All HasBlock s.c_worker.task_queue
      → compute_take s ≡ some t
      → Took s s.c_worker (compute_stopped s) (compute_held s) t
  unfolding compute_take blank_task set_finished
  compute_take-Took s t a e = go (get_task s.c_worker) (get_task-Taken s.c_worker) refl
    where
      go :
          (o : Option (MigrationInfo × ThreadPool))
          → Taken s.c_worker o
          → get_task s.c_worker ≡ o
          → Took s s.c_worker (compute_stopped s) (compute_held s) t
      go _ (waits q b) g = absurd (none-ne-some t (rw (compute_take, g) at e))
      go _ (stops q b) g =
          subst (Took s s.c_worker (compute_stopped s) (compute_held s))
            (ap (taken_server s) (rw (compute_take, g) at e)) (stop q b)
      go _ (works task rest q) g =
          let held : All HasBlock (task ∷ rest) = subst (All HasBlock) q a in
          subst (Took s s.c_worker (compute_stopped s) (compute_held s))
            (ap (taken_server s) (rw (compute_take, g, held.0.1) at e)) (work task rest q)

  pub write_take-Took :
      (s t : Server Mem)
      → All HasBlock s.w_worker.task_queue
      → write_take s ≡ some t
      → Took s s.w_worker (write_stopped s) (write_held s) t
  unfolding write_take blank_task
  write_take-Took s t a e = go (get_task s.w_worker) (get_task-Taken s.w_worker) refl
    where
      go :
          (o : Option (MigrationInfo × ThreadPool))
          → Taken s.w_worker o
          → get_task s.w_worker ≡ o
          → Took s s.w_worker (write_stopped s) (write_held s) t
      go _ (waits q b) g = absurd (none-ne-some t (rw (write_take, g) at e))
      go _ (stops q b) g =
          subst (Took s s.w_worker (write_stopped s) (write_held s))
            (ap (taken_server s) (rw (write_take, g) at e)) (stop q b)
      go _ (works task rest q) g =
          let held : All HasBlock (task ∷ rest) = subst (All HasBlock) q a in
          subst (Took s s.w_worker (write_stopped s) (write_held s))
            (ap (taken_server s) (rw (write_take, g, held.0.1) at e)) (work task rest q)

  pub compute_take-stop :
      (s : Server Mem)
      → s.c_worker.task_queue ≡ []
      → s.c_worker.seal_flag ≡ true
      → compute_take s ≡ some (compute_stopped s)
  unfolding compute_take blank_task set_finished
  compute_take-stop s q b =
      let e =
        get_task-sealed s.c_worker q
        ∙ ap (λ b. if b then some (blank_task, s.c_worker) else none) b in
      rw (compute_take, e) refl

  pub compute_take-work :
      (s : Server Mem) (task : MigrationInfo) (rest : List MigrationInfo)
      → s.c_worker.task_queue ≡ task ∷ rest
      → HasBlock task
      → compute_take s ≡ some (compute_held s task (record s.c_worker { task_queue = rest }))
  unfolding compute_take
  compute_take-work s task rest q block =
      let queue : ThreadPool = record s.c_worker { task_queue = rest } in
      let signal : Server Mem = record s {
        c_worker = queue;
        w_worker = set_finished s.w_worker;
        compute_live = s.compute_live - 1;
      } in
      rw (compute_take, get_task-head s.c_worker task rest q)
        (ap (λ o. elim o [ none ↦ some signal | some ptr ↦ some (compute_held s task queue) ])
          block.1)

  pub write_take-stop :
      (s : Server Mem)
      → s.w_worker.task_queue ≡ []
      → s.w_worker.seal_flag ≡ true
      → write_take s ≡ some (write_stopped s)
  unfolding write_take blank_task
  write_take-stop s q b =
      let e =
        get_task-sealed s.w_worker q
        ∙ ap (λ b. if b then some (blank_task, s.w_worker) else none) b in
      rw (write_take, e) refl

  pub write_take-work :
      (s : Server Mem) (task : MigrationInfo) (rest : List MigrationInfo)
      → s.w_worker.task_queue ≡ task ∷ rest
      → HasBlock task
      → write_take s ≡ some (write_held s task (record s.w_worker { task_queue = rest }))
  unfolding write_take
  write_take-work s task rest q block =
      let queue : ThreadPool = record s.w_worker { task_queue = rest } in
      let signal : Server Mem = record s { w_worker = queue; write_live = s.write_live - 1 } in
      rw (write_take, get_task-head s.w_worker task rest q)
        (ap (λ o. elim o [ none ↦ some signal | some ptr ↦ some (write_held s task queue) ])
          block.1)
