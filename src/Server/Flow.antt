-- ===== src/Server/Flow.antt =====
-- Where the tasks of the server of src/tcp_server.cc are.
use stripe_merge.Common.{
  ℕ, ◌+◌, ◌≡◌, sym, ap, ◌∙◌, subst, List, [], ◌∷◌, ◌++◌, arith, All, All-append, ◌⊎◌, inl, inr,
}
use stripe_merge.Migration.{MigrationInfo}
use stripe_merge.Pool.Tasks.{ThreadPool, add_task, set_finished}
use stripe_merge.Server.{
  Server, new_server, close, compute_give, write_done, Step, Reach, receives, closes, takes, gives,
  picks, stores, here, next,
}
use stripe_merge.Server.Moves.{
  HasBlock, Received, receive_round-Received, Took, stop, work, compute_stopped, compute_held,
  write_stopped, write_held, compute_take-Took, write_take-Took,
}

-- The sum of `f` over a list of tasks.
abbrev pub total : (MigrationInfo → ℕ) → List MigrationInfo → ℕ
total f [] = 0
total f (x ∷ xs) = f x + total f xs

pub total-append :
    (f : MigrationInfo → ℕ) (xs ys : List MigrationInfo)
    → total f (xs ++ ys) ≡ total f xs + total f ys
total-append f [] ys = omega arith
total-append f (x ∷ xs) ys = omega (arith, total-append f xs ys)

pub total-one :
    (f : MigrationInfo → ℕ) (xs : List MigrationInfo) (x : MigrationInfo)
    → total f (xs ++ x ∷ []) ≡ total f xs + f x
total-one f xs x = omega (arith, total-append f xs (x ∷ []))

pub total-cut :
    (f : MigrationInfo → ℕ) (whole before : List MigrationInfo) (x : MigrationInfo)
    (after : List MigrationInfo)
    → whole ≡ before ++ x ∷ after
    → total f whole ≡ total f (before ++ after) + f x
total-cut f whole before x after e =
    ap (total f) e ∙ omega (arith, total-append f before (x ∷ after), total-append f before after)

pub total-head :
    (f : MigrationInfo → ℕ) (whole : List MigrationInfo) (x : MigrationInfo)
    (rest : List MigrationInfo)
    → whole ≡ x ∷ rest
    → total f whole ≡ f x + total f rest
total-head f whole x rest e = ap (total f) e

All-split :
    (before : List MigrationInfo) (x : MigrationInfo) (after : List MigrationInfo)
    → All HasBlock (before ++ x ∷ after)
    → HasBlock x × All HasBlock (before ++ after)
All-split [] x after a = a
All-split (y ∷ before) x after a = let (b, r) = All-split before x after a.1 in (b, (a.0, r))

All-cut :
    (whole before : List MigrationInfo) (x : MigrationInfo) (after : List MigrationInfo)
    → whole ≡ before ++ x ∷ after
    → All HasBlock whole
    → HasBlock x × All HasBlock (before ++ after)
All-cut whole before x after e a = All-split before x after (subst (All HasBlock) e a)

-- The places of a task.
module _ {ℓ} {Mem : Type ℓ} where
  abbrev pub inside : (MigrationInfo → ℕ) → Server Mem → ℕ
  inside f s =
      total f s.c_worker.task_queue
      + total f s.computing
      + total f s.w_worker.task_queue
      + total f s.writing

  -- Each task that was received is in one place, and the tasks in the queues have their blocks.
  pub record Flow (s : Server Mem) : Type ℓ where
    pub balance : (f : MigrationInfo → ℕ) → total f s.received ≡ inside f s + total f s.written
    pub to_compute : All HasBlock s.c_worker.task_queue
    pub in_compute : All HasBlock s.computing
    pub to_write : All HasBlock s.w_worker.task_queue

  pub new_server-Flow :
      (addresses : ℕ → ℕ) (n workers_num : ℕ) (memory : Mem)
      → Flow (new_server addresses n workers_num memory)
  unfolding new_server
  new_server-Flow addresses n workers_num memory = record {
    balance = λ f. omega arith;
    to_compute = tt;
    in_compute = tt;
    to_write = tt;
  }

  receives-Flow : (task : MigrationInfo) (s t : Server Mem) → Received task s t → Flow s → Flow t
  unfolding add_task
  receives-Flow task s t r a = record {
    balance = λ f.
        let whole = a.balance f in
        let more = ap (total f) r.received ∙ total-one f s.received task in
        let same = ap (total f) r.computing in
        let same' = ap (total f) r.writing in
        let out = ap (total f) r.written in
        elim r.queued [
          | inl (c, w) ↦
              let one =
                ap (λ (p : ThreadPool). total f p.task_queue) c
                ∙ total-one f s.c_worker.task_queue task in
              let rest = ap (λ (p : ThreadPool). total f p.task_queue) w in
              omega (arith, whole, more, same, same', out, one, rest)
          | inr (w, c) ↦
              let one =
                ap (λ (p : ThreadPool). total f p.task_queue) w
                ∙ total-one f s.w_worker.task_queue task in
              let rest = ap (λ (p : ThreadPool). total f p.task_queue) c in
              omega (arith, whole, more, same, same', out, one, rest)
        ];
    to_compute = queued_c r.queued;
    in_compute = subst (All HasBlock) (sym r.computing) a.in_compute;
    to_write = queued_w r.queued;
  }
    where
      Queued : Type 0
      Queued =
          ((t.c_worker ≡ add_task task s.c_worker) × (t.w_worker ≡ s.w_worker))
          ⊎ ((t.w_worker ≡ add_task task s.w_worker) × (t.c_worker ≡ s.c_worker))

      queued_c : Queued → All HasBlock t.c_worker.task_queue
      queued_c (inl (c, w)) =
          subst (λ (p : ThreadPool). All HasBlock p.task_queue) (sym c)
            (All-append HasBlock s.c_worker.task_queue (task ∷ []) a.to_compute (r.block, tt))
      queued_c (inr (w, c)) =
          subst (λ (p : ThreadPool). All HasBlock p.task_queue) (sym c) a.to_compute

      queued_w : Queued → All HasBlock t.w_worker.task_queue
      queued_w (inl (c, w)) =
          subst (λ (p : ThreadPool). All HasBlock p.task_queue) (sym w) a.to_write
      queued_w (inr (w, c)) =
          subst (λ (p : ThreadPool). All HasBlock p.task_queue) (sym w)
            (All-append HasBlock s.w_worker.task_queue (task ∷ []) a.to_write (r.block, tt))

  compute-Flow :
      (s t : Server Mem)
      → Took s s.c_worker (compute_stopped s) (compute_held s) t
      → Flow s
      → Flow t
  unfolding set_finished
  compute-Flow s _ (stop q b) a = record {
    balance = a.balance;
    to_compute = a.to_compute;
    in_compute = a.in_compute;
    to_write = a.to_write;
  }
  compute-Flow s _ (work task rest q) a =
      let held : All HasBlock (task ∷ rest) = subst (All HasBlock) q a.to_compute in
      record {
        balance = λ f. omega (
          arith,
          a.balance f,
          total-head f s.c_worker.task_queue task rest q,
          total-one f s.computing task,
        );
        to_compute = held.1;
        in_compute = All-append HasBlock s.computing (task ∷ []) a.in_compute (held.0, tt);
        to_write = a.to_write;
      }

  write-Flow :
      (s t : Server Mem) → Took s s.w_worker (write_stopped s) (write_held s) t → Flow s → Flow t
  write-Flow s _ (stop q b) a = record {
    balance = a.balance;
    to_compute = a.to_compute;
    in_compute = a.in_compute;
    to_write = a.to_write;
  }
  write-Flow s _ (work task rest q) a =
      let held : All HasBlock (task ∷ rest) = subst (All HasBlock) q a.to_write in
      record {
        balance = λ f. omega (
          arith,
          a.balance f,
          total-head f s.w_worker.task_queue task rest q,
          total-one f s.writing task,
        );
        to_compute = a.to_compute;
        in_compute = a.in_compute;
        to_write = held.1;
      }

  module _ (recv : ℕ → MigrationInfo → Mem → Mem) (encode : ℕ × ℕ → MigrationInfo → Mem → Mem)
      (store : MigrationInfo → Mem → Mem) (tables : List (ℕ × ℕ)) where
    give-Flow :
        (before : List MigrationInfo) (task : MigrationInfo) (after : List MigrationInfo)
        (s : Server Mem)
        → s.computing ≡ before ++ task ∷ after
        → Flow s
        → Flow (compute_give encode tables before task after s)
    unfolding compute_give add_task
    give-Flow before task after s e a =
        let (block, rest) = All-cut s.computing before task after e a.in_compute in
        record {
          balance = λ f. omega (
            arith,
            a.balance f,
            total-cut f s.computing before task after e,
            total-one f s.w_worker.task_queue task,
          );
          to_compute = a.to_compute;
          in_compute = rest;
          to_write = All-append HasBlock s.w_worker.task_queue (task ∷ []) a.to_write (block, tt);
        }

    done-Flow :
        (before : List MigrationInfo) (task : MigrationInfo) (after : List MigrationInfo)
        (s : Server Mem)
        → s.writing ≡ before ++ task ∷ after
        → Flow s
        → Flow (write_done store before task after s)
    unfolding write_done
    done-Flow before task after s e a = record {
      balance = λ f. omega (
        arith,
        a.balance f,
        total-cut f s.writing before task after e,
        total-one f s.written task,
      );
      to_compute = a.to_compute;
      in_compute = a.in_compute;
      to_write = a.to_write;
    }

    Step-Flow : (s t : Server Mem) → Step recv encode store tables s t → Flow s → Flow t
    unfolding close set_finished
    Step-Flow s t (receives header going e) a =
        let (task, r) = receive_round-Received recv header s t e in receives-Flow task s t r a
    Step-Flow s _ (closes going) a = record {
      balance = a.balance;
      to_compute = a.to_compute;
      in_compute = a.in_compute;
      to_write = a.to_write;
    }
    Step-Flow s t (takes h e) a = compute-Flow s t (compute_take-Took s t a.to_compute e) a
    Step-Flow s _ (gives before task after e) a = give-Flow before task after s e a
    Step-Flow s t (picks h e) a = write-Flow s t (write_take-Took s t a.to_write e) a
    Step-Flow s _ (stores before task after e) a = done-Flow before task after s e a

    pub Reach-Flow : (s t : Server Mem) → Reach recv encode store tables s t → Flow s → Flow t
    Reach-Flow s _ here a = a
    Reach-Flow s t (next {t = u} r e) a = Step-Flow u t e (Reach-Flow s u r a)
