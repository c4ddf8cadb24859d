-- ===== src/Server/Finish.antt =====
-- The server of src/tcp_server.cc with one compute worker: the order in which its queues are sealed.
use mathlib.Core.Bool.{false≢true}
use stripe_merge.Common.{
  ℕ, suc, ◌+◌, ◌≤◌, ◌<◌, ◌≡◌, refl, sym, ap, ◌∙◌, true, false, not, not-true, List, [], ◌∷◌, ◌++◌,
  length, arith, length-append, ◌⊎◌, inl, inr,
}
use stripe_merge.Migration.{MigrationInfo}
use stripe_merge.Pool.Tasks.{ThreadPool, new_thread_pool, add_task, set_finished}
use stripe_merge.Server.{
  Server, new_server, close, compute_give, write_done, Step, Reach, receives, closes, takes, gives,
  picks, stores, here, next,
}
use stripe_merge.Server.Moves.{
  Received, receive_round-Received, Took, stop, work, compute_stopped, compute_held, write_stopped,
  write_held, compute_take-Took, write_take-Took,
}
use stripe_merge.Server.Flow.{Flow, new_server-Flow, Reach-Flow, total}

pub no_tasks : (xs : List MigrationInfo) → length xs ≤ 0 → xs ≡ []
no_tasks [] h = refl
no_tasks (x ∷ xs) h = absurd (omega arith)

pub length-cut :
    (before : List MigrationInfo) (x : MigrationInfo) (after : List MigrationInfo)
    → length (before ++ x ∷ after) ≡ length (before ++ after) + 1
length-cut before x after =
    omega (arith, length-append before (x ∷ after), length-append before after)

-- The two lists have the same tasks, each as often: no measure of tasks tells them apart.
abbrev pub IsSame : List MigrationInfo → List MigrationInfo → Type 0
IsSame xs ys = (f : MigrationInfo → ℕ) → total f xs ≡ total f ys

module _ {ℓ} {Mem : Type ℓ} where
  -- With one compute worker the write queue is sealed only when nothing more can come.
  pub record Single (workers : ℕ) (s : Server Mem) : Type ℓ where
    pub busy : length s.computing ≤ s.compute_live
    pub one : s.compute_live ≤ 1
    pub sealed : s.c_worker.seal_flag ≡ not s.receiving
    pub stopped :
        s.w_worker.seal_flag ≡ true
        → (s.compute_live ≡ 0) × (s.c_worker.task_queue ≡ []) × (s.receiving ≡ false)
    pub signalled : s.compute_live ≡ 0 → s.w_worker.seal_flag ≡ true
    pub writers : length s.writing ≤ s.write_live
    pub drained :
        s.write_live < workers → (s.w_worker.seal_flag ≡ true) × (s.w_worker.task_queue ≡ [])

  receives-Single :
      (workers : ℕ) (task : MigrationInfo) (s t : Server Mem)
      → s.receiving ≡ true
      → Received task s t
      → Single workers s
      → Single workers t
  unfolding add_task
  receives-Single workers task s t on r a =
      let (c, w) = seals r.queued in
      record {
        busy = rw (r.computing, r.compute_live) a.busy;
        one = rw r.compute_live a.one;
        sealed = rw (c, r.receiving) a.sealed;
        stopped = λ h. absurd (false≢true (sym (a.stopped (sym w ∙ h)).2 ∙ on));
        signalled = λ h. w ∙ a.signalled (sym r.compute_live ∙ h);
        writers = rw (r.writing, r.write_live) a.writers;
        drained = λ h.
            absurd
              (false≢true (sym (a.stopped (a.drained (omega (arith, h, r.write_live))).0).2 ∙ on));
      }
    where
      seals :
          ((t.c_worker ≡ add_task task s.c_worker) × (t.w_worker ≡ s.w_worker))
            ⊎ ((t.w_worker ≡ add_task task s.w_worker) × (t.c_worker ≡ s.c_worker))
          → (t.c_worker.seal_flag ≡ s.c_worker.seal_flag)
            × (t.w_worker.seal_flag ≡ s.w_worker.seal_flag)
      seals (inl (c, w)) =
          (ap (λ (p : ThreadPool). p.seal_flag) c, ap (λ (p : ThreadPool). p.seal_flag) w)
      seals (inr (w, c)) =
          (ap (λ (p : ThreadPool). p.seal_flag) c, ap (λ (p : ThreadPool). p.seal_flag) w)

  close-Single :
      (workers : ℕ) (s : Server Mem)
      → s.receiving ≡ true
      → Single workers s
      → Single workers (close s)
  unfolding close set_finished
  close-Single workers s on a = record {
    busy = a.busy;
    one = a.one;
    sealed = refl;
    stopped = λ h. absurd (false≢true (sym (a.stopped h).2 ∙ on));
    signalled = a.signalled;
    writers = a.writers;
    drained = a.drained;
  }

  compute-Single :
      (workers : ℕ) (s t : Server Mem)
      → length s.computing < s.compute_live
      → Took s s.c_worker (compute_stopped s) (compute_held s) t
      → Single workers s
      → Single workers t
  unfolding set_finished
  compute-Single workers s _ idle (stop q b) a = record {
    busy = omega (arith, idle, a.one);
    one = omega (arith, a.one);
    sealed = a.sealed;
    stopped = λ h. (omega (arith, a.one), q, not-true s.receiving s.c_worker.seal_flag a.sealed b);
    signalled = λ h. refl;
    writers = a.writers;
    drained = λ h. (refl, (a.drained h).1);
  }
  compute-Single workers s _ idle (work task rest q) a = record {
    busy = omega (arith, idle, length-append s.computing (task ∷ []));
    one = a.one;
    sealed = a.sealed;
    stopped = λ h. absurd (omega (arith, (a.stopped h).0, idle));
    signalled = a.signalled;
    writers = a.writers;
    drained = a.drained;
  }

  write-Single :
      (workers : ℕ) (s t : Server Mem)
      → length s.writing < s.write_live
      → Took s s.w_worker (write_stopped s) (write_held s) t
      → Single workers s
      → Single workers t
  write-Single workers s _ idle (stop q b) a = record {
    busy = a.busy;
    one = a.one;
    sealed = a.sealed;
    stopped = a.stopped;
    signalled = a.signalled;
    writers = omega (arith, idle);
    drained = λ h. (b, q);
  }
  write-Single workers s _ idle (work task rest q) a = record {
    busy = a.busy;
    one = a.one;
    sealed = a.sealed;
    stopped = a.stopped;
    signalled = a.signalled;
    writers = omega (arith, idle, length-append s.writing (task ∷ []));
    drained = λ h. absurd (full (sym q ∙ (a.drained h).1));
  }
    where
      full : task ∷ rest ≡ [] → ⊥
      full e = let l : suc (length rest) ≡ 0 = ap length e in absurd (omega arith)

  module _ (recv : ℕ → MigrationInfo → Mem → Mem) (encode : ℕ × ℕ → MigrationInfo → Mem → Mem)
      (store : MigrationInfo → Mem → Mem) (tables : List (ℕ × ℕ)) where
    give-Single :
        (workers : ℕ) (before : List MigrationInfo) (task : MigrationInfo)
        (after : List MigrationInfo) (s : Server Mem)
        → s.computing ≡ before ++ task ∷ after
        → Single workers s
        → Single workers (compute_give encode tables before task after s)
    unfolding compute_give add_task
    give-Single workers before task after s e a =
        let fewer = ap length e ∙ length-cut before task after in
        record {
          busy = omega (arith, fewer, a.busy);
          one = a.one;
          sealed = a.sealed;
          stopped = λ h. absurd (omega (arith, fewer, a.busy, (a.stopped h).0));
          signalled = a.signalled;
          writers = a.writers;
          drained = λ h. absurd (omega (arith, fewer, a.busy, (a.stopped (a.drained h).0).0));
        }

    done-Single :
        (workers : ℕ) (before : List MigrationInfo) (task : MigrationInfo)
        (after : List MigrationInfo) (s : Server Mem)
        → s.writing ≡ before ++ task ∷ after
        → Single workers s
        → Single workers (write_done store before task after s)
    unfolding write_done
    done-Single workers before task after s e a = record {
      busy = a.busy;
      one = a.one;
      sealed = a.sealed;
      stopped = a.stopped;
      signalled = a.signalled;
      writers = omega (arith, ap length e ∙ length-cut before task after, a.writers);
      drained = a.drained;
    }

    Step-Single :
        (workers : ℕ) (s t : Server Mem)
        → Step recv encode store tables s t
        → Flow s
        → Single workers s
        → Single workers t
    Step-Single workers s t (receives header going e) f a =
        let (task, r) = receive_round-Received recv header s t e in
        receives-Single workers task s t going r a
    Step-Single workers s _ (closes going) f a = close-Single workers s going a
    Step-Single workers s t (takes h e) f a =
        compute-Single workers s t h (compute_take-Took s t f.to_compute e) a
    Step-Single workers s _ (gives before task after e) f a =
        give-Single workers before task after s e a
    Step-Single workers s t (picks h e) f a =
        write-Single workers s t h (write_take-Took s t f.to_write e) a
    Step-Single workers s _ (stores before task after e) f a =
        done-Single workers before task after s e a

    Reach-Single :
        (workers : ℕ) (s t : Server Mem)
        → Reach recv encode store tables s t
        → Flow s
        → Single workers s
        → Single workers t
    Reach-Single workers s _ here f a = a
    Reach-Single workers s t (next {t = u} r e) f a =
        Step-Single workers u t e (Reach-Flow recv encode store tables s u r f)
          (Reach-Single workers s u r f a)

    module _ (addresses : ℕ → ℕ) (n : ℕ) (memory : Mem) (s : Server Mem)
        (run : Reach recv encode store tables (new_server addresses n 1 memory) s) where
      pub reached-Flow : Flow s
      reached-Flow =
          Reach-Flow recv encode store tables _ s run (new_server-Flow addresses n 1 memory)

      pub reached-Single : Single 1 s
      unfolding new_server new_thread_pool
      reached-Single = Reach-Single 1 _ s run (new_server-Flow addresses n 1 memory) (record {
        busy = omega arith;
        one = omega arith;
        sealed = refl;
        stopped = λ h. absurd (false≢true h);
        signalled = λ h. absurd (omega (arith, h));
        writers = omega arith;
        drained = λ h. absurd (omega (arith, h));
      })

      -- In a run of a server with one compute worker and one write worker, when both have left their
      -- loops, the tasks written are the tasks received, each as often, whatever the order in which
      -- the threads ran.
      pub server_loses_nothing : s.compute_live ≡ 0 → s.write_live ≡ 0 → IsSame s.received s.written
      server_loses_nothing c w f =
          let a = reached-Single in
          let (sealed, empty) = a.drained (omega (arith, w)) in
          let (_, none_left, _) = a.stopped sealed in
          let idle = no_tasks s.computing (omega (arith, a.busy, c)) in
          let done = no_tasks s.writing (omega (arith, a.writers, w)) in
          omega (
            arith,
            reached-Flow.balance f,
            ap (total f) none_left,
            ap (total f) idle,
            ap (total f) empty,
            ap (total f) done,
          )
