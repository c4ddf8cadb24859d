-- ===== src/Server/Drain.antt =====
-- The end of the server of src/tcp_server.cc, after the receivers have ended.
use mathlib.Core.Bool.{false≢true}
use stripe_merge.Common.{
  ℕ, ◌+◌, ◌*◌, ◌<◌, ◌≡◌, refl, sym, ap, ◌∙◌, subst, true, false, not, List, [], ◌∷◌, length, arith,
  length-append, ◌⊎◌, inl, inr, dec_lt, All,
}
use stripe_merge.Migration.{MigrationInfo}
use stripe_merge.Pool.Tasks.{add_task, set_finished}
use stripe_merge.Server.{
  Server, new_server, compute_give, write_done, Step, Reach, receives, closes, takes, gives, picks,
  stores,
}
use stripe_merge.Server.Moves.{
  HasBlock, Took, stop, work, compute_stopped, compute_held, write_stopped, write_held,
  compute_take-Took, write_take-Took, compute_take-stop, compute_take-work, write_take-stop,
  write_take-work,
}
use stripe_merge.Server.Flow.{Flow}
use stripe_merge.Server.Finish.{Single, length-cut, reached-Flow, reached-Single}

module _ {ℓ} {Mem : Type ℓ} where
  -- The steps that the workers have left at most.
  abbrev pub left : Server Mem → ℕ
  left s =
      4 * length s.c_worker.task_queue
      + 3 * length s.computing
      + 2 * length s.w_worker.task_queue
      + length s.writing
      + s.compute_live
      + s.write_live

  compute-left :
      (s t : Server Mem)
      → length s.computing < s.compute_live
      → Took s s.c_worker (compute_stopped s) (compute_held s) t
      → left t < left s
  unfolding set_finished
  compute-left s _ idle (stop q b) = omega (arith, idle)
  compute-left s _ idle (work task rest q) =
      omega (arith, ap length q, length-append s.computing (task ∷ []))

  write-left :
      (s t : Server Mem)
      → length s.writing < s.write_live
      → Took s s.w_worker (write_stopped s) (write_held s) t
      → left t < left s
  write-left s _ idle (stop q b) = omega (arith, idle)
  write-left s _ idle (work task rest q) =
      omega (arith, ap length q, length-append s.writing (task ∷ []))

  module _ (recv : ℕ → MigrationInfo → Mem → Mem) (encode : ℕ × ℕ → MigrationInfo → Mem → Mem)
      (store : MigrationInfo → Mem → Mem) (tables : List (ℕ × ℕ)) where
    Step-left :
        (s t : Server Mem)
        → Flow s
        → s.receiving ≡ false
        → Step recv encode store tables s t
        → left t < left s
    unfolding compute_give write_done add_task
    Step-left s t f over (receives header going e) = absurd (false≢true (sym over ∙ going))
    Step-left s _ f over (closes going) = absurd (false≢true (sym over ∙ going))
    Step-left s t f over (takes h e) = compute-left s t h (compute_take-Took s t f.to_compute e)
    Step-left s _ f over (gives before task after e) = omega (
      arith,
      ap length e ∙ length-cut before task after,
      length-append s.w_worker.task_queue (task ∷ []),
    )
    Step-left s t f over (picks h e) = write-left s t h (write_take-Took s t f.to_write e)
    Step-left s _ f over (stores before task after e) =
        omega (arith, ap length e ∙ length-cut before task after)

    -- A step of a worker, or none is left in its loop.
    abbrev Goes : Server Mem → Type ℓ
    Goes s =
        ((s.compute_live ≡ 0) × (s.write_live ≡ 0))
        ⊎ ((t : Server Mem) × Step recv encode store tables s t)

    compute-Goes :
        (s : Server Mem) (q : List MigrationInfo)
        → s.c_worker.task_queue ≡ q
        → Flow s
        → s.c_worker.seal_flag ≡ true
        → length s.computing < s.compute_live
        → Goes s
    compute-Goes s [] e f b h = inr (_, takes h (compute_take-stop s e b))
    compute-Goes s (task ∷ rest) e f b h =
        let held : All HasBlock (task ∷ rest) = subst (All HasBlock) e f.to_compute in
        inr (_, takes h (compute_take-work s task rest e held.0))

    write-Goes :
        (s : Server Mem) (q : List MigrationInfo)
        → s.w_worker.task_queue ≡ q
        → Flow s
        → s.w_worker.seal_flag ≡ true
        → length s.writing < s.write_live
        → Goes s
    write-Goes s [] e f b h = inr (_, picks h (write_take-stop s e b))
    write-Goes s (task ∷ rest) e f b h =
        let held : All HasBlock (task ∷ rest) = subst (All HasBlock) e f.to_write in
        inr (_, picks h (write_take-work s task rest e held.0))

    store-Goes :
        (s : Server Mem) (xs : List MigrationInfo)
        → s.writing ≡ xs
        → Flow s
        → s.w_worker.seal_flag ≡ true
        → s.compute_live ≡ 0
        → Goes s
    store-Goes s (task ∷ rest) e f b c = inr (_, stores [] task rest e)
    store-Goes s [] e f b c = elim (dec_lt 0 s.write_live) [
      | yes more ↦ write-Goes s s.w_worker.task_queue refl f b (omega (arith, ap length e, more))
      | no over ↦ inl (c, omega arith)
    ]

    give-Goes :
        (s : Server Mem) (xs : List MigrationInfo)
        → s.computing ≡ xs
        → Flow s
        → Single 1 s
        → s.receiving ≡ false
        → Goes s
    give-Goes s (task ∷ rest) e f a over = inr (_, gives [] task rest e)
    give-Goes s [] e f a over = elim (dec_lt 0 s.compute_live) [
      | yes more ↦
          compute-Goes s s.c_worker.task_queue refl f (a.sealed ∙ ap not over)
            (omega (arith, ap length e, more))
      | no stopped ↦
          let c : s.compute_live ≡ 0 = omega arith in
          store-Goes s s.writing refl f (a.signalled c) c
    ]

    -- In a run of a server with one compute worker and one write worker, after the receivers have
    -- ended every step lowers the measure `left`, and some step is possible until both workers have
    -- left their loops: the server always comes to its end.
    pub server_drains :
        (addresses : ℕ → ℕ) (n : ℕ) (memory : Mem) (s : Server Mem)
        → Reach recv encode store tables (new_server addresses n 1 memory) s
        → s.receiving ≡ false
        → ((t : Server Mem) → Step recv encode store tables s t → left t < left s)
          × (((s.compute_live ≡ 0) × (s.write_live ≡ 0))
              ⊎ ((t : Server Mem) × Step recv encode store tables s t))
    server_drains addresses n memory s run over =
        let f = reached-Flow recv encode store tables addresses n memory s run in
        (
          λ t e. Step-left s t f over e,
          give-Goes s s.computing refl f
              (reached-Single recv encode store tables addresses n memory s run) over,
        )
