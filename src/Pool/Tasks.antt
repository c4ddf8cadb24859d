-- ===== src/Pool/Tasks.antt =====
-- include/thread_pool.hh: the task queue of `ThreadPool<MigrationInfo>`.
use stripe_merge.Common.{
  ◌≡◌, refl, sym, ap, ap₂, ◌∙◌, Bool, true, false, List, [], ◌∷◌, ◌++◌, Option, none, some,
  Bool-cases, inl, inr, if◌then◌else◌,
}
use mathlib.Core.Option.{none-ne-some}
use mathlib.Core.List.{append_assoc}
use stripe_merge.Migration.{MigrationInfo, blank_task}

-- The members that the mutex guards.
pub record ThreadPool : Type 0 where
  pub task_queue : List MigrationInfo
  pub seal_flag : Bool

-- The constructor.
unfoldable pub new_thread_pool : ThreadPool
new_thread_pool = record { task_queue = []; seal_flag = false }

unfoldable pub add_task : MigrationInfo → ThreadPool → ThreadPool
add_task msg s = record s { task_queue = s.task_queue ++ msg ∷ [] }

-- `get_task`: a caller waits while the queue is empty and not sealed; of a sealed empty queue it gets
-- `Msg()`, the signal to stop.
unfoldable pub get_task : ThreadPool → Option (MigrationInfo × ThreadPool)
unfolding blank_task
get_task s = elim s.task_queue [
  | [] ↦ if s.seal_flag then some (blank_task, s) else none
  | m ∷ rest ↦ some (m, record s { task_queue = rest })
]

unfoldable pub set_finished : ThreadPool → ThreadPool
set_finished s = record s { seal_flag = true }

-- The runs of producers and workers that share a pool: what was added, what was taken from the queue, and
-- the pool. A worker that is told to stop takes nothing.
pub data Runs : List MigrationInfo → List MigrationInfo → ThreadPool → Type 0 where
  begin : Runs [] [] new_thread_pool
  added :
      {xs ys : List MigrationInfo} {s : ThreadPool} (msg : MigrationInfo)
      → Runs xs ys s
      → Runs (xs ++ msg ∷ []) ys (add_task msg s)
  taken :
      {xs ys : List MigrationInfo} {s t : ThreadPool} {head : MigrationInfo}
      {rest : List MigrationInfo} (msg : MigrationInfo)
      → s.task_queue ≡ head ∷ rest
      → get_task s ≡ some (msg, t)
      → Runs xs ys s
      → Runs xs (ys ++ msg ∷ []) t
  stopped :
      {xs ys : List MigrationInfo} {s t : ThreadPool} (msg : MigrationInfo)
      → s.task_queue ≡ []
      → get_task s ≡ some (msg, t)
      → Runs xs ys s
      → Runs xs ys t
  finished :
      {xs ys : List MigrationInfo} {s : ThreadPool} → Runs xs ys s → Runs xs ys (set_finished s)

abbrev handed : MigrationInfo → ThreadPool → Option (MigrationInfo × ThreadPool)
handed m s = some (m, s)

abbrev task_or : MigrationInfo → Option (MigrationInfo × ThreadPool) → MigrationInfo
task_or m none = m
task_or m (some (a, s)) = a

abbrev pool_or : ThreadPool → Option (MigrationInfo × ThreadPool) → ThreadPool
pool_or t none = t
pool_or t (some (a, s)) = s

some_fst : (a b : MigrationInfo) (s t : ThreadPool) → handed a s ≡ handed b t → a ≡ b
some_fst a b s t e = ap (task_or a) e

some_snd : (a b : MigrationInfo) (s t : ThreadPool) → handed a s ≡ handed b t → s ≡ t
some_snd a b s t e = ap (pool_or s) e

pub get_task-head :
    (s : ThreadPool) (head : MigrationInfo) (rest : List MigrationInfo)
    → s.task_queue ≡ head ∷ rest
    → get_task s ≡ some (head, record s { task_queue = rest })
unfolding get_task
get_task-head s head rest e = rw e refl

pub get_task-sealed :
    (s : ThreadPool)
    → s.task_queue ≡ []
    → get_task s ≡ (if s.seal_flag then some (blank_task, s) else none)
unfolding get_task
get_task-sealed s e = rw e refl

sealed_stops :
    (s t : ThreadPool) (msg : MigrationInfo)
    → s.task_queue ≡ []
    → get_task s ≡ some (msg, t)
    → (s.seal_flag ≡ true) × (s ≡ t)
sealed_stops s t msg e g = elim (Bool-cases s.seal_flag) [
  | inl h ↦ (
    h,
    some_snd blank_task msg s t
        (sym (get_task-sealed s e ∙ ap (λ b. if b then some (blank_task, s) else none) h) ∙ g),
  )
  | inr h ↦ absurd (
      none-ne-some (msg, t)
        (sym (get_task-sealed s e ∙ ap (λ b. if b then some (blank_task, s) else none) h) ∙ g))
]

-- In every run of producers and workers, the tasks that were added are the tasks that were taken
-- followed by the queue: tasks come out in the order in which they went in, none is lost and none
-- comes twice.
pub Runs_fifo :
    (xs ys : List MigrationInfo) (s : ThreadPool) → Runs xs ys s → xs ≡ ys ++ s.task_queue
unfolding new_thread_pool add_task set_finished
Runs_fifo _ _ _ begin = refl
Runs_fifo _ ys _ (added {s = s} msg r) =
    ap (λ l. l ++ msg ∷ []) (Runs_fifo _ ys s r) ∙ append_assoc ys s.task_queue (msg ∷ [])
Runs_fifo xs _ t (taken {ys = ys} {s = s} {head = head} {rest = rest} msg e g r) =
    let got = sym (get_task-head s head rest e) ∙ g in
    let same : head ≡ msg = some_fst head msg _ t got in
    let left : rest ≡ t.task_queue = ap (λ p. p.task_queue) (some_snd head msg _ t got) in
    Runs_fifo xs ys s r
    ∙ ap (λ l. ys ++ l) e
    ∙ ap₂ (λ m l. ys ++ m ∷ l) same left
    ∙ sym (append_assoc ys (msg ∷ []) t.task_queue)
Runs_fifo xs ys t (stopped {s = s} msg e g r) =
    let (sealed, same) = sealed_stops s t msg e g in
    Runs_fifo xs ys s r ∙ ap (λ p. ys ++ p.task_queue) same
Runs_fifo xs ys _ (finished {s = s} r) = Runs_fifo xs ys s r
