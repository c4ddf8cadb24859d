-- ===== src/Server.antt =====
-- src/tcp_server.cc, with the workers that it owns (src/compute_worker.cc, src/write_worker.cc): what a node
-- does with the blocks that it receives. Sockets, files and ISA-L are parameters: `recv` fills a block of
-- memory with a chunk, `encode` is given the matrix of a coefficient and adds the stored block to the
-- memory, `store` writes a file.
pub mod Moves
pub mod Flow
pub mod Finish
pub mod Drain
pub mod Accepting
use stripe_merge.Common.{
  ℕ, zero, suc, ◌+◌, ◌-◌, ◌*◌, ◌<◌, ◌≡◌, Bool, true, false, List, [], ◌∷◌, ◌++◌, Option, none, some,
  ◌==◌, if◌then◌else◌, get_or, length,
}
use stripe_merge.Migration.{MigrationInfo}
use stripe_merge.Pool.Tasks.{ThreadPool, new_thread_pool, add_task, get_task, set_finished}
use stripe_merge.Pool.Blocks.{MemoryPool, new_memory_pool, get_block, release_block}

-- The members of the server that its threads share. `receiving` is over when `start_serving` has joined the
-- threads of the connections; `computing` and `writing` are the tasks in the hands of workers; the workers
-- that have not left their loops are `compute_live` and `write_live`. `received` and `written` record what
-- went in and out.
pub record Server {ℓ} (Mem : Type ℓ) : Type ℓ where
  pub mem_pool : MemoryPool
  pub c_worker : ThreadPool
  pub w_worker : ThreadPool
  pub memory : Mem
  pub receiving : Bool
  pub computing : List MigrationInfo
  pub writing : List MigrationInfo
  pub compute_live : ℕ
  pub write_live : ℕ
  pub received : List MigrationInfo
  pub written : List MigrationInfo

-- `mem_pool->release_block(task.mem_ptr)`.
abbrev pub release : Option ℕ → MemoryPool → MemoryPool
release none pool = pool
release (some ptr) pool = release_block ptr pool

module _ {ℓ} {Mem : Type ℓ} where
  -- The constructor, for `n` connections.
  unfoldable pub new_server : (ℕ → ℕ) → ℕ → ℕ → Mem → Server Mem
  unfolding new_memory_pool new_thread_pool
  new_server addresses n workers_num memory = record {
    mem_pool = new_memory_pool addresses (2 * n);
    c_worker = new_thread_pool;
    w_worker = new_thread_pool;
    memory = memory;
    receiving = true;
    computing = [];
    writing = [];
    compute_live = workers_num;
    write_live = workers_num;
    received = [];
    written = [];
  }

  -- A round of `receive_handler` for the header `task`, with whether it breaks; `none` is a receiver that
  -- waits for a free block.
  unfoldable pub receive_round :
      (ℕ → MigrationInfo → Mem → Mem) → MigrationInfo → Server Mem → Option (Bool × Server Mem)
  unfolding get_block add_task
  receive_round recv header s = elim (header.source == header.target) [
    | true ↦ some (true, s)
    | false ↦ elim (get_block s.mem_pool) [
      | none ↦ none
      | some (ptr, rest) ↦
          let task = record header { mem_ptr = some ptr } in
          let t = record s {
            mem_pool = rest;
            memory = recv ptr task s.memory;
            received = s.received ++ task ∷ [];
          } in
          if task.coefficient == 0
          then some (false, record t { w_worker = add_task task s.w_worker })
          else some (false, record t { c_worker = add_task task s.c_worker })
    ]
  ]

  -- `start_serving` after the joins.
  unfoldable pub close : Server Mem → Server Mem
  unfolding set_finished
  close s = record s { receiving = false; c_worker = set_finished s.c_worker }

  -- The head of a round of `ComputeWorker::run`: a task to compute, or the signal to stop, which is passed
  -- on to the write workers.
  unfoldable pub compute_take : Server Mem → Option (Server Mem)
  unfolding get_task set_finished
  compute_take s = elim (get_task s.c_worker) [
    | none ↦ none
    | some (task, rest) ↦ elim task.mem_ptr [
      | none ↦ some (record s {
        c_worker = rest;
        w_worker = set_finished s.w_worker;
        compute_live = s.compute_live - 1;
      })
      | some ptr ↦ some (record s { c_worker = rest; computing = s.computing ++ task ∷ [] })
    ]
  ]

  -- The rest of the round. `encode` is given the matrix at `encode_gftbl[coefficient - 1]`, which the source
  -- reads without a test; outside the table the model has `{1, 1}`.
  unfoldable pub compute_give :
      (ℕ × ℕ → MigrationInfo → Mem → Mem)
      → List (ℕ × ℕ)
      → List MigrationInfo
      → MigrationInfo
      → List MigrationInfo
      → Server Mem
      → Server Mem
  unfolding add_task
  compute_give encode tables before task after s = record s {
    computing = before ++ after;
    w_worker = add_task task s.w_worker;
    memory = encode (get_or tables (task.coefficient - 1) (1, 1)) task s.memory;
  }

  -- The head of a round of `WriteWorker::run`.
  unfoldable pub write_take : Server Mem → Option (Server Mem)
  unfolding get_task
  write_take s = elim (get_task s.w_worker) [
    | none ↦ none
    | some (task, rest) ↦ elim task.mem_ptr [
      | none ↦ some (record s { w_worker = rest; write_live = s.write_live - 1 })
      | some ptr ↦ some (record s { w_worker = rest; writing = s.writing ++ task ∷ [] })
    ]
  ]

  -- The rest of the round.
  unfoldable pub write_done :
      (MigrationInfo → Mem → Mem)
      → List MigrationInfo
      → MigrationInfo
      → List MigrationInfo
      → Server Mem
      → Server Mem
  unfolding release_block
  write_done store before task after s = record s {
    writing = before ++ after;
    mem_pool = release task.mem_ptr s.mem_pool;
    memory = store task s.memory;
    written = s.written ++ task ∷ [];
  }

  module _ (recv : ℕ → MigrationInfo → Mem → Mem) (encode : ℕ × ℕ → MigrationInfo → Mem → Mem)
      (store : MigrationInfo → Mem → Mem) (tables : List (ℕ × ℕ)) where
    -- The steps of the threads, in any order.
    pub data Step : Server Mem → Server Mem → Type ℓ where
      receives :
          {s t : Server Mem} (task : MigrationInfo)
          → s.receiving ≡ true
          → receive_round recv task s ≡ some (false, t)
          → Step s t
      closes : {s : Server Mem} → s.receiving ≡ true → Step s (close s)
      takes :
          {s t : Server Mem}
          → length s.computing < s.compute_live
          → compute_take s ≡ some t
          → Step s t
      gives :
          {s : Server Mem} (before : List MigrationInfo) (task : MigrationInfo)
          (after : List MigrationInfo)
          → s.computing ≡ before ++ task ∷ after
          → Step s (compute_give encode tables before task after s)
      picks :
          {s t : Server Mem} → length s.writing < s.write_live → write_take s ≡ some t → Step s t
      stores :
          {s : Server Mem} (before : List MigrationInfo) (task : MigrationInfo)
          (after : List MigrationInfo)
          → s.writing ≡ before ++ task ∷ after
          → Step s (write_done store before task after s)

    pub data Reach (s : Server Mem) : Server Mem → Type ℓ where
      here : Reach s s
      next : {t u : Server Mem} → Reach s t → Step t u → Reach s u
