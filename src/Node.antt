-- ===== src/Node.antt =====
-- src/tcp_node.cc and include/tcp_node.hh: the configuration of a node, and the tasks of the master. Streams
-- and `sprintf` are parameters.
pub mod Parse
pub mod Master
pub mod Scheme
pub mod Relay
use Prim.Native.String.{String}
use stripe_merge.Common.{
  ℕ, zero, suc, ◌+◌, ◌-◌, ◌*◌, ◌%◌, ◌^◌, Bool, true, false, ◌&&◌, List, [], ◌∷◌, ◌++◌, Option, none,
  some, ◌==◌, ltb, if◌then◌else◌, length,
}
use stripe_merge.Migration.{MigrationInfo}
use stripe_merge.Pool.Tasks.{ThreadPool, add_task, get_task, set_finished}
use stripe_merge.Client.{SocketAddress}

-- What `parse_config` uses of `std::fstream`: the state of a stream after the constructor, `none` for one
-- that is not open, and the state after each `>>`.
pub record Fstream (S : Type 0) : Type 0 where
  pub start : String → Option S
  pub eof : S → Bool
  pub fail : S → Bool
  pub read_number : S → ℕ × S
  pub read_word : S → String × S

-- The members that `parse_config` sets.
pub record Config : Type 0 where
  pub rs_k : ℕ
  pub rs_m : ℕ
  pub n : ℕ
  pub self_port : Option ℕ
  pub targets : List SocketAddress
  pub node_num : ℕ

-- The local variables of its loop, and the members that the loop sets.
pub record Lines : Type 0 where
  pub num : ℕ
  pub self_port : Option ℕ
  pub targets : List SocketAddress

-- The rest of a round: the address is the node's own, or one more target.
unfoldable pub add_address : ℕ → SocketAddress → Lines → Lines
add_address self_index address l =
    if l.num == self_index
    then record l { num = (l.num + 1) % 2 ^ 16; self_port = some address.port }
    else record l { num = (l.num + 1) % 2 ^ 16; targets = l.targets ++ address ∷ [] }

-- How `parse_config` ends: out of fuel, by `exit(-1)`, or with the members set.
pub data Parsed : Type 0 where
  unfinished : Parsed
  aborts : Parsed
  parsed : Config → Parsed

module _ {S : Type 0} (io : Fstream S) where
  -- `while (!config.eof())`, on fuel, `none` if it runs out.
  unfoldable pub parse_lines : ℕ → ℕ → S → Lines → Option Lines
  unfolding add_address
  parse_lines zero self_index s l = none
  parse_lines (suc fuel) self_index s l = elim (io.eof s) [
    | true ↦ some l
    | false ↦
        let (ip, s1) = io.read_word s in
        let (port, s2) = io.read_number s1 in
        elim (io.fail s2) [
          | true ↦ some l
          | false ↦
              parse_lines fuel self_index s2
                (add_address self_index (record { ip = ip; port = port }) l)
        ]
  ]

  -- `parse_config`, with fuel for the lines.
  unfoldable pub parse_config : ℕ → ℕ → String → Parsed
  unfolding parse_lines
  parse_config fuel self_index fn = elim (io.start fn) [
    | none ↦ aborts
    | some s ↦ elim (io.eof s) [
      | true ↦ aborts
      | false ↦
          let (k, s1) = io.read_number s in
          let (m, s2) = io.read_number s1 in
          elim (parse_lines fuel self_index s2
            (record { num = 1; self_port = none; targets = [] })) [
              | none ↦ unfinished
              | some l ↦
                  if ltb l.num 2
                  then aborts
                  else parsed (record {
                    rs_k = k;
                    rs_m = m;
                    n = (2 * k + m) % 2 ^ 32;
                    self_port = l.self_port;
                    targets = l.targets;
                    node_num = l.num - 1;
                  })
            ]
    ]
  ]

-- The loop that hands the tasks to the client; `none` is `exit(-1)`.
unfoldable pub add_tasks : List MigrationInfo → ThreadPool → Option ThreadPool
unfolding add_task
add_tasks [] pool = some pool
add_tasks (task ∷ rest) pool =
    let after = add_tasks rest (add_task task pool) in
    if task.source == task.target then none else after

-- The names of files for a task: `test/stdfile`, and what `sprintf` makes of its format.
module _ (store_name : ℕ → ℕ → ℕ → String) where
  -- The loop of `start` that names the tasks of the master, from index `i` on.
  unfoldable pub name_tasks : ℕ → List MigrationInfo → List MigrationInfo
  name_tasks i [] = []
  name_tasks i (task ∷ rest) =
      record task {
        index = i;
        target_fn = if task.coefficient == 0 then task.target_fn else "test/stdfile";
        store_fn = store_name task.target task.source i;
      }
      ∷ name_tasks ((i + 1) % 2 ^ 32) rest

  -- The master's part of `start` after the scheme is made, where `shuffle` is `std::random_shuffle`.
  unfoldable pub start_master :
      (List MigrationInfo → List MigrationInfo)
      → List MigrationInfo
      → ThreadPool
      → Option ThreadPool
  unfolding name_tasks add_tasks set_finished
  start_master shuffle scheme pool = elim (add_tasks (name_tasks 0 (shuffle scheme)) pool) [
    | none ↦ none
    | some after ↦ some (set_finished after)
  ]

-- A round of the loop of `start` in a data node: the task from the server's queue and the two queues, with
-- whether the loop ends; `none` waits.
unfoldable pub relay_round : ThreadPool → ThreadPool → Option (Bool × ThreadPool × ThreadPool)
unfolding get_task add_task set_finished
relay_round server client = elim (get_task server) [
  | none ↦ none
  | some (task, rest) ↦
      if (task.source == 0) && (task.target == 0)
      then some (true, rest, set_finished client)
      else some (false, rest, add_task task client)
]
