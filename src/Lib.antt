-- ===== src/Lib.antt =====
-- A model of StripeMerge, which generates wide erasure-coded stripes by merging pairs of narrow
-- ones, and of the prototype around it.
--
-- The parts, with the files that they model:
--   Stripe      src/stripe.cc, include/stripe.hh: the layout of a stripe, the cost of merging two stripes
--               (Stripe/Cost) and the random placement (Stripe/Deal).
--   Migration   include/migration_info.hh: one block to send.
--   Matching    src/matching_generator.cc, include/matching_generator.hh: the class `MatchingGenerator`.
--               Input: the constructor and `input_stripes`. CostTable: `get_cost` and its triangular table.
--               Marks: `mark_matched`. Greedy: `basic_greedy` (StripeMerge-G). Search: `build_map`,
--               `search_for_matching`, `dist_based_search` and `make_optimization` (StripeMerge-P), with the
--               invariant of the search (Search/Invariant), the end of its rounds (Search/Rest), the exchange of
--               partners (Search/Swap) and the way from the rows to the blocks that are sent (Search/Matched).
--               Scheme: `get_one_scheme`. Statistics: `print_statics`, `get_sending_scheme`, `random_match`.
--               Plan: StripeMerge-G from the rows to the blocks that are sent.
--   NcScale     src/ncscale_simulation.cc, include/ncscale_simulation.hh: the scheme of NCScale.
--   Pool        include/thread_pool.hh (Tasks) and src/memory_pool.cc (Blocks): the shared queues of a node,
--               as steps that the mutex makes atomic.
--   Worker      src/compute_worker.cc: the coefficients of the parity blocks (Worker/Powers).
--   Server      src/tcp_server.cc, include/tcp_server.hh, and the loops of the workers of
--               src/compute_worker.cc and src/write_worker.cc: the receivers and the workers as threads that
--               take steps in any order. Moves: what each step does. Flow: where a task can be. Finish and
--               Drain: the end of a run. Accepting: `wait_for_connection`.
--   Client      src/tcp_client.cc, include/tcp_client.hh: the connections of a node (Client/Peers), where a
--               task is sent (Client/Route), the signal at the end (Client/Shutdown) and `start_client`
--               (Client/Start).
--   Node        src/tcp_node.cc, include/tcp_node.hh: the configuration of a node (Node/Parse), the scheme and
--               the tasks of the master (Node/Scheme, Node/Master), and how a data node takes its tasks from the
--               master and sends them (Node/Relay, with `TCPServer::run`).
--   Programs    src/node_main.cc and src/matching_main.cc: the arguments and what the programs come to, up to
--               the messages of the master (Programs/Delivery).
--   Common      the numbers, lists and Boolean tests that the parts share.
--   Tests       runs on small inputs, and the theorems at inputs that meet their hypotheses.
--
-- A `MatchingGenerator` asks `Stripe` for costs, matches the stripes in pairs, and plans the moves
-- of each pair. The master node sends each planned move to the node that has the block, that node's
-- client sends the block to its target, and the target's server computes and writes it; the pools
-- hand the tasks and the memory between the threads of a node.
--
-- Words keep their width: a `uint8_t` cost wraps at 256, as does the index of the nodes in `deal`,
-- the index into the cost table is computed in 64 bits, `NCScaleSimulation` counts in 32 bits.
-- Loops over a known range are recursion on a list. The loops with another bound run on fuel:
-- `skip_empty` goes round its counters once, `delta_loop` has a whole round of both counters for
-- each transfer, `search_combs` has as many rounds as there are subsets, `find_good` twice the
-- length of the scheme, `parse_lines` one round more than the file has lines, and `run_client` one
-- round more than the queue has tasks. Each counter comes up within one round, and each subset is
-- a greater number than the one before it.
--
-- Where the code has no defined result, or a loop of it does not end, the model has none either:
-- `none` stands for a shift of an `int` that is too wide (`upside` from 32, `static_all_one` and
-- `search_for_matching` from 31), and for `rs_n = 255` in `basic_greedy` and `print_statics`, which
-- a counter of `uint8_t` never passes. `parse_config` tells an exit from fuel that runs out.
--
-- `std::shuffle` and `std::random_shuffle` are parameters of the model, of which only that the
-- result is a permutation is supposed; the addresses that `new` returns, the arithmetic of ISA-L,
-- the files of the workers and `strtoul` are parameters as well. A static local variable is an argument of
-- the functions that read it.
--
-- A connection stands for the address that it leads to. A round of a worker is two steps, the task
-- taken and the task handed on, so that the rounds of several workers interleave.
--
-- Not modelled: what sockets do, the start and the join of threads, the flags by which servers let
-- clients start (`start_client` takes whether they arrive), the blossom matching of src/blossom.cc and
-- what is printed.
pub mod Common
pub mod Stripe
pub mod Migration
pub mod Matching
pub mod NcScale
pub mod Pool
pub mod Worker
pub mod Server
pub mod Client
pub mod Node
pub mod Programs
mod Tests
