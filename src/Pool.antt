-- ===== src/Pool.antt =====
-- The shared queues of a node: include/thread_pool.hh and src/memory_pool.cc. Each method takes the
-- mutex, so that it is one step on the shared state; `none` stands for a caller that waits.
pub mod Tasks
pub mod Blocks
