-- ===== src/Tests.antt =====
-- Runs of the model on small inputs, and the theorems at inputs that meet their hypotheses.
mod Data
mod Merging
mod Planning
mod Scaling
mod Pools
mod Searching
mod Powers
mod Serving
mod Cluster
mod Relaying
mod Running
