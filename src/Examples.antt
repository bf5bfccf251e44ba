-- ===== src/Examples.antt =====
-- Concrete runs to which the theorems of the library are applied.
mod Commits
mod Queues
mod Graphs
mod Sessions
mod Memories
mod Loads
mod Conductor
mod Proofs
mod Migrations
