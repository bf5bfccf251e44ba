-- ===== src/Dag.antt =====
-- conductor/dag.py: the dependency graph of a session, its validation and its orders.
mod Defs
pub mod Prompt
pub mod Acyclic
pub mod Cycle
pub mod Fuel
pub mod Build
pub mod Linked
unfoldable pub use Defs.*
pub mod Mirror
pub mod Once
pub mod Topological
