-- ===== src/Memory.antt =====
-- memory/models.py: what the generational memory keeps.
use ciwarden.Base.{ℕ, String, Bool, List, Option}
pub mod Drift
pub mod Bounds
pub mod Same
pub mod Vdb
pub mod Files
pub mod Lookup
pub mod Gate
pub mod FileGate
pub mod Retry
pub mod Baselines
pub mod Managed

pub data ContractType : Type 0 where
  interface function class_ module_ dependency enum : ContractType

pub record ContractEntry : Type 0 where
  pub type : ContractType
  pub name : String
  pub fields : List String
  pub consumed_by : List String
  pub methods : List String

pub record ContractSummary : Type 0 where
  pub module_name : String
  pub generation_id : String
  pub sequence : ℕ
  pub contracts : List ContractEntry
  pub assumptions : List String
  pub dependencies : List String
  pub exposes : List String

-- `score` in ten-thousandths.
pub record DriftResult : Type 0 where
  pub score : ℕ
  pub passed : Bool
  pub added : List String
  pub removed : List String
  pub modified : List String
  pub detail : String

pub record Session : Type 0 where
  pub session_id : String
  pub current_generation_id : String
  pub current_sequence : ℕ

pub record Checkpoint : Type 0 where
  pub session_id : String
  pub generation_id : String
  pub sequence : ℕ
  pub contracts : List ContractSummary
  pub drift_history : List DriftResult
