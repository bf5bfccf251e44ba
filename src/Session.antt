-- ===== src/Session.antt =====
-- conductor/session.py: agents, sessions and the manifest that `--resume` reads. A `Path` is its
-- text.
use ciwarden.Base.{
  String, Bool, false, Option, none, some, List, [], ◌∷◌, if◌then◌else◌, ◌==◌, Dict,
}
use ciwarden.Base.Text.{words_from, join}
use ciwarden.Dag.{Node, Nodes}
pub mod Manifest

pub record AgentSpec : Type 0 where
  pub agent_id : String
  pub description : String
  pub prompt : String
  pub module_key : String
  pub dependencies : List String
  pub repo : String
  pub depends_on : List String
  pub state : String

pub record ConductorSession : Type 0 where
  pub repo_root : String
  pub repo_name : String
  pub agents : List AgentSpec
  pub session_id : String
  pub vdb_root : String
  pub staging_base : String
  pub staging_root : String
  pub dag : Nodes
  pub multi_repo : Bool

-- `lower` is str.lower.
unfoldable pub module_key_from_description : (String → String) → String → String
module_key_from_description lower description = join "_" (words_from "" (lower description))

-- `__post_init__`: the staging root where none is passed.
abbrev pub staging_root_of : Option String → String → String → String → String
staging_root_of (some root) base repo_name session_id = root
staging_root_of none base repo_name session_id = join "/" (base ∷ repo_name ∷ session_id ∷ [])

abbrev pub find_agent : String → List AgentSpec → Option AgentSpec
find_agent id [] = none
find_agent id (a ∷ agents) = if a.agent_id == id then some a else find_agent id agents

unfoldable pub agent_by_id : ConductorSession → String → Option AgentSpec
agent_by_id session id = find_agent id session.agents
