-- ===== src/Session/Manifest.antt =====
-- conductor/session.py: `save_manifest` and `from_manifest`. The manifest is the JSON object, whose
-- keys that a reader may miss are options.
use ciwarden.Base.{
  String, ◌≡◌, refl, Bool, false, Option, none, some, List, [], ◌∷◌, map, arith, Dict,
}
use ciwarden.Dag.{Nodes}
use ciwarden.Session.{AgentSpec, ConductorSession}

pub record AgentEntry : Type 0 where
  pub agent_id : String
  pub description : String
  pub prompt : String
  pub module_key : String
  pub dependencies : Option (List String)
  pub repo : Option String
  pub depends_on : Option (List String)
  pub state : Option String

pub record NodeEntry : Type 0 where
  pub agent_id : String
  pub depends_on : Option (List String)
  pub required_by : Option (List String)

pub record Manifest : Type 0 where
  pub repo_root : String
  pub repo_name : String
  pub session_id : String
  pub vdb_root : String
  pub staging_base : Option String
  pub staging_root : String
  pub multi_repo : Option Bool
  pub agents : List AgentEntry
  pub dag : Option (Dict NodeEntry)

abbrev pub agent_entry : AgentSpec → AgentEntry
agent_entry a = record {
  agent_id = a.agent_id;
  description = a.description;
  prompt = a.prompt;
  module_key = a.module_key;
  dependencies = some a.dependencies;
  repo = some a.repo;
  depends_on = some a.depends_on;
  state = some a.state;
}

abbrev pub node_entries : Nodes → Dict NodeEntry
node_entries [] = []
node_entries ((id, node) ∷ dag) =
    (
      id,
      record {
        agent_id = node.agent_id;
        depends_on = some node.depends_on;
        required_by = some node.required_by;
      },
    )
    ∷ node_entries dag

unfoldable pub save_manifest : ConductorSession → Manifest
save_manifest s = record {
  repo_root = s.repo_root;
  repo_name = s.repo_name;
  session_id = s.session_id;
  vdb_root = s.vdb_root;
  staging_base = some s.staging_base;
  staging_root = s.staging_root;
  multi_repo = some s.multi_repo;
  agents = map agent_entry s.agents;
  dag = some (node_entries s.dag);
}

-- d.get(key, default)
abbrev pub get_or {ℓ} : {A : Type ℓ} → A → Option A → A
get_or default none = default
get_or default (some a) = a

abbrev pub agent_of : AgentEntry → AgentSpec
agent_of a = record {
  agent_id = a.agent_id;
  description = a.description;
  prompt = a.prompt;
  module_key = a.module_key;
  dependencies = get_or [] a.dependencies;
  repo = get_or "default" a.repo;
  depends_on = get_or [] a.depends_on;
  state = get_or "waiting" a.state;
}

abbrev pub nodes_of : Dict NodeEntry → Nodes
nodes_of [] = []
nodes_of ((id, node) ∷ dag) =
    (
      id,
      record {
        agent_id = node.agent_id;
        depends_on = get_or [] node.depends_on;
        required_by = get_or [] node.required_by;
      },
    )
    ∷ nodes_of dag

unfoldable pub from_manifest : String → Manifest → ConductorSession
from_manifest staging_base data' = record {
  repo_root = data'.repo_root;
  repo_name = data'.repo_name;
  agents = map agent_of data'.agents;
  session_id = data'.session_id;
  vdb_root = data'.vdb_root;
  staging_base = get_or staging_base data'.staging_base;
  staging_root = data'.staging_root;
  dag = nodes_of (get_or [] data'.dag);
  multi_repo = get_or false data'.multi_repo;
}

agent_of-entries : (agents : List AgentSpec) → map agent_of (map agent_entry agents) ≡ agents
agent_of-entries [] = refl
agent_of-entries (a ∷ agents) = ground (arith, agent_of-entries agents)

nodes_of-entries : (dag : Nodes) → nodes_of (node_entries dag) ≡ dag
nodes_of-entries [] = refl
nodes_of-entries ((id, node) ∷ dag) = ground (arith, nodes_of-entries dag)

-- A session that is saved is rebuilt as it was, wherever the manifest is read from: its agents with
-- their states, its graph, and the paths that the prompts name.
pub from_manifest-save :
    (s : ConductorSession) (staging_base : String)
    → from_manifest staging_base (save_manifest s) ≡ s
unfolding from_manifest save_manifest
from_manifest-save s staging_base =
    ground (arith, agent_of-entries s.agents, nodes_of-entries s.dag)
