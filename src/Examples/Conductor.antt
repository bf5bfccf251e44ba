-- ===== src/Examples/Conductor.antt =====
-- A session of two agents in two repositories, of conductor/session.py, conductor/router.py and
-- conductor/commit.py.
use ciwarden.Base.{
  String, ◌≡◌, ◌⊎◌, refl, true, false, ◌&&◌, none, some, List, [], ◌∷◌, ◌==◌, arith, elem, All,
  Nodup, Dict, get, keys,
}
use ciwarden.Base.Text.{join}
use ciwarden.Gates.{pass}
use ciwarden.Dag.{Nodes}
use ciwarden.Dag.Topological.{sorted, topological_order, waves, turn, lower}
use ciwarden.Dag.Topological.Turns.{DepsBefore}
use ciwarden.Session.{AgentSpec, ConductorSession, agent_by_id}
use ciwarden.Session.Manifest.{from_manifest, save_manifest, from_manifest-save}
use ciwarden.Router.{Completed, RepoRouter, ok}
use ciwarden.Router.Setup.{build_router}
use ciwarden.Router.Routes.{IsRouted, build_router-IsRouted}
use ciwarden.SchemaCapture.{template, from_schema, entries_of, flatten_exposes}
use ciwarden.Memory.Vdb.{commit_session, get_or_create_session, advance_session}
use ciwarden.Memory.Gate.{Setting, execute_managed}
use ciwarden.Queue.{init_db, enqueue, validate_file_tokens}
use ciwarden.Commit.{
  StagedPath, World, State, Result, committed, assemble_summaries, commit_corpus,
  copy_staged_to_worktree, atomic_commit, prime_vdb_from_codebase,
}
use ciwarden.Commit.Outcome.{staged, Nothing, BadContract, Refused, Accepted, atomic_commit_cases}
use ciwarden.Commit.ColdStart.{empty_vdb, atomic_commit-managed_passes}
use ciwarden.Commit.Multi.{group_agents, atomic_commit_multi_repo}
use ciwarden.Commit.Grouping.{FirstsAfter, group_agents-FirstsAfter}
use ciwarden.Commit.Sequence as Sequence
use ciwarden.Commit.Sequence.{NoFiles, Sent, atomic_commit_multi_repo-Sends}

abbrev agent : String → String → List String → AgentSpec
agent id repo deps = record {
  agent_id = id;
  description = id;
  prompt = "";
  module_key = id;
  dependencies = [];
  repo = repo;
  depends_on = deps;
  state = "done";
}

abbrev agents : List AgentSpec
agents = agent "a" "kernel" [] ∷ agent "b" "default" ("a" ∷ []) ∷ []

abbrev dag : Nodes
dag =
    ("a", record { agent_id = "a"; depends_on = []; required_by = "b" ∷ [] })
    ∷ ("b", record { agent_id = "b"; depends_on = "a" ∷ []; required_by = [] })
    ∷ []

abbrev session : ConductorSession
session = record {
  repo_root = "/work/app";
  repo_name = "app";
  agents = agents;
  session_id = "s1";
  vdb_root = ".cdmad/vdb";
  staging_base = "/tmp/staging";
  staging_root = "/tmp/staging/app/s1";
  dag = dag;
  multi_repo = true;
}

from_manifest-save_example : from_manifest "/elsewhere" (save_manifest session) ≡ session
from_manifest-save_example = from_manifest-save session "/elsewhere"

abbrev repo_paths : Dict String
repo_paths = ("kernel", "/work/kernel") ∷ []

build_router-IsRouted_example :
    (r : RepoRouter) × (build_router (λ p. p) repo_paths "/work/app" agents ≡ ok r)
    × All (IsRouted (λ p. p) repo_paths "/work/app" r) agents
build_router-IsRouted_example =
    build_router-IsRouted (λ p. p) repo_paths "/work/app" agents (refl, (refl, tt))

-- Each agent has staged one file beside its prompt.
abbrev staging : String → List StagedPath
staging id =
    record { is_file = true; parts = "PROMPT.md" ∷ [] }
    ∷ record { is_file = false; parts = "src" ∷ [] }
    ∷ record { is_file = true; parts = "src" ∷ id ∷ [] }
    ∷ []

abbrev world : World
world = record {
  staging = staging;
  schema_file = template;
  paths = record { normalize_repo = λ p. p; has_git = λ p. true };
  resolve = λ p. p;
  worker_running = λ p. false;
  staging_exists = true;
  now = 7;
  pad3 = λ n. "001";
  show = λ n. "2";
}

abbrev state : State
state = record { vdb = empty_vdb; queue = init_db; trace = [] }

atomic_commit_cases_example :
    Nothing world true session state
      (staged world true session state)
      (atomic_commit world true session state)
    ⊎ BadContract world true session state
        (staged world true session state)
        (atomic_commit world true session state)
    ⊎ Refused world true session state
        (staged world true session state)
        (atomic_commit world true session state)
    ⊎ Accepted world true session state
        (staged world true session state)
        (atomic_commit world true session state)
atomic_commit_cases_example = atomic_commit_cases world true session state

abbrev primed : State
primed = record { vdb = prime_vdb_from_codebase session [] empty_vdb; queue = init_db; trace = [] }

abbrev files : List String
files = "src/a" ∷ "src/b" ∷ []

primed-committed :
    atomic_commit world true session primed
    ≡ (committed files, (atomic_commit world true session primed).1)
unfolding atomic_commit copy_staged_to_worktree commit_corpus assemble_summaries from_schema
    entries_of flatten_exposes enqueue validate_file_tokens get_or_create_session advance_session
    commit_session prime_vdb_from_codebase join
primed-committed = refl

abbrev setting : Setting
setting = record {
  extract = λ source m generation sequence. none;
  error_text = "";
  source_sha = λ sources. "";
  first_twelve = λ s. s;
  show = λ n. "1";
  show_score = λ n. "0.1";
  pad3 = λ n. "001";
  pad4 = λ n. "0001";
  threshold = 5000;
  threshold_text = "0.5";
  cache_enabled = false;
  session_id = "s1";
  duration_ms = 1;
}

atomic_commit-managed_passes_example :
    (execute_managed setting (atomic_commit world true session primed).1.vdb).status ≡ pass
atomic_commit-managed_passes_example =
    atomic_commit-managed_passes world session refl [] true init_db [] files
      (atomic_commit world true session primed).1 setting (λ h. ground (arith, h)) primed-committed
      (omega arith)

abbrev order : List String
order = "a" ∷ "b" ∷ []

order-DepsBefore : DepsBefore dag [] order
order-DepsBefore = (λ d e. absurd (ground (arith, e)), (λ d e. ground (arith, e), tt))

group_agents-FirstsAfter_example :
    Nodup (keys (group_agents session order []))
    × ((repo x : String)
        → elem x (elim (get repo (group_agents session order [])) [ none ↦ [] | some ids ↦ ids ])
          ≡ (elem x order
              && elim (agent_by_id session x) [ none ↦ false | some a ↦ repo == a.repo ]))
    × FirstsAfter session [] (group_agents session order [])
group_agents-FirstsAfter_example = group_agents-FirstsAfter session order order-DepsBefore

order-eq : topological_order dag ≡ sorted order
unfolding topological_order waves turn lower
order-eq = refl

abbrev router : RepoRouter
router = record { repos = []; default_repo_path = "/work/app" }

abbrev command : String → String → List String → String → List String
command path id files message = path ∷ id ∷ files

abbrev run : List String → Completed
run cmd = record { returncode = 0; stdout = "1"; stderr = "" }

abbrev multi : Result × State
multi = atomic_commit_multi_repo world router session command run true state

atomic_commit_multi_repo-Sends_example :
    NoFiles world router session command run true order state multi
    ⊎ Sequence.BadContract world router session command run true order state multi
    ⊎ Sent world router session command run true order state multi
atomic_commit_multi_repo-Sends_example =
    atomic_commit_multi_repo-Sends world router session command run true order state order-eq
