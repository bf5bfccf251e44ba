-- ===== src/Router.antt =====
-- conductor/router.py: which repository an agent's commit goes to. The canonical path, the
-- subprocesses and the interpreter's path are arguments.
use ciwarden.Base.{
  ℕ, String, Bool, true, false, ◌&&◌, not, Option, none, some, List, [], ◌∷◌, ◌++◌, if◌then◌else◌,
  ◌==◌, eqb, elem, Dict, get, put, keys, values, is_some,
}
use ciwarden.Base.Text.{join, is_empty, strip}
pub mod Routes
pub mod Setup

abbrev pub default_repo : String
default_repo = "default"

pub record RepoContext : Type 0 where
  pub name : String
  pub path : String
  pub queue_worker_running : Bool
  pub agents : List String

pub record RepoRouter : Type 0 where
  pub repos : Dict RepoContext
  pub default_repo_path : String

-- What a subprocess leaves behind.
pub record Completed : Type 0 where
  pub returncode : ℕ
  pub stdout : String
  pub stderr : String

-- The ValueError or RuntimeError, by its text, or the new state.
pub data Routed {ℓ} (A : Type ℓ) : Type ℓ where
  ok : A → Routed A
  raised : String → Routed A

module _ (normalize : String → String) where
  -- `_register`
  abbrev pub register_as : String → String → RepoRouter → RepoRouter
  register_as name path r = record r {
    repos =
        put name
          (record { name = name; path = normalize path; queue_worker_running = false; agents = [] })
          r.repos;
  }

  unfoldable pub new_router : String → RepoRouter
  new_router default_repo_path =
      register_as default_repo (normalize default_repo_path)
        (record { repos = []; default_repo_path = normalize default_repo_path })

  unfoldable pub register : String → String → RepoRouter → RepoRouter
  register repo_name repo_path r =
      if is_some (get repo_name r.repos) then r else register_as repo_name repo_path r

-- An agent that is there is not put there again.
abbrev pub with_agent : String → RepoContext → RepoContext
with_agent id c = if elem id c.agents then c else record c { agents = c.agents ++ id ∷ [] }

unfoldable pub assign_agent : String → String → RepoRouter → Routed RepoRouter
assign_agent agent_id repo_name r = elim (get repo_name r.repos) [
  | none ↦ raised (
      join ""
        ("Repo '" ∷ repo_name ∷ "' not registered. Register it before assigning agents." ∷ []))
  | some c ↦ ok (record r { repos = put repo_name (with_agent agent_id c) r.repos })
]

-- The first repository that has the agent.
abbrev pub owner : String → Dict RepoContext → Option RepoContext
owner id [] = none
owner id ((name, c) ∷ repos) = if elem id c.agents then some c else owner id repos

unfoldable pub get_repo_for_agent : String → RepoRouter → Option RepoContext
get_repo_for_agent id r = elim (owner id r.repos) [
  | some c ↦ some c
  | none ↦ get default_repo r.repos
]

unfoldable pub build_enqueue_cmd :
    (python commit_queue : String) → String → String → List String → String → List String
build_enqueue_cmd python commit_queue repo_path agent_id files message =
    python
    ∷ commit_queue
    ∷ "enqueue"
    ∷ "--repo"
    ∷ repo_path
    ∷ "--files"
    ∷ join " " files
    ∷ "--message"
    ∷ message
    ∷ "--agent-id"
    ∷ agent_id
    ∷ []

-- `or` on texts
abbrev pub or_text : String → String → String
or_text s t = if is_empty s then t else s

module _ (command : String → String → List String → String → List String)
    (run : List String → Completed) where
  abbrev pub enqueue_in : Option RepoContext → String → List String → String → Routed (List String)
  enqueue_in none agent_id files message =
      raised (join "" ("No repo found for agent " ∷ agent_id ∷ []))
  enqueue_in (some repo) agent_id files message =
      let cmd = command repo.path agent_id files message in
      let result = run cmd in
      if not (eqb result.returncode 0)
      then raised (
          join "" (
            "Commit queue enqueue failed for agent "
            ∷ agent_id
            ∷ " (repo "
            ∷ repo.name
            ∷ "): "
            ∷ or_text (strip result.stderr) (strip result.stdout)
            ∷ []))
      else ok cmd

  -- The command that was run, where it went well.
  unfoldable pub enqueue_commit : String → List String → String → RepoRouter → Routed (List String)
  enqueue_commit agent_id files message r =
      enqueue_in (get_repo_for_agent agent_id r) agent_id files message

-- `_is_worker_running`; `pgrep` is none where the command cannot be run.
abbrev pub is_worker_running :
    (normalize : String → String) → (pgrep : String → Option Completed) → String → Bool
is_worker_running normalize pgrep repo_path =
    elim (pgrep (join "" ("commit_queue.py worker --repo " ∷ normalize repo_path ∷ []))) [
      | none ↦ false
      | some result ↦ eqb result.returncode 0 && not (is_empty (strip result.stdout))
    ]

abbrev pub check_workers :
    (running : String → Bool) → Dict RepoContext → List String × Dict RepoContext
check_workers running [] = ([], [])
check_workers running ((name, c) ∷ repos) =
    let (missing, rest) = check_workers running repos in
    let here = running c.path in
    (
      if here then missing else name ∷ missing,
      (name, record c { queue_worker_running = here }) ∷ rest,
    )

unfoldable pub verify_queue_workers_running :
    (running : String → Bool) → RepoRouter → List String × RepoRouter
verify_queue_workers_running running r =
    let (missing, repos) = check_workers running r.repos in (missing, record r { repos = repos })
