-- ===== src/Commit/Multi.antt =====
-- conductor/commit.py: `atomic_commit_multi_repo`. `command` and `run` are the argument vector and
-- the subprocess of the router.
use ciwarden.Base.{
  String, Bool, true, false, none, some, List, [], ◌∷◌, ◌++◌, if◌then◌else◌, ◌==◌, any, length,
  Dict, get,
}
use ciwarden.Base.Text.{join}
use ciwarden.Dag.Topological.{sorted, topological_order, Sorting}
use ciwarden.Dag.Topological as Topological
use ciwarden.Session.{AgentSpec, ConductorSession, agent_by_id}
use ciwarden.Router.{Completed, RepoRouter, Routed, ok, enqueue_commit}
use ciwarden.Router as R
use ciwarden.Commit.{
  World, State, Effect, ran, Result, committed, bad_contract, runtime_error, cycle_present,
  key_error, out_of_fuel, emit, sorted_set, all_files, all_copies, commit_corpus, ensure_worker,
  tear_down,
}

-- `repo_agents`, whose keys in their order are `repo_order`: an agent is put at the end of its
-- repository's list, and a new repository at the end.
abbrev pub append_agent : String → String → Dict (List String) → Dict (List String)
append_agent repo id [] = (repo, id ∷ []) ∷ []
append_agent repo id ((r, ids) ∷ groups) =
    if repo == r then (r, ids ++ id ∷ []) ∷ groups else (r, ids) ∷ append_agent repo id groups

abbrev pub group_one : ConductorSession → String → Dict (List String) → Dict (List String)
group_one s id groups = elim (agent_by_id s id) [
  | none ↦ groups
  | some a ↦ append_agent a.repo id groups
]

unfoldable pub group_agents :
    ConductorSession → List String → Dict (List String) → Dict (List String)
group_agents s [] groups = groups
group_agents s (id ∷ order) groups = group_agents s order (group_one s id groups)

abbrev pub specs_of : ConductorSession → List String → List AgentSpec
specs_of s [] = []
specs_of s (id ∷ ids) =
    let rest = specs_of s ids in elim (agent_by_id s id) [ none ↦ rest | some a ↦ a ∷ rest ]

-- A repository with its agents, its root and its files.
pub record Job : Type 0 where
  pub repo : String
  pub agents : List String
  pub root : String
  pub files : List String

abbrev pub has_files : Job → Bool
has_files j = elim j.files [ [] ↦ false | f ∷ fs ↦ true ]

abbrev pub first_of : List String → String
first_of [] = ""
first_of (id ∷ ids) = id

module _ (w : World) (router : RepoRouter) (s : ConductorSession) where
  abbrev pub root_of : String → String
  root_of repo = elim (get repo router.repos) [ none ↦ s.repo_root | some c ↦ c.path ]

  -- `_copy_agents_to_repo`, for each repository.
  abbrev pub jobs_of : Dict (List String) → List Job
  jobs_of [] = []
  jobs_of ((repo, ids) ∷ groups) =
      (record {
        repo = repo;
        agents = ids;
        root = root_of repo;
        files = sorted_set (all_files w (specs_of s ids));
      })
      ∷ jobs_of groups

  abbrev pub copies_of : List Job → List Effect
  copies_of [] = []
  copies_of (j ∷ jobs) = all_copies w j.root (specs_of s j.agents) ++ copies_of jobs

  abbrev pub message_for : Job → String
  message_for j = join "" (
      "feat(conductor): atomic commit session "
      ∷ s.session_id
      ∷ " repo="
      ∷ j.repo
      ∷ " ("
      ∷ w.show (length j.agents)
      ∷ " agents)"
      ∷ [])

  module _ (command : String → String → List String → String → List String)
      (run : List String → Completed) where
    -- The entry of a repository goes where its first agent is routed.
    abbrev pub send : Job → Routed (List String)
    send j = enqueue_commit command run (first_of j.agents) j.files (message_for j) router

    -- Step 3, and the end: `done` has the files of the repositories before.
    unfoldable pub enqueue_jobs : Bool → List Job → List String → State → Result × State
    enqueue_jobs cleanup [] done st = (committed (sorted_set done), emit (tear_down w cleanup) st)
    enqueue_jobs cleanup (j ∷ jobs) done st = elim (has_files j) [
      | false ↦ enqueue_jobs cleanup jobs done st
      | true ↦ elim (send j) [
        | R.raised e ↦ (runtime_error e, st)
        | ok cmd ↦
            enqueue_jobs cleanup jobs (done ++ j.files) (emit (ran cmd ∷ ensure_worker w j.root) st)
      ]
    ]

    abbrev pub enqueue_all : Bool → List Job → Bool × State → Result × State
    enqueue_all cleanup jobs (false, st) = (bad_contract, st)
    enqueue_all cleanup jobs (true, st) = enqueue_jobs cleanup jobs [] st

    abbrev pub commit_jobs : Bool → List Job → State → Result × State
    commit_jobs cleanup jobs st =
        if any has_files jobs
        then enqueue_all cleanup jobs (commit_corpus w s (emit (copies_of jobs) st))
        else (committed [], emit (copies_of jobs) st)

    abbrev pub commit_sorted : Bool → Sorting → State → Result × State
    commit_sorted cleanup (sorted order) st =
        commit_jobs cleanup (jobs_of (group_agents s order [])) st
    commit_sorted cleanup Topological.cycle_present st = (cycle_present, st)
    commit_sorted cleanup Topological.key_error st = (key_error, st)
    commit_sorted cleanup Topological.out_of_fuel st = (out_of_fuel, st)

    unfoldable pub atomic_commit_multi_repo : Bool → State → Result × State
    atomic_commit_multi_repo cleanup st = commit_sorted cleanup (topological_order s.dag) st
