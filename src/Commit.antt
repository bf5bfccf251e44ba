-- ===== src/Commit.antt =====
-- conductor/commit.py: the commit of a session to one repository, over the vector store and the
-- commit queue. The staging directories, the schema files in them, git, the process table and the
-- clock are arguments.
use ciwarden.Base.{
  ℕ, zero, suc, String, Bool, true, false, ◌&&◌, not, Option, none, some, List, [], ◌∷◌, ◌++◌, map,
  if◌then◌else◌, ◌==◌, elem, length, Dict, get, put,
}
use ciwarden.Base.Sort.{sort, str_le}
use ciwarden.Base.Text.{join, is_empty}
use ciwarden.Session.{AgentSpec, ConductorSession}
use ciwarden.SchemaCapture.{SchemaFile, Extraction, absent, raised, summary, from_schema}
use ciwarden.Memory.{ContractSummary, Session}
use ciwarden.Memory.Vdb.{Vdb, get_or_create_session, advance_session, commit_session}
use ciwarden.Queue.{Queue, Paths, Enqueued, entry, EnqueueError, enqueue}
use ciwarden.Queue as Q
pub mod Outcome
pub mod ColdStart
pub mod Multi
pub mod Grouping
pub mod Sequence

-- A member of `sorted(adir.rglob("*"))`: the parts of its path below the directory.
pub record StagedPath : Type 0 where
  pub is_file : Bool
  pub parts : List String

abbrev pub control_files : List String
control_files = ".done" ∷ ".conflict_report.txt" ∷ "PROMPT.md" ∷ []

abbrev pub name_of : List String → String
name_of [] = ""
name_of (p ∷ []) = p
name_of (p ∷ q ∷ parts) = name_of (q ∷ parts)

abbrev pub in_cdmad : List String → Bool
in_cdmad [] = false
in_cdmad (p ∷ parts) = p == ".cdmad"

abbrev pub is_deliverable : StagedPath → Bool
is_deliverable p =
    p.is_file && (not (elem (name_of p.parts) control_files) && not (in_cdmad p.parts))

-- conductor/distributor.py: `collect_files`
abbrev pub collect_files : List StagedPath → List String
collect_files [] = []
collect_files (p ∷ paths) =
    let rest = collect_files paths in if is_deliverable p then join "/" p.parts ∷ rest else rest

-- list(set(xs)), up to the order
abbrev pub distinct : List String → List String
distinct [] = []
distinct (x ∷ xs) = let rest = distinct xs in if elem x rest then rest else x ∷ rest

abbrev pub sorted_set : List String → List String
sorted_set xs = sort str_le (distinct xs)

pub record World : Type 0 where
  pub staging : String → List StagedPath
  pub schema_file : String → SchemaFile
  pub paths : Paths
  pub resolve : String → String
  pub worker_running : String → Bool
  pub staging_exists : Bool
  pub now : ℕ
  pub pad3 : ℕ → String
  pub show : ℕ → String

-- What a commit does to the world, in order.
pub data Effect : Type 0 where
  copied : (agent_id rel root : String) → Effect
  vdb_committed : Effect
  queued : ℕ → Effect
  ran : List String → Effect
  worker_started : String → Effect
  staging_removed : Effect

-- The store and the queue, and the effects, the first one first.
pub record State : Type 0 where
  pub vdb : Vdb
  pub queue : Queue
  pub trace : List Effect

-- The list of files, or what is raised: by the queue, by an unknown type of contract, by the
-- router, or by the topological order.
pub data Result : Type 0 where
  committed : List String → Result
  queue_error : EnqueueError → Result
  bad_contract : Result
  runtime_error : String → Result
  cycle_present key_error out_of_fuel : Result

abbrev pub emit : List Effect → State → State
emit effects st = record st { trace = st.trace ++ effects }

module _ (w : World) where
  abbrev pub files_of : AgentSpec → List String
  files_of a = collect_files (w.staging a.agent_id)

  abbrev pub copies_to : String → AgentSpec → List Effect
  copies_to root a = map (λ rel. copied a.agent_id rel root) (files_of a)

  abbrev pub all_files : List AgentSpec → List String
  all_files [] = []
  all_files (a ∷ agents) = files_of a ++ all_files agents

  abbrev pub all_copies : String → List AgentSpec → List Effect
  all_copies root [] = []
  all_copies root (a ∷ agents) = copies_to root a ++ all_copies root agents

  unfoldable pub copy_staged_to_worktree : ConductorSession → State → List String × State
  copy_staged_to_worktree s st =
      (sorted_set (all_files s.agents), emit (all_copies s.repo_root s.agents) st)

  -- none: the ValueError.
  abbrev pub summaries_of : String → List AgentSpec → Option (List ContractSummary)
  summaries_of session_id [] = some []
  summaries_of session_id (a ∷ agents) =
      let rest = summaries_of session_id agents in
      elim (from_schema (w.schema_file a.agent_id) a.module_key (join "" ("gen_" ∷ session_id ∷ []))
        1) [
          | raised ↦ none
          | absent ↦ rest
          | summary x ↦ elim rest [ none ↦ none | some xs ↦ some (x ∷ xs) ]
        ]

  unfoldable pub assemble_summaries : ConductorSession → Option (List ContractSummary)
  assemble_summaries s = summaries_of s.session_id s.agents

  -- The store with the session advanced, which `commit_session` is called on.
  abbrev pub advanced : String → Vdb → Vdb
  advanced session_id vdb =
      let (session, vdb') = get_or_create_session session_id vdb in
      (advance_session w.pad3 session vdb').1

  -- Step 2: whether the corpus is committed.
  unfoldable pub commit_corpus : ConductorSession → State → Bool × State
  commit_corpus s st =
      let vdb = advanced s.session_id st.vdb in
      elim (assemble_summaries s) [
        | none ↦ (false, record st { vdb = vdb })
        | some summaries ↦ (
          true,
          emit (vdb_committed ∷ []) (record st { vdb = commit_session s.session_id summaries vdb }),
        )
      ]

  abbrev pub ensure_worker : String → List Effect
  ensure_worker root =
      let repo = w.resolve root in if w.worker_running repo then [] else worker_started repo ∷ []

  abbrev pub tear_down : Bool → List Effect
  tear_down cleanup = if cleanup && w.staging_exists then staging_removed ∷ [] else []

  abbrev pub message_of : ConductorSession → String
  message_of s = join "" (
      "feat(conductor): atomic commit session "
      ∷ s.session_id
      ∷ " ("
      ∷ w.show (length s.agents)
      ∷ " agents)"
      ∷ [])

  -- Steps 3 and 4.
  abbrev pub hand_over :
      Bool → ConductorSession → List String → State → Enqueued × Queue → Result × State
  hand_over cleanup s files st (Q.raised e, q) = (queue_error e, record st { queue = q })
  hand_over cleanup s files st (entry id, q) = (
    committed files,
    emit (queued id ∷ ensure_worker s.repo_root ++ tear_down cleanup) (record st { queue = q }),
  )

  abbrev pub enqueue_files : ConductorSession → List String → Queue → Enqueued × Queue
  enqueue_files s files q = enqueue w.paths s.repo_root files (message_of s) "conductor" w.now q

  abbrev pub after_corpus : Bool → ConductorSession → List String → Bool × State → Result × State
  after_corpus cleanup s files (false, st) = (bad_contract, st)
  after_corpus cleanup s files (true, st) =
      hand_over cleanup s files st (enqueue_files s files st.queue)

  abbrev pub commit_files : Bool → ConductorSession → List String → State → Result × State
  commit_files cleanup s [] st = (committed [], st)
  commit_files cleanup s (f ∷ fs) st = after_corpus cleanup s (f ∷ fs) (commit_corpus s st)

  unfoldable pub atomic_commit : Bool → ConductorSession → State → Result × State
  atomic_commit cleanup s st =
      let (files, st') = copy_staged_to_worktree s st in commit_files cleanup s files st'

-- conductor/vdb_io.py: `prime_vdb_from_codebase`, with the summaries of the code.
abbrev pub is_primed : Vdb → Bool
is_primed vdb = elim vdb.latest_session [ none ↦ false | some id ↦ not (is_empty id) ]

unfoldable pub prime_vdb_from_codebase : ConductorSession → List ContractSummary → Vdb → Vdb
prime_vdb_from_codebase s summaries vdb =
    if is_primed vdb then vdb else commit_session s.session_id summaries vdb
