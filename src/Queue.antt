-- ===== src/Queue.antt =====
-- queue/commit_queue.py: the table of commits, enqueueing, claiming, processing and the worker.
-- git, the orchestrator, the file system, the clock and SHA-256 are arguments.
pub mod Worker
pub mod Rows
pub mod Fifo
pub mod Entries
pub mod Idle
pub mod Enqueue
pub mod Outcome
use ciwarden.Base.{
  ℕ, zero, suc, ◌+◌, String, Bool, true, false, ◌&&◌, ◌||◌, not, Option, none, some, List, [], ◌∷◌,
  ◌++◌, map, if◌then◌else◌, ◌==◌, eqb, ltb, filter, length,
}
use ciwarden.Base.Text.{is_blank, has_code}

pub data Status : Type 0 where
  pending processing done failed : Status

abbrev pub is_pending : Status → Bool
is_pending pending = true
is_pending processing = false
is_pending done = false
is_pending failed = false

-- A row of `commits`.
pub record Commit : Type 0 where
  pub id : ℕ
  pub repo : String
  pub agent_id : String
  pub files : List String
  pub message : String
  pub status : Status
  pub enqueued_at : ℕ
  pub started_at : Option ℕ
  pub finished_at : Option ℕ
  pub commit_sha : Option String
  pub merge_token : Option String
  pub queue_token : Option String
  pub error : Option String

-- A row of `queue_tokens`.
pub record TokenRow : Type 0 where
  pub token : String
  pub commit_entry_id : ℕ
  pub commit_sha : String
  pub issued_at : ℕ

-- The two tables. `next_id` is the sequence of AUTOINCREMENT, which is never reused.
pub record Queue : Type 0 where
  pub commits : List Commit
  pub next_id : ℕ
  pub tokens : List TokenRow

abbrev pub init_db : Queue
init_db = record { commits = []; next_id = 1; tokens = [] }

-- What `enqueue` raises.
pub data EnqueueError : Type 0 where
  not_a_repository no_files blank_token comma_token empty_message : EnqueueError

pub data Enqueued : Type 0 where
  entry : ℕ → Enqueued
  raised : EnqueueError → Enqueued

-- `none` where no token is refused.
unfoldable pub validate_file_tokens : List String → Option EnqueueError
validate_file_tokens [] = none
validate_file_tokens (token ∷ files) =
    if is_blank token
    then some blank_token
    else if has_code b',' token
    then some comma_token
    else validate_file_tokens files

abbrev pub new_commit : ℕ → String → List String → String → String → ℕ → Commit
new_commit id repo files message agent_id now = record {
  id = id;
  repo = repo;
  agent_id = agent_id;
  files = files;
  message = message;
  status = pending;
  enqueued_at = now;
  started_at = none;
  finished_at = none;
  commit_sha = none;
  merge_token = none;
  queue_token = none;
  error = none;
}

-- What the file system says: the canonical path, and whether a path has a `.git`.
pub record Paths : Type 0 where
  pub normalize_repo : String → String
  pub has_git : String → Bool

unfoldable pub enqueue :
    Paths → String → List String → String → String → ℕ → Queue → Enqueued × Queue
enqueue paths repo files message agent_id now q =
    let repo_path = paths.normalize_repo repo in
    if not (paths.has_git repo_path) then (raised not_a_repository, q) else elim files [
      | [] ↦ (raised no_files, q)
      | f ∷ fs ↦ elim (validate_file_tokens (f ∷ fs)) [
        | some e ↦ (raised e, q)
        | none ↦ if is_blank message then (raised empty_message, q) else (
          entry q.next_id,
          record q {
            commits =
                q.commits ++ new_commit q.next_id repo_path (f ∷ fs) message agent_id now ∷ [];
            next_id = suc q.next_id;
          },
        )
      ]
    ]

-- WHERE repo = ? AND status = 'pending'
abbrev pub is_waiting : String → Commit → Bool
is_waiting repo c = c.repo == repo && is_pending c.status

abbrev older : Commit → Option Commit → Commit
older c none = c
older c (some best) = if ltb best.id c.id then best else c

-- ORDER BY id ASC LIMIT 1
unfoldable pub oldest : String → List Commit → Option Commit
oldest repo [] = none
oldest repo (c ∷ cs) =
    let rest = oldest repo cs in if is_waiting repo c then some (older c rest) else rest

-- UPDATE commits SET … WHERE id = ?
abbrev pub update_one : ℕ → (Commit → Commit) → Commit → Commit
update_one id change c = if eqb c.id id then change c else c

abbrev pub update : ℕ → (Commit → Commit) → List Commit → List Commit
update id change [] = []
update id change (c ∷ cs) = update_one id change c ∷ update id change cs

abbrev pub set_processing : ℕ → Commit → Commit
set_processing now c = record c { status = processing; started_at = some now }

abbrev pub set_done : String → String → String → ℕ → Commit → Commit
set_done sha merge_token queue_token now c = record c {
  status = done;
  commit_sha = some sha;
  merge_token = some merge_token;
  queue_token = some queue_token;
  finished_at = some now;
}

abbrev pub set_failed : String → Option String → ℕ → Commit → Commit
set_failed error sha now c = record c {
  status = failed;
  error = some error;
  commit_sha = sha;
  finished_at = some now;
}

-- One transaction: the row as it was read, and the table with it in processing.
unfoldable pub claim_next : String → ℕ → Queue → Option Commit × Queue
claim_next repo now q = elim (oldest repo q.commits) [
  | none ↦ (none, q)
  | some c ↦ (some c, record q { commits = update c.id (set_processing now) q.commits })
]

abbrev pub mark_done : ℕ → String → String → String → ℕ → Queue → Queue
mark_done id sha merge_token queue_token now q = record q {
  commits = update id (set_done sha merge_token queue_token now) q.commits;
}

abbrev pub mark_failed : ℕ → String → Option String → ℕ → Queue → Queue
mark_failed id error sha now q = record q {
  commits = update id (set_failed error sha now) q.commits;
}

abbrev pub has_token : String → List TokenRow → Bool
has_token t [] = false
has_token t (row ∷ rows) = t == row.token || has_token t rows

-- `none` is the IntegrityError of a token that is stored already.
abbrev pub save_queue_token : String → ℕ → String → ℕ → Queue → Option Queue
save_queue_token token id sha now q =
    if has_token token q.tokens
    then none
    else some (record q {
      tokens =
          q.tokens
          ++ record { token = token; commit_entry_id = id; commit_sha = sha; issued_at = now } ∷ [];
    })

-- SELECT status, COUNT(*) … GROUP BY status, for one status.
abbrev pub has_status : Status → Status → Bool
has_status pending pending = true
has_status processing processing = true
has_status done done = true
has_status failed failed = true
has_status _ _ = false

abbrev pub count : String → Status → List Commit → ℕ
count repo s cs = length (filter (λ (c : Commit). c.repo == repo && has_status s c.status) cs)

pub record Counts : Type 0 where
  pub pending : ℕ
  pub processing : ℕ
  pub done : ℕ
  pub failed : ℕ

unfoldable pub status_counts : String → List Commit → Counts
status_counts repo cs = record {
  pending = count repo Status.pending cs;
  processing = count repo Status.processing cs;
  done = count repo Status.done cs;
  failed = count repo Status.failed cs;
}
