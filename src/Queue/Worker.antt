-- ===== src/Queue/Worker.antt =====
-- queue/commit_queue.py: `process_entry` and the worker's loop.
pub mod Lock
pub mod Cases
use ciwarden.Base.{
  ℕ, zero, suc, ◌+◌, String, Bool, true, false, not, Option, none, some, List, [], ◌∷◌,
  if◌then◌else◌, ◌==◌,
}
use ciwarden.Base.Text.{is_empty, strip, splitlines, join}
use Prim.Native.String.{slice, ◌++◌}
use ciwarden.Queue.{Commit, Queue, claim_next, mark_done, mark_failed, save_queue_token}

-- What a git command did.
pub record Git : Type 0 where
  pub succeeded : Bool
  pub stdout : String
  pub stderr : String

-- The JSON object that the orchestrator answered; null or absent is `none`.
pub record Verdict : Type 0 where
  pub merge_token : Option String
  pub blocked_at : Option String
  pub reason : Option String

-- `http_error` stands for the two exceptions that are caught around the call, `other_error` for any
-- other.
pub data Post : Type 0 where
  answered : Verdict → Post
  http_error other_error : String → Post

-- The world of one entry; `lock_cleared` is the answer of `wait_for_index_lock`, and `digest` the
-- hexadecimal SHA-256 of the token's seed.
pub record World : Type 0 where
  pub lock_cleared : Bool
  pub git_add : List String → Git
  pub git_commit : String → Git
  pub head_sha : Git
  pub head_branch : Git
  pub post : (agent_id branch sha : String) → Post
  pub digest : (sha : String) → (id now : ℕ) → String
  pub now : ℕ

-- An exception leaves what was written before it.
pub data Processed : Type 0 where
  returned : Queue → Processed
  escaped : String → Queue → Processed

-- x or y, on strings
abbrev pub or_else : String → String → String
or_else a b = if is_empty a then b else a

abbrev pub or_text : Option String → String → String
or_text none b = b
or_text (some a) b = or_else a b

abbrev pub first_lines : ℕ → List String → List String
first_lines zero l = []
first_lines (suc n) [] = []
first_lines (suc n) (x ∷ xs) = x ∷ first_lines n xs

unfoldable pub git_error : String → Git → String
git_error what g = what ++ " failed: " ++ or_else (strip g.stderr) (strip g.stdout)

unfoldable pub lock_error : String → String
lock_error repo = "timed out waiting for " ++ repo ++ "/.git/index.lock to clear"

unfoldable pub blocked_error : Verdict → String
blocked_error v =
    "gate blocked at '"
    ++ or_text v.blocked_at "unknown"
    ++ "': "
    ++ join " | " (first_lines 5 (splitlines (or_text v.reason "")))

unfoldable pub generate_queue_token : World → String → ℕ → String
generate_queue_token w sha id = slice (w.digest sha id w.now) 0 24

-- A merge token that is not empty.
abbrev pub granted : Verdict → Option String
granted v = elim v.merge_token [ none ↦ none | some t ↦ if is_empty t then none else some t ]

unfoldable pub head_sha_text : World → String
head_sha_text w = strip w.head_sha.stdout

unfoldable pub branch_text : World → String
branch_text w = or_else (strip w.head_branch.stdout) "unknown"

-- The end of `process_entry`, once a merge token is there.
unfoldable pub settle : World → ℕ → String → String → Queue → Processed
settle w id sha merge_token q =
    let queue_token = generate_queue_token w sha id in
    elim (save_queue_token queue_token id sha w.now q) [
      | none ↦ escaped "UNIQUE constraint failed: queue_tokens.token" q
      | some q' ↦ returned (mark_done id sha merge_token queue_token w.now q')
    ]

-- What follows the call of the orchestrator.
unfoldable pub judge : World → ℕ → String → Post → Queue → Processed
judge w id sha (http_error e) q =
    returned (mark_failed id ("orchestrator call failed: " ++ e) (some sha) w.now q)
judge w id sha (other_error e) q = escaped e q
judge w id sha (answered v) q = elim (granted v) [
  | none ↦ returned (mark_failed id (blocked_error v) (some sha) w.now q)
  | some merge_token ↦ settle w id sha merge_token q
]

abbrev pub post_of : World → Commit → Post
post_of w c = w.post c.agent_id (branch_text w) (head_sha_text w)

unfoldable pub process_entry : World → Commit → Queue → Processed
process_entry w c q =
    if not w.lock_cleared
    then returned (mark_failed c.id (lock_error c.repo) none w.now q)
    else if not (w.git_add c.files).succeeded
    then returned (mark_failed c.id (git_error "git add" (w.git_add c.files)) none w.now q)
    else if not (w.git_commit c.message).succeeded
    then returned (mark_failed c.id (git_error "git commit" (w.git_commit c.message)) none w.now q)
    else judge w c.id (head_sha_text w) (post_of w c) q

-- The handler in the worker's loop for what escapes.
abbrev pub recover : World → ℕ → Processed → Queue
recover w id (returned q) = q
recover w id (escaped e q) = mark_failed id ("worker exception: " ++ e) none w.now q

-- One round of the loop: the table is locked by another worker, or it is asked for an entry.
pub data Tick : Type 0 where
  contended : Tick
  work : ℕ → World → Tick

unfoldable pub process_claimed : World → Option Commit → Queue → Queue
process_claimed w none q = q
process_claimed w (some c) q = recover w c.id (process_entry w c q)

unfoldable pub round : String → Tick → Queue → Queue
round repo contended q = q
round repo (work now w) q = process_claimed w (claim_next repo now q).0 (claim_next repo now q).1

-- The rounds until shutdown is requested.
unfoldable pub worker : String → List Tick → Queue → Queue
worker repo [] q = q
worker repo (t ∷ ts) q = worker repo ts (round repo t q)
