-- ===== src/Orchestrator.antt =====
-- orchestrator/orchestrator.py: the commit handler, its two tables, and the other routes.
-- The gate services, the clock and the digest are arguments: none of them is code of the program.
pub mod Auth
pub mod Phases
pub mod Reads
pub mod Clear
pub mod Commit
pub mod Tokens
use ciwarden.Base.{
  ℕ, suc, ◌-◌, String, Bool, true, false, Option, none, some, List, [], ◌∷◌, ◌++◌, map,
  if◌then◌else◌, ◌==◌, Dict, put, keys, filter, is_some,
}
use Prim.Native.String.{slice, ◌++◌ as str_append}
use ciwarden.Gates.{ExitCode, minus}
use ciwarden.Gates.Registry.{Registry, Config, parallel_gates, sequential_gates}

pub record Payload : Type 0 where
  pub agent_id : String
  pub branch : String
  pub commit_sha : String

-- A gate's JSON answer. A key that the object lacks is `none`.
pub record Reply : Type 0 where
  pub status : Option String
  pub output : Option String
  pub exit_code : Option ExitCode
  pub duration_ms : Option ℕ

-- An answer in which the four keys that the handler reads are there.
pub record Report : Type 0 where
  pub status : String
  pub output : String
  pub exit_code : ExitCode
  pub duration_ms : ℕ

-- A row of `gate_runs`, in the order of insertion.
pub record Run : Type 0 where
  pub commit_sha : String
  pub agent_id : String
  pub branch : String
  pub gate_name : String
  pub report : Report
  pub timestamp : ℕ

-- A row of `merge_tokens`, whose key is `token`.
pub record TokenRow : Type 0 where
  pub token : String
  pub commit_sha : String
  pub issued_at : ℕ
  pub used : Bool

-- The two tables, with the calls made to the gate services and the number of clock readings.
pub record Server : Type 0 where
  pub runs : List Run
  pub tokens : List TokenRow
  pub calls : List String
  pub reads : ℕ

abbrev pub init_db : Server
init_db = record { runs = []; tokens = []; calls = []; reads = 0 }

-- What `client.post` does: an object, or an exception with its text.
pub data Answer : Type 0 where
  json : Reply → Answer
  raised : String → Answer

-- The world of one commit: the service on each port, the clock's readings in milliseconds,
-- `str` of a time, and the hexadecimal SHA-256 of a text.
pub record World : Type 0 where
  pub service : ℕ → Answer
  pub clock : ℕ → ℕ
  pub time_text : ℕ → String
  pub sha256 : String → String

pub record GateChainResult : Type 0 where
  pub agent_id : String
  pub commit_sha : String
  pub branch : String
  pub merge_token : Option String
  pub blocked_at : Option String
  pub reason : Option String
  pub total_duration_ms : ℕ
  pub results : Dict Reply

-- `key_error`: an answer lacks a key. `integrity_error`: the token is in the table already.
pub data Outcome : Type 0 where
  result : GateChainResult → Outcome
  key_error integrity_error : Outcome

-- What is known of the gates so far: all passed, one failed, or an answer lacked a key.
pub data Walk : Type 0 where
  passed : Dict Reply → Server → Walk
  blocked : String → Report → Dict Reply → Server → Walk
  crashed : Server → Walk

unfoldable pub generate_token : World → String → ℕ → String
generate_token w sha now = slice (w.sha256 (str_append sha (w.time_text now))) 0 24

unfoldable pub report_of : Reply → Option Report
report_of reply = elim reply.status [
  | none ↦ none
  | some status ↦ elim reply.output [
    | none ↦ none
    | some output ↦ elim reply.exit_code [
      | none ↦ none
      | some exit_code ↦ elim reply.duration_ms [
        | none ↦ none
        | some duration ↦ some (record {
          status = status;
          output = output;
          exit_code = exit_code;
          duration_ms = duration;
        })
      ]
    ]
  ]
]

unfoldable pub call_gate : World → Config → Reply
call_gate w config = elim (w.service config.port) [
  | json reply ↦ reply
  | raised error ↦ record {
    status = some "fail";
    output = some (str_append "Gate service unreachable: " error);
    exit_code = some (minus 1);
    duration_ms = some 0;
  }
]

abbrev pub saved_run : World → Payload → String → Report → Server → Run
saved_run w p gate_name report s = record {
  commit_sha = p.commit_sha;
  agent_id = p.agent_id;
  branch = p.branch;
  gate_name = gate_name;
  report = report;
  timestamp = w.clock s.reads;
}

abbrev pub save_result : World → Payload → String → Report → Server → Server
save_result w p gate_name report s = record s {
  runs = s.runs ++ saved_run w p gate_name report s ∷ [];
  reads = suc s.reads;
}

abbrev pub find_token : String → List TokenRow → Option TokenRow
find_token t [] = none
find_token t (row ∷ rows) = if t == row.token then some row else find_token t rows

-- `none` is the IntegrityError of a second row with the key.
abbrev pub save_token : World → String → String → Server → Option Server
save_token w token sha s = elim (find_token token s.tokens) [
  | some row ↦ none
  | none ↦ some (record s {
    tokens =
        s.tokens
        ++ record { token = token; commit_sha = sha; issued_at = w.clock s.reads; used = false }
          ∷ [];
    reads = suc s.reads;
  })
]

abbrev pub log_calls : List String → Server → Server
log_calls names s = record s { calls = s.calls ++ names }

-- The body of both loops: keep the answer, record it, and stop at a failure.
unfoldable pub check : World → Payload → String → Reply → Dict Reply → Server → Walk
check w p name reply results s = elim (report_of reply) [
  | none ↦ crashed s
  | some report ↦
      let results' = put name reply results in
      let s' = save_result w p name report s in
      if report.status == "fail" then blocked name report results' s' else passed results' s'
]

-- Phase 1: the answers were gathered before the first is looked at.
unfoldable pub visit_parallel : World → Payload → List (String × Reply) → Dict Reply → Server → Walk
visit_parallel w p [] results s = passed results s
visit_parallel w p ((name, reply) ∷ rest) results s = elim (check w p name reply results s) [
  | passed results' s' ↦ visit_parallel w p rest results' s'
  | blocked n r results' s' ↦ blocked n r results' s'
  | crashed s' ↦ crashed s'
]

-- Phase 2: a gate is called when all before it have passed.
unfoldable pub visit_sequential :
    World → Payload → List (String × Config) → Dict Reply → Server → Walk
visit_sequential w p [] results s = passed results s
visit_sequential w p ((name, config) ∷ rest) results s =
    elim (check w p name (call_gate w config) results (log_calls (name ∷ []) s)) [
      | passed results' s' ↦ visit_sequential w p rest results' s'
      | blocked n r results' s' ↦ blocked n r results' s'
      | crashed s' ↦ crashed s'
    ]

abbrev pub names {ℓ} : {A : Type ℓ} → List (String × A) → List String
names = keys

abbrev pub answers : World → List (String × Config) → List (String × Reply)
answers w gates = map (λ e. (e.0, call_gate w e.1)) gates

-- What follows phase 1.
unfoldable pub resume : World → Payload → Registry → Walk → Walk
resume w p registry (passed results s) = visit_sequential w p (sequential_gates registry) results s
resume w p registry (blocked n r results s) = blocked n r results s
resume w p registry (crashed s) = crashed s

-- Both phases.
unfoldable pub run_gates : World → Payload → Registry → Server → Walk
run_gates w p registry s = resume w p registry (
    visit_parallel w p (answers w (parallel_gates registry)) []
      (log_calls (names (parallel_gates registry)) s))

abbrev pub chain_result :
    Payload → Option String → Option String → Option String → ℕ → Dict Reply → GateChainResult
chain_result p token blocked_at reason total results = record {
  agent_id = p.agent_id;
  commit_sha = p.commit_sha;
  branch = p.branch;
  merge_token = token;
  blocked_at = blocked_at;
  reason = reason;
  total_duration_ms = total;
  results = results;
}

-- The end of the handler; `start` is the first reading of the clock.
unfoldable pub finish : World → Payload → ℕ → Walk → Outcome × Server
finish w p start (crashed s) = (key_error, s)
finish w p start (blocked name report results s) = (
  result (chain_result p none (some name) (some report.output) (w.clock s.reads - start) results),
  record s { reads = suc s.reads },
)
finish w p start (passed results s) =
    let token = generate_token w p.commit_sha (w.clock s.reads) in
    elim (save_token w token p.commit_sha (record s { reads = suc s.reads })) [
      | none ↦ (integrity_error, record s { reads = suc s.reads })
      | some s' ↦ (
        result (chain_result p (some token) none none (w.clock s'.reads - start) results),
        record s' { reads = suc s'.reads },
      )
    ]

unfoldable pub handle_commit : World → Payload → Registry → Server → Outcome × Server
handle_commit w p registry s =
    finish w p (w.clock s.reads) (run_gates w p registry (record s { reads = suc s.reads }))

-- GET /verify/{token}
pub data Verification : Type 0 where
  valid : String → ℕ → Verification
  not_found already_used : Verification

unfoldable pub verify_token : String → Server → Verification
verify_token t s = elim (find_token t s.tokens) [
  | none ↦ not_found
  | some row ↦ if row.used then already_used else valid row.commit_sha row.issued_at
]

-- GET /results/{sha}; `none` is the 404.
pub get_results : String → Server → Option (List Run)
get_results sha s = elim (filter (λ (r : Run). r.commit_sha == sha) s.runs) [
  | [] ↦ none
  | r ∷ rs ↦ some (r ∷ rs)
]
