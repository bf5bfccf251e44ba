-- ===== src/Memory/Vdb.antt =====
-- memory/contract_store.py: `VectorContractStore`, its files as fields of a record.
use ciwarden.Base.{
  ℕ, ◌+◌, String, Bool, ◌&&◌, not, Option, none, some, List, [], ◌∷◌, if◌then◌else◌, ◌==◌, leb,
  Dict, get, put, keys,
}
use ciwarden.Base.Sort.{sort, str_le}
use ciwarden.Base.Text.{is_empty, join}
use ciwarden.Memory.{ContractSummary, Session, Checkpoint}

-- session_{id}.json
pub record Payload : Type 0 where
  pub session_id : String
  pub sequence : ℕ
  pub generation_id : String
  pub modules : Dict ContractSummary

-- The directory of a repository. `sessions` has the session files in the order in which the
-- directory lists them; `live` and `checkpoints` are by the file's stem.
pub record Vdb : Type 0 where
  pub sessions : Dict Payload
  pub latest_session : Option String
  pub previous_session : Option String
  pub session_state : Option Session
  pub live : Dict ContractSummary
  pub checkpoints : Dict Checkpoint
  pub cached_sha : Option String

abbrev pub no_modules : Dict ContractSummary
no_modules = []

-- `_read_session_modules`
abbrev pub read_session_modules : Vdb → Option String → Dict ContractSummary
read_session_modules vdb none = no_modules
read_session_modules vdb (some id) =
    if is_empty id
    then no_modules
    else elim (get id vdb.sessions) [ none ↦ no_modules | some payload ↦ payload.modules ]

-- `_scan_for_module`: the candidates in the order of the files, sorted by sequence, the last one.
abbrev pub candidates : String → Option ℕ → Dict Payload → List (ℕ × ContractSummary)
candidates module_name before [] = []
candidates module_name before ((id, payload) ∷ sessions) =
    let rest = candidates module_name before sessions in
    elim (get module_name payload.modules) [
      | none ↦ rest
      | some summary ↦ elim before [
        | none ↦ (payload.sequence, summary) ∷ rest
        | some bound ↦
            if leb bound payload.sequence then rest else (payload.sequence, summary) ∷ rest
      ]
    ]

abbrev pub last_of : List (ℕ × ContractSummary) → Option ContractSummary
last_of [] = none
last_of ((n, s) ∷ rest) = elim (last_of rest) [ none ↦ some s | some t ↦ some t ]

abbrev pub by_sequence : ℕ × ContractSummary → ℕ × ContractSummary → Bool
by_sequence a b = leb a.0 b.0

unfoldable pub scan_for_module : Vdb → String → Option ℕ → Option ContractSummary
scan_for_module vdb module_name before =
    last_of (sort by_sequence (candidates module_name before vdb.sessions))

unfoldable pub load_latest_contract : Vdb → String → Option ContractSummary
load_latest_contract vdb module_name =
    elim (get module_name (read_session_modules vdb vdb.latest_session)) [
      | none ↦ scan_for_module vdb module_name none
      | some summary ↦ some summary
    ]

unfoldable pub load_previous_contract : Vdb → String → ℕ → Option ContractSummary
load_previous_contract vdb module_name before_sequence =
    elim (get module_name (read_session_modules vdb vdb.previous_session)) [
      | none ↦ scan_for_module vdb module_name (some before_sequence)
      | some summary ↦ some summary
    ]

unfoldable pub list_modules : Vdb → List String
list_modules vdb = sort str_le (keys (read_session_modules vdb vdb.latest_session))

abbrev pub live_file : String → String → String
live_file agent_id module_name = join "" (agent_id ∷ "__" ∷ module_name ∷ [])

unfoldable pub save_contract : String → ContractSummary → Vdb → Vdb
save_contract agent_id summary vdb = record vdb {
  live = put (live_file agent_id summary.module_name) summary vdb.live;
}

-- `self.session_id` of the store is an argument.
unfoldable pub get_or_create_session : String → Vdb → Session × Vdb
get_or_create_session session_id vdb = elim vdb.session_state [
  | some session ↦ (session, vdb)
  | none ↦
      let session : Session = record {
        session_id = session_id;
        current_generation_id = join "" ("gen_" ∷ session_id ∷ "_001" ∷ []);
        current_sequence = 0;
      } in
      (session, record vdb { session_state = some session })
]

-- `pad3` is the number with three digits at least.
unfoldable pub advance_session : (ℕ → String) → Session → Vdb → Session × Vdb
advance_session pad3 session vdb =
    let seq = session.current_sequence + 1 in
    let next : Session = record session {
      current_sequence = seq;
      current_generation_id = join "" ("gen_" ∷ session.session_id ∷ "_" ∷ pad3 seq ∷ []);
    } in
    (next, record vdb { session_state = some next })

abbrev pub collect_modules : Dict ContractSummary → List ContractSummary → Dict ContractSummary
collect_modules modules [] = modules
collect_modules modules (s ∷ summaries) = collect_modules (put s.module_name s modules) summaries

-- `if old_latest and old_latest != self.session_id`
abbrev pub rotated : String → Option String → Option String → Option String
rotated session_id none previous = previous
rotated session_id (some old) previous =
    if not (is_empty old) && not (old == session_id) then some old else previous

unfoldable pub commit_session : String → List ContractSummary → Vdb → Vdb
commit_session session_id contracts vdb =
    let (session, vdb') = get_or_create_session session_id vdb in
    record vdb' {
      sessions =
          put session_id
            (record {
              session_id = session_id;
              sequence = session.current_sequence;
              generation_id = session.current_generation_id;
              modules = collect_modules [] contracts;
            })
            vdb'.sessions;
      latest_session = some session_id;
      previous_session = rotated session_id vdb'.latest_session vdb'.previous_session;
      live = [];
    }

-- `pad4` is the number with four digits at least.
unfoldable pub save_checkpoint : (ℕ → String) → Checkpoint → Vdb → Vdb
save_checkpoint pad4 c vdb = record vdb {
  checkpoints =
      put (join "" ("checkpoint_" ∷ c.session_id ∷ "_" ∷ pad4 c.sequence ∷ [])) c vdb.checkpoints;
}
