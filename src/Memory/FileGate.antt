-- ===== src/Memory/FileGate.antt =====
-- memory/memory_gate.py: the solo run of the gate on the file-based `ContractStore`, which is written
-- to in the loop.
use ciwarden.Base.{
  ℕ, String, Bool, false, true, ◌&&◌, Option, none, some, List, [], ◌∷◌, if◌then◌else◌, ◌==◌, ltb,
  Dict,
}
use ciwarden.Base.Text.{join}
use ciwarden.Gates.{GateResult}
use ciwarden.Memory.{ContractSummary, Session}
use ciwarden.Memory.Files.{
  FileStore, save_contract, load_previous_contract, save_checkpoint, get_or_create_session,
  advance_session,
}
use ciwarden.Memory.Gate.{
  Setting, Progress, no_progress, result, first_seen, scored, solo_output, checkpoint,
}
pub mod Baseline

-- The files under the root of the store, the cache of the gate with them.
pub record Disk : Type 0 where
  pub store : FileStore
  pub cached_sha : Option String

-- A module against its baseline, if it has one.
abbrev pub compared :
    Setting → String → Option ContractSummary → ContractSummary → Progress → Progress
compared g module_name none summary p = first_seen module_name summary p
compared g module_name (some baseline) summary p = scored g module_name baseline summary p

-- The loop: the contracts of a module are saved, then its previous ones are loaded. What was saved
-- stays when the client raises.
unfoldable pub visit_files :
    Setting → Session → Dict String → Progress → FileStore → Option Progress × FileStore
visit_files g session [] p store = (some p, store)
visit_files g session ((module_name, source) ∷ files) p store =
    elim (g.extract source module_name session.current_generation_id session.current_sequence) [
      | none ↦ (none, store)
      | some summary ↦
          let saved = save_contract summary store in
          let baseline = load_previous_contract module_name session.current_sequence saved in
          visit_files g session files (compared g module_name baseline summary p) saved
    ]

abbrev pub verdict : Setting → Session → Option Progress → GateResult
verdict g session none = result g false (join "" ("Memory gate error: " ∷ g.error_text ∷ []))
verdict g session (some p) =
    let passed = ltb p.max_drift g.threshold in result g passed (solo_output g session passed p)

-- After the loop: the checkpoint and the cache.
abbrev pub left_behind :
    Setting → Dict String → Session → Option Progress → FileStore → Option String → Disk
left_behind g files session none store sha = record { store = store; cached_sha = sha }
left_behind g files session (some p) store sha = record {
  store = save_checkpoint (checkpoint session p) store;
  cached_sha =
      if ltb p.max_drift g.threshold && g.cache_enabled then some (g.source_sha files) else sha;
}

-- `session_id` of the setting is the identifier that uuid gives.
abbrev pub begun : Setting → FileStore → Session × FileStore
begun g store =
    let found = get_or_create_session g.session_id store in advance_session g.pad3 found.0 found.1

abbrev pub is_cached : Setting → Dict String → Disk → Bool
is_cached g files disk =
    g.cache_enabled && elim disk.cached_sha [ none ↦ false | some sha ↦ sha == g.source_sha files ]

-- `_execute_solo`, with the errors that `run` catches. `files` is sorted by module.
unfoldable pub execute_solo : Setting → Dict String → Disk → GateResult × Disk
execute_solo g [] disk = (result g true "No source files found — nothing to extract.", disk)
execute_solo g (f ∷ files) disk =
    let start = begun g disk.store in
    let loop = visit_files g start.0 (f ∷ files) no_progress start.1 in
    if is_cached g (f ∷ files) disk
    then (
      result g true (
          join "" (
            "Memory Gate [CACHED] — source unchanged (sha="
            ∷ g.first_twelve (g.source_sha (f ∷ files))
            ∷ ")"
            ∷ [])),
      disk,
    )
    else (verdict g start.0 loop.0, left_behind g (f ∷ files) start.0 loop.0 loop.1 disk.cached_sha)
