-- ===== src/Memory/Gate.antt =====
-- memory/memory_gate.py: the gate on a `VectorContractStore`, as memory/app.py builds it when
-- CDMAD_STORE is "vdb".
use ciwarden.Base.{
  ℕ, String, Bool, true, false, ◌&&◌, Option, none, some, List, [], ◌∷◌, ◌++◌, if◌then◌else◌, ◌==◌,
  ltb, Dict,
}
use ciwarden.Base.Text.{join}
use ciwarden.Gates.{code, pass, fail, GateResult}
use ciwarden.Memory.{ContractSummary, DriftResult, Session, Checkpoint}
use ciwarden.Memory.Drift.{score_drift}
use ciwarden.Memory.Vdb.{
  Vdb, load_latest_contract, load_previous_contract, list_modules, get_or_create_session,
  advance_session, save_checkpoint, commit_session,
}

-- What the gate is given: the client, which reads the contracts of a module from its code, for a
-- generation and a sequence (none: it raised); a hash; texts of numbers and scores; the threshold, in
-- ten-thousandths; CDMAD_MEMORY_CACHE; the id of the store's session; and the time the run takes.
pub record Setting : Type 0 where
  pub extract : String → String → String → ℕ → Option ContractSummary
  pub error_text : String
  pub source_sha : Dict String → String
  pub first_twelve : String → String
  pub show : ℕ → String
  pub show_score : ℕ → String
  pub pad3 : ℕ → String
  pub pad4 : ℕ → String
  pub threshold : ℕ
  pub threshold_text : String
  pub cache_enabled : Bool
  pub session_id : String
  pub duration_ms : ℕ

-- The variables of the loop over the modules.
pub record Progress : Type 0 where
  pub max_drift : ℕ
  pub summaries : List ContractSummary
  pub drifts : List DriftResult
  pub lines : List String

abbrev pub larger : ℕ → ℕ → ℕ
larger a b = if ltb a b then b else a

abbrev pub result : Setting → Bool → String → GateResult
result g passed output = record {
  gate = "memory";
  status = if passed then pass else fail;
  output = output;
  exit_code = if passed then code 0 else code 1;
  duration_ms = g.duration_ms;
}

abbrev pub first_line : String → String
first_line module_name = join "" ("  " ∷ module_name ∷ ": first generation (drift=0.0) ✓" ∷ [])

abbrev pub drift_lines : Setting → String → DriftResult → List String
drift_lines g module_name drift =
    join "" (
      "  "
      ∷ module_name
      ∷ ": drift="
      ∷ g.show_score drift.score
      ∷ " "
      ∷ (if drift.passed then "✓" else "✗")
      ∷ [])
    ∷ (if drift.detail == "" then [] else join "" ("    " ∷ drift.detail ∷ []) ∷ [])

-- A module that has a baseline, and one that has none.
abbrev pub scored : Setting → String → ContractSummary → ContractSummary → Progress → Progress
scored g module_name baseline summary p =
    let drift = score_drift g.show baseline summary in
    record {
      max_drift = larger p.max_drift drift.score;
      summaries = p.summaries ++ summary ∷ [];
      drifts = p.drifts ++ drift ∷ [];
      lines = p.lines ++ drift_lines g module_name drift;
    }

abbrev pub first_seen : String → ContractSummary → Progress → Progress
first_seen module_name summary p = record {
  max_drift = p.max_drift;
  summaries = p.summaries ++ summary ∷ [];
  drifts =
      p.drifts
      ++ (record {
        score = 0;
        passed = true;
        added = [];
        removed = [];
        modified = [];
        detail = "First generation.";
      })
        ∷ [];
  lines = p.lines ++ first_line module_name ∷ [];
}

abbrev pub visit : Setting → Vdb → String → ContractSummary → Progress → Progress
visit g vdb module_name summary p = elim (load_latest_contract vdb module_name) [
  | none ↦ first_seen module_name summary p
  | some baseline ↦ scored g module_name baseline summary p
]

-- The loop: each module's contracts against the last committed ones.
unfoldable pub visit_all : Setting → Vdb → Session → Dict String → Progress → Option Progress
visit_all g vdb session [] p = some p
visit_all g vdb session ((module_name, source) ∷ files) p =
    elim (g.extract source module_name session.current_generation_id session.current_sequence) [
      | none ↦ none
      | some summary ↦ visit_all g vdb session files (visit g vdb module_name summary p)
    ]

abbrev pub header : Setting → Bool → ℕ → String
header g passed max_drift =
    if passed
    then "PASS"
    else join "" ("BLOCKED — max drift " ∷ g.show_score max_drift ∷ " >= " ∷ g.threshold_text ∷ [])

abbrev pub solo_output : Setting → Session → Bool → Progress → String
solo_output g session passed p = join "" (
    "Memory Gate ["
    ∷ header g passed p.max_drift
    ∷ "] (gen="
    ∷ session.current_generation_id
    ∷ ", seq="
    ∷ g.show session.current_sequence
    ∷ ")\n"
    ∷ join "\n" p.lines
    ∷ [])

abbrev pub checkpoint : Session → Progress → Checkpoint
checkpoint session p = record {
  session_id = session.session_id;
  generation_id = session.current_generation_id;
  sequence = session.current_sequence;
  contracts = p.summaries;
  drift_history = p.drifts;
}

-- After the loop: the checkpoint, the commit of the generation, the verdict and the cache.
abbrev pub conclude : Setting → Dict String → Session → Progress → Vdb → GateResult × Vdb
conclude g files session p vdb =
    let committed =
      commit_session g.session_id p.summaries (save_checkpoint g.pad4 (checkpoint session p) vdb) in
    let passed = ltb p.max_drift g.threshold in
    (
      result g passed (solo_output g session passed p),
      if passed && g.cache_enabled
          then record committed { cached_sha = some (g.source_sha files) }
          else committed,
    )

abbrev pub no_progress : Progress
no_progress = record { max_drift = 0; summaries = []; drifts = []; lines = [] }

-- The session of this generation, and the files with it.
abbrev pub begun : Setting → Vdb → Session × Vdb
begun g vdb =
    let found = get_or_create_session g.session_id vdb in advance_session g.pad3 found.0 found.1

abbrev pub finish : Setting → Dict String → Session × Vdb → Option Progress → GateResult × Vdb
finish g files start progress = elim progress [
  | none ↦ (result g false (join "" ("Memory gate error: " ∷ g.error_text ∷ [])), start.1)
  | some p ↦ conclude g files start.0 p start.1
]

abbrev pub generate : Setting → Dict String → Vdb → GateResult × Vdb
generate g files vdb =
    let start = begun g vdb in finish g files start (visit_all g start.1 start.0 files no_progress)

abbrev pub is_cached : Setting → Dict String → Vdb → Bool
is_cached g files vdb =
    g.cache_enabled && elim vdb.cached_sha [ none ↦ false | some sha ↦ sha == g.source_sha files ]

-- `_execute_solo`, with the errors that `run` catches. `files` is sorted by module.
unfoldable pub execute_solo : Setting → Dict String → Vdb → GateResult × Vdb
execute_solo g [] vdb = (result g true "No source files found — nothing to extract.", vdb)
execute_solo g (f ∷ files) vdb =
    if is_cached g (f ∷ files) vdb
    then (
      result g true (
          join "" (
            "Memory Gate [CACHED] — source unchanged (sha="
            ∷ g.first_twelve (g.source_sha (f ∷ files))
            ∷ ")"
            ∷ [])),
      vdb,
    )
    else generate g (f ∷ files) vdb

-- `_execute_managed`: the last two committed sessions, nothing is written.
abbrev pub compare_module : Setting → Vdb → String → Progress → Progress
compare_module g vdb module_name p = elim (load_latest_contract vdb module_name) [
  | none ↦ p
  | some current ↦ elim (load_previous_contract vdb module_name 2147483648) [
    | none ↦ record p { lines = p.lines ++ first_line module_name ∷ [] }
    | some previous ↦
        let drift = score_drift g.show previous current in
        record p {
          max_drift = larger p.max_drift drift.score;
          lines = p.lines ++ drift_lines g module_name drift;
        }
  ]
]

unfoldable pub compare_all : Setting → Vdb → List String → Progress → Progress
compare_all g vdb [] p = p
compare_all g vdb (m ∷ ms) p = compare_all g vdb ms (compare_module g vdb m p)

abbrev pub managed_output : Setting → Progress → GateResult
managed_output g p =
    let passed = ltb p.max_drift g.threshold in
    result g passed (
      join ""
        ("Memory Gate [MANAGED " ∷ header g passed p.max_drift ∷ "]\n" ∷ join "\n" p.lines ∷ []))

unfoldable pub execute_managed : Setting → Vdb → GateResult
execute_managed g vdb = elim (list_modules vdb) [
  | [] ↦ result g true "Memory Gate [MANAGED] — no committed contracts to compare."
  | m ∷ ms ↦ managed_output g (compare_all g vdb (m ∷ ms) no_progress)
]
