-- ===== src/Examples/Memories.antt =====
-- Contracts of one module, of memory/drift_scorer.py and memory/memory_gate.py.
use ciwarden.Base.{
  none, Option, sym, ap, ℕ, ◌≤◌, String, ◌≡◌, refl, true, false, some, List, [], ◌∷◌, Dict, arith,
}
use ciwarden.Gates.{pass}
use ciwarden.Memory.{ContractEntry, ContractSummary, function}
use ciwarden.Memory.Drift.{score_drift, raw_score, cap}
use ciwarden.Memory.Bounds.{score_drift-Bounded, score_drift-contracts_pass}
use ciwarden.Memory.Same.{regenerated}
use ciwarden.Memory.Vdb.{Vdb, Payload}
use ciwarden.Memory.Gate.{Setting, execute_solo, no_progress}
use ciwarden.Memory.Retry.{execute_solo-retry}
use ciwarden.Memory.Files.{load_latest_contract, get_or_create_session, advance_session}
use ciwarden.Memory.Files.Writes.{save_all}
use ciwarden.Memory.Files.Recent.{new_store}
use ciwarden.Memory.FileGate as F
use ciwarden.Memory.FileGate.{Disk, begun, verdict}
use ciwarden.Memory.FileGate.Baseline.{IsStamped, score_all, execute_solo-Latest}
use ciwarden.Memory.Managed.{single}

abbrev entry : String → List String → ContractEntry
entry name fields = record {
  type = function;
  name = name;
  fields = fields;
  consumed_by = [];
  methods = [];
}

abbrev summary : List ContractEntry → List String → ContractSummary
summary contracts assumptions = record {
  module_name = "queue";
  generation_id = "gen_1";
  sequence = 1;
  contracts = contracts;
  assumptions = assumptions;
  dependencies = "sqlite3" ∷ [];
  exposes = [];
}

-- Two functions, and nothing left of them.
abbrev full : ContractSummary
full = summary (entry "enqueue" ("files" ∷ []) ∷ entry "claim" [] ∷ []) ("one worker" ∷ [])

abbrev emptied : ContractSummary
emptied = summary [] ("one worker" ∷ [])

abbrev other : ContractSummary
other = summary (entry "other" [] ∷ []) ("many workers" ∷ [])

abbrev show : ℕ → String
show n = "n"

score_drift-Bounded_example :
    ((score_drift show full other).score ≤ 5500)
    × (cap (raw_score full other) ≡ raw_score full other)
score_drift-Bounded_example = score_drift-Bounded show full other

score_drift-contracts_pass_example :
    ((score_drift show full emptied).score ≤ 4500) × ((score_drift show full emptied).passed ≡ true)
score_drift-contracts_pass_example = score_drift-contracts_pass show full emptied refl

-- The client reads one contract from any code.
abbrev contents : String → String → ContractSummary
contents source m = record full { module_name = m }

abbrev setting : String → Setting
setting id = record {
  extract = λ source m generation sequence.
      some (regenerated (contents source m) generation sequence (contents source m).exposes);
  error_text = "";
  source_sha = λ files. "sha";
  first_twelve = λ s. s;
  show = show;
  show_score = show;
  pad3 = show;
  pad4 = show;
  threshold = 5000;
  threshold_text = "0.5";
  cache_enabled = false;
  session_id = id;
  duration_ms = 1;
}

abbrev files : Dict String
files = ("memory", "def f(): pass") ∷ ("queue", "def g(): pass") ∷ []

-- A store whose latest session has other contracts.
abbrev vdb : Vdb
vdb = single none "s0" (record {
  session_id = "s0";
  sequence = 1;
  generation_id = "gen_1";
  modules = ("queue", other) ∷ [];
})

execute_solo-retry_example :
    (execute_solo (setting "s2") files (execute_solo (setting "s1") files vdb).1).0.status ≡ pass
execute_solo-retry_example =
    execute_solo-retry contents (λ source m. refl) (setting "s1") (setting "s2")
      (λ source m g n. refl) (λ source m g n. refl) files vdb (refl, (refl, tt)) refl refl
      (omega arith)

abbrev payload : Payload
payload = record {
  session_id = "s1";
  sequence = 1;
  generation_id = "gen_1";
  modules = ("queue", full) ∷ [];
}

-- A run on the files of two earlier generations.
abbrev saved_before : List ContractSummary
saved_before = full ∷ (record other { sequence = 2 }) ∷ []

abbrev disk : Disk
disk = record {
  store = record (save_all saved_before new_store) {
    session =
        some (record { session_id = "s1"; current_generation_id = "gen"; current_sequence = 2 });
  };
  cached_sha = none;
}

setting-IsStamped : IsStamped (setting "s1")
setting-IsStamped source m generation n s e =
    ap (λ (o : Option ContractSummary). elim o [ none ↦ n | some t ↦ t.sequence ]) (sym e)

begun_third : (begun (setting "s1") disk.store).0.current_sequence ≡ 3
unfolding get_or_create_session advance_session
begun_third = refl

execute_solo-Latest_example :
    (F.execute_solo (setting "s1") (("queue", "class Queue") ∷ []) disk).0
    ≡ verdict (setting "s1") (begun (setting "s1") disk.store).0 (
        score_all
          (setting "s1")
          (λ m. load_latest_contract m disk.store)
          (begun (setting "s1") disk.store).0
          (("queue", "class Queue") ∷ [])
          no_progress)
execute_solo-Latest_example =
    execute_solo-Latest (setting "s1") saved_before ("queue", "class Queue") [] disk
      setting-IsStamped refl (omega (arith, begun_third))
      (omega (arith, begun_third), (omega (arith, begun_third), tt)) refl
