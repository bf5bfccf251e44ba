-- ===== src/Examples/Migrations.antt =====
-- Runs of scripts/migrate_contracts.py.
use ciwarden.Base.{ℕ, String, ◌≡◌, refl, false, none, some, List, [], ◌∷◌, All, keys}
use ciwarden.Memory.{ContractSummary}
use ciwarden.Memory.Files.{
  list_modules, list_contracts, save_contract, sorted, contract_filename, pad4, digits,
}
use ciwarden.Memory.Files.Writes.{save_all}
use ciwarden.Memory.Files.Recent.{new_store}
use ciwarden.Memory.Vdb.{Vdb}
use ciwarden.Migration.{Root, Receipt, run_migration, session_of, plan_migration, ordered_sessions}
use ciwarden.Migration.Again.{after_two, run_migration_twice}
use ciwarden.Migration.Keeps.{IsMigrated, run_migration-Keeps}

abbrev summary : String → String → ℕ → ContractSummary
summary name generation_id sequence = record {
  module_name = name;
  generation_id = generation_id;
  sequence = sequence;
  contracts = [];
  assumptions = [];
  dependencies = [];
  exposes = [];
}

abbrev saves : List ContractSummary
saves =
    summary "core" "gen_s1_001" 1 ∷ summary "ui" "gen_s1_002" 2 ∷ summary "core" "gen_s2_003" 3 ∷ []

abbrev keys_of : List (ℕ × Receipt) → List ℕ
keys_of [] = []
keys_of ((time, receipt) ∷ receipts) = time ∷ keys_of receipts

abbrev vdb : Vdb
vdb = record {
  sessions = [];
  latest_session = none;
  previous_session = none;
  session_state = none;
  live = [];
  checkpoints = [];
  cached_sha = none;
}

abbrev root : Root
root = record { store = save_all saves new_store; archive = some []; vdb = vdb; receipts = [] }

sessions_of_root : keys (run_migration "app" 5 false root).1.vdb.sessions ≡ "s1" ∷ "s2" ∷ []
unfolding run_migration plan_migration ordered_sessions session_of list_modules list_contracts
    sorted save_contract contract_filename pad4 digits
sessions_of_root = refl

run_migration_twice_example :
    (run_migration "app" 9 false (run_migration "app" 5 false root).1).1 ≡ after_two "app" 5 9 root
run_migration_twice_example = run_migration_twice "app" 5 9 root

-- Two receipts, since the archive was there at first.
receipts_of_root :
    keys_of (run_migration "app" 9 false (run_migration "app" 5 false root).1).1.receipts
    ≡ 5 ∷ 9 ∷ []
unfolding run_migration plan_migration ordered_sessions session_of list_modules list_contracts
    sorted save_contract contract_filename pad4 digits
receipts_of_root = refl

run_migration-Keeps_example :
    All
      (λ name.
        All
          (IsMigrated (run_migration "app" 5 false root).1.vdb root.store name)
          (list_contracts name root.store))
      (list_modules root.store)
run_migration-Keeps_example = run_migration-Keeps "app" 5 root
