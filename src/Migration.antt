-- ===== src/Migration.antt =====
-- scripts/migrate_contracts.py: the contracts of the file-based store, put into the session files of
-- the vector store. The printed lines are left out; the receipts are the files under the root, each
-- named by the time in seconds.
use ciwarden.Base.{
  ℕ, ◌+◌, String, Bool, true, false, ◌&&◌, ◌||◌, not, Option, none, some, List, [], ◌∷◌, map,
  if◌then◌else◌, eqb, leb, length, is_some, Dict, get, put, keys, values,
}
use ciwarden.Base.Sort.{sort, str_le}
use ciwarden.Base.Text.{join}
use ciwarden.Memory.{ContractSummary}
use ciwarden.Memory.Files.{Files, FileStore, list_modules, list_contracts}
use ciwarden.Memory.Vdb.{Payload, Vdb}
use Prim.Native.Char.{code}
use Prim.Native.String
pub mod Again
pub mod Keeps
pub mod Origin

-- What stands before the last "_" of a text.
abbrev before_underscore : String → Option String
before_underscore String.[] = none
before_underscore (String.◌∷◌ c s) = elim (before_underscore s) [
  | some p ↦ some (String.◌∷◌ c p)
  | none ↦ if eqb (code c) 95 then some "" else none
]

-- s.rsplit("_", 1)[0]
abbrev rsplit_first : String → String
rsplit_first s = elim (before_underscore s) [ none ↦ s | some p ↦ p ]

-- What follows "gen_" at the front.
abbrev after_gen : String → Option String
after_gen (String.◌∷◌ a (String.◌∷◌ b (String.◌∷◌ c (String.◌∷◌ d s)))) =
    if eqb (code a) b'g' && (eqb (code b) b'e' && (eqb (code c) b'n' && eqb (code d) b'_'))
    then some s
    else none
after_gen s = none

unfoldable pub session_of : String → String
session_of generation_id = elim (after_gen generation_id) [
  | some rest ↦ rsplit_first rest
  | none ↦ rsplit_first generation_id
]

-- The contracts of each module, by session.
abbrev pub Plan : Type 0
Plan = Dict (Dict ContractSummary)

abbrev no_modules : Dict ContractSummary
no_modules = []

abbrev pub modules_of : String → Plan → Dict ContractSummary
modules_of sid plan = elim (get sid plan) [ none ↦ no_modules | some modules ↦ modules ]

-- `prev is None or summary.sequence >= prev.sequence`
abbrev pub takes : ContractSummary → Option ContractSummary → Bool
takes s none = true
takes s (some prev) = leb prev.sequence s.sequence

-- `if takes: modules[module] = summary`
abbrev pub updated : String → ContractSummary → Dict ContractSummary → Dict ContractSummary
updated name s modules = if takes s (get name modules) then put name s modules else modules

abbrev pub add_contract : String → ContractSummary → Plan → Plan
add_contract name s plan =
    let sid = session_of s.generation_id in put sid (updated name s (modules_of sid plan)) plan

abbrev pub add_contracts : String → List ContractSummary → Plan → Plan
add_contracts name [] plan = plan
add_contracts name (s ∷ summaries) plan = add_contracts name summaries (add_contract name s plan)

abbrev pub add_modules : FileStore → List String → Plan → Plan
add_modules store [] plan = plan
add_modules store (name ∷ names) plan =
    add_modules store names (add_contracts name (list_contracts name store) plan)

unfoldable pub plan_migration : FileStore → Plan
plan_migration store = add_modules store (list_modules store) []

-- max(..., default=0)
abbrev pub max_of : List ContractSummary → ℕ
max_of [] = 0
max_of (s ∷ summaries) =
    let rest = max_of summaries in if leb rest s.sequence then s.sequence else rest

abbrev pub max_seq : Plan → String → ℕ
max_seq plan sid = max_of (values (modules_of sid plan))

unfoldable pub ordered_sessions : Plan → List String
ordered_sessions plan = sort (λ a b. leb (max_seq plan a) (max_seq plan b)) (keys plan)

abbrev first_generation : String → List ContractSummary → String
first_generation sid [] = join "" ("gen_" ∷ sid ∷ [])
first_generation sid (s ∷ summaries) = s.generation_id

abbrev pub payload_of : Plan → String → Payload
payload_of plan sid = record {
  session_id = sid;
  sequence = max_seq plan sid;
  generation_id = first_generation sid (values (modules_of sid plan));
  modules = modules_of sid plan;
}

abbrev pub write_sessions : Plan → List String → Dict Payload → Dict Payload
write_sessions plan [] sessions = sessions
write_sessions plan (sid ∷ sids) sessions =
    write_sessions plan sids (put sid (payload_of plan sid) sessions)

-- ordered[-1] and ordered[-2]
abbrev pub index_of : List String → Option String × Option String
index_of [] = (none, none)
index_of (a ∷ []) = (some a, none)
index_of (a ∷ b ∷ []) = (some b, some a)
index_of (a ∷ b ∷ c ∷ sids) = index_of (b ∷ c ∷ sids)

-- Without `receipt_path` in the file; in the receipt that is returned it is the time in the name.
pub record Receipt : Type 0 where
  pub repo : String
  pub sessions : Dict (List String)
  pub session_count : ℕ
  pub module_count : ℕ
  pub dry_run : Bool
  pub archived : Bool
  pub index : Option (Option String × Option String)
  pub receipt_path : Option ℕ

-- What is under the root: the file-based store, the archive of its contracts, the directory of the
-- repository in the vector store, and the receipts "migration_<time>.json".
pub record Root : Type 0 where
  pub store : FileStore
  pub archive : Option (Dict (Files ContractSummary))
  pub vdb : Vdb
  pub receipts : List (ℕ × Receipt)

abbrev module_names : Plan → Dict (List String)
module_names [] = []
module_names ((sid, modules) ∷ plan) = (sid, sort str_le (keys modules)) ∷ module_names plan

abbrev count_modules : Plan → ℕ
count_modules [] = 0
count_modules ((sid, modules) ∷ plan) = length modules + count_modules plan

abbrev receipt_of : String → Plan → Bool → Receipt
receipt_of repo plan dry_run = record {
  repo = repo;
  sessions = module_names plan;
  session_count = length plan;
  module_count = count_modules plan;
  dry_run = dry_run;
  archived = false;
  index = none;
  receipt_path = none;
}

-- A file of the same second is written over.
abbrev pub write_receipt : ℕ → Receipt → List (ℕ × Receipt) → List (ℕ × Receipt)
write_receipt now receipt [] = (now, receipt) ∷ []
write_receipt now receipt ((time, old) ∷ receipts) =
    let rest = write_receipt now receipt receipts in
    if eqb time now then (now, receipt) ∷ receipts else (time, old) ∷ rest

-- The session files and the index are written; a previous session is in the index only if the plan
-- has one.
abbrev pub migrated : Plan → Vdb → Vdb
migrated plan vdb =
    let ordered = ordered_sessions plan in
    record vdb {
      sessions = write_sessions plan ordered vdb.sessions;
      latest_session = (index_of ordered).0;
      previous_session = (index_of ordered).1;
    }

abbrev no_contracts : Dict (Files ContractSummary)
no_contracts = []

-- The tree of contracts is moved, unless an archive is there already.
abbrev pub archived : Root → Root
archived root = elim root.archive [
  | none ↦ record root {
    store = record root.store { contracts = no_contracts };
    archive = some root.store.contracts;
  }
  | some old ↦ root
]

-- The receipt as it is when its file is written.
abbrev pub written : String → Bool → Plan → Root → Receipt
written repo dry_run plan root = record (receipt_of repo plan dry_run) {
  archived = not (is_some root.archive);
  index = some (index_of (ordered_sessions plan));
}

unfoldable pub run_migration : String → ℕ → Bool → Root → Receipt × Root
run_migration repo now dry_run root =
    let plan = plan_migration root.store in
    if eqb (length plan) 0 || dry_run then (receipt_of repo plan dry_run, root) else (
      record (written repo dry_run plan root) { receipt_path = some now },
      record (archived (record root { vdb = migrated plan root.vdb })) {
        receipts = write_receipt now (written repo dry_run plan root) root.receipts;
      },
    )
