-- ===== src/Memory/Files.antt =====
-- memory/contract_store.py: `ContractStore`, the files under a root directory. Names of files are lists
-- of code points, since their order decides which contract is the latest.
use ciwarden.Base.{
  ℕ, zero, suc, ◌+◌, ◌-◌, ◌/◌, ◌%◌, String, Bool, true, false, ◌&&◌, ◌||◌, Option, none, some, List,
  [], ◌∷◌, ◌++◌, map, if◌then◌else◌, ◌==◌, ltb, leb, eqb, length, filter, Dict, get, put, keys,
}
use ciwarden.Base.Sort.{sort, str_le}
use ciwarden.Base.Text.{join}
use ciwarden.Memory.{ContractSummary, Session, Checkpoint}
use Prim.Native.Char.{code}
use Prim.Native.String
pub mod Names
pub mod Sorted
pub mod Writes
pub mod Recent

abbrev pub Name : Type 0
Name = List ℕ

abbrev pub codes : String → Name
codes String.[] = []
codes (String.◌∷◌ c s) = code c ∷ codes s

-- str(n), in front of what is there; the fuel bounds the number of digits.
unfoldable pub digits : ℕ → ℕ → Name → Name
digits zero n after = after
digits (suc fuel) n after =
    let more = digits fuel (n / 10) ((48 + n % 10) ∷ after) in
    elim (ltb n 10) [ true ↦ (48 + n) ∷ after | false ↦ more ]

abbrev pub zeros : ℕ → Name → Name
zeros zero s = s
zeros (suc n) s = 48 ∷ zeros n s

-- f"{n:04d}"
unfoldable pub pad4 : ℕ → Name
pad4 n = let s = digits (suc n) n [] in zeros (4 - length s) s

-- `_contract_filename`
unfoldable pub contract_filename : ℕ → Name
contract_filename sequence = codes "gen_" ++ (pad4 sequence ++ codes ".json")

-- a <= b on names
abbrev pub name_le : Name → Name → Bool
name_le [] b = true
name_le (x ∷ a) [] = false
name_le (x ∷ a) (y ∷ b) = ltb x y || eqb x y && name_le a b

abbrev pub same_name : Name → Name → Bool
same_name [] [] = true
same_name [] (y ∷ b) = false
same_name (x ∷ a) [] = false
same_name (x ∷ a) (y ∷ b) = eqb x y && same_name a b

-- The files of a directory, with what they hold.
abbrev pub Files {ℓ} : Type ℓ → Type ℓ
Files V = List (Name × V)

-- path.write_text
abbrev pub write {ℓ} : {V : Type ℓ} → Name → V → Files V → Files V
write name v [] = (name, v) ∷ []
write name v ((n, w) ∷ files) =
    let rest = write name v files in if same_name name n then (n, v) ∷ files else (n, w) ∷ rest

-- sorted(module_dir.glob(...))
abbrev pub by_name {ℓ} : {V : Type ℓ} → Name × V → Name × V → Bool
by_name a b = name_le a.0 b.0

unfoldable pub sorted {ℓ} : {V : Type ℓ} → Files V → Files V
sorted files = sort by_name files

-- files[-1], if there is one
abbrev pub last_file {ℓ} : {V : Type ℓ} → Files V → Option V
last_file [] = none
last_file (f ∷ files) = elim (last_file files) [ none ↦ some f.1 | some v ↦ some v ]

-- `contracts` has the directories of the modules.
pub record FileStore : Type 0 where
  pub contracts : Dict (Files ContractSummary)
  pub checkpoints : Files Checkpoint
  pub session : Option Session

abbrev pub no_files : Files ContractSummary
no_files = []

-- The files of a module; none where its directory is not there.
abbrev pub module_dir : String → FileStore → Files ContractSummary
module_dir name store = elim (get name store.contracts) [ none ↦ no_files | some files ↦ files ]

unfoldable pub save_contract : ContractSummary → FileStore → FileStore
save_contract summary store = record store {
  contracts =
      put summary.module_name
        (write (contract_filename summary.sequence) summary (module_dir summary.module_name store))
        store.contracts;
}

abbrev pub with_generation : String → Files ContractSummary → Option ContractSummary
with_generation generation_id [] = none
with_generation generation_id ((n, s) ∷ files) =
    if s.generation_id == generation_id then some s else with_generation generation_id files

unfoldable pub load_contract : String → String → FileStore → Option ContractSummary
load_contract name generation_id store =
    with_generation generation_id (sorted (module_dir name store))

unfoldable pub load_latest_contract : String → FileStore → Option ContractSummary
load_latest_contract name store = last_file (sorted (module_dir name store))

unfoldable pub load_previous_contract : String → ℕ → FileStore → Option ContractSummary
load_previous_contract name before_sequence store =
    last_file (filter (λ f. ltb f.1.sequence before_sequence) (sorted (module_dir name store)))

unfoldable pub list_contracts : String → FileStore → List ContractSummary
list_contracts name store = map (λ f. f.1) (sorted (module_dir name store))

unfoldable pub list_modules : FileStore → List String
list_modules store = sort str_le (keys store.contracts)

abbrev pub checkpoint_filename : String → ℕ → Name
checkpoint_filename session_id sequence =
    codes "checkpoint_" ++ (codes session_id ++ (codes "_" ++ (pad4 sequence ++ codes ".json")))

unfoldable pub save_checkpoint : Checkpoint → FileStore → FileStore
save_checkpoint c store = record store {
  checkpoints = write (checkpoint_filename c.session_id c.sequence) c store.checkpoints;
}

-- A name matches a prefix, "*" and ".json".
abbrev pub after_prefix : Name → Name → Option Name
after_prefix [] name = some name
after_prefix (x ∷ prefix) [] = none
after_prefix (x ∷ prefix) (y ∷ name) =
    let rest = after_prefix prefix name in if eqb x y then rest else none

abbrev pub ends_with : Name → Name → Bool
ends_with suffix [] = same_name suffix []
ends_with suffix (x ∷ name) = same_name suffix (x ∷ name) || ends_with suffix name

abbrev pub matches : Name → Name → Bool
matches prefix name = elim (after_prefix prefix name) [
  | none ↦ false
  | some rest ↦ ends_with (codes ".json") rest
]

-- The session's name stands in the pattern as it is: it has no "*", "?" and "[".
unfoldable pub load_latest_checkpoint : String → FileStore → Option Checkpoint
load_latest_checkpoint session_id store =
    let prefix = codes "checkpoint_" ++ (codes session_id ++ codes "_") in
    last_file (sorted (filter (λ f. matches prefix f.0) store.checkpoints))

-- `uuid` is uuid.uuid4().hex[:12].
unfoldable pub get_or_create_session : String → FileStore → Session × FileStore
get_or_create_session uuid store = elim store.session [
  | some session ↦ (session, store)
  | none ↦
      let session : Session = record {
        session_id = uuid;
        current_generation_id = join "" ("gen_" ∷ uuid ∷ "_001" ∷ []);
        current_sequence = 0;
      } in
      (session, record store { session = some session })
]

-- `pad3` is the number with three digits at least.
unfoldable pub advance_session : (ℕ → String) → Session → FileStore → Session × FileStore
advance_session pad3 session store =
    let seq = session.current_sequence + 1 in
    let next : Session = record session {
      current_sequence = seq;
      current_generation_id = join "" ("gen_" ∷ session.session_id ∷ "_" ∷ pad3 seq ∷ []);
    } in
    (next, record store { session = some next })
