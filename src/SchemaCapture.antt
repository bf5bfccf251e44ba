-- ===== src/SchemaCapture.antt =====
-- memory/schema_capture.py: the contracts that an agent declares in its schema file. The static
-- analysis of source code, which the regular expressions and the syntax tree do, is an argument.
use ciwarden.Base.{ℕ, String, Option, none, some, List, [], ◌∷◌, if◌then◌else◌, ◌==◌, Dict, get}
use ciwarden.Base.Text.{is_empty}
use ciwarden.Memory.{
  ContractType, interface, function, class_, module_, dependency, enum, ContractEntry,
  ContractSummary,
}

-- A member of `contracts`: an object with what it has of the keys, or another value.
pub record SchemaContract : Type 0 where
  pub type : Option String
  pub name : Option String
  pub fields : Option (List String)
  pub consumed_by : Option (List String)
  pub methods : Option (List String)

pub data ContractItem : Type 0 where
  contract : SchemaContract → ContractItem
  no_contract : ContractItem

-- A member of `exposes`: an object with its symbol, a text, or another value.
pub data ExposedItem : Type 0 where
  rich : Option String → ExposedItem
  plain : String → ExposedItem
  no_symbol : ExposedItem

-- The entry of a module; `exposes` is none where it is not a list.
pub record SchemaEntry : Type 0 where
  pub contracts : List ContractItem
  pub assumptions : List String
  pub dependencies : List String
  pub exposes : Option (List ExposedItem)

-- The value of a key of `modules`: null, an object, or another value.
pub data ModuleValue : Type 0 where
  null other : ModuleValue
  object : SchemaEntry → ModuleValue

-- `unreadable`: no file, or no JSON. `modules` is none where it is not an object.
pub data SchemaFile : Type 0 where
  unreadable : SchemaFile
  schema : (module_key : Option String) (modules : Option (Dict ModuleValue)) → SchemaFile

-- `raised`: the ValueError of a type of contract that there is not.
pub data Extraction : Type 0 where
  absent raised : Extraction
  summary : ContractSummary → Extraction

-- ContractType(value)
abbrev pub contract_type : String → Option ContractType
contract_type s =
    if s == "interface"
    then some interface
    else if s == "function"
    then some function
    else if s == "class"
    then some class_
    else if s == "module"
    then some module_
    else if s == "dependency"
    then some dependency
    else if s == "enum"
    then some enum
    else none

abbrev pub or_default {ℓ} : {A : Type ℓ} → A → Option A → A
or_default d none = d
or_default d (some a) = a

abbrev pub entry_of : SchemaContract → Option ContractEntry
entry_of c = elim (contract_type (or_default "function" c.type)) [
  | none ↦ none
  | some type ↦ some (record {
    type = type;
    name = or_default "" c.name;
    fields = or_default [] c.fields;
    consumed_by = or_default [] c.consumed_by;
    methods = or_default [] c.methods;
  })
]

-- The objects among the items; none where one has an unknown type.
unfoldable pub entries_of : List ContractItem → Option (List ContractEntry)
entries_of [] = some []
entries_of (no_contract ∷ items) = entries_of items
entries_of (contract c ∷ items) = elim (entry_of c) [
  | none ↦ none
  | some e ↦ elim (entries_of items) [ none ↦ none | some es ↦ some (e ∷ es) ]
]

abbrev pub symbols_of : List ExposedItem → List String
symbols_of [] = []
symbols_of (rich none ∷ items) = symbols_of items
symbols_of (rich (some symbol) ∷ items) =
    let rest = symbols_of items in if is_empty symbol then rest else symbol ∷ rest
symbols_of (plain s ∷ items) = s ∷ symbols_of items
symbols_of (no_symbol ∷ items) = symbols_of items

unfoldable pub flatten_exposes : Option (List ExposedItem) → List String
flatten_exposes none = []
flatten_exposes (some items) = symbols_of items

-- data.get("module_key") or module_name
abbrev pub key_of : Option String → String → String
key_of none module_name = module_name
key_of (some key) module_name = if is_empty key then module_name else key

-- modules.get(key), where a null is what a missing key is.
abbrev pub lookup : String → Dict ModuleValue → ModuleValue
lookup key modules = elim (get key modules) [ none ↦ null | some v ↦ v ]

abbrev pub or_else : ModuleValue → ModuleValue → ModuleValue
or_else null v = v
or_else other v = other
or_else (object e) v = object e

abbrev pub resolve : Option String → String → Dict ModuleValue → ModuleValue
resolve module_key module_name modules =
    let key = key_of module_key module_name in
    if key == module_name
    then lookup key modules
    else or_else (lookup key modules) (lookup module_name modules)

abbrev pub summarize : String → String → ℕ → SchemaEntry → Extraction
summarize module_name generation_id sequence e = elim (entries_of e.contracts) [
  | none ↦ raised
  | some contracts ↦ summary (record {
    module_name = module_name;
    generation_id = generation_id;
    sequence = sequence;
    contracts = contracts;
    assumptions = e.assumptions;
    dependencies = e.dependencies;
    exposes = flatten_exposes e.exposes;
  })
]

abbrev pub summarize_value : String → String → ℕ → ModuleValue → Extraction
summarize_value module_name generation_id sequence null = absent
summarize_value module_name generation_id sequence other = absent
summarize_value module_name generation_id sequence (object e) =
    summarize module_name generation_id sequence e

unfoldable pub from_schema : SchemaFile → String → String → ℕ → Extraction
from_schema unreadable module_name generation_id sequence = absent
from_schema (schema module_key none) module_name generation_id sequence = absent
from_schema (schema module_key (some modules)) module_name generation_id sequence =
    summarize_value module_name generation_id sequence (resolve module_key module_name modules)

-- `extract_contracts`: the schema first, and the static analysis where that gives nothing.
unfoldable pub extract_contracts :
    (from_ast : String → String → String → ℕ → ContractSummary)
    → SchemaFile
    → String
    → String
    → String
    → ℕ
    → Option ContractSummary
extract_contracts from_ast file source_code module_name generation_id sequence =
    elim (from_schema file module_name generation_id sequence) [
      | absent ↦ some (from_ast source_code module_name generation_id sequence)
      | raised ↦ none
      | summary s ↦ some s
    ]

-- conductor/distributor.py: `_write_schema_template`.
abbrev pub template : String → SchemaFile
template module_key = schema (some module_key) (
    some (
      (
        module_key,
        object (record { contracts = []; assumptions = []; dependencies = []; exposes = some [] }),
      )
      ∷ []))
