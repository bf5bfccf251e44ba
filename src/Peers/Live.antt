-- ===== src/Peers/Live.antt =====
-- memory/peer_checker.py, reading live/: the files of all agents, merged into one view per agent.
-- A live file is known by its stem; its name is the stem and `.json`.
use ciwarden.Base.{
  String, Bool, false, ◌&&◌, eqb, Option, none, some, List, [], ◌∷◌, if◌then◌else◌, Dict, get, put,
  keys,
}
use ciwarden.Base.Text.{is_empty, join}
use ciwarden.Base.Sort.{sort, str_le}
use ciwarden.Peers.{Conflict, AgentView, Entry, merge_schema_into, check}
use mathlib.Core.Option
use Prim.Native.Char.{code}

-- The value of a module, as JSON has it: an object with one of the keys `exposes`, `consumes`,
-- `assumptions` and `contracts`, an object with none of them and the objects among its values, or
-- no object. An object with a key `modules` is not modelled here.
pub data Value : Type 0 where
  entry : Entry → Value
  keyless : List Entry → Value
  no_object : Value

-- What json.loads makes of a live file; `unreadable`: it raises an error that is caught.
pub data File : Type 0 where
  unreadable : File
  json : Value → File

abbrev pub Live : Type 0
Live = Dict File

abbrev starts_with_underscores : String → Bool
starts_with_underscores (String.◌∷◌ c (String.◌∷◌ d s)) = eqb (code c) b'_' && eqb (code d) b'_'
starts_with_underscores s = false

-- What stands before the last "__" of a text.
abbrev pub before_last : String → Option String
before_last String.[] = none
before_last (String.◌∷◌ c s) =
    let here = starts_with_underscores (String.◌∷◌ c s) in
    elim (before_last s) [ some p ↦ some (String.◌∷◌ c p) | none ↦ if here then some "" else none ]

-- The agent that a live file belongs to.
unfoldable pub owner_of : String → String
owner_of stem = elim (before_last stem) [
  | none ↦ stem
  | some agent_id ↦ if is_empty agent_id then stem else agent_id
]

-- f"{agent_id}_{rest}", by the characters of the agent's name.
abbrev pub underscore_to : String → String → String
underscore_to String.[] rest = String.◌∷◌ "_" rest
underscore_to (String.◌∷◌ c s) rest = String.◌∷◌ c (underscore_to s rest)

-- f"{agent_id}__{module}"
unfoldable pub stem_of : String → String → String
stem_of agent_id name = underscore_to agent_id (underscore_to "" name)

-- `sorted` of the paths: by their names.
abbrev pub path_le : String → String → Bool
path_le a b = str_le (join "" (a ∷ ".json" ∷ [])) (join "" (b ∷ ".json" ∷ []))

abbrev pub empty_view : String → AgentView
empty_view agent_id = record { agent_id = agent_id; exposes = []; consumes = []; assumptions = [] }

-- views.setdefault, with the entries of one file merged
abbrev pub add_entries : String → List Entry → Dict AgentView → Dict AgentView
add_entries agent_id entries views = elim (get agent_id views) [
  | none ↦ put agent_id (merge_schema_into (empty_view agent_id) entries) views
  | some view ↦ put agent_id (merge_schema_into view entries) views
]

-- `_iter_module_entries` of a live file; none: it is no object, and the reading raises.
abbrev pub entries_of : Value → Option (List Entry)
entries_of (entry e) = some (e ∷ [])
entries_of (keyless es) = some es
entries_of no_object = none

abbrev pub add_file : String → Option File → Dict AgentView → Option (Dict AgentView)
add_file stem none views = some views
add_file stem (some unreadable) views = some views
add_file stem (some (json value)) views =
    Option.map (λ entries. add_entries (owner_of stem) entries views) (entries_of value)

-- The loop over the sorted paths.
unfoldable pub read_files : Live → List String → Dict AgentView → Option (Dict AgentView)
read_files live [] views = some views
read_files live (stem ∷ stems) views = elim (add_file stem (get stem live) views) [
  | none ↦ none
  | some next ↦ read_files live stems next
]

unfoldable pub read_all_live : Live → Option (Dict AgentView)
read_all_live live = read_files live (sort path_le (keys live)) []

-- `check` with the peers read from live/; none: the reading raises.
unfoldable pub check_live : (String → String) → String → List Entry → Live → Option (List Conflict)
check_live lower agent_id contracts live =
    Option.map (check lower agent_id contracts) (read_all_live live)
