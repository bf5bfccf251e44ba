-- ===== src/Memory/Lookup.antt =====
-- memory/contract_store.py, `VectorContractStore`: the queries over several contracts.
use ciwarden.Base.{String, Bool, ◌||◌, none, List, [], ◌∷◌, map, if◌then◌else◌, ◌==◌, any, Dict}
use ciwarden.Base.Sort.{sort, str_le}
use ciwarden.Base.Text.{join, contains, split}
use ciwarden.Memory.{ContractSummary}
use ciwarden.Memory.Vdb.{Payload, Vdb, read_session_modules, candidates, by_sequence}

-- sorted(self.repo_dir.glob("session_*.json"))
abbrev pub session_le : String × Payload → String × Payload → Bool
session_le a b =
    str_le (join "" ("session_" ∷ a.0 ∷ ".json" ∷ [])) (join "" ("session_" ∷ b.0 ∷ ".json" ∷ []))

unfoldable pub list_contracts : Vdb → String → List ContractSummary
list_contracts vdb module_name =
    map (λ t. t.1) (sort by_sequence (candidates module_name none (sort session_le vdb.sessions)))

-- fp.split("/")[0]
abbrev pub first_part : List String → String
first_part [] = ""
first_part (p ∷ ps) = p

abbrev pub is_referenced : List String → String → Bool
is_referenced file_paths module_name =
    any (λ fp. contains module_name fp || first_part (split b'/' fp) == module_name) file_paths

abbrev pub referenced : List String → Dict ContractSummary → Dict ContractSummary
referenced file_paths [] = []
referenced file_paths ((name, summary) ∷ modules) =
    let rest = referenced file_paths modules in
    if is_referenced file_paths name then (name, summary) ∷ rest else rest

abbrev no_modules : Dict ContractSummary
no_modules = []

unfoldable pub retrieve_by_files : Vdb → List String → Dict ContractSummary
retrieve_by_files vdb [] = no_modules
retrieve_by_files vdb (fp ∷ file_paths) =
    referenced (fp ∷ file_paths) (read_session_modules vdb vdb.latest_session)
