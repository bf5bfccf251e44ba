-- ===== src/Distributor/Stray.antt =====
-- conductor/distributor.py, `repo_untracked_for_agent`: files that an agent wrote into the repository.
-- `lower` is str.lower; git is an argument.
use ciwarden.Base.{ℕ, String, List, [], ◌∷◌, if◌then◌else◌, eqb, all, filter}
use ciwarden.Base.Text.{starts_with, contains, split, is_long, drop_three, strip, splitlines}

-- git status: it cannot be run, or it ends with a code and what it prints.
pub data Status : Type 0 where
  os_error : Status
  exited : (returncode : ℕ) (stdout : String) → Status

abbrev pub tokens_of : (String → String) → String → List String
tokens_of lower module_key = filter is_long (split b'_' (lower module_key))

abbrev pub matching : (String → String) → List String → List String → List String
matching lower tokens [] = []
matching lower tokens (line ∷ lines) =
    let rest = matching lower tokens lines in
    let path = strip (drop_three line) in
    if starts_with "??" line
    then (if all (λ t. contains t (lower path)) tokens then path ∷ rest else rest)
    else rest

abbrev pub matches_in : (String → String) → List String → Status → List String
matches_in lower tokens os_error = []
matches_in lower tokens (exited code stdout) =
    if eqb code 0 then matching lower tokens (splitlines stdout) else []

unfoldable pub repo_untracked_for_agent : (String → String) → String → Status → List String
repo_untracked_for_agent lower module_key status = elim (tokens_of lower module_key) [
  | [] ↦ []
  | t ∷ ts ↦ matches_in lower (t ∷ ts) status
]
