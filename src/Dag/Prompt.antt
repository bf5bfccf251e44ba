-- ===== src/Dag/Prompt.antt =====
-- conductor/dag.py: `_extract_dependencies` and `_number_index`, whose regular expressions are
-- written out as scanners of code points. `\d` is read as the ASCII digits.
use ciwarden.Base.{
  ℕ, ◌+◌, ◌-◌, ◌*◌, String, ◌≡◌, refl, Bool, true, false, ◌&&◌, ◌||◌, Option, none, some, List, [],
  ◌∷◌, if◌then◌else◌, eqb, leb, elem, ◌==◌, ◌++◌,
}
use ciwarden.Base.Sort.{sort, str_le}
use ciwarden.Base.Text.{is_space}
use Prim.Native.Char.{code}
use mathlib.Core.List.{reverse}

abbrev pub codes : String → List ℕ
codes String.[] = []
codes (String.◌∷◌ c s) = code c ∷ codes s

-- The case folding of re.IGNORECASE, on what folds to an ASCII letter.
abbrev fold : ℕ → ℕ
fold c =
    if leb 65 c && leb c 90
    then c + 32
    else if eqb c 383
    then b's'
    else if eqb c 304 || eqb c 305
    then b'i'
    else if eqb c 8490
    then b'k'
    else c

abbrev is_digit : ℕ → Bool
is_digit c = leb b'0' c && leb c b'9'

-- The rest behind a word, compared without case; the word is given folded.
abbrev after_word : List ℕ → List ℕ → Option (List ℕ)
after_word [] text = some text
after_word (w ∷ ws) [] = none
after_word (w ∷ ws) (c ∷ cs) = let rest = after_word ws cs in if eqb (fold c) w then rest else none

abbrev skip_spaces : List ℕ → List ℕ
skip_spaces [] = []
skip_spaces (c ∷ cs) = let rest = skip_spaces cs in if is_space c then rest else c ∷ cs

-- int() of a run of digits, and what follows it.
abbrev read_digits : ℕ → List ℕ → ℕ × List ℕ
read_digits n [] = (n, [])
read_digits n (c ∷ cs) =
    let rest = read_digits (10 * n + (c - 48)) cs in if is_digit c then rest else (n, c ∷ cs)

abbrev number_then : ℕ → List ℕ → Option ℕ
number_then n [] = none
number_then n (c ∷ cs) = if eqb c b')' then some n else none

abbrev agent_number : List ℕ → Option ℕ
agent_number [] = none
agent_number (c ∷ cs) =
    let (n, rest) = read_digits 0 (c ∷ cs) in if is_digit c then number_then n rest else none

abbrev after_agent : List ℕ → Option ℕ
after_agent [] = none
after_agent (c ∷ cs) = if is_space c then agent_number (skip_spaces cs) else none

-- \(Agent\s+(\d+)\) at the start of the text.
abbrev agent_ref : List ℕ → Option ℕ
agent_ref text = elim (after_word (codes "(agent") text) [
  | none ↦ none
  | some rest ↦ after_agent rest
]

-- AGENT_REF_PATTERN.findall. A match holds one opening parenthesis, its first character, so that no
-- match is found inside another.
unfoldable pub agent_refs : List ℕ → List ℕ
agent_refs [] = []
agent_refs (c ∷ cs) =
    let rest = agent_refs cs in elim (agent_ref (c ∷ cs)) [ none ↦ rest | some n ↦ n ∷ rest ]

abbrev starts : String → List ℕ → Bool
starts word text = elim (after_word (codes word) text) [ none ↦ false | some _ ↦ true ]

-- The section's text: up to a marker, or to the end.
abbrev until_marker : List ℕ → List ℕ
until_marker [] = []
until_marker (c ∷ cs) =
    let rest = c ∷ until_marker cs in
    if starts "modifies_existing:" (c ∷ cs) || starts "contracts_produced:" (c ∷ cs)
    then []
    else rest

-- What stands behind the first CONTRACTS_CONSUMED marker.
unfoldable pub consumed_section : List ℕ → Option (List ℕ)
consumed_section [] = none
consumed_section (c ∷ cs) =
    let rest = consumed_section cs in
    elim (after_word (codes "contracts_consumed:") (c ∷ cs)) [
      | none ↦ rest
      | some text ↦ some (until_marker text)
    ]

-- num_to_id.get(n)
abbrev pub get_num : ℕ → List (ℕ × String) → Option String
get_num n [] = none
get_num n ((m, id) ∷ index) = if eqb n m then some id else get_num n index

-- index.setdefault(n, id)
abbrev pub set_default : ℕ → String → List (ℕ × String) → List (ℕ × String)
set_default n id index = elim (get_num n index) [ none ↦ index ++ (n, id) ∷ [] | some _ ↦ index ]

-- (\d+)\s*$ on the text read backwards: spaces, then at least one digit.
abbrev back_digits : ℕ → ℕ → List ℕ → ℕ
back_digits scale n [] = n
back_digits scale n (c ∷ cs) =
    let rest = back_digits (10 * scale) (n + scale * (c - 48)) cs in if is_digit c then rest else n

abbrev back_number : List ℕ → Option ℕ
back_number [] = none
back_number (c ∷ cs) = if is_digit c then some (back_digits 1 0 (c ∷ cs)) else none

unfoldable pub trailing_number : String → Option ℕ
trailing_number id = back_number (skip_spaces (reverse (codes id)))

abbrev pub index_from : List (ℕ × String) → List String → List (ℕ × String)
index_from index [] = index
index_from index (id ∷ ids) = elim (trailing_number id) [
  | none ↦ index_from index ids
  | some n ↦ index_from (set_default n id index) ids
]

unfoldable pub number_index : List String → List (ℕ × String)
unfolding trailing_number
number_index ids = index_from [] (sort str_le ids)

-- The loop over the references: an agent of the session, not the agent itself, not listed yet.
abbrev pub collect : List (ℕ × String) → String → List String → List ℕ → List String
collect index self deps [] = deps
collect index self deps (n ∷ ns) = elim (get_num n index) [
  | none ↦ collect index self deps ns
  | some dep ↦
      collect index self (if dep == self || elem dep deps then deps else deps ++ dep ∷ []) ns
]

unfoldable pub extract_dependencies : List ℕ → List (ℕ × String) → String → List String
extract_dependencies text index self = elim (consumed_section text) [
  | none ↦ []
  | some section ↦ collect index self [] (agent_refs section)
]

index_runs :
    number_index ("agent_010" ∷ "agent_002" ∷ "main" ∷ [])
    ≡ (2, "agent_002") ∷ (10, "agent_010") ∷ []
unfolding number_index
index_runs = refl

extract_runs :
    extract_dependencies
      (codes
        "Build (Agent 7). Contracts_consumed:\n x (Agent 1)\n y (AGENT  02) CONTRACTS_PRODUCED: (Agent 3)")
      ((1, "a1") ∷ (2, "a2") ∷ (3, "a3") ∷ (7, "a7") ∷ [])
      "a2"
    ≡ "a1" ∷ []
unfolding extract_dependencies consumed_section agent_refs
extract_runs = refl
