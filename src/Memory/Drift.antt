-- ===== src/Memory/Drift.antt =====
-- memory/drift_scorer.py, on exact fractions in place of floats.
use ciwarden.Base.{
  ℕ, ◌+◌, ◌*◌, ◌/◌, ◌%◌, String, Bool, true, false, ◌&&◌, ◌||◌, not, none, some, List, [], ◌∷◌,
  ◌++◌, if◌then◌else◌, ◌==◌, eqb, leb, ltb, elem, filter, length, Dict, get, put, keys,
}
use ciwarden.Base.Sort.{sort, str_le}
use ciwarden.Base.Text.{join}
use ciwarden.Memory.{
  ContractType, interface, function, class_, module_, dependency, enum, ContractEntry,
  ContractSummary, DriftResult,
}

pub record Fraction : Type 0 where
  pub num : ℕ
  pub den : ℕ

abbrev pub value : ContractType → String
value interface = "interface"
value function = "function"
value class_ = "class"
value module_ = "module"
value dependency = "dependency"
value enum = "enum"

abbrev pub contract_key : ContractType → String → String
contract_key type name = join ":" (value type ∷ name ∷ [])

-- The dict of a summary's contracts: of two with one key, the later one.
abbrev index_into : Dict ContractEntry → List ContractEntry → Dict ContractEntry
index_into d [] = d
index_into d (c ∷ cs) = index_into (put (contract_key c.type c.name) c d) cs

unfoldable pub by_key : List ContractEntry → Dict ContractEntry
by_key contracts = index_into [] contracts

abbrev pub same_list : List String → List String → Bool
same_list [] [] = true
same_list [] (y ∷ ys) = false
same_list (x ∷ xs) [] = false
same_list (x ∷ xs) (y ∷ ys) = x == y && same_list xs ys

-- Sets of strings, as lists without repeats.
abbrev pub to_set : List String → List String
to_set [] = []
to_set (x ∷ xs) = let rest = to_set xs in if elem x rest then rest else x ∷ rest

abbrev pub minus : List String → List String → List String
minus xs ys = filter (λ x. not (elem x ys)) xs

abbrev pub union : List String → List String → List String
union xs ys = xs ++ minus ys xs

abbrev pub differences : List String → List String → ℕ
differences xs ys = length (minus xs ys) + length (minus ys xs)

abbrev pub differs : ContractEntry → ContractEntry → Bool
differs p c =
    not (same_list p.fields c.fields)
    || (not (same_list p.consumed_by c.consumed_by) || not (same_list p.methods c.methods))

abbrev pub is_modified : Dict ContractEntry → Dict ContractEntry → String → Bool
is_modified prev curr key = elim (get key prev) [
  | none ↦ false
  | some p ↦ elim (get key curr) [ none ↦ false | some c ↦ differs p c ]
]

abbrev pub plus : Fraction → Fraction → Fraction
plus p q = record { num = p.num * q.den + q.num * p.den; den = p.den * q.den }

-- raw += factor * (changes / total), for a factor in hundredths
abbrev pub penalty : ℕ → ℕ → ℕ → Fraction → Fraction
penalty factor changes total raw =
    if eqb total 0 then raw else plus raw (record { num = factor * changes; den = 100 * total })

-- min(1.0, raw)
abbrev pub cap : Fraction → Fraction
cap raw = if leb raw.num raw.den then raw else record { num = 1; den = 1 }

-- round(score, 4), in ten-thousandths, a tie to the even neighbour
abbrev pub round4 : Fraction → ℕ
round4 q =
    let down = q.num * 10000 / q.den in
    let rest = q.num * 10000 % q.den in
    if ltb (2 * rest) q.den
    then down
    else if eqb (2 * rest) q.den && eqb (down % 2) 0
    then down
    else down + 1

abbrev pub total_keys : Dict ContractEntry → Dict ContractEntry → ℕ
total_keys prev curr = length (union (keys prev) (keys curr))

abbrev pub added_keys : Dict ContractEntry → Dict ContractEntry → List String
added_keys prev curr = sort str_le (minus (keys curr) (keys prev))

abbrev pub removed_keys : Dict ContractEntry → Dict ContractEntry → List String
removed_keys prev curr = sort str_le (minus (keys prev) (keys curr))

abbrev pub modified_keys : Dict ContractEntry → Dict ContractEntry → List String
modified_keys prev curr =
    filter (is_modified prev curr) (sort str_le (filter (λ k. elem k (keys curr)) (keys prev)))

-- The weighted part of the score, and the whole of it.
abbrev pub contract_part : Dict ContractEntry → Dict ContractEntry → Fraction
contract_part prev curr = record {
  num =
      length (removed_keys prev curr) * 40
      + length (modified_keys prev curr) * 35
      + length (added_keys prev curr) * 25;
  den = 100 * total_keys prev curr;
}

abbrev pub penalised : ℕ → List String → List String → Fraction → Fraction
penalised factor prev curr raw =
    penalty factor (differences (to_set prev) (to_set curr))
      (length (union (to_set prev) (to_set curr))) raw

unfoldable pub raw_score : ContractSummary → ContractSummary → Fraction
raw_score previous current = penalised 5 previous.dependencies current.dependencies (
    penalised 10 previous.assumptions current.assumptions
      (contract_part (by_key previous.contracts) (by_key current.contracts)))

-- The texts of `detail`; `show` is str of a number.
abbrev pub listed : String → List String → List String
listed title [] = []
listed title (x ∷ xs) = join "" (title ∷ join ", " (x ∷ xs) ∷ []) ∷ []

abbrev pub counted : (ℕ → String) → String → ℕ → List String
counted show title n = if eqb n 0 then [] else join "" (title ∷ show n ∷ []) ∷ []

abbrev pub details : (ℕ → String) → List String → List String → List String → ℕ → ℕ → List String
details show added removed modified assumption_changes dep_changes =
    listed "Added: " added
    ++ (listed "Removed: " removed
        ++ (listed "Modified: " modified
            ++ (counted show "Assumption changes: " assumption_changes
                ++ counted show "Dependency changes: " dep_changes)))

abbrev pub detail_text : List String → String
detail_text [] = "No drift detected."
detail_text (d ∷ ds) = join "; " (d ∷ ds)

unfoldable pub score_drift : (ℕ → String) → ContractSummary → ContractSummary → DriftResult
score_drift show previous current =
    let prev = by_key previous.contracts in
    let curr = by_key current.contracts in
    let score = cap (raw_score previous current) in
    if eqb (total_keys prev curr) 0
    then record {
      score = 0;
      passed = true;
      added = [];
      removed = [];
      modified = [];
      detail = "No contracts to compare.";
    }
    else record {
      score = round4 score;
      passed = ltb (2 * score.num) score.den;
      added = added_keys prev curr;
      removed = removed_keys prev curr;
      modified = modified_keys prev curr;
      detail = detail_text (
          details show (added_keys prev curr) (removed_keys prev curr) (modified_keys prev curr)
            (differences (to_set previous.assumptions) (to_set current.assumptions))
            (differences (to_set previous.dependencies) (to_set current.dependencies)));
    }
