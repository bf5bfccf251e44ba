-- ===== src/Memory/Same.antt =====
-- The drift between two summaries with the same contents.
use ciwarden.Base.{
  ℕ, String, ◌≡◌, refl, ap, Bool, true, false, Option, none, some, List, [], ◌∷◌, eq_refl, eqb,
  arith, elem, filter, length, Dict, get, keys, if_ind,
}
use ciwarden.Base.Sort.{sort, str_le}
use ciwarden.Memory.{ContractEntry, ContractSummary, DriftResult}
use ciwarden.Memory.Drift.{
  by_key, same_list, to_set, minus, differences, differs, is_modified, total_keys, added_keys,
  modified_keys, contract_part, raw_score, score_drift,
}
use ciwarden.Memory.Bounds.{Within, penalised-none, raw_score-pos, round4-le, cap_low}

same_list_refl : (xs : List String) → same_list xs xs ≡ true
same_list_refl [] = refl
same_list_refl (x ∷ xs) = ground (arith, same_list_refl xs, eq_refl x)

differs_self : (c : ContractEntry) → differs c c ≡ false
differs_self c =
    ground (arith, same_list_refl c.fields, same_list_refl c.consumed_by, same_list_refl c.methods)

minus-nil :
    (xs ys : List String) → ((x : String) → elem x xs ≡ true → elem x ys ≡ true) → minus xs ys ≡ []
minus-nil [] ys h = refl
minus-nil (x ∷ xs) ys h =
    let first = h x (ground (arith, eq_refl x)) in
    let rest = minus-nil xs ys (λ y e. h y (ground arith)) in ground (arith, first, rest)

abbrev both : Option ContractEntry → Option ContractEntry → Bool
both a b = elim a [ none ↦ false | some p ↦ elim b [ none ↦ false | some c ↦ differs p c ] ]

both_self : (o : Option ContractEntry) → both o o ≡ false
both_self none = refl
both_self (some c) = differs_self c

is_modified_self : (d : Dict ContractEntry) (k : String) → is_modified d d k ≡ false
is_modified_self d k = both_self (get k d)

filter-none :
    (p : String → Bool) (xs : List String) → ((x : String) → p x ≡ false) → filter p xs ≡ []
filter-none p [] h = refl
filter-none p (x ∷ xs) h = ground (arith, h x, filter-none p xs h)

differences_self : (xs : List String) → differences xs xs ≡ 0
differences_self xs = let nothing = minus-nil xs xs (λ x e. e) in rw nothing refl

added_self : (d : Dict ContractEntry) → added_keys d d ≡ []
added_self d = ap (sort str_le) (minus-nil (keys d) (keys d) (λ x e. e))

modified_self : (d : Dict ContractEntry) → modified_keys d d ≡ []
modified_self d = filter-none (is_modified d d) _ (is_modified_self d)

contract_part_self : (d : Dict ContractEntry) → Within 0 (contract_part d d)
contract_part_self d =
    let nothing = ap (λ (l : List String). length l) (added_self d) in
    let same = ap (λ (l : List String). length l) (modified_self d) in omega (arith, nothing, same)

-- What the summary `c` becomes in a later generation when only its marks change.
abbrev pub regenerated : ContractSummary → String → ℕ → List String → ContractSummary
regenerated c generation sequence exposes = record c {
  generation_id = generation;
  sequence = sequence;
  exposes = exposes;
}

module _ (show : ℕ → String) (c : ContractSummary) (generation : String) (sequence : ℕ)
    (exposes : List String) where
  -- Two summaries with the same contracts, assumptions and dependencies have drift 0, which passes, and
  -- nothing is reported as added, removed or modified.
  pub score_drift-same :
      ((score_drift show c (regenerated c generation sequence exposes)).score ≡ 0)
      × ((score_drift show c (regenerated c generation sequence exposes)).passed ≡ true)
      × ((score_drift show c (regenerated c generation sequence exposes)).added ≡ [])
      × ((score_drift show c (regenerated c generation sequence exposes)).removed ≡ [])
      × ((score_drift show c (regenerated c generation sequence exposes)).modified ≡ [])
  unfolding score_drift raw_score
  score_drift-same =
      let d = by_key c.contracts in
      let small : Within 0 (raw_score c c) =
        penalised-none 0 5 c.dependencies c.dependencies _
          (differences_self (to_set c.dependencies))
          (penalised-none 0 10 c.assumptions c.assumptions _
            (differences_self (to_set c.assumptions)) (contract_part_self d)) in
      let same = cap_low 0 (raw_score c c) (omega arith) small in
      if_ind
        (λ (r : DriftResult).
          (r.score ≡ 0) × (r.passed ≡ true) × (r.added ≡ []) × (r.removed ≡ []) × (r.modified ≡ []))
        (eqb (total_keys d d) 0) (λ e. (refl, refl, refl, refl, refl))
        (λ e.
          let pos = raw_score-pos c c e in
          let rounded = round4-le 0 (raw_score c c) pos small in
          (
            rw same (omega (arith, rounded)),
            rw same (ground (arith, small, pos)),
            added_self d,
            added_self d,
            modified_self d,
          ))
