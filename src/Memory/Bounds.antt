-- ===== src/Memory/Bounds.antt =====
-- The size of a drift score.
use ciwarden.Base.{
  Dict, ℕ, ◌+◌, ◌*◌, ◌/◌, ◌%◌, ◌≤◌, ◌<◌, String, ◌≡◌, refl, ◌∙◌, ap, Bool, true, false, ◌&&◌, not,
  List, [], ◌∷◌, ◌++◌, eqb, leb, ltb, arith, elem, filter, length, keys, if_ind,
}
use ciwarden.Base.Sort.{sort, str_le, length-sort}
use ciwarden.Memory.{ContractEntry, ContractSummary, DriftResult}
use ciwarden.Memory.Drift.{
  Fraction, by_key, to_set, minus, union, differences, is_modified, plus, cap, round4, total_keys,
  removed_keys, modified_keys, contract_part, penalised, raw_score, score_drift,
}
use native.Mathlib.Nat.{
  mul-le-mul_left, mul-le-mul_right, mul-pos, div-add-mod, lt_of_mul-lt-mul_left, div-le_of_le-mul,
}

-- A fraction that is at most k hundredths.
abbrev pub Within : ℕ → Fraction → Type 0
Within k q = 100 * q.num ≤ k * q.den

length-append : (xs ys : List String) → length (xs ++ ys) ≡ length xs + length ys
length-append [] ys = omega arith
length-append (x ∷ xs) ys = ground (arith, length-append xs ys)

length-filter : (p : String → Bool) (xs : List String) → length (filter p xs) ≤ length xs
length-filter p [] = omega arith
length-filter p (x ∷ xs) = ground (arith, length-filter p xs)

-- What a test keeps and what it drops make up the list.
filter-parts :
    (ys xs : List String) → length (filter (λ x. elem x ys) xs) + length (minus xs ys) ≡ length xs
filter-parts ys [] = refl
filter-parts ys (x ∷ xs) = ground (arith, filter-parts ys xs)

plus-Within : (j k : ℕ) (p q : Fraction) → Within j p → Within k q → Within (j + k) (plus p q)
plus-Within j k p q h g =
    let one = mul-le-mul_right q.den h in
    let two = mul-le-mul_right p.den g in omega (arith, one, two)

removed_and_modified :
    (prev curr : Dict ContractEntry)
    → length (removed_keys prev curr) + length (modified_keys prev curr) ≤ length (keys prev)
removed_and_modified prev curr =
    let shared = filter (λ k. elem k (keys curr)) (keys prev) in
    omega (
      arith,
      length-sort str_le (minus (keys prev) (keys curr)),
      length-sort str_le shared,
      length-filter (is_modified prev curr) (sort str_le shared),
      filter-parts (keys curr) (keys prev),
    )

contract_part-Within : (prev curr : Dict ContractEntry) → Within 40 (contract_part prev curr)
contract_part-Within prev curr = omega (
  arith,
  removed_and_modified prev curr,
  length-sort str_le (minus (keys curr) (keys prev)),
  length-append (keys prev) (minus (keys curr) (keys prev)),
)

differences-le : (xs ys : List String) → differences xs ys ≤ length (union xs ys)
differences-le xs ys =
    omega (arith, length-append xs (minus ys xs), length-filter (λ x. not (elem x ys)) xs)

penalised-Within :
    (k factor : ℕ) (xs ys : List String) (raw : Fraction)
    → Within k raw
    → Within (k + factor) (penalised factor xs ys raw)
penalised-Within k factor xs ys raw h =
    let changes = differences (to_set xs) (to_set ys) in
    let total = length (union (to_set xs) (to_set ys)) in
    let few = differences-le (to_set xs) (to_set ys) in
    if_ind (Within (k + factor)) (eqb total 0) (λ e. omega (arith, h))
      (λ e.
        let times = mul-le-mul_left (factor * 100) few in
        let part : Within factor (record { num = factor * changes; den = 100 * total }) =
          omega (arith, times) in
        plus-Within k factor raw (record { num = factor * changes; den = 100 * total }) h part)

-- No two summaries score more than 0.55.
pub raw_score-Within : (previous current : ContractSummary) → Within 55 (raw_score previous current)
unfolding raw_score
raw_score-Within previous current =
    penalised-Within 50 5 previous.dependencies current.dependencies _ (
      penalised-Within 40 10 previous.assumptions current.assumptions _
        (contract_part-Within (by_key previous.contracts) (by_key current.contracts)))

-- Without changes there is no penalty.
pub penalised-none :
    (k factor : ℕ) (xs ys : List String) (raw : Fraction)
    → differences (to_set xs) (to_set ys) ≡ 0
    → Within k raw
    → Within k (penalised factor xs ys raw)
penalised-none k factor xs ys raw none_changed h =
    let changes = differences (to_set xs) (to_set ys) in
    let total = length (union (to_set xs) (to_set ys)) in
    if_ind (Within k) (eqb total 0) (λ e. h)
      (λ e.
        let zero_part : factor * changes ≡ 0 = ap (λ n. factor * n) none_changed ∙ omega arith in
        let part : Within 0 (record { num = factor * changes; den = 100 * total }) =
          omega (arith, zero_part) in
        let whole =
          plus-Within k 0 raw (record { num = factor * changes; den = 100 * total }) h part in
        omega (arith, whole))

penalised-pos :
    (factor : ℕ) (xs ys : List String) (raw : Fraction)
    → 0 < raw.den
    → 0 < (penalised factor xs ys raw).den
penalised-pos factor xs ys raw pos =
    let total = length (union (to_set xs) (to_set ys)) in
    if_ind (λ (q : Fraction). 0 < q.den) (eqb total 0) (λ e. pos)
      (λ e. mul-pos pos (ground (arith, e)))

pub raw_score-pos :
    (previous current : ContractSummary)
    → eqb (total_keys (by_key previous.contracts) (by_key current.contracts)) 0 ≡ false
    → 0 < (raw_score previous current).den
unfolding raw_score
raw_score-pos previous current some_key =
    penalised-pos 5 previous.dependencies current.dependencies _
      (penalised-pos 10 previous.assumptions current.assumptions _ (ground (arith, some_key)))

-- Rounding to four places keeps a bound of whole hundredths.
pub round4-le : (k : ℕ) (q : Fraction) → 0 < q.den → Within k q → round4 q ≤ 100 * k
round4-le k q pos h =
    let down = q.num * 10000 / q.den in
    let rest = q.num * 10000 % q.den in
    let whole : q.num * 10000 ≤ q.den * (100 * k) = omega (arith, h) in
    let low : down ≤ 100 * k = div-le_of_le-mul q.den whole in
    if_ind (λ n. n ≤ 100 * k) (ltb (2 * rest) q.den) (λ e. low)
      (λ e.
        let some_rest : 0 < rest = ground (arith, pos, e) in
        let split = div-add-mod (q.num * 10000) q.den in
        let room : q.den * down < q.den * (100 * k) = omega (arith, split, some_rest, whole) in
        let less = lt_of_mul-lt-mul_left q.den room in
        if_ind (λ n. n ≤ 100 * k) (eqb (2 * rest) q.den && eqb (down % 2) 0) (λ e. low)
          (λ e. omega (arith, less)))

pub cap_low : (k : ℕ) (q : Fraction) → k ≤ 100 → Within k q → cap q ≡ q
cap_low k q small h =
    let scaled = mul-le-mul_right q.den small in
    if_ind (λ (r : Fraction). r ≡ q) (leb q.num q.den) (λ e. refl)
      (λ e. let over : q.den < q.num = ground (arith, e) in absurd (omega (arith, h, scaled, over)))

module _ (show : ℕ → String) (previous current : ContractSummary) where
  -- The score is at most 0.55, before and after it is rounded, so that `min(1.0, raw)` is raw.
  pub score_drift-Bounded :
      ((score_drift show previous current).score ≤ 5500)
      × (cap (raw_score previous current) ≡ raw_score previous current)
  unfolding score_drift
  score_drift-Bounded =
      let small = raw_score-Within previous current in
      let same = cap_low 55 (raw_score previous current) (omega arith) small in
      (
        if_ind (λ (r : DriftResult). r.score ≤ 5500)
            (eqb (total_keys (by_key previous.contracts) (by_key current.contracts)) 0)
            (λ e. omega arith)
            (λ e.
              rw same (
                round4-le 55 (raw_score previous current) (raw_score-pos previous current e)
                  small)),
        same,
      )

  -- Where the two summaries make the same assumptions, as sets, the score is at most 0.45 and the
  -- drift passes: whatever contracts are added, removed or modified, whatever dependencies change.
  pub score_drift-contracts_pass :
      differences (to_set previous.assumptions) (to_set current.assumptions) ≡ 0
      → ((score_drift show previous current).score ≤ 4500)
        × ((score_drift show previous current).passed ≡ true)
  unfolding score_drift raw_score
  score_drift-contracts_pass none_changed =
      let small : Within 45 (raw_score previous current) =
        penalised-Within 40 5 previous.dependencies current.dependencies _ (
          penalised-none 40 10 previous.assumptions current.assumptions _ none_changed
            (contract_part-Within (by_key previous.contracts) (by_key current.contracts))) in
      let same = cap_low 45 (raw_score previous current) (omega arith) small in
      if_ind (λ (r : DriftResult). (r.score ≤ 4500) × (r.passed ≡ true))
        (eqb (total_keys (by_key previous.contracts) (by_key current.contracts)) 0)
        (λ e. (omega arith, refl))
        (λ e.
          let pos = raw_score-pos previous current e in
          rw same (round4-le 45 (raw_score previous current) pos small, ground (arith, small, pos)))
