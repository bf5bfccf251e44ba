-- ===== src/Memory/Files/Names.antt =====
-- memory/contract_store.py, `_contract_filename`: the order of the names of files.
use ciwarden.Base.{
  ℕ, suc, ◌+◌, ◌-◌, ◌/◌, ◌%◌, ◌<◌, ◌≤◌, ◌≡◌, refl, ◌∙◌, ap, true, ◌&&◌, [], ◌∷◌, ◌++◌,
  if◌then◌else◌, ltb, leb, eqb, arith, Bool-cases, inl, inr, length,
}
use ciwarden.Memory.Files.{Name, codes, digits, zeros, pad4, contract_filename, name_le, same_name}

abbrev four : ℕ → Name
four n = (48 + n / 1000) ∷ (48 + n / 100 % 10) ∷ (48 + n / 10 % 10) ∷ (48 + n % 10) ∷ []

digits-step :
    (f n : ℕ) (s : Name)
    → digits (suc f) n s
      ≡ (if ltb n 10 then (48 + n) ∷ s else digits f (n / 10) ((48 + n % 10) ∷ s))
unfolding digits
digits-step f n s = ground arith

digits_one : (f n : ℕ) (s : Name) → n < 10 → digits (suc f) n s ≡ (48 + n) ∷ s
digits_one f n s h = digits-step f n s ∙ ground arith

digits_two :
    (f n : ℕ) (s : Name)
    → 10 ≤ n
    → n < 100
    → digits (suc (suc f)) n s ≡ (48 + n / 10) ∷ (48 + n % 10) ∷ s
digits_two f n s l h =
    digits-step (suc f) n s ∙ ground (arith, digits_one f (n / 10) ((48 + n % 10) ∷ s))

digits_three :
    (f n : ℕ) (s : Name)
    → 100 ≤ n
    → n < 1000
    → digits (suc (suc (suc f))) n s ≡ (48 + n / 100) ∷ (48 + n / 10 % 10) ∷ (48 + n % 10) ∷ s
digits_three f n s l h =
    digits-step (suc (suc f)) n s ∙ ground (arith, digits_two f (n / 10) ((48 + n % 10) ∷ s))

digits_four :
    (f n : ℕ) (s : Name)
    → 1000 ≤ n
    → n < 10000
    → digits (suc (suc (suc (suc f)))) n s
      ≡ (48 + n / 1000) ∷ (48 + n / 100 % 10) ∷ (48 + n / 10 % 10) ∷ (48 + n % 10) ∷ s
digits_four f n s l h =
    digits-step (suc (suc (suc f))) n s
    ∙ ground (arith, digits_three f (n / 10) ((48 + n % 10) ∷ s))

abbrev padded : Name → Name
padded s = zeros (4 - length s) s

pad4-four : (n : ℕ) → n < 10000 → pad4 n ≡ four n
unfolding pad4
pad4-four n h = elim (Bool-cases (ltb n 10)) [
  | inl a ↦ ap padded (digits_one n n [] (ground arith)) ∙ ground arith
  | inr a ↦ elim (Bool-cases (ltb n 100)) [
    | inl b ↦
        let e : n ≡ suc (n - 1) = ground arith in
        ap (λ f. padded (digits (suc f) n [])) e
        ∙ ap padded (digits_two (n - 1) n [] (ground arith) (ground arith))
        ∙ ground arith
    | inr b ↦ elim (Bool-cases (ltb n 1000)) [
      | inl c ↦
          let e : n ≡ suc (suc (n - 2)) = ground arith in
          ap (λ f. padded (digits (suc f) n [])) e
          ∙ ap padded (digits_three (n - 2) n [] (ground arith) (ground arith))
          ∙ ground arith
      | inr c ↦
          let e : n ≡ suc (suc (suc (n - 3))) = ground arith in
          ap (λ f. padded (digits (suc f) n [])) e
          ∙ ap padded (digits_four (n - 3) n [] (ground arith) h)
          ∙ ground arith
    ]
  ]
]

four-le :
    (a b : ℕ)
    → a < 10000
    → b < 10000
    → (s : Name) → name_le (four a ++ s) (four b ++ s) ≡ (if eqb a b then name_le s s else leb a b)
four-le a b h k s = ground arith

name_le_refl : (s : Name) → name_le s s ≡ true
name_le_refl [] = refl
name_le_refl (x ∷ s) = ground (arith, name_le_refl s)

name_le-prefix : (s a b : Name) → name_le (s ++ a) (s ++ b) ≡ name_le a b
name_le-prefix [] a b = refl
name_le-prefix (x ∷ s) a b = ground (arith, name_le-prefix s a b)

same_name-prefix : (s a b : Name) → same_name (s ++ a) (s ++ b) ≡ same_name a b
same_name-prefix [] a b = refl
same_name-prefix (x ∷ s) a b = ground (arith, same_name-prefix s a b)

four-same :
    (a b : ℕ)
    → a < 10000
    → b < 10000
    → (s : Name) → same_name (four a ++ s) (four b ++ s) ≡ (eqb a b && same_name s s)
four-same a b h k s = ground arith

-- Below ten thousand the names stand in the order of the sequence numbers.
pub name_le-filename :
    (a b : ℕ)
    → a < 10000
    → b < 10000
    → name_le (contract_filename a) (contract_filename b) ≡ leb a b
unfolding contract_filename
name_le-filename a b h k =
    name_le-prefix (codes "gen_") (pad4 a ++ codes ".json") (pad4 b ++ codes ".json")
    ∙ ap (λ s. name_le (s ++ codes ".json") (pad4 b ++ codes ".json")) (pad4-four a h)
    ∙ ap (λ s. name_le (four a ++ codes ".json") (s ++ codes ".json")) (pad4-four b k)
    ∙ four-le a b h k (codes ".json")
    ∙ ground (arith, name_le_refl (codes ".json"))

pub same_name-filename :
    (a b : ℕ)
    → a < 10000
    → b < 10000
    → same_name (contract_filename a) (contract_filename b) ≡ eqb a b
unfolding contract_filename
same_name-filename a b h k =
    same_name-prefix (codes "gen_") (pad4 a ++ codes ".json") (pad4 b ++ codes ".json")
    ∙ ap (λ s. same_name (s ++ codes ".json") (pad4 b ++ codes ".json")) (pad4-four a h)
    ∙ ap (λ s. same_name (four a ++ codes ".json") (s ++ codes ".json")) (pad4-four b k)
    ∙ four-same a b h k (codes ".json")
    ∙ ground arith
