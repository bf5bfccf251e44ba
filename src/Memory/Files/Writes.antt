-- ===== src/Memory/Files/Writes.antt =====
-- memory/contract_store.py, `save_contract` of `ContractStore`: what a write changes in a directory.
use ciwarden.Base.{
  ℕ, ◌<◌, String, ◌≡◌, refl, sym, ◌∙◌, ap, subst, Bool, true, false, ◌&&◌, not, Option, none, some,
  List, [], ◌∷◌, if◌then◌else◌, ◌==◌, arith, leb, eqb, All, All-map, Bool-cases, Option-cases, inl,
  inr, if_ind,
}
use ciwarden.Memory.{ContractSummary}
use ciwarden.Memory.Files.{
  Name, Files, FileStore, contract_filename, same_name, write, save_contract,
}
use ciwarden.Memory.Files.Names.{same_name-filename}
use ciwarden.Memory.Files.Sorted.{IsNamed, older, best}

-- Of two contracts the one of the greater sequence; of equal ones the one that was saved later, `s`.
abbrev pub newer : (ℕ → Bool) → ContractSummary → Option ContractSummary → Option ContractSummary
newer p s o =
    if p s.sequence
    then elim o [ none ↦ some s | some t ↦ if leb t.sequence s.sequence then some s else some t ]
    else o

-- The contract of the module of greatest sequence, among those saved whose sequence passes the test;
-- of equal sequences the last one saved.
abbrev pub most_recent :
    (ℕ → Bool) → String → List ContractSummary → Option ContractSummary → Option ContractSummary
most_recent p name [] best = best
most_recent p name (s ∷ history) best =
    most_recent p name history (if name == s.module_name then newer p s best else best)

abbrev pub save_all : List ContractSummary → FileStore → FileStore
save_all [] store = store
save_all (s ∷ history) store = save_all history (save_contract s store)

-- Each sequence has one file.
abbrev pub IsDistinct : Files ContractSummary → Type 0
IsDistinct [] = Unit
IsDistinct (f ∷ files) = All (λ g. eqb f.1.sequence g.1.sequence ≡ false) files × IsDistinct files

best-All :
    (Q : ContractSummary → Type 0) (p : ℕ → Bool) (files : Files ContractSummary)
    (t : ContractSummary)
    → All (λ f. Q f.1) files
    → best p files ≡ some t
    → Q t
best-All Q p [] t h e = absurd (cc)
best-All Q p (f ∷ files) t h e = elim (Option-cases (best p files)) [
  | inl n ↦ let same : f.1 ≡ t = ground (arith, n, e) in subst Q same h.0
  | inr (u, n) ↦ elim (Bool-cases (p f.1.sequence && not (leb f.1.sequence u.sequence))) [
    | inl c ↦ let same : f.1 ≡ t = ground (arith, n, e, c) in subst Q same h.0
    | inr c ↦
        let same : u ≡ t = ground (arith, n, e, c) in subst Q same (best-All Q p files u h.1 n)
  ]
]

same-sequence :
    (s : ContractSummary) (f : Name × ContractSummary)
    → s.sequence < 10000
    → IsNamed f
    → same_name (contract_filename s.sequence) f.0 ≡ eqb s.sequence f.1.sequence
same-sequence s f b h =
    ap (same_name (contract_filename s.sequence)) h.0
    ∙ same_name-filename s.sequence f.1.sequence b h.1

All-write :
    (Q : ContractSummary → Type 0) (n : Name) (s : ContractSummary) (files : Files ContractSummary)
    → Q s
    → All (λ f. Q f.1) files
    → All (λ f. Q f.1) (write n s files)
All-write Q n s [] q h = (q, tt)
All-write Q n s (f ∷ files) q h =
    if_ind (All (λ f. Q f.1)) (same_name n f.0) (λ e. (q, h.1))
      (λ e. (h.0, All-write Q n s files q h.1))

pub write-IsNamed :
    (s : ContractSummary) (files : Files ContractSummary)
    → s.sequence < 10000
    → All IsNamed files
    → All IsNamed (write (contract_filename s.sequence) s files)
write-IsNamed s [] b h = ((refl, b), tt)
write-IsNamed s (f ∷ files) b h =
    if_ind (All IsNamed) (same_name (contract_filename s.sequence) f.0)
      (λ e.
        let same : eqb s.sequence f.1.sequence ≡ true = sym (same-sequence s f b h.0) ∙ e in
        let q : f.1.sequence ≡ s.sequence = ground arith in
        ((h.0.0 ∙ ap contract_filename q, b), h.1))
      (λ e. (h.0, write-IsNamed s files b h.1))

pub write-IsDistinct :
    (s : ContractSummary) (files : Files ContractSummary)
    → s.sequence < 10000
    → All IsNamed files
    → IsDistinct files
    → IsDistinct (write (contract_filename s.sequence) s files)
write-IsDistinct s [] b h d = (tt, tt)
write-IsDistinct s (f ∷ files) b h d =
    if_ind IsDistinct (same_name (contract_filename s.sequence) f.0)
      (λ e.
        let same : eqb s.sequence f.1.sequence ≡ true = sym (same-sequence s f b h.0) ∙ e in
        (
          All-map _ (λ g. eqb s.sequence g.1.sequence ≡ false) files
              (λ g t. ground (arith, same, t)) d.0,
          d.1,
        ))
      (λ e.
        let other : eqb s.sequence f.1.sequence ≡ false = sym (same-sequence s f b h.0) ∙ e in
        (
          All-write (λ g. eqb f.1.sequence g.sequence ≡ false) (contract_filename s.sequence) s
              files (ground (arith, other)) d.0,
          write-IsDistinct s files b h.1 d.1,
        ))

pub best-write :
    (p : ℕ → Bool) (s : ContractSummary) (files : Files ContractSummary)
    → s.sequence < 10000
    → All IsNamed files
    → IsDistinct files
    → best p (write (contract_filename s.sequence) s files) ≡ newer p s (best p files)
best-write p s [] b h d = ground arith
best-write p s (f ∷ files) b h d =
    if_ind (λ l. best p l ≡ newer p s (best p (f ∷ files)))
      (same_name (contract_filename s.sequence) f.0)
      (λ e.
        let same : eqb s.sequence f.1.sequence ≡ true = sym (same-sequence s f b h.0) ∙ e in
        let q : s.sequence ≡ f.1.sequence = ground (arith, same) in
        elim (Option-cases (best p files)) [
          | inl n ↦ ground (arith, n, q, ap p q)
          | inr (t, n) ↦
              let apart : eqb f.1.sequence t.sequence ≡ false =
                best-All (λ g. eqb f.1.sequence g.sequence ≡ false) p files t d.0 n in
              ground (arith, n, q, ap p q, apart)
        ])
      (λ e.
        let other : eqb s.sequence f.1.sequence ≡ false = sym (same-sequence s f b h.0) ∙ e in
        ap (older p f.1) (best-write p s files b h.1 d.1) ∙ swap other)
  where
    swap :
        eqb s.sequence f.1.sequence ≡ false
        → older p f.1 (newer p s (best p files)) ≡ newer p s (older p f.1 (best p files))
    swap other = elim (Option-cases (best p files)) [
      | inl n ↦ ground (arith, n)
      | inr (t, n) ↦ ground (arith, n)
    ]
