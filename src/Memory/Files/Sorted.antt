-- ===== src/Memory/Files/Sorted.antt =====
-- memory/contract_store.py, `ContractStore`: which file of a directory the loads choose.
use ciwarden.Base.{
  ℕ, ◌<◌, ◌≤◌, ◌≡◌, refl, sym, ◌∙◌, ap, subst, Bool, true, false, Option, none, some, [], ◌∷◌,
  if◌then◌else◌, arith, leb, filter, All, All-map, Option-cases, inl, inr, if_ind,
}
use ciwarden.Base.Sort.{sort, insert, All-insert}
use ciwarden.Memory.{ContractSummary}
use ciwarden.Memory.Files.{Name, Files, contract_filename, name_le, by_name, last_file}
use ciwarden.Memory.Files.Names.{name_le-filename}

-- The files in the order of their sequences.
abbrev pub by_sequence : Name × ContractSummary → Name × ContractSummary → Bool
by_sequence a b = leb a.1.sequence b.1.sequence

abbrev pub IsNamed : Name × ContractSummary → Type 0
IsNamed f = (f.0 ≡ contract_filename f.1.sequence) × (f.1.sequence < 10000)

by_name-sequence :
    (f g : Name × ContractSummary) → IsNamed f → IsNamed g → by_name f g ≡ by_sequence f g
by_name-sequence f g h k =
    ap (λ n. name_le n g.0) h.0
    ∙ ap (λ n. name_le (contract_filename f.1.sequence) n) k.0
    ∙ name_le-filename f.1.sequence g.1.sequence h.1 k.1

insert-sequence :
    (f : Name × ContractSummary) (files : Files ContractSummary)
    → IsNamed f
    → All IsNamed files
    → insert by_name f files ≡ insert by_sequence f files
insert-sequence f [] h k = refl
insert-sequence f (g ∷ files) h k =
    ground (arith, by_name-sequence f g h k.0, insert-sequence f files h k.1)

sort-IsNamed :
    (files : Files ContractSummary) → All IsNamed files → All IsNamed (sort by_sequence files)
sort-IsNamed [] h = tt
sort-IsNamed (f ∷ files) h =
    All-insert by_sequence IsNamed f (sort by_sequence files) h.0 (sort-IsNamed files h.1)

pub sort-sequence :
    (files : Files ContractSummary)
    → All IsNamed files
    → sort by_name files ≡ sort by_sequence files
sort-sequence [] h = refl
sort-sequence (f ∷ files) h =
    ap (insert by_name f) (sort-sequence files h.1)
    ∙ insert-sequence f (sort by_sequence files) h.0 (sort-IsNamed files h.1)

abbrev IsSorted : Files ContractSummary → Type 0
IsSorted [] = Unit
IsSorted (f ∷ files) = All (λ g. f.1.sequence ≤ g.1.sequence) files × IsSorted files

insert-IsSorted :
    (f : Name × ContractSummary) (files : Files ContractSummary)
    → IsSorted files
    → IsSorted (insert by_sequence f files)
insert-IsSorted f [] h = (tt, tt)
insert-IsSorted f (g ∷ files) h =
    if_ind IsSorted (by_sequence f g)
      (λ e.
        let le : f.1.sequence ≤ g.1.sequence = ground arith in
        ((le, All-map _ (λ k. f.1.sequence ≤ k.1.sequence) files (λ k t. omega (arith, t)) h.0), h))
      (λ e. (
        All-insert by_sequence (λ k. g.1.sequence ≤ k.1.sequence) f files (ground arith) h.0,
        insert-IsSorted f files h.1,
      ))

sort-IsSorted : (files : Files ContractSummary) → IsSorted (sort by_sequence files)
sort-IsSorted [] = tt
sort-IsSorted (f ∷ files) = insert-IsSorted f (sort by_sequence files) (sort-IsSorted files)

-- The last file whose sequence passes the test.
abbrev pub last_where : (ℕ → Bool) → Files ContractSummary → Option ContractSummary
last_where p files = last_file (filter (λ f. p f.1.sequence) files)

-- A file that comes before those in `o`: of equal sequences it is the first.
abbrev pub older : (ℕ → Bool) → ContractSummary → Option ContractSummary → Option ContractSummary
older p s o =
    if p s.sequence
    then elim o [ none ↦ some s | some t ↦ if leb s.sequence t.sequence then some t else some s ]
    else o

abbrev front : (ℕ → Bool) → ContractSummary → Option ContractSummary → Option ContractSummary
front p s o = if p s.sequence then elim o [ none ↦ some s | some t ↦ some t ] else o

last_where-front :
    (p : ℕ → Bool) (f : Name × ContractSummary) (files : Files ContractSummary)
    → last_where p (f ∷ files) ≡ front p f.1 (last_where p files)
last_where-front p f files = ground arith

last_where-All :
    (Q : ContractSummary → Type 0) (p : ℕ → Bool) (files : Files ContractSummary)
    (t : ContractSummary)
    → All (λ f. Q f.1) files
    → last_where p files ≡ some t
    → Q t
last_where-All Q p [] t h e = absurd (cc)
last_where-All Q p (f ∷ files) t h e = elim (Option-cases (last_where p files)) [
  | inl n ↦
      let same : f.1 ≡ t = ground (arith, n, e, last_where-front p f files) in subst Q same h.0
  | inr (u, n) ↦
      let same : u ≡ t = ground (arith, n, e, last_where-front p f files) in
      subst Q same (last_where-All Q p files u h.1 n)
]

last_where-insert :
    (p : ℕ → Bool) (f : Name × ContractSummary) (files : Files ContractSummary)
    → IsSorted files
    → last_where p (insert by_sequence f files) ≡ older p f.1 (last_where p files)
last_where-insert p f [] h = ground arith
last_where-insert p f (g ∷ files) h =
    if_ind (λ l. last_where p l ≡ older p f.1 (last_where p (g ∷ files))) (by_sequence f g)
      (λ e. last_where-front p f (g ∷ files) ∙ first e)
      (λ e.
        last_where-front p g (insert by_sequence f files)
        ∙ ap (front p g.1) (last_where-insert p f files h.1)
        ∙ between e
        ∙ ap (older p f.1) (sym (last_where-front p g files)))
  where
    first :
        by_sequence f g ≡ true
        → front p f.1 (last_where p (g ∷ files)) ≡ older p f.1 (last_where p (g ∷ files))
    first e = elim (Option-cases (last_where p (g ∷ files))) [
      | inl n ↦ ground (arith, n)
      | inr (t, n) ↦
          let above : f.1.sequence ≤ t.sequence =
            last_where-All (λ k. f.1.sequence ≤ k.sequence) p (g ∷ files) t
              (
                ground arith,
                All-map _ (λ k. f.1.sequence ≤ k.1.sequence) files (λ k t. ground (arith, t)) h.0,
              )
              n in
          ground (arith, n, above)
    ]

    between :
        by_sequence f g ≡ false
        → front p g.1 (older p f.1 (last_where p files))
          ≡ older p f.1 (front p g.1 (last_where p files))
    between e = elim (Option-cases (last_where p files)) [
      | inl n ↦ ground (arith, n)
      | inr (t, n) ↦ ground (arith, n)
    ]

-- The choice of the last file, without the sorting.
abbrev pub best : (ℕ → Bool) → Files ContractSummary → Option ContractSummary
best p [] = none
best p (f ∷ files) = older p f.1 (best p files)

pub last_where-best :
    (p : ℕ → Bool) (files : Files ContractSummary)
    → last_where p (sort by_sequence files) ≡ best p files
last_where-best p [] = refl
last_where-best p (f ∷ files) =
    last_where-insert p f (sort by_sequence files) (sort-IsSorted files)
    ∙ ap (older p f.1) (last_where-best p files)
