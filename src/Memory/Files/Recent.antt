-- ===== src/Memory/Files/Recent.antt =====
-- memory/contract_store.py, `ContractStore`: what load_latest_contract and load_previous_contract
-- find after any number of saves.
use ciwarden.Base.{
  ℕ, ◌<◌, String, ◌≡◌, refl, sym, ◌∙◌, ap, subst, Bool, true, none, List, [], ◌∷◌, if◌then◌else◌,
  ◌==◌, eq_iff, arith, ltb, filter, All, get-put, Bool-cases, inl, inr, if_ind,
}
use ciwarden.Memory.{ContractSummary}
use ciwarden.Memory.Files.{
  Files, FileStore, contract_filename, write, sorted, module_dir, save_contract,
  load_latest_contract, load_previous_contract, last_file,
}
use ciwarden.Memory.Files.Sorted.{IsNamed, last_where, best, sort-sequence, last_where-best}
use ciwarden.Memory.Files.Writes.{
  newer, most_recent, save_all, IsDistinct, write-IsNamed, write-IsDistinct, best-write,
}

-- A directory that only `save_contract` writes to.
abbrev IsKept : Files ContractSummary → Type 0
IsKept files = All IsNamed files × IsDistinct files

module_dir-save :
    (name : String) (s : ContractSummary) (store : FileStore)
    → module_dir name (save_contract s store) ≡ (
        if name == s.module_name
        then write (contract_filename s.sequence) s (module_dir s.module_name store)
        else module_dir name store)
unfolding save_contract
module_dir-save name s store = ground (
  arith,
  get-put name s.module_name
      (write (contract_filename s.sequence) s (module_dir s.module_name store)) store.contracts,
)

-- The test of a load, and what a save changes in what it finds.
best-save :
    (p : ℕ → Bool) (name : String) (s : ContractSummary) (store : FileStore)
    → s.sequence < 10000
    → IsKept (module_dir name store)
    → best p (module_dir name (save_contract s store)) ≡ (
        if name == s.module_name
        then newer p s (best p (module_dir name store))
        else best p (module_dir name store))
best-save p name s store b h = elim (Bool-cases (name == s.module_name)) [
  | inl e ↦
      let q : s.module_name ≡ name = ground (arith, eq_iff name s.module_name, e) in
      ap (best p) {y = write (contract_filename s.sequence) s (module_dir s.module_name store)}
        (module_dir-save name s store ∙ ground (arith, e))
      ∙ ap (λ m. best p (write (contract_filename s.sequence) s (module_dir m store))) q
      ∙ best-write p s (module_dir name store) b h.0 h.1
      ∙ ground (arith, e)
  | inr e ↦
      ap (best p) {y = module_dir name store} (module_dir-save name s store ∙ ground (arith, e))
      ∙ ground (arith, e)
]

save-IsKept :
    (name : String) (s : ContractSummary) (store : FileStore)
    → s.sequence < 10000
    → IsKept (module_dir name store)
    → IsKept (module_dir name (save_contract s store))
save-IsKept name s store b h = subst IsKept (sym (module_dir-save name s store)) (
    if_ind IsKept (name == s.module_name)
      (λ e.
        let q : name ≡ s.module_name = ground (arith, eq_iff name s.module_name, e) in
        let k : IsKept (module_dir s.module_name store) =
          subst (λ m. IsKept (module_dir m store)) q h in
        (write-IsNamed s _ b k.0, write-IsDistinct s _ b k.0 k.1))
      (λ e. h))

best-save_all :
    (p : ℕ → Bool) (name : String) (history : List ContractSummary) (store : FileStore)
    → All (λ s. s.sequence < 10000) history
    → IsKept (module_dir name store)
    → (best p (module_dir name (save_all history store))
        ≡ most_recent p name history (best p (module_dir name store)))
      × IsKept (module_dir name (save_all history store))
best-save_all p name [] store b h = (refl, h)
best-save_all p name (s ∷ history) store b h =
    let rest =
      best-save_all p name history (save_contract s store) b.1 (save-IsKept name s store b.0 h) in
    (rest.0 ∙ ap (most_recent p name history) (best-save p name s store b.0 h), rest.1)

sorted-best :
    (p : ℕ → Bool) (files : Files ContractSummary)
    → All IsNamed files
    → last_where p (sorted files) ≡ best p files
unfolding sorted
sorted-best p files h = ap (last_where p) (sort-sequence files h) ∙ last_where-best p files

filter-true : (files : Files ContractSummary) → filter (λ f. true) files ≡ files
filter-true [] = refl
filter-true (f ∷ files) = ap (λ l. f ∷ l) (filter-true files)

abbrev pub new_store : FileStore
new_store = record { contracts = []; checkpoints = []; session = none }

-- After any saves in a new store, in any order and of any modules, all of sequences below ten
-- thousand: load_latest_contract finds the contract of the module of the greatest sequence, and
-- load_previous_contract that of the greatest sequence below the bound; of two that were saved with
-- one sequence, the later one.
pub load_contract-Recent :
    (history : List ContractSummary) (name : String) (before : ℕ)
    → All (λ s. s.sequence < 10000) history
    → let store = save_all history new_store in
      (load_latest_contract name store ≡ most_recent (λ n. true) name history none)
      × (load_previous_contract name before store
          ≡ most_recent (λ n. ltb n before) name history none)
unfolding load_latest_contract load_previous_contract
load_contract-Recent history name before b =
    let store = save_all history new_store in
    let latest = best-save_all (λ n. true) name history new_store b (tt, tt) in
    let previous = best-save_all (λ n. ltb n before) name history new_store b (tt, tt) in
    (
      ap last_file (sym (filter-true (sorted (module_dir name store))))
          ∙ sorted-best (λ n. true) (module_dir name store) latest.1.0
          ∙ latest.0,
      sorted-best (λ n. ltb n before) (module_dir name store) previous.1.0 ∙ previous.0,
    )
