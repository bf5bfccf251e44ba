-- ===== src/Migration/Origin.antt =====
-- scripts/migrate_contracts.py: where the planned contracts come from.
use ciwarden.Base.{
  ◌⊎◌, String, ◌≡◌, refl, sym, subst, some, List, [], ◌∷◌, if◌then◌else◌, ◌==◌, eq_iff, arith, All,
  All-map, get, get-put, if_ind, Bool-cases, inl, inr, Dict,
}
use ciwarden.Memory.{ContractSummary}
use ciwarden.Memory.Files.{FileStore, list_modules, list_contracts}
use ciwarden.Migration.{
  session_of, Plan, modules_of, takes, updated, add_contract, add_contracts, add_modules,
  plan_migration,
}

pub modules_of-add :
    (sid name : String) (s : ContractSummary) (plan : Plan)
    → modules_of sid (add_contract name s plan) ≡ (
        if sid == session_of s.generation_id
        then updated name s (modules_of (session_of s.generation_id) plan)
        else modules_of sid plan)
modules_of-add sid name s plan =
    let own = session_of s.generation_id in
    let modules = modules_of own plan in
    ground (arith, get-put sid own (updated name s modules) plan)

-- The summary itself is one of these.
abbrev pub In : ContractSummary → List ContractSummary → Type 0
In t [] = ⊥
In t (s ∷ summaries) = (t ≡ s) ⊎ In t summaries

In-self : (summaries : List ContractSummary) → All (λ t. In t summaries) summaries
In-self [] = tt
In-self (s ∷ summaries) = (
  inl refl,
  All-map (λ t. In t summaries) (λ t. In t (s ∷ summaries)) summaries (λ t h. inr h)
      (In-self summaries),
)

abbrev Comes : FileStore → String → String → ContractSummary → Type 0
Comes store sid name t = In t (list_contracts name store) × (session_of t.generation_id ≡ sid)

abbrev AllCome : FileStore → String → Dict ContractSummary → Type 0
AllCome store sid modules =
    (name : String) (t : ContractSummary) → get name modules ≡ some t → Comes store sid name t

-- Each planned contract of a module is one of the module's in the store, and of its session.
abbrev pub IsFrom : FileStore → Plan → Type 0
IsFrom store plan = (sid : String) → AllCome store sid (modules_of sid plan)

updated-AllCome :
    (store : FileStore) (sid name : String) (s : ContractSummary) (modules : Dict ContractSummary)
    → Comes store sid name s
    → AllCome store sid modules
    → AllCome store sid (updated name s modules)
updated-AllCome store sid name s modules own h =
    if_ind (AllCome store sid) (takes s (get name modules))
      (λ _ m t e. elim (Bool-cases (m == name)) [
        | inl q ↦
            let same : s ≡ t = ground (arith, q, get-put m name s modules, e) in
            let there : name ≡ m = ground (arith, eq_iff m name, q) in
            subst (λ k. Comes store sid k t) there (subst (Comes store sid name) same own)
        | inr q ↦ h m t (ground (arith, q, get-put m name s modules, e))
      ])
      (λ _. h)

add_contract-IsFrom :
    (store : FileStore) (name : String) (s : ContractSummary) (plan : Plan)
    → In s (list_contracts name store)
    → IsFrom store plan
    → IsFrom store (add_contract name s plan)
add_contract-IsFrom store name s plan i h sid =
    let own = session_of s.generation_id in
    subst (AllCome store sid) (sym (modules_of-add sid name s plan)) (
      if_ind (AllCome store sid) (sid == own)
        (λ c.
          let q : own ≡ sid = ground (arith, eq_iff sid own, c) in
          subst (λ k. AllCome store k (updated name s (modules_of own plan))) q
            (updated-AllCome store own name s (modules_of own plan) (i, refl) (h own)))
        (λ _. h sid))

add_contracts-IsFrom :
    (store : FileStore) (name : String) (summaries : List ContractSummary) (plan : Plan)
    → All (λ s. In s (list_contracts name store)) summaries
    → IsFrom store plan
    → IsFrom store (add_contracts name summaries plan)
add_contracts-IsFrom store name [] plan all h = h
add_contracts-IsFrom store name (s ∷ summaries) plan (i, all) h =
    add_contracts-IsFrom store name summaries (add_contract name s plan) all
      (add_contract-IsFrom store name s plan i h)

add_modules-IsFrom :
    (store : FileStore) (names : List String) (plan : Plan)
    → IsFrom store plan
    → IsFrom store (add_modules store names plan)
add_modules-IsFrom store [] plan h = h
add_modules-IsFrom store (name ∷ names) plan h =
    add_modules-IsFrom store names (add_contracts name (list_contracts name store) plan) (
      add_contracts-IsFrom store name (list_contracts name store) plan
        (In-self (list_contracts name store)) h)

pub plan_migration-IsFrom : (store : FileStore) → IsFrom store (plan_migration store)
unfolding plan_migration
plan_migration-IsFrom store =
    add_modules-IsFrom store (list_modules store) [] (λ sid name t e. absurd (ground (arith, e)))
