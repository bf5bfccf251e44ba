-- ===== src/Migration/Keeps.antt =====
-- scripts/migrate_contracts.py: what the vector store has after a migration.
use ciwarden.Base.{
  ℕ, ◌≤◌, String, ◌≡◌, refl, sym, subst, ◌∙◌, ap, true, false, some, List, [], ◌∷◌, ◌==◌, eq_iff,
  eq_refl, arith, leb, eqb, elem, elem-keys, is_some, length, All, All-map, Dict, get, keys,
  get-put, if_ind, Bool-cases, Option-cases, inl, inr,
}
use ciwarden.Base.Sort.{elem-sort}
use ciwarden.Memory.{ContractSummary}
use ciwarden.Memory.Files.{FileStore, list_modules, list_contracts}
use ciwarden.Memory.Vdb.{Payload, Vdb}
use ciwarden.Migration.{
  session_of, Plan, modules_of, takes, updated, add_contract, add_contracts, add_modules,
  plan_migration, max_seq, ordered_sessions, payload_of, migrated, Root, run_migration,
}
use ciwarden.Migration.Again.{get-write_sessions, finished, run_root}
use ciwarden.Migration.Origin.{In, IsFrom, modules_of-add, plan_migration-IsFrom}

-- The modules of a session have this one, with a contract of this sequence at least.
abbrev HasFrom : String → ℕ → Dict ContractSummary → Type 0
HasFrom name n modules = (t : ContractSummary) × (get name modules ≡ some t) × (n ≤ t.sequence)

updated-keeps :
    (m name : String) (n : ℕ) (s : ContractSummary) (modules : Dict ContractSummary)
    → HasFrom m n modules
    → HasFrom m n (updated name s modules)
updated-keeps m name n s modules (t, e, le) =
    if_ind (HasFrom m n) (takes s (get name modules))
      (λ c. elim (Bool-cases (m == name)) [
        | inl q ↦
            let same : get name modules ≡ some t = ground (arith, eq_iff m name, q, e) in
            let later : t.sequence ≤ s.sequence = ground (arith, ap (takes s) same, c) in
            (s, get-put m name s modules ∙ ground (arith, q), omega (arith, le, later))
        | inr q ↦ (t, get-put m name s modules ∙ ground (arith, q, e), le)
      ])
      (λ c. (t, e, le))

updated-has :
    (name : String) (s : ContractSummary) (modules : Dict ContractSummary)
    → HasFrom name s.sequence (updated name s modules)
updated-has name s modules =
    if_ind (HasFrom name s.sequence) (takes s (get name modules))
      (λ c. (s, get-put name name s modules ∙ ground (arith, eq_refl name), omega arith))
      (λ c. elim (Option-cases (get name modules)) [
        | inl e ↦ absurd (ground (arith, ap (takes s) e, c))
        | inr (t, e) ↦ (t, e, ground (arith, ap (takes s) e, c))
      ])

abbrev Planned : String → String → ℕ → Plan → Type 0
Planned sid name n plan = HasFrom name n (modules_of sid plan)

-- The sequence of the module's contract does not fall.
add_contract-Planned :
    (sid m name : String) (n : ℕ) (s : ContractSummary) (plan : Plan)
    → Planned sid m n plan
    → Planned sid m n (add_contract name s plan)
add_contract-Planned sid m name n s plan h =
    let own = session_of s.generation_id in
    subst (HasFrom m n) (sym (modules_of-add sid name s plan)) (
      if_ind (HasFrom m n) (sid == own)
        (λ c.
          let q : sid ≡ own = ground (arith, eq_iff sid own, c) in
          updated-keeps m name n s (modules_of own plan)
            (subst (λ t. HasFrom m n (modules_of t plan)) q h))
        (λ c. h))

add_contract-own :
    (name : String) (s : ContractSummary) (plan : Plan)
    → Planned (session_of s.generation_id) name s.sequence (add_contract name s plan)
add_contract-own name s plan =
    let own = session_of s.generation_id in
    subst (HasFrom name s.sequence)
      (sym (modules_of-add own name s plan ∙ ground (arith, eq_refl own)))
      (updated-has name s (modules_of own plan))

add_contracts-Planned :
    (sid m name : String) (n : ℕ) (summaries : List ContractSummary) (plan : Plan)
    → Planned sid m n plan
    → Planned sid m n (add_contracts name summaries plan)
add_contracts-Planned sid m name n [] plan h = h
add_contracts-Planned sid m name n (s ∷ summaries) plan h =
    add_contracts-Planned sid m name n summaries (add_contract name s plan)
      (add_contract-Planned sid m name n s plan h)

add_modules-Planned :
    (sid m : String) (n : ℕ) (store : FileStore) (names : List String) (plan : Plan)
    → Planned sid m n plan
    → Planned sid m n (add_modules store names plan)
add_modules-Planned sid m n store [] plan h = h
add_modules-Planned sid m n store (name ∷ names) plan h =
    add_modules-Planned sid m n store names (add_contracts name (list_contracts name store) plan)
      (add_contracts-Planned sid m name n (list_contracts name store) plan h)

abbrev InPlan : Plan → String → ContractSummary → Type 0
InPlan plan name s = Planned (session_of s.generation_id) name s.sequence plan

add_contracts-All :
    (name : String) (summaries : List ContractSummary) (plan : Plan)
    → All (InPlan (add_contracts name summaries plan) name) summaries
add_contracts-All name [] plan = tt
add_contracts-All name (s ∷ summaries) plan = (
  add_contracts-Planned (session_of s.generation_id) name name s.sequence summaries
      (add_contract name s plan) (add_contract-own name s plan),
  add_contracts-All name summaries (add_contract name s plan),
)

add_modules-All :
    (store : FileStore) (names : List String) (plan : Plan)
    → All
        (λ name. All (InPlan (add_modules store names plan) name) (list_contracts name store))
        names
add_modules-All store [] plan = tt
add_modules-All store (name ∷ names) plan =
    let next = add_contracts name (list_contracts name store) plan in
    (
      All-map (InPlan next name) (InPlan (add_modules store names next) name)
          (list_contracts name store)
          (λ s h.
            add_modules-Planned (session_of s.generation_id) name s.sequence store names next h)
          (add_contracts-All name (list_contracts name store) plan),
      add_modules-All store names next,
    )

-- The session of the contract `s` has a file, of that session, and the module has there a contract
-- that is one of the module's in the file-based store with all its fields, of the same session, and
-- whose sequence is that of `s` at least.
abbrev pub IsMigrated : Vdb → FileStore → String → ContractSummary → Type 0
IsMigrated vdb store name s =
    (payload : Payload) × (get (session_of s.generation_id) vdb.sessions ≡ some payload)
    × (payload.session_id ≡ session_of s.generation_id)
    × (t : ContractSummary) × (get name payload.modules ≡ some t)
    × In t (list_contracts name store)
    × (session_of t.generation_id ≡ session_of s.generation_id)
    × (s.sequence ≤ t.sequence)

nothing-InPlan :
    (plan : Plan) (name : String) (s : ContractSummary)
    → eqb (length plan) 0 ≡ true
    → InPlan plan name s
    → ⊥
nothing-InPlan [] name s h (t, e, le) = absurd (ground (arith, e))
nothing-InPlan (m ∷ plan) name s h k = absurd (ground arith)

finished-vdb :
    (repo : String) (now : ℕ) (root : Root)
    → (finished repo now root).vdb ≡ migrated (plan_migration root.store) root.vdb
finished-vdb repo now root = ground arith

migrated-InPlan :
    (plan : Plan) (store : FileStore) (vdb : Vdb) (name : String) (s : ContractSummary)
    → IsFrom store plan
    → InPlan plan name s
    → IsMigrated (migrated plan vdb) store name s
unfolding ordered_sessions
migrated-InPlan plan store vdb name s from (t, e, le) =
    let sid = session_of s.generation_id in
    let there : is_some (get sid plan) ≡ true = elim (Option-cases (get sid plan)) [
      | inl n ↦ absurd (ground (arith, n, e))
      | inr (modules, q) ↦ ground (arith, q)
    ] in
    let listed : elem sid (ordered_sessions plan) ≡ true =
      elem-sort (λ a b. leb (max_seq plan a) (max_seq plan b)) sid (keys plan)
      ∙ elem-keys sid plan
      ∙ there in
    (
      payload_of plan sid,
      get-write_sessions plan (ordered_sessions plan) vdb.sessions sid ∙ ground (arith, listed),
      refl,
      t,
      e,
      (from sid name t e).0,
      (from sid name t e).1,
      le,
    )

-- A migration loses no contract: for each contract file of the file-based store the vector store has
-- a session file of the contract's session, in which the module has this contract or another of the
-- module's contracts in the file-based store, unchanged in every field, of the same session and of a
-- sequence that is as great at least.
pub run_migration-Keeps :
    (repo : String) (now : ℕ) (root : Root)
    → All
        (λ name.
          All
            (IsMigrated (run_migration repo now false root).1.vdb root.store name)
            (list_contracts name root.store))
        (list_modules root.store)
unfolding plan_migration
run_migration-Keeps repo now root =
    let plan = plan_migration root.store in
    elim (Bool-cases (eqb (length plan) 0)) [
      | inl e ↦
          All-map _ _ (list_modules root.store)
            (λ name h.
              All-map _ _ (list_contracts name root.store)
                (λ s k. absurd (nothing-InPlan plan name s e k)) h)
            (add_modules-All root.store (list_modules root.store) [])
      | inr e ↦
          let full : (run_migration repo now false root).1.vdb ≡ migrated plan root.vdb =
            ap (λ (r : Root). r.vdb) {y = finished repo now root}
              (run_root repo now root ∙ ground (arith, e))
            ∙ finished-vdb repo now root in
          subst
            (λ (vdb : Vdb).
              All (λ name. All (IsMigrated vdb root.store name) (list_contracts name root.store))
                (list_modules root.store))
            (sym full)
            (All-map _ _ (list_modules root.store)
              (λ name h.
                All-map _ _ (list_contracts name root.store)
                  (λ s k.
                    migrated-InPlan plan root.store root.vdb name s
                      (plan_migration-IsFrom root.store) k)
                  h)
              (add_modules-All root.store (list_modules root.store) []))
    ]
