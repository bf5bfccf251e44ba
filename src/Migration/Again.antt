-- ===== src/Migration/Again.antt =====
-- scripts/migrate_contracts.py: a second run of the migration.
use ciwarden.Base.{
  ℕ, String, ◌≡◌, refl, sym, ◌∙◌, ap, Bool, true, false, none, some, List, [], ◌∷◌, if◌then◌else◌,
  ◌==◌, eq_iff, eq_refl, arith, eqb, elem, length, not, ◌&&◌, is_some, Dict, get, put, get-put,
  Bool-cases, Option-cases, inl, inr,
}
use ciwarden.Memory.{ContractSummary}
use ciwarden.Memory.Files.{Files, list_modules}
use ciwarden.Memory.Vdb.{Payload, Vdb}
use ciwarden.Migration.{
  Plan, plan_migration, ordered_sessions, payload_of, write_sessions, migrated, archived, Root,
  Receipt, written, write_receipt, run_migration,
}

put-same : (k : String) (v : Payload) (d : Dict Payload) → get k d ≡ some v → put k v d ≡ d
put-same k v [] h = absurd (ground arith)
put-same k v ((j, w) ∷ d) h = ground (arith, put-same k v d)

-- After the writing each of the sessions has its file.
pub get-write_sessions :
    (plan : Plan) (sids : List String) (d : Dict Payload) (sid : String)
    → get sid (write_sessions plan sids d)
      ≡ (if elem sid sids then some (payload_of plan sid) else get sid d)
get-write_sessions plan [] d sid = refl
get-write_sessions plan (s ∷ sids) d sid = elim (Bool-cases (sid == s)) [
  | inl e ↦
      let q : sid ≡ s = ground (arith, eq_iff sid s, e) in
      get-write_sessions plan sids (put s (payload_of plan s) d) sid
      ∙ ground (arith, e, get-put sid s (payload_of plan s) d, ap (payload_of plan) q)
  | inr e ↦
      get-write_sessions plan sids (put s (payload_of plan s) d) sid
      ∙ ground (arith, e, get-put sid s (payload_of plan s) d)
]

-- Writing files that are there changes nothing.
write-same :
    (plan : Plan) (sids : List String) (d : Dict Payload)
    → ((sid : String) → elem sid sids ≡ true → get sid d ≡ some (payload_of plan sid))
    → write_sessions plan sids d ≡ d
write-same plan [] d h = refl
write-same plan (s ∷ sids) d h =
    ap (write_sessions plan sids)
      (put-same s (payload_of plan s) d (h s (ground (arith, eq_refl s))))
    ∙ write-same plan sids d (λ sid m. h sid (ground (arith, m)))

write_twice :
    (plan : Plan) (sids : List String) (d : Dict Payload)
    → write_sessions plan sids (write_sessions plan sids d) ≡ write_sessions plan sids d
write_twice plan sids d =
    write-same plan sids (write_sessions plan sids d)
      (λ sid m. get-write_sessions plan sids d sid ∙ ground (arith, m))

migrated_twice : (plan : Plan) (vdb : Vdb) → migrated plan (migrated plan vdb) ≡ migrated plan vdb
migrated_twice plan vdb =
    ap (λ (s : Dict Payload). record (migrated plan vdb) { sessions = s })
      (write_twice plan (ordered_sessions plan) vdb.sessions)

abbrev planned : Root → Root
planned root = record root { vdb = migrated (plan_migration root.store) root.vdb }

-- What a run leaves that has something to migrate.
abbrev pub finished : String → ℕ → Root → Root
finished repo now root = record (archived (planned root)) {
  receipts = write_receipt now (written repo false (plan_migration root.store) root) root.receipts;
}

plan-empty :
    (repo : String) (now : ℕ) (root : Root)
    → root.archive ≡ none
    → plan_migration (finished repo now root).store ≡ []
unfolding plan_migration list_modules
plan-empty repo now root h = ground (arith, h)

pub run_root :
    (repo : String) (now : ℕ) (root : Root)
    → (run_migration repo now false root).1
      ≡ (if eqb (length (plan_migration root.store)) 0 then root else finished repo now root)
unfolding run_migration
run_root repo now root = elim (Bool-cases (eqb (length (plan_migration root.store)) 0)) [
  | inl e ↦ rw e refl
  | inr e ↦ rw e refl
]

run_receipt :
    (repo : String) (now : ℕ) (root : Root)
    → eqb (length (plan_migration root.store)) 0 ≡ false
    → (run_migration repo now false root).0
      ≡ record (written repo false (plan_migration root.store) root) { receipt_path = some now }
unfolding run_migration
run_receipt repo now root e = rw e refl

-- With an archive the tree of contracts stays, and a run changes the vector store and the receipts.
finished-stays :
    (repo : String) (now : ℕ) (root : Root) (old : Dict (Files ContractSummary))
    → root.archive ≡ some old
    → finished repo now root ≡ record root {
      vdb = migrated (plan_migration root.store) root.vdb;
      receipts =
          write_receipt now (written repo false (plan_migration root.store) root) root.receipts;
    }
finished-stays repo now root old a = ground (arith, a)

-- What the second run leaves, from what was there before the first: its receipt as well if there was
-- something to migrate and an archive, and else what the first run left.
abbrev pub after_two : String → ℕ → ℕ → Root → Root
after_two repo now later root =
    let once = run_migration repo now false root in
    if not (eqb (length (plan_migration root.store)) 0) && is_some root.archive
    then record once.1 {
      receipts = write_receipt later (record once.0 { receipt_path = none }) once.1.receipts;
    }
    else once.1

-- With an archive there at first, the second run writes the same session files again and a receipt.
twice-archived :
    (repo : String) (now later : ℕ) (root : Root) (old : Dict (Files ContractSummary))
    → eqb (length (plan_migration root.store)) 0 ≡ false
    → root.archive ≡ some old
    → (run_migration repo later false (finished repo now root)).1
      ≡ record (finished repo now root) {
        receipts =
            write_receipt later
              (written repo false (plan_migration root.store) root)
              (finished repo now root).receipts;
      }
twice-archived repo now later root old e a =
    let plan = plan_migration root.store in
    let receipt = written repo false plan root in
    let first : Root = record root {
      vdb = migrated plan root.vdb;
      receipts = write_receipt now receipt root.receipts;
    } in
    let stays : finished repo now root ≡ first = finished-stays repo now root old a in
    let again : Vdb → Root =
      λ v. record first { vdb = v; receipts = write_receipt later receipt first.receipts } in
    ap (λ (r : Root). (run_migration repo later false r).1) stays
    ∙ run_root repo later first
    ∙ ap (λ (b : Bool). if b then first else finished repo later first) e
    ∙ finished-stays repo later first old a
    ∙ ap again (migrated_twice plan root.vdb)
    ∙ ap (λ (r : Root). record r { receipts = write_receipt later receipt r.receipts }) (sym stays)

after_two-archived :
    (repo : String) (now later : ℕ) (root : Root) (old : Dict (Files ContractSummary))
    → eqb (length (plan_migration root.store)) 0 ≡ false
    → root.archive ≡ some old
    → after_two repo now later root ≡ record (finished repo now root) {
      receipts =
          write_receipt later
            (written repo false (plan_migration root.store) root)
            (finished repo now root).receipts;
    }
after_two-archived repo now later root old e a =
    let once : (run_migration repo now false root).1 ≡ finished repo now root =
      run_root repo now root ∙ ground (arith, e) in
    let with_receipt : Receipt → Root → Root = λ r done. record done {
      receipts = write_receipt later (record r { receipt_path = none }) done.receipts;
    } in
    ground (arith, e, a)
    ∙ ap (λ (r : Receipt). with_receipt r (run_migration repo now false root).1)
        (run_receipt repo now root e)
    ∙ ap
        (λ (r : Root).
          with_receipt
            (record (written repo false (plan_migration root.store) root) {
              receipt_path = some now;
            })
            r)
        once

-- A second run leaves everything under the root as the first run left it, if there was nothing to
-- migrate at first or no archive of the contracts. Else the contracts have stayed, and the second run
-- migrates them again: all is as the first run left it, with the receipt of the second run written
-- beside, which says the same as the first run's and has the second run's time for a name.
pub run_migration_twice :
    (repo : String) (now later : ℕ) (root : Root)
    → (run_migration repo later false (run_migration repo now false root).1).1
      ≡ after_two repo now later root
run_migration_twice repo now later root =
    elim (Bool-cases (eqb (length (plan_migration root.store)) 0)) [
      | inl e ↦
          let same : (run_migration repo now false root).1 ≡ root =
            run_root repo now root ∙ ground (arith, e) in
          ap (λ (r : Root). (run_migration repo later false r).1) same
          ∙ run_root repo later root
          ∙ ground (arith, e, same)
      | inr e ↦
          let once : (run_migration repo now false root).1 ≡ finished repo now root =
            run_root repo now root ∙ ground (arith, e) in
          let second = ap (λ (r : Root). (run_migration repo later false r).1) once in
          elim (Option-cases root.archive) [
            | inl a ↦
                second
                ∙ run_root repo later (finished repo now root)
                ∙ ap
                    (λ (p : Plan).
                      if eqb (length p) 0
                      then finished repo now root
                      else finished repo later (finished repo now root))
                    (plan-empty repo now root a)
                ∙ sym once
                ∙ ground (arith, e, a)
            | inr (old, a) ↦
                second
                ∙ twice-archived repo now later root old e a
                ∙ sym (after_two-archived repo now later root old e a)
          ]
    ]
