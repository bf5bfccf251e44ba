-- ===== src/Memory/FileGate/Baseline.antt =====
-- memory/memory_gate.py: the baselines of a solo run on the file-based store.
use ciwarden.Base.{
  ℕ, ◌<◌, String, ◌≡◌, refl, sym, ◌∙◌, ap, Bool, true, false, Option, none, some, List, [], ◌∷◌,
  ◌++◌, arith, ltb, All, All-append, All-map, append_assoc, append-nil, Dict, Option-cases, inl,
  inr,
}
use ciwarden.Memory.{ContractSummary, Session}
use ciwarden.Memory.Files.{
  FileStore, save_contract, load_latest_contract, load_previous_contract, get_or_create_session,
  advance_session,
}
use ciwarden.Memory.Files.Writes.{most_recent, save_all}
use ciwarden.Memory.Files.Recent.{new_store, load_contract-Recent}
use ciwarden.Memory.Gate.{Setting, Progress, no_progress}
use ciwarden.Memory.FileGate.{Disk, compared, visit_files, verdict, begun, is_cached, execute_solo}

-- The loop that only reads: each module against the contract that `latest` has for it.
abbrev pub score_all :
    Setting → (String → Option ContractSummary) → Session → Dict String → Progress → Option Progress
score_all g latest session [] p = some p
score_all g latest session ((m, source) ∷ files) p =
    elim (g.extract source m session.current_generation_id session.current_sequence) [
      | none ↦ none
      | some summary ↦ score_all g latest session files (compared g m (latest m) summary p)
    ]

-- A summary that the client gives has the sequence that it was asked for.
abbrev pub IsStamped : Setting → Type 0
IsStamped g =
    (source m generation : String) (n : ℕ) (s : ContractSummary)
    → g.extract source m generation n ≡ some s
    → s.sequence ≡ n

save_all-snoc :
    (history : List ContractSummary) (s : ContractSummary) (store : FileStore)
    → save_all (history ++ s ∷ []) store ≡ save_contract s (save_all history store)
save_all-snoc [] s store = refl
save_all-snoc (t ∷ history) s store = save_all-snoc history s (save_contract t store)

most_recent-append :
    (p : ℕ → Bool) (name : String) (xs ys : List ContractSummary) (o : Option ContractSummary)
    → most_recent p name (xs ++ ys) o ≡ most_recent p name ys (most_recent p name xs o)
most_recent-append p name [] ys o = refl
most_recent-append p name (x ∷ xs) ys o = most_recent-append p name xs ys _

-- The contracts of this sequence are not below it, and the earlier ones all are.
most_recent-now :
    (n : ℕ) (name : String) (done : List ContractSummary) (o : Option ContractSummary)
    → All (λ s. s.sequence ≡ n) done
    → most_recent (λ k. ltb k n) name done o ≡ o
most_recent-now n name [] o h = refl
most_recent-now n name (s ∷ done) o h =
    ap (most_recent (λ k. ltb k n) name done) {y = o} (ground (arith, h.0))
    ∙ most_recent-now n name done o h.1

most_recent-below :
    (n : ℕ) (name : String) (history : List ContractSummary) (o : Option ContractSummary)
    → All (λ s. s.sequence < n) history
    → most_recent (λ k. ltb k n) name history o ≡ most_recent (λ k. true) name history o
most_recent-below n name [] o h = refl
most_recent-below n name (s ∷ history) o h =
    most_recent-below n name history _ h.1
    ∙ ap (most_recent (λ k. true) name history) (ground (arith, h.0))

-- The loads read the directories of the contracts only.
previous-same :
    (name : String) (n : ℕ) (a b : FileStore)
    → a.contracts ≡ b.contracts
    → load_previous_contract name n a ≡ load_previous_contract name n b
unfolding load_previous_contract
previous-same name n a b e =
    ap (λ c. load_previous_contract name n (record new_store { contracts = c })) e

latest-same :
    (name : String) (a b : FileStore)
    → a.contracts ≡ b.contracts
    → load_latest_contract name a ≡ load_latest_contract name b
unfolding load_latest_contract
latest-same name a b e = ap (λ c. load_latest_contract name (record new_store { contracts = c })) e

saved-same :
    (s : ContractSummary) (a b : FileStore)
    → a.contracts ≡ b.contracts
    → (save_contract s a).contracts ≡ (save_contract s b).contracts
unfolding save_contract
saved-same s a b e = ap (λ c. (save_contract s (record new_store { contracts = c })).contracts) e

begun-same : (g : Setting) (store : FileStore) → (begun g store).1.contracts ≡ store.contracts
unfolding get_or_create_session advance_session
begun-same g store = elim (Option-cases store.session) [
  | inl e ↦ ground (arith, e)
  | inr (s, e) ↦ ground (arith, e)
]

module _ (g : Setting) (stamped : IsStamped g) (session : Session) (history : List ContractSummary)
    (small : session.current_sequence < 10000)
    (before : All (λ s. s.sequence < session.current_sequence) history) where
  -- The previous contract, in the midst of the loop, is the latest one before it.
  baseline-latest :
      (m : String) (done : List ContractSummary)
      → All (λ s. s.sequence ≡ session.current_sequence) done
      → load_previous_contract m session.current_sequence (save_all (history ++ done) new_store)
        ≡ load_latest_contract m (save_all history new_store)
  baseline-latest m done now =
      let n = session.current_sequence in
      let low =
        All-map _ (λ s. s.sequence < 10000) history (λ s h. omega (arith, h, small)) before in
      let top = All-map _ (λ s. s.sequence < 10000) done (λ s h. omega (arith, h, small)) now in
      (load_contract-Recent (history ++ done) m n (All-append _ history done low top)).1
      ∙ most_recent-append (λ k. ltb k n) m history done none
      ∙ most_recent-now n m done _ now
      ∙ most_recent-below n m history none before
      ∙ sym (load_contract-Recent history m n low).0

  visit_files-score_all :
      (latest : String → Option ContractSummary) (files : Dict String) (done : List ContractSummary)
      (p : Progress) (store : FileStore)
      → ((m : String) → load_latest_contract m (save_all history new_store) ≡ latest m)
      → All (λ s. s.sequence ≡ session.current_sequence) done
      → store.contracts ≡ (save_all (history ++ done) new_store).contracts
      → (visit_files g session files p store).0 ≡ score_all g latest session files p
  unfolding visit_files
  visit_files-score_all latest [] done p store same now e = refl
  visit_files-score_all latest ((m, source) ∷ files) done p store same now e =
      elim (Option-cases
        (g.extract source m session.current_generation_id session.current_sequence)) [
          | inl x ↦ ground (arith, x)
          | inr (s, x) ↦
              let now' =
                All-append _ done (s ∷ []) now (
                  stamped source m session.current_generation_id session.current_sequence s x,
                  tt,
                ) in
              let kept : (save_contract s store).contracts
                  ≡ (save_all (history ++ (done ++ s ∷ [])) new_store).contracts =
                saved-same s store (save_all (history ++ done) new_store) e
                ∙ ap (λ (f : FileStore). f.contracts)
                    (sym (save_all-snoc (history ++ done) s new_store))
                ∙ ap (λ l. (save_all l new_store).contracts) (append_assoc history done (s ∷ [])) in
              let base =
                previous-same m session.current_sequence (save_contract s store) _ kept
                ∙ baseline-latest m (done ++ s ∷ []) now'
                ∙ same m in
              let next =
                visit_files-score_all latest files (done ++ s ∷ []) (compared g m (latest m) s p)
                  (save_contract s store) same now' kept in
              ground (arith, x, base, next)
        ]

-- A solo run that does not answer from its cache gives the answer of a loop that scores each module
-- against the contract that load_latest_contract had for it before the run, although the run saves
-- contracts in between. The directories have what was saved so far, each contract of a sequence below
-- the one of this run, which is below ten thousand; and the client stamps its summaries with the
-- sequence it is given. The client may raise.
pub execute_solo-Latest :
    (g : Setting) (history : List ContractSummary) (f : String × String) (files : Dict String)
    (disk : Disk)
    → IsStamped g
    → disk.store.contracts ≡ (save_all history new_store).contracts
    → (begun g disk.store).0.current_sequence < 10000
    → All (λ s. s.sequence < (begun g disk.store).0.current_sequence) history
    → is_cached g (f ∷ files) disk ≡ false
    → (execute_solo g (f ∷ files) disk).0
      ≡ verdict g (begun g disk.store).0 (
          score_all g
            (λ m. load_latest_contract m disk.store)
            (begun g disk.store).0
            (f ∷ files)
            no_progress)
unfolding execute_solo
execute_solo-Latest g history f files disk stamped e small before fresh =
    let start = begun g disk.store in
    let loop =
      visit_files-score_all g stamped start.0 history small before
        (λ m. load_latest_contract m disk.store) (f ∷ files) [] no_progress start.1
        (λ m. latest-same m (save_all history new_store) disk.store (sym e)) tt
        (begun-same g disk.store
          ∙ e
          ∙ ap (λ l. (save_all l new_store).contracts) (sym (append-nil history))) in
    rw fresh (ap (verdict g start.0) loop)
