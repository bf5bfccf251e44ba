-- ===== src/Queue/Rows.antt =====
-- Well-formed tables of the commit queue: identifiers grow, and each row's columns fit its status.
use ciwarden.Base.{
  ℕ, suc, ◌≤◌, ◌<◌, String, ◌≡◌, refl, Bool, true, false, ◌&&◌, ◌||◌, not, Option, none, some, List,
  [], ◌∷◌, ◌++◌, ◌==◌, eqb, arith, all, is_some, Bool-cases, inl, inr, eq_refl,
}
use ciwarden.Queue.{
  Status, pending, processing, done, failed, Commit, TokenRow, Queue, update, update_one,
  set_processing, set_done, set_failed, mark_failed, init_db, is_pending,
}
use ciwarden.Queue.Worker.Cases.{process_ind, done_with, token_row}
use ciwarden.Queue.Worker.{World, process_entry, recover}

-- The identifiers grow from `lo` and stay below `hi`.
abbrev pub IsIncreasing : ℕ → List Commit → ℕ → Type 0
IsIncreasing lo [] hi = lo ≤ hi
IsIncreasing lo (c ∷ cs) hi = (lo ≤ c.id) × IsIncreasing (suc c.id) cs hi

-- A token row of the entry, with its sha.
abbrev pub stored : String → ℕ → String → List TokenRow → Bool
stored t id sha [] = false
stored t id sha (row ∷ rows) =
    t == row.token && (eqb row.commit_entry_id id && row.commit_sha == sha) || stored t id sha rows

abbrev pub has_queue_token : List TokenRow → Commit → Bool
has_queue_token tokens c = elim c.queue_token [
  | none ↦ false
  | some t ↦ elim c.commit_sha [ none ↦ false | some sha ↦ stored t c.id sha tokens ]
]

abbrev pub no_tokens : Commit → Bool
no_tokens c = not (is_some c.merge_token) && not (is_some c.queue_token)

-- The columns that fit the status. A row that is done has a merge token, and a queue token that is
-- stored for its id and its sha.
abbrev pub row_ok : List TokenRow → Commit → Bool
row_ok tokens c = elim c.status [
  | pending ↦
      not (is_some c.started_at)
      && (not (is_some c.finished_at) && (not (is_some c.error) && no_tokens c))
  | processing ↦
      is_some c.started_at
      && (not (is_some c.finished_at) && (not (is_some c.error) && no_tokens c))
  | done ↦
      is_some c.started_at
      && (is_some c.finished_at
          && (not (is_some c.error) && (is_some c.merge_token && has_queue_token tokens c)))
  | failed ↦ is_some c.started_at && (is_some c.finished_at && (is_some c.error && no_tokens c))
]

pub record IsValid (q : Queue) : Type 0 where
  pub increasing : IsIncreasing 1 q.commits q.next_id
  pub rows : all (row_ok q.tokens) q.commits ≡ true

pub IsValid-init : IsValid init_db
IsValid-init = record { increasing = omega arith; rows = refl }

pub IsIncreasing-append :
    (lo hi : ℕ) (cs : List Commit) (c : Commit)
    → IsIncreasing lo cs hi
    → c.id ≡ hi
    → IsIncreasing lo (cs ++ c ∷ []) (suc hi)
IsIncreasing-append lo hi [] c h e = (omega arith, omega arith)
IsIncreasing-append lo hi (x ∷ xs) c h e = (h.0, IsIncreasing-append (suc x.id) hi xs c h.1 e)

pub IsIncreasing-update :
    (id : ℕ) (change : Commit → Commit)
    → ((c : Commit) → (change c).id ≡ c.id)
    → (lo hi : ℕ) (cs : List Commit) → IsIncreasing lo cs hi
    → IsIncreasing lo (update id change cs) hi
IsIncreasing-update id change keeps lo hi [] h = h
IsIncreasing-update id change keeps lo hi (c ∷ cs) h =
    let same : (update_one id change c).id ≡ c.id = ground (arith, keeps c) in
    let rest = IsIncreasing-update id change keeps (suc c.id) hi cs h.1 in
    (ground arith, rw same rest)

pub all_rows-append :
    (tokens : List TokenRow) (cs : List Commit) (c : Commit)
    → all (row_ok tokens) (cs ++ c ∷ []) ≡ (all (row_ok tokens) cs && row_ok tokens c)
all_rows-append tokens [] c = ground arith
all_rows-append tokens (x ∷ xs) c = ground (arith, all_rows-append tokens xs c)

-- Every row with the identifier is in processing.
abbrev pub is_processing : Status → Bool
is_processing processing = true
is_processing _ = false

abbrev pub claimed : ℕ → List Commit → Bool
claimed id cs = all (λ (c : Commit). not (eqb c.id id) || is_processing c.status) cs

pub claimed-update :
    (id now : ℕ) (cs : List Commit) → claimed id (update id (set_processing now) cs) ≡ true
claimed-update id now [] = refl
claimed-update id now (c ∷ cs) = ground (arith, claimed-update id now cs)

stored-append :
    (t : String) (id : ℕ) (sha : String) (rows : List TokenRow) (row : TokenRow)
    → stored t id sha rows ≡ true
    → stored t id sha (rows ++ row ∷ []) ≡ true
stored-append t id sha [] row h = absurd (ground arith)
stored-append t id sha (x ∷ xs) row h = ground (arith, stored-append t id sha xs row)

stored_new :
    (t : String) (id now : ℕ) (sha : String) (rows : List TokenRow)
    → stored t id sha
        (rows ++ record { token = t; commit_entry_id = id; commit_sha = sha; issued_at = now } ∷ [])
      ≡ true
stored_new t id now sha [] = ground (arith, eq_refl t, eq_refl sha)
stored_new t id now sha (x ∷ xs) = ground (arith, stored_new t id now sha xs)

-- A change of the rows with an identifier, if each fits after it.
rows-update :
    (tokens : List TokenRow) (id : ℕ) (change : Commit → Commit)
    → ((c : Commit)
        → row_ok tokens c ≡ true
        → is_processing c.status ≡ true
        → c.id ≡ id
        → row_ok tokens (change c) ≡ true)
    → (cs : List Commit) → claimed id cs ≡ true
    → all (row_ok tokens) cs ≡ true
    → all (row_ok tokens) (update id change cs) ≡ true
rows-update tokens id change fits [] h k = refl
rows-update tokens id change fits (c ∷ cs) h k = elim (Bool-cases (eqb c.id id)) [
  | inl e ↦ ground (arith, fits c, rows-update tokens id change fits cs)
  | inr e ↦ ground (arith, rows-update tokens id change fits cs)
]

row-set_failed :
    (tokens : List TokenRow) (e : String) (sha : Option String) (now : ℕ) (c : Commit)
    → row_ok tokens c ≡ true
    → is_processing c.status ≡ true
    → row_ok tokens (set_failed e sha now c) ≡ true
row-set_failed tokens e sha now c h k = ground arith

row-set_done :
    (tokens : List TokenRow) (sha m t : String) (now : ℕ) (c : Commit)
    → row_ok tokens c ≡ true
    → is_processing c.status ≡ true
    → stored t c.id sha tokens ≡ true
    → row_ok tokens (set_done sha m t now c) ≡ true
row-set_done tokens sha m t now c h k st = ground arith

row-more_tokens :
    (tokens : List TokenRow) (row : TokenRow) (c : Commit)
    → row_ok tokens c ≡ true
    → row_ok (tokens ++ row ∷ []) c ≡ true
row-more_tokens tokens row c h = split c.queue_token c.commit_sha refl refl
  where
    split :
        (t sha : Option String)
        → c.queue_token ≡ t
        → c.commit_sha ≡ sha
        → row_ok (tokens ++ row ∷ []) c ≡ true
    split none sha e k = ground arith
    split (some t) none e k = ground arith
    split (some t) (some sha) e k = ground (arith, stored-append t c.id sha tokens row)

rows-more_tokens :
    (tokens : List TokenRow) (row : TokenRow) (cs : List Commit)
    → all (row_ok tokens) cs ≡ true
    → all (row_ok (tokens ++ row ∷ [])) cs ≡ true
rows-more_tokens tokens row [] h = refl
rows-more_tokens tokens row (c ∷ cs) h =
    ground (arith, row-more_tokens tokens row c, rows-more_tokens tokens row cs)

mark_failed-IsValid :
    (id now : ℕ) (e : String) (sha : Option String) (q : Queue)
    → claimed id q.commits ≡ true
    → IsValid q
    → IsValid (mark_failed id e sha now q)
mark_failed-IsValid id now e sha q h v = record {
  increasing =
      IsIncreasing-update id (set_failed e sha now) (λ c. refl) 1 q.next_id q.commits v.increasing;
  rows =
      rows-update q.tokens id (set_failed e sha now)
        (λ c ok st same. row-set_failed q.tokens e sha now c ok st) q.commits h v.rows;
}

-- The processing of a claimed entry, whatever git and the orchestrator do, keeps the table
-- well-formed.
module _ (w : World) (id : ℕ) (q : Queue) (h : claimed id q.commits ≡ true) (v : IsValid q) where
  done_with-IsValid : (sha m t : String) → IsValid (done_with w id sha m t q)
  done_with-IsValid sha m t =
      let tokens = q.tokens ++ token_row w t id sha ∷ [] in
      record {
        increasing =
            IsIncreasing-update id (set_done sha m t w.now) (λ c. refl) 1 q.next_id q.commits
              v.increasing;
        rows =
            rows-update tokens id (set_done sha m t w.now)
              (λ c ok st same.
                row-set_done tokens sha m t w.now c ok st
                  (rw same (stored_new t id w.now sha q.tokens)))
              q.commits h (rows-more_tokens q.tokens (token_row w t id sha) q.commits v.rows);
      }

  pub process-IsValid : (c : Commit) → c.id ≡ id → IsValid (recover w id (process_entry w c q))
  process-IsValid =
      process_ind IsValid w id q (λ e sha. mark_failed-IsValid id w.now e sha q h v)
        (λ sha m t fresh. done_with-IsValid sha m t)

row-set_processing :
    (tokens : List TokenRow) (now : ℕ) (c : Commit)
    → row_ok tokens c ≡ true
    → is_pending c.status ≡ true
    → row_ok tokens (set_processing now c) ≡ true
row-set_processing tokens now c h k = ground arith

-- A claim marks a pending row.
pub rows-claim :
    (tokens : List TokenRow) (id now : ℕ) (cs : List Commit)
    → all (λ (c : Commit). not (eqb c.id id) || is_pending c.status) cs ≡ true
    → all (row_ok tokens) cs ≡ true
    → all (row_ok tokens) (update id (set_processing now) cs) ≡ true
rows-claim tokens id now [] h k = refl
rows-claim tokens id now (c ∷ cs) h k =
    ground (arith, row-set_processing tokens now c, rows-claim tokens id now cs)

-- No row below `lo` where the identifiers grow from `lo`.
pub absent :
    (id lo hi : ℕ) (cs : List Commit)
    → id < lo
    → IsIncreasing lo cs hi
    → all (λ (c : Commit). not (eqb c.id id)) cs ≡ true
absent id lo hi [] h k = refl
absent id lo hi (c ∷ cs) h k = ground (arith, absent id (suc c.id) hi cs)
