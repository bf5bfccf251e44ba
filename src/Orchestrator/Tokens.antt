-- ===== src/Orchestrator/Tokens.antt =====
-- The table of merge tokens across commits, and GET /verify.
use ciwarden.Base.{
  subst, ℕ, suc, String, ◌≡◌, refl, sym, false, Option, none, some, List, [], ◌∷◌, ◌++◌, eq_iff,
  arith,
}
use ciwarden.Gates.Registry.{Registry}
use ciwarden.Orchestrator.{
  Payload, TokenRow, Server, World, Walk, passed, blocked, crashed, result, GateChainResult,
  init_db, find_token, generate_token, finish, handle_commit, run_gates, valid, already_used,
  verify_token,
}
use ciwarden.Orchestrator.Phases.{server, run_gates-Follows}
use ciwarden.Orchestrator.Commit.{new_row, find_token-append, handle_commit_issued}

-- The key of the table: no two rows have one token. No row is marked as used.
abbrev pub IsKeyed : List TokenRow → Type 0
IsKeyed [] = Unit
IsKeyed (row ∷ rows) = (find_token row.token rows ≡ none) × (row.used ≡ false) × IsKeyed rows

IsKeyed-append :
    (rows : List TokenRow) (row : TokenRow)
    → find_token row.token rows ≡ none
    → row.used ≡ false
    → IsKeyed rows
    → IsKeyed (rows ++ row ∷ [])
IsKeyed-append [] row fresh unused keyed = (refl, unused, tt)
IsKeyed-append (x ∷ xs) row fresh unused keyed = (
  ground
      (arith, find_token-append x.token xs row, eq_iff x.token row.token, eq_iff row.token x.token),
  keyed.1,
  IsKeyed-append xs row (ground arith) unused keyed.2,
)

finish-IsKeyed :
    (w : World) (p : Payload) (start : ℕ) (walk : Walk)
    → IsKeyed (server walk).tokens
    → IsKeyed (finish w p start walk).1.tokens
unfolding finish
finish-IsKeyed w p start (passed results s) keyed =
    split (find_token (generate_token w p.commit_sha (w.clock s.reads)) s.tokens) refl
  where
    split :
        (found : Option TokenRow)
        → find_token (generate_token w p.commit_sha (w.clock s.reads)) s.tokens ≡ found
        → IsKeyed (finish w p start (passed results s)).1.tokens
    split none e = rw (e, finish) (IsKeyed-append s.tokens (new_row w p s) e refl keyed)
    split (some row) e = rw (e, finish) keyed
finish-IsKeyed w p start (blocked n r results s) keyed = keyed
finish-IsKeyed w p start (crashed s) keyed = keyed

module _ (w : World) (p : Payload) (registry : Registry) (s : Server) where
  -- Every commit, whatever the gates answer, keeps the tokens of the table distinct and unused.
  pub handle_commit-IsKeyed : IsKeyed s.tokens → IsKeyed (handle_commit w p registry s).1.tokens
  unfolding handle_commit
  handle_commit-IsKeyed keyed =
      let s0 = record s { reads = suc s.reads } in
      finish-IsKeyed w p (w.clock s.reads) (run_gates w p registry s0)
        (subst IsKeyed (sym (run_gates-Follows w p registry s0).1) keyed)

  -- A token that a commit was answered verifies at once, for the sha of the request.
  pub verify-handle_commit :
      (r : GateChainResult) (t : String)
      → (handle_commit w p registry s).0 ≡ result r
      → r.merge_token ≡ some t
      → (now : ℕ) × (verify_token t (handle_commit w p registry s).1 ≡ valid p.commit_sha now)
  unfolding verify_token
  verify-handle_commit r t e h =
      let (_, _, _, now, row) = handle_commit_issued w p registry s r t e h in
      (now, rw (row, verify_token))

finish_keeps :
    (w : World) (p : Payload) (start : ℕ) (walk : Walk) (t : String) (row : TokenRow)
    → find_token t (server walk).tokens ≡ some row
    → find_token t (finish w p start walk).1.tokens ≡ some row
unfolding finish
finish_keeps w p start (passed results s) t row h =
    ground (arith, find_token-append t s.tokens (new_row w p s))
finish_keeps w p start (blocked n r results s) t row h = h
finish_keeps w p start (crashed s) t row h = h

-- The commits that the server handled, in order, each in a world of its own.
abbrev pub serve : Registry → List (World × Payload) → Server → Server
serve registry [] s = s
serve registry ((w, p) ∷ rest) s = serve registry rest (handle_commit w p registry s).1

handle_commit_keeps :
    (w : World) (p : Payload) (registry : Registry) (s : Server) (t : String) (row : TokenRow)
    → find_token t s.tokens ≡ some row
    → find_token t (handle_commit w p registry s).1.tokens ≡ some row
unfolding handle_commit
handle_commit_keeps w p registry s t row h =
    let s0 = record s { reads = suc s.reads } in
    finish_keeps w p (w.clock s.reads) (run_gates w p registry s0) t row
      (subst (λ rows. find_token t rows ≡ some row) (sym (run_gates-Follows w p registry s0).1) h)

serve_keeps :
    (registry : Registry) (requests : List (World × Payload)) (s : Server) (t : String)
    (row : TokenRow)
    → find_token t s.tokens ≡ some row
    → find_token t (serve registry requests s).tokens ≡ some row
serve_keeps registry [] s t row h = h
serve_keeps registry ((w, p) ∷ rest) s t row h =
    serve_keeps registry rest (handle_commit w p registry s).1 t row
      (handle_commit_keeps w p registry s t row h)

-- A token that verifies goes on to verify with the same sha and time, whatever commits
-- follow: handling a commit consumes no token.
pub verify-serve :
    (registry : Registry) (requests : List (World × Payload)) (s : Server) (t sha : String) (at : ℕ)
    → verify_token t s ≡ valid sha at
    → verify_token t (serve registry requests s) ≡ valid sha at
unfolding verify_token
verify-serve registry requests s t sha at h = split (find_token t s.tokens) refl
  where
    split :
        (found : Option TokenRow)
        → find_token t s.tokens ≡ found
        → verify_token t (serve registry requests s) ≡ valid sha at
    split none e = absurd (ground arith)
    split (some row) e = ground (arith, serve_keeps registry requests s t row e)

unused_of_find :
    (t : String) (rows : List TokenRow) (row : TokenRow)
    → IsKeyed rows
    → find_token t rows ≡ some row
    → row.used ≡ false
unused_of_find t [] row keyed h = absurd (ground arith)
unused_of_find t (x ∷ xs) row keyed h = ground (arith, unused_of_find t xs row)

serve-IsKeyed :
    (registry : Registry) (requests : List (World × Payload)) (s : Server)
    → IsKeyed s.tokens
    → IsKeyed (serve registry requests s).tokens
serve-IsKeyed registry [] s keyed = keyed
serve-IsKeyed registry ((w, p) ∷ rest) s keyed =
    serve-IsKeyed registry rest (handle_commit w p registry s).1
      (handle_commit-IsKeyed w p registry s keyed)

-- From the empty database, no sequence of commits leads to a token that is reported as used.
pub verify-ne-already_used :
    (registry : Registry) (requests : List (World × Payload)) (t : String)
    → ¬ (verify_token t (serve registry requests init_db) ≡ already_used)
unfolding verify_token
verify-ne-already_used registry requests t h =
    split (find_token t (serve registry requests init_db).tokens) refl
  where
    split :
        (found : Option TokenRow)
        → find_token t (serve registry requests init_db).tokens ≡ found
        → ⊥
    split none e = ground arith
    split (some row) e = ground (
      arith,
      unused_of_find t (serve registry requests init_db).tokens row
          (serve-IsKeyed registry requests init_db tt) e,
    )
