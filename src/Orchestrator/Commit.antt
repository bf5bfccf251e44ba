-- ===== src/Orchestrator/Commit.antt =====
-- What `handle_commit` answers, which gates it calls, and what it writes.
use ciwarden.Base.{
  ℕ, suc, String, ◌≡◌, refl, ap, sym, ◌∙◌, true, false, Option, none, some, List, [], ◌∷◌, ◌++◌,
  if◌then◌else◌, ◌==◌, arith, all, eq_refl, is_some, ◌&&◌, ◌+◌, length,
}
use ciwarden.Gates.Registry.{Registry, parallel_gates}
use ciwarden.Orchestrator.{
  Payload, Reply, TokenRow, Server, World, Walk, passed, blocked, crashed, Outcome, result,
  key_error, integrity_error, GateChainResult, find_token, generate_token, finish, handle_commit,
  run_gates, names,
}
use ciwarden.Orchestrator.Phases.{
  Verdict, clear, stopped, broken, verdict, is_clear, called, recorded, shape, server, gate_names,
  first_answers, later_answers, run_gates-Follows, calls-run_gates,
}
use ciwarden.Orchestrator.Reads.{reads-run_gates}
use ciwarden.Orchestrator.Clear.{gate_clears, is_clear-registry}

pub find_token-append :
    (t : String) (rows : List TokenRow) (row : TokenRow)
    → find_token t (rows ++ row ∷ []) ≡ (
        if is_some (find_token t rows)
        then find_token t rows
        else if t == row.token
        then some row
        else none)
find_token-append t [] row = refl
find_token-append t (x ∷ xs) row = ground (arith, find_token-append t xs row)

-- How an answer to the client reads as a verdict. An IntegrityError is no verdict.
abbrev pub reason_text : Option String → String
reason_text none = ""
reason_text (some t) = t

abbrev pub verdict_of : Outcome → Option Verdict
verdict_of (result r) = elim r.merge_token [
  | some t ↦ some clear
  | none ↦ elim r.blocked_at [ none ↦ none | some n ↦ some (stopped n (reason_text r.reason)) ]
]
verdict_of key_error = some broken
verdict_of integrity_error = none

-- The row that a cleared commit adds: the token is made at one reading of the clock, and dated at
-- the next.
abbrev pub new_row : World → Payload → Server → TokenRow
new_row w p s = record {
  token = generate_token w p.commit_sha (w.clock s.reads);
  commit_sha = p.commit_sha;
  issued_at = w.clock (suc s.reads);
  used = false;
}

module _ (w : World) (p : Payload) where
  -- What is left of the verdict, when the token of a cleared chain is in the table already.
  finish-verdict :
      (start : ℕ) (walk : Walk)
      → verdict_of (finish w p start walk).0 ≡ (
          if is_clear (shape walk)
            && is_some (
                find_token
                  (generate_token w p.commit_sha (w.clock (server walk).reads))
                  (server walk).tokens)
          then none
          else some (shape walk))
  unfolding finish
  finish-verdict start (passed results s) = ground arith
  finish-verdict start (blocked n r results s) = refl
  finish-verdict start (crashed s) = refl

  finish-issued :
      (start : ℕ) (walk : Walk) (r : GateChainResult) (t : String)
      → (finish w p start walk).0 ≡ result r
      → r.merge_token ≡ some t
      → (shape walk ≡ clear)
        × (r.blocked_at ≡ none)
        × (r.commit_sha ≡ p.commit_sha)
        × (now : ℕ) × (find_token t (finish w p start walk).1.tokens
            ≡ some (record { token = t; commit_sha = p.commit_sha; issued_at = now; used = false }))
  unfolding finish
  finish-issued start (passed results s) r t e h =
      let token = generate_token w p.commit_sha (w.clock s.reads) in
      let row = new_row w p s in
      let facts = find_token-append token s.tokens row in
      (
        refl,
        ground arith,
        ground arith,
        w.clock (suc s.reads),
        ground (arith, facts, eq_refl token),
      )
  finish-issued start (blocked n b results s) r t e h = absurd (ground arith)
  finish-issued start (crashed s) r t e h = absurd (ground arith)

  tokens-finish :
      (start : ℕ) (walk : Walk) (r : GateChainResult)
      → (finish w p start walk).0 ≡ result r
      → r.merge_token ≡ none
      → (finish w p start walk).1.tokens ≡ (server walk).tokens
  unfolding finish
  tokens-finish start (passed results s) r e h = ground arith
  tokens-finish start (blocked n b results s) r e h = refl
  tokens-finish start (crashed s) r e h = refl

  finish_traces :
      (start : ℕ) (walk : Walk)
      → ((finish w p start walk).1.runs ≡ (server walk).runs)
        × ((finish w p start walk).1.calls ≡ (server walk).calls)
  unfolding finish
  finish_traces start (passed results s) = ground arith
  finish_traces start (blocked n b results s) = (refl, refl)
  finish_traces start (crashed s) = (refl, refl)

abbrev outcome_at : String → List TokenRow → Verdict → Option Verdict
outcome_at token rows v = if is_clear v && is_some (find_token token rows) then none else some v

module _ (w : World) (p : Payload) (registry : Registry) (s : Server) where
  abbrev after_start : Server
  after_start = record s { reads = suc s.reads }

  -- The chain that the registry gives rise to, parallel gates first.
  abbrev pub chain : List (String × Reply)
  chain = first_answers w registry ++ later_answers w registry

  -- The token that a cleared chain gives: of the commit, at the reading of the clock that follows
  -- the first one and one for each gate that was recorded.
  abbrev pub token_of_chain : String
  token_of_chain = generate_token w p.commit_sha (w.clock (suc s.reads + length (recorded chain)))

  -- The answer to the client says what the gates' answers decide: cleared, blocked at the first gate
  -- that failed, with its output as the reason, or an error at the first answer that lacks a key. The
  -- one exception is a cleared chain whose token, at that reading of the clock, is in the table
  -- already: it is answered by the IntegrityError, which is no verdict.
  pub handle_commit-verdict : verdict_of (handle_commit w p registry s).0 ≡ (
      if is_clear (verdict chain) && is_some (find_token token_of_chain s.tokens)
      then none
      else some (verdict chain))
  unfolding handle_commit
  handle_commit-verdict =
      let walk = run_gates w p registry after_start in
      let (shape_walk, tokens_walk, _) = run_gates-Follows w p registry after_start in
      let reads = reads-run_gates w p registry after_start in
      finish-verdict w p (w.clock s.reads) walk
      ∙ ap
          (outcome_at (generate_token w p.commit_sha (w.clock (server walk).reads))
            (server walk).tokens)
          shape_walk
      ∙ ap
          (λ rows.
            outcome_at (generate_token w p.commit_sha (w.clock (server walk).reads)) rows
              (verdict chain))
          tokens_walk
      ∙ ap (λ n. outcome_at (generate_token w p.commit_sha (w.clock n)) s.tokens (verdict chain))
          reads

  -- A merge token is answered only if every gate of the registry, of either phase, answered with
  -- all keys and a status other than "fail". The token is then in the table, unused, for the commit
  -- of the request, and the answer names no gate that blocked.
  pub handle_commit_issued :
      (r : GateChainResult) (t : String)
      → (handle_commit w p registry s).0 ≡ result r
      → r.merge_token ≡ some t
      → (all (gate_clears w) registry ≡ true)
        × (r.blocked_at ≡ none)
        × (r.commit_sha ≡ p.commit_sha)
        × (now : ℕ) × (find_token t (handle_commit w p registry s).1.tokens
            ≡ some (record { token = t; commit_sha = p.commit_sha; issued_at = now; used = false }))
  unfolding handle_commit
  handle_commit_issued r t e h =
      let walk = run_gates w p registry after_start in
      let (shape_walk, _, _) = run_gates-Follows w p registry after_start in
      let (cleared, unblocked, sha, now, row) = finish-issued w p (w.clock s.reads) walk r t e h in
      (
        sym (is_clear-registry w registry) ∙ ap is_clear (sym shape_walk ∙ cleared),
        unblocked,
        sha,
        now,
        row,
      )

  -- An answer with no token leaves the table of tokens as it was.
  pub tokens-handle_commit_blocked :
      (r : GateChainResult)
      → (handle_commit w p registry s).0 ≡ result r
      → r.merge_token ≡ none
      → (handle_commit w p registry s).1.tokens ≡ s.tokens
  unfolding handle_commit
  tokens-handle_commit_blocked r e h =
      let walk = run_gates w p registry after_start in
      tokens-finish w p (w.clock s.reads) walk r e h
      ∙ (run_gates-Follows w p registry after_start).1

  -- The gate services that a commit calls, in order: every parallel gate, whatever it answers; and,
  -- if all of those cleared, the sequential gates in their order up to the first that did not.
  calls-handle_commit :
      (handle_commit w p registry s).1.calls
      ≡ (s.calls ++ names (parallel_gates registry))
        ++ (if is_clear (verdict (first_answers w registry))
            then called (later_answers w registry)
            else [])
  unfolding handle_commit
  calls-handle_commit =
      (finish_traces w p (w.clock s.reads) (run_gates w p registry after_start)).1
      ∙ calls-run_gates w p registry after_start

  -- The audit trail grows by one row for each gate of the chain up to and with the first that did
  -- not clear, in order, but for a gate whose answer lacked a key.
  gate_runs-handle_commit :
      gate_names (handle_commit w p registry s).1.runs ≡ gate_names s.runs ++ recorded chain
  unfolding handle_commit
  gate_runs-handle_commit =
      let walk = run_gates w p registry after_start in
      ap gate_names (finish_traces w p (w.clock s.reads) walk).0
      ∙ (run_gates-Follows w p registry after_start).2
