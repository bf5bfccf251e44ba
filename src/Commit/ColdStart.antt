-- ===== src/Commit/ColdStart.antt =====
-- The first session of a repository: conductor/vdb_io.py primes the store, and `atomic_commit` writes
-- the session that the managed run of memory/memory_gate.py reads.
use ciwarden.Base.{
  ◌<◌, String, ◌≡◌, ◌≢◌, sym, ◌∙◌, ap, Bool, false, none, some, List, [], ◌∷◌, eq_refl, arith, inl,
  inr, subst,
}
use ciwarden.Base.Text.{is_empty, join}
use ciwarden.Gates.{pass}
use ciwarden.Session.{ConductorSession}
use ciwarden.Memory.{ContractSummary, Session}
use ciwarden.Memory.Vdb.{
  Vdb, Payload, get_or_create_session, advance_session, collect_modules, commit_session,
}
use ciwarden.Memory.Gate.{Setting, execute_managed}
use ciwarden.Memory.Managed.{single, execute_managed-single}
use ciwarden.Queue.{Queue}
use ciwarden.Commit.{
  World, State, Effect, Result, committed, advanced, atomic_commit, prime_vdb_from_codebase,
}
use ciwarden.Commit.Outcome.{atomic_commit_cases}

-- A repository that has no store yet.
abbrev pub empty_vdb : Vdb
empty_vdb = record {
  sessions = [];
  latest_session = none;
  previous_session = none;
  session_state = none;
  live = [];
  checkpoints = [];
  cached_sha = none;
}

module _ (w : World) (s : ConductorSession) (named : is_empty s.session_id ≡ false) where
  -- The session after its one advance.
  abbrev second : Session
  second = record {
    session_id = s.session_id;
    current_generation_id = join "" ("gen_" ∷ s.session_id ∷ "_" ∷ w.pad3 1 ∷ []);
    current_sequence = 1;
  }

  abbrev payload : List ContractSummary → Payload
  payload summaries = record {
    session_id = s.session_id;
    sequence = 1;
    generation_id = join "" ("gen_" ∷ s.session_id ∷ "_" ∷ w.pad3 1 ∷ []);
    modules = collect_modules [] summaries;
  }

  -- The baseline has the name of the session, and is written over.
  one_session :
      (code summaries : List ContractSummary)
      → commit_session s.session_id summaries
          (advanced w s.session_id (prime_vdb_from_codebase s code empty_vdb))
        ≡ single (some second) s.session_id (payload summaries)
  unfolding commit_session advance_session get_or_create_session prime_vdb_from_codebase
  one_session code summaries = ground (arith, eq_refl s.session_id)

  -- On a store that is primed for its first session, whatever the code's contracts are and whatever
  -- the agents declare: after a commit of that session that stages a file, the managed run of the
  -- memory gate passes, under any positive threshold. The baseline is stored under the identifier of
  -- the session itself, so that the commit writes over it and nothing is left to compare with.
  pub atomic_commit-managed_passes :
      (code : List ContractSummary) (cleanup : Bool) (queue : Queue) (trace : List Effect)
      (files : List String) (st' : State) (g : Setting)
      → files ≢ []
      → atomic_commit w cleanup s
          (record { vdb = prime_vdb_from_codebase s code empty_vdb; queue = queue; trace = trace })
        ≡ (committed files, st')
      → 0 < g.threshold
      → (execute_managed g st'.vdb).status ≡ pass
  atomic_commit-managed_passes code cleanup queue trace files st' g some_file e pos =
      let st : State = record {
        vdb = prime_vdb_from_codebase s code empty_vdb;
        queue = queue;
        trace = trace;
      } in
      elim (atomic_commit_cases w cleanup s st) [
        | inl (h, k) ↦ absurd (some_file (cc))
        | inr (inl (h, k, r)) ↦ cc
        | inr (inr (inl (sums, h, k, a, (err, r)))) ↦ cc
        | inr (inr (inr (sums, h, k, a, once, r))) ↦
            let vdb_of = λ (x : Result × State). x.1.vdb in
            let same : st'.vdb ≡ single (some second) s.session_id (payload sums) =
              ap vdb_of (sym e) ∙ ap vdb_of r ∙ one_session code sums in
            subst (λ v. (execute_managed g v).status ≡ pass) (sym same)
              (execute_managed-single (some second) s.session_id (payload sums) named (omega arith)
                g pos)
      ]
