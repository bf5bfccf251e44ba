-- ===== src/Commit/Sequence.antt =====
-- The effects of `atomic_commit_multi_repo`, in their order.
use ciwarden.Base.{
  String, ◌≡◌, refl, sym, ◌∙◌, ap, Bool, true, false, not, ◌⊎◌, inl, inr, none, some, List, [], ◌∷◌,
  ◌++◌, arith, any, filter, All, append-nil, append_assoc, Bool-cases, Option-cases, Dict, subst,
}
use ciwarden.Dag.Topological.{sorted, topological_order}
use ciwarden.Session.{ConductorSession}
use ciwarden.Memory.{ContractSummary}
use ciwarden.Memory.Vdb.{commit_session}
use ciwarden.Router.{Completed, RepoRouter, Routed, ok}
use ciwarden.Router as R
use ciwarden.Commit.{
  World, State, Effect, ran, vdb_committed, Result, committed, bad_contract, runtime_error, emit,
  sorted_set, all_files, all_copies, assemble_summaries, advanced, commit_corpus, ensure_worker,
  tear_down,
}
use ciwarden.Commit.Outcome.{sorted_set-nil, all_copies-nil}
use ciwarden.Commit.Multi.{
  Job, has_files, specs_of, jobs_of, copies_of, send, enqueue_jobs, enqueue_all, group_agents,
  atomic_commit_multi_repo, root_of,
}

module _ (w : World) (router : RepoRouter) (s : ConductorSession)
    (command : String → String → List String → String → List String) (run : List String → Completed)
    (cleanup : Bool) where
  -- What an entry that was accepted leaves in the trace.
  abbrev pub entry_effects : Job → List Effect
  entry_effects j = elim (send w router s command run j) [
    | R.raised e ↦ []
    | ok cmd ↦ ran cmd ∷ ensure_worker w j.root
  ]

  abbrev pub all_effects : List Job → List Effect
  all_effects [] = []
  all_effects (j ∷ jobs) = entry_effects j ++ all_effects jobs

  abbrev pub job_files : List Job → List String
  job_files [] = []
  job_files (j ∷ jobs) = j.files ++ job_files jobs

  abbrev pub IsSent : Job → Type 0
  IsSent j = (cmd : List String) × (send w router s command run j ≡ ok cmd)

  -- From `st` one entry is sent for each job with files, in order, to the end or up to the first
  -- that is refused. `done` are the files of earlier entries.
  abbrev pub Sends : List Job → List String → State → Result × State → Type 0
  Sends jobs done st r =
      (sent : List Job) × (rest : List Job) × (jobs ≡ sent ++ rest)
      × All IsSent sent
      × (((rest ≡ [])
            × (r ≡ (
              committed (sorted_set (done ++ job_files sent)),
              emit (tear_down w cleanup) (emit (all_effects sent) st),
            )))
          ⊎ ((j : Job) × (later : List Job) × (e : String) × (rest ≡ j ∷ later)
              × (send w router s command run j ≡ R.raised e)
              × (r ≡ (runtime_error e, emit (all_effects sent) st))))

  Routed-cases :
      (j : Job) → ((e : String) × (send w router s command run j ≡ R.raised e)) ⊎ IsSent j
  Routed-cases j = go (send w router s command run j) refl
    where
      go :
          (r : Routed (List String))
          → send w router s command run j ≡ r
          → ((e : String) × (send w router s command run j ≡ R.raised e)) ⊎ IsSent j
      go (R.raised e) h = inl (e, h)
      go (ok cmd) h = inr (cmd, h)

  emit-emit : (xs ys : List Effect) (st : State) → emit ys (emit xs st) ≡ emit (xs ++ ys) st
  emit-emit xs ys st = ap (λ t. record st { trace = t }) (append_assoc st.trace xs ys)

  -- One more entry in front.
  Sends-cons :
      (j : Job) (jobs : List Job) (done cmd : List String) (st : State) (r : Result × State)
      → send w router s command run j ≡ ok cmd
      → Sends jobs (done ++ j.files) (emit (ran cmd ∷ ensure_worker w j.root) st) r
      → Sends (j ∷ jobs) done st r
  Sends-cons j jobs done cmd st r h (sent, rest, parts, ok_all, ends) = (
    j ∷ sent,
    rest,
    ap (λ l. j ∷ l) parts,
    ((cmd, h), ok_all),
    elim ends [
      | inl (e, k) ↦ inl (
        e,
        k
            ∙ ap (λ l. (committed (sorted_set l), after (emit (all_effects sent) next)))
                (append_assoc done j.files (job_files sent))
            ∙ ap (λ t. (committed (sorted_set (done ++ job_files (j ∷ sent))), after t)) moved,
      )
      | inr (l, later, e, parts', refused, k) ↦
          inr (l, later, e, parts', refused, k ∙ ap (λ t. (runtime_error e, t)) moved)
    ],
  )
    where
      next : State
      next = emit (ran cmd ∷ ensure_worker w j.root) st

      after : State → State
      after t = emit (tear_down w cleanup) t

      entry_is : entry_effects j ≡ ran cmd ∷ ensure_worker w j.root
      entry_is = rw (h, entry_effects) refl

      moved : emit (all_effects sent) next ≡ emit (all_effects (j ∷ sent)) st
      moved =
          emit-emit (ran cmd ∷ ensure_worker w j.root) (all_effects sent) st
          ∙ ap (λ l. emit (l ++ all_effects sent) st) (sym entry_is)

  enqueue_jobs-Sends :
      (jobs : List Job) (done : List String) (st : State)
      → Sends
          (filter has_files jobs)
          done
          st
          (enqueue_jobs w router s command run cleanup jobs done st)
  unfolding enqueue_jobs
  enqueue_jobs-Sends [] done st = (
    [],
    [],
    refl,
    tt,
    inl (
      refl,
      ap (λ l. (committed (sorted_set l), emit (tear_down w cleanup) st)) (sym (append-nil done))
          ∙ ap
              (λ t. (
                committed (sorted_set (done ++ [])),
                emit (tear_down w cleanup) (record st { trace = t }),
              ))
              (sym (append-nil st.trace)),
    ),
  )
  enqueue_jobs-Sends (j ∷ jobs) done st = elim (Bool-cases (has_files j)) [
    | inr e ↦ rw (e, enqueue_jobs) (enqueue_jobs-Sends jobs done st)
    | inl e ↦ elim (Routed-cases j) [
      | inl (error, h) ↦
          rw (e, h, enqueue_jobs)
            (
              [],
              j ∷ filter has_files jobs,
              refl,
              tt,
              inr (
                j,
                filter has_files jobs,
                error,
                refl,
                h,
                ap (λ t. (runtime_error error, record st { trace = t }))
                    (sym (append-nil st.trace)),
              ),
            )
      | inr (cmd, h) ↦
          rw (e, h, enqueue_jobs)
            (Sends-cons j (filter has_files jobs) done cmd st _ h (
              enqueue_jobs-Sends jobs (done ++ j.files)
                (emit (ran cmd ∷ ensure_worker w j.root) st)))
    ]
  ]

  copies_of-nil :
      (groups : Dict (List String))
      → any has_files (jobs_of w router s groups) ≡ false
      → copies_of w router s (jobs_of w router s groups) ≡ []
  copies_of-nil [] e = refl
  copies_of-nil ((repo, ids) ∷ groups) e =
      ap (λ l. l ++ copies_of w router s (jobs_of w router s groups))
        (none_here (sorted_set (all_files w (specs_of s ids))) refl (ground arith))
      ∙ copies_of-nil groups (ground arith)
    where
      none_here :
          (l : List String)
          → sorted_set (all_files w (specs_of s ids)) ≡ l
          → not (elim l [ [] ↦ false | f ∷ fs ↦ true ]) ≡ true
          → all_copies w (root_of w router s repo) (specs_of s ids) ≡ []
      none_here [] h k =
          all_copies-nil w (root_of w router s repo) (specs_of s ids)
            (sorted_set-nil (all_files w (specs_of s ids)) h)
      none_here (f ∷ fs) h k = absurd (ground arith)

  corpus_bad :
      (t : State)
      → assemble_summaries w s ≡ none
      → commit_corpus w s t ≡ (false, record t { vdb = advanced w s.session_id t.vdb })
  unfolding commit_corpus
  corpus_bad t e = rw (e, commit_corpus) refl

  corpus_good :
      (summaries : List ContractSummary) (t : State)
      → assemble_summaries w s ≡ some summaries
      → commit_corpus w s t ≡ (
        true,
        emit (vdb_committed ∷ []) (record t {
          vdb = commit_session s.session_id summaries (advanced w s.session_id t.vdb);
        }),
      )
  unfolding commit_corpus
  corpus_good summaries t e = rw (e, commit_corpus) refl

  module _ (order : List String) (st : State) where
    abbrev pub jobs : List Job
    jobs = jobs_of w router s (group_agents s order [])

    abbrev pub copies : List Effect
    copies = copies_of w router s jobs

    -- The world with the files copied and the corpus committed, once.
    abbrev pub with_corpus : List ContractSummary → State
    with_corpus summaries = record {
      vdb = commit_session s.session_id summaries (advanced w s.session_id st.vdb);
      queue = st.queue;
      trace = (st.trace ++ copies) ++ vdb_committed ∷ [];
    }

    -- No agent staged a file, and nothing at all is changed.
    abbrev pub NoFiles : Result × State → Type 0
    NoFiles r = (any has_files jobs ≡ false) × (r ≡ (committed [], st))

    -- A declared contract has an unknown type: the session is advanced and not committed.
    abbrev pub BadContract : Result × State → Type 0
    BadContract r =
        (any has_files jobs ≡ true)
        × (assemble_summaries w s ≡ none)
        × (r ≡ (
          bad_contract,
          record st { vdb = advanced w s.session_id st.vdb; trace = st.trace ++ copies },
        ))

    -- After the corpus is committed, the entries of the repositories with files are sent in order.
    abbrev pub Sent : Result × State → Type 0
    Sent r =
        (any has_files jobs ≡ true)
        × ((summaries : List ContractSummary) × (assemble_summaries w s ≡ some summaries)
            × Sends (filter has_files jobs) [] (with_corpus summaries) r)

    -- `atomic_commit_multi_repo` on a graph that has an order: if no agent staged a file, nothing at
    -- all is changed; if a declared contract has an unknown type, the session is advanced and not
    -- committed, and nothing is sent. Otherwise the files are copied, then the corpus is committed
    -- once, and then one entry is sent for each repository with files, in the order of the groups,
    -- each followed by its worker: all of them, and then the staging directory goes, or those before
    -- the first that is refused, which ends the run with an error.
    pub atomic_commit_multi_repo-Sends :
        topological_order s.dag ≡ sorted order
        → NoFiles (atomic_commit_multi_repo w router s command run cleanup st)
          ⊎ BadContract (atomic_commit_multi_repo w router s command run cleanup st)
          ⊎ Sent (atomic_commit_multi_repo w router s command run cleanup st)
    unfolding atomic_commit_multi_repo
    atomic_commit_multi_repo-Sends e = elim (Bool-cases (any has_files jobs)) [
      | inr empty ↦ inl (
        empty,
        rw (e, empty)
            (ap (λ t. (committed [], record st { trace = t }))
              (ap (λ l. st.trace ++ l) (copies_of-nil (group_agents s order []) empty)
                ∙ append-nil st.trace)),
      )
      | inl some_file ↦ elim (Option-cases (assemble_summaries w s)) [
        | inl bad ↦ inr (
            inl (
              some_file,
              bad,
              rw (e, some_file)
                  (ap (enqueue_all w router s command run cleanup jobs)
                    (corpus_bad (emit copies st) bad)),
            ))
        | inr (summaries, good) ↦ inr (
            inr (
              some_file,
              (
                summaries,
                good,
                subst (Sends (filter has_files jobs) [] (with_corpus summaries))
                    (sym (
                      rw (e, some_file)
                        (ap (enqueue_all w router s command run cleanup jobs)
                          (corpus_good summaries (emit copies st) good))))
                    (enqueue_jobs-Sends jobs [] (with_corpus summaries)),
              ),
            ))
      ]
    ]
