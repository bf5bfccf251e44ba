-- ===== src/Commit/Outcome.antt =====
-- `atomic_commit` on each of its paths.
use ciwarden.Base.{
  String, ◌≡◌, ◌≢◌, refl, ◌∙◌, ap, Bool, true, false, ◌⊎◌, inl, inr, none, some, List, [], ◌∷◌,
  ◌++◌, map, eq_iff, eq_refl, arith, elem, Nodup, append-nil, Bool-cases, Option-cases,
}
use ciwarden.Base.Sort.{str_le, elem-sort, Nodup-sort}
use ciwarden.Session.{AgentSpec, ConductorSession}
use ciwarden.Memory.{ContractSummary}
use ciwarden.Memory.Vdb.{commit_session}
use ciwarden.Queue.{EnqueueError}
use ciwarden.Queue.Enqueue.{acceptable, enqueued, enqueue_accepts, enqueue_raises}
use ciwarden.Commit.{
  distinct, sorted_set, World, State, Effect, copied, vdb_committed, queued, Result, committed,
  queue_error, bad_contract, emit, files_of, copies_to, all_files, all_copies,
  copy_staged_to_worktree, assemble_summaries, advanced, commit_corpus, ensure_worker, tear_down,
  message_of, hand_over, commit_files, atomic_commit,
}

elem-distinct : (x : String) (xs : List String) → elem x (distinct xs) ≡ elem x xs
elem-distinct x [] = refl
elem-distinct x (y ∷ ys) = ground (arith, elem-distinct x ys, elem-distinct y ys, eq_iff x y)

Nodup-distinct : (xs : List String) → Nodup (distinct xs)
Nodup-distinct [] = tt
Nodup-distinct (x ∷ xs) = elim (Bool-cases (elem x (distinct xs))) [
  | inl old ↦ rw old (Nodup-distinct xs)
  | inr new ↦ rw new (new, Nodup-distinct xs)
]

pub elem-sorted_set : (x : String) (xs : List String) → elem x (sorted_set xs) ≡ elem x xs
elem-sorted_set x xs = elem-sort str_le x (distinct xs) ∙ elem-distinct x xs

pub Nodup-sorted_set : (xs : List String) → Nodup (sorted_set xs)
Nodup-sorted_set xs = Nodup-sort str_le (distinct xs) (Nodup-distinct xs)

pub sorted_set-nil : (xs : List String) → sorted_set xs ≡ [] → xs ≡ []
sorted_set-nil [] e = refl
sorted_set-nil (x ∷ xs) e =
    let here : elem x (sorted_set (x ∷ xs)) ≡ true =
      elem-sorted_set x (x ∷ xs) ∙ ground (arith, eq_refl x) in
    let gone : elem x (sorted_set (x ∷ xs)) ≡ false = ap (elem x) e in absurd (ground arith)

files_of-copies :
    (w : World) (root : String) (a : AgentSpec) → files_of w a ≡ [] → copies_to w root a ≡ []
files_of-copies w root a e = ap (map (λ rel. copied a.agent_id rel root)) e

pub all_copies-nil :
    (w : World) (root : String) (agents : List AgentSpec)
    → all_files w agents ≡ []
    → all_copies w root agents ≡ []
all_copies-nil w root [] e = refl
all_copies-nil w root (a ∷ agents) e =
    let (h, k) = append_nil (files_of w a) (all_files w agents) e in
    ap (λ l. l ++ all_copies w root agents) (files_of-copies w root a h)
    ∙ all_copies-nil w root agents k
  where
    append_nil : (xs ys : List String) → xs ++ ys ≡ [] → (xs ≡ []) × (ys ≡ [])
    append_nil [] ys e = (refl, e)
    append_nil (x ∷ xs) ys e = absurd (ground arith)

module _ (w : World) (cleanup : Bool) (s : ConductorSession) (st : State) where
  -- The files that are committed: those that some agent has staged, each once.
  abbrev pub staged : List String
  staged = sorted_set (all_files w s.agents)

  abbrev pub copies : List Effect
  copies = all_copies w s.repo_root s.agents

  abbrev pub is_accepted : List String → Bool
  is_accepted files = acceptable w.paths s.repo_root files (message_of w s)

  -- The world with the files copied and the corpus committed.
  abbrev pub with_corpus : List ContractSummary → State
  with_corpus summaries = record {
    vdb = commit_session s.session_id summaries (advanced w s.session_id st.vdb);
    queue = st.queue;
    trace = (st.trace ++ copies) ++ vdb_committed ∷ [];
  }

  -- No agent staged a file, and nothing at all is changed.
  abbrev pub Nothing : List String → Result × State → Type 0
  Nothing files r = (files ≡ []) × (r ≡ (committed [], st))

  -- A declared contract has an unknown type: the session is advanced and not committed.
  abbrev pub BadContract : List String → Result × State → Type 0
  BadContract files r =
      (files ≢ [])
      × (assemble_summaries w s ≡ none)
      × (r ≡ (
        bad_contract,
        record st { vdb = advanced w s.session_id st.vdb; trace = st.trace ++ copies },
      ))

  -- The queue refuses the files or the path, after the corpus was committed.
  abbrev pub Refused : List String → Result × State → Type 0
  Refused files r =
      (summaries : List ContractSummary) × (files ≢ [])
      × (assemble_summaries w s ≡ some summaries)
      × (is_accepted files ≡ false)
      × ((e : EnqueueError) × (r ≡ (queue_error e, with_corpus summaries)))

  -- One entry with the files is queued, after the corpus was committed.
  abbrev pub Accepted : List String → Result × State → Type 0
  Accepted files r =
      (summaries : List ContractSummary) × (files ≢ [])
      × (assemble_summaries w s ≡ some summaries)
      × (is_accepted files ≡ true)
      × Nodup files
      × (r ≡ (
        committed files,
        record (with_corpus summaries) {
          queue = enqueued w.paths s.repo_root files (message_of w s) "conductor" w.now st.queue;
          trace =
              ((st.trace ++ copies) ++ vdb_committed ∷ [])
              ++ (queued st.queue.next_id ∷ ensure_worker w s.repo_root ++ tear_down w cleanup);
        },
      ))

  abbrev Ends : List String → Result × State → Type 0
  Ends files r = Nothing files r ⊎ BadContract files r ⊎ Refused files r ⊎ Accepted files r

  commit_files-Ends :
      (files : List String)
      → (files ≡ [] → copies ≡ [])
      → Nodup files
      → Ends files (commit_files w cleanup s files (emit copies st))
  unfolding commit_corpus
  commit_files-Ends [] none_copied once =
      inl (refl, ap nothing_done (ap (λ l. st.trace ++ l) (none_copied refl) ∙ append-nil st.trace))
    where
      nothing_done : List Effect → Result × State
      nothing_done t = (committed [], record st { trace = t })
  commit_files-Ends (f ∷ fs) none_copied once = elim (Option-cases (assemble_summaries w s)) [
    | inl e ↦ inr (inl (λ h. ground arith, e, rw (e, commit_corpus) refl))
    | inr (summaries, e) ↦ elim (Bool-cases (is_accepted (f ∷ fs))) [
      | inl yes' ↦ inr (
          inr (
            inr (
              summaries,
              λ h. ground arith,
              e,
              yes',
              once,
              rw (e, commit_corpus)
                  (ap (hand_over w cleanup s (f ∷ fs) (with_corpus summaries)) (
                    enqueue_accepts w.paths s.repo_root (f ∷ fs) (message_of w s) "conductor" w.now
                      st.queue yes')),
            )))
      | inr no' ↦
          let (error, refused) =
            enqueue_raises w.paths s.repo_root (f ∷ fs) (message_of w s) "conductor" w.now st.queue
              no' in
          inr (
            inr (
              inl (
                summaries,
                λ h. ground arith,
                e,
                no',
                (
                  error,
                  rw (e, commit_corpus)
                      (ap (hand_over w cleanup s (f ∷ fs) (with_corpus summaries)) refused),
                ),
              )))
    ]
  ]

  -- `atomic_commit` ends in one of four ways. No agent staged a file: nothing at all is changed. A
  -- declared contract has an unknown type: the session of the store is advanced and not committed,
  -- and nothing is queued. The queue refuses the files or the path: the corpus is committed all the
  -- same, nothing is queued, no worker is started and the staging directory stays. Otherwise one
  -- entry with the distinct staged files is queued, after the corpus is committed and before the
  -- worker is seen to and the staging directory goes.
  pub atomic_commit_cases :
      Nothing staged (atomic_commit w cleanup s st)
      ⊎ BadContract staged (atomic_commit w cleanup s st)
      ⊎ Refused staged (atomic_commit w cleanup s st)
      ⊎ Accepted staged (atomic_commit w cleanup s st)
  unfolding atomic_commit copy_staged_to_worktree
  atomic_commit_cases =
      commit_files-Ends staged
        (λ e. all_copies-nil w s.repo_root s.agents (sorted_set-nil (all_files w s.agents) e))
        (Nodup-sorted_set (all_files w s.agents))
