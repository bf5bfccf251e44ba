-- ===== src/Queue/Enqueue.antt =====
-- `enqueue` of queue/commit_queue.py, on each branch.
use ciwarden.Base.{
  ℕ, suc, String, ◌≡◌, ◌≢◌, refl, ◌∙◌, Bool, true, false, ◌&&◌, ◌||◌, not, none, List, [], ◌∷◌,
  ◌++◌, if◌then◌else◌, eqb, arith, all, is_some, Bool-cases, ◌⊎◌, inl, inr, eq_refl, eq_iff, length,
  Option-cases,
}
use ciwarden.Base.Text.{is_blank, has_code}
use ciwarden.Queue.{
  Commit, Queue, is_waiting, enqueue, Paths, entry, raised, EnqueueError, no_files,
  not_a_repository, empty_message, new_commit, validate_file_tokens,
}
use ciwarden.Queue.Rows.{IsIncreasing-append, IsValid, all_rows-append}
use ciwarden.Queue.Fifo.{waiting}

-- A file token that `--files` cannot mean.
abbrev pub is_refused : String → Bool
is_refused token = is_blank token || has_code b',' token

validate-accepts :
    (files : List String)
    → (validate_file_tokens files ≡ none) × (all (λ f. not (is_refused f)) files ≡ true)
      ⊎ (is_some (validate_file_tokens files) ≡ true)
        × (all (λ f. not (is_refused f)) files ≡ false)
unfolding validate_file_tokens
validate-accepts [] = inl (refl, refl)
validate-accepts (f ∷ fs) = ground (arith, validate-accepts fs)

-- What `enqueue` asks of its arguments.
abbrev pub acceptable : Paths → String → List String → String → Bool
acceptable paths repo files message =
    paths.has_git (paths.normalize_repo repo)
    && not (eqb (length files) 0)
    && all (λ f. not (is_refused f)) files
    && not (is_blank message)

abbrev pub enqueued : Paths → String → List String → String → String → ℕ → Queue → Queue
enqueued paths repo files message agent_id now q = record q {
  commits =
      q.commits ++ new_commit q.next_id (paths.normalize_repo repo) files message agent_id now ∷ [];
  next_id = suc q.next_id;
}

pub enqueue_accepts :
    (paths : Paths) (repo : String) (files : List String) (message agent_id : String) (now : ℕ)
    (q : Queue)
    → acceptable paths repo files message ≡ true
    → enqueue paths repo files message agent_id now q
      ≡ (entry q.next_id, enqueued paths repo files message agent_id now q)
unfolding enqueue
enqueue_accepts paths repo [] message agent_id now q h = absurd (ground arith)
enqueue_accepts paths repo (f ∷ fs) message agent_id now q h =
    ground (arith, validate-accepts (f ∷ fs))

pub enqueue_raises :
    (paths : Paths) (repo : String) (files : List String) (message agent_id : String) (now : ℕ)
    (q : Queue)
    → acceptable paths repo files message ≡ false
    → (e : EnqueueError) × (enqueue paths repo files message agent_id now q ≡ (raised e, q))
unfolding enqueue
enqueue_raises paths repo [] message agent_id now q h =
    elim (Bool-cases (paths.has_git (paths.normalize_repo repo))) [
      | inl e ↦ (no_files, ground arith)
      | inr e ↦ (not_a_repository, ground arith)
    ]
enqueue_raises paths repo (f ∷ fs) message agent_id now q h =
    elim (Bool-cases (paths.has_git (paths.normalize_repo repo))) [
      | inr e ↦ (not_a_repository, ground arith)
      | inl e ↦ elim (Option-cases (validate_file_tokens (f ∷ fs))) [
        | inr (x, k) ↦ (x, ground arith)
        | inl k ↦ (empty_message, ground (arith, validate-accepts (f ∷ fs)))
      ]
    ]

waiting-append :
    (repo : String) (cs : List Commit) (c : Commit)
    → waiting repo (cs ++ c ∷ [])
      ≡ (if is_waiting repo c then waiting repo cs ++ c ∷ [] else waiting repo cs)
waiting-append repo [] c = ground arith
waiting-append repo (x ∷ xs) c = ground (arith, waiting-append repo xs c)

module _ (paths : Paths) (repo : String) (files : List String) (message agent_id : String) (now : ℕ)
    (q : Queue) where
  abbrev pub added : Commit
  added = new_commit q.next_id (paths.normalize_repo repo) files message agent_id now

  -- `enqueue` inserts exactly if the path is a repository, there is a file, no file token is blank or
  -- holds a comma, and the message is not blank. Then the new row, pending, is the last of its
  -- repository's queue, its identifier is the one returned, and the queue of any other repository and
  -- the validity of the table are kept. In all other cases it raises and nothing is changed.
  pub enqueue_cases :
      (other : String)
      → paths.normalize_repo repo ≢ other
      → IsValid q
      → ((acceptable paths repo files message ≡ true)
          × ((next : Queue) × (enqueue paths repo files message agent_id now q
                ≡ (entry q.next_id, next))
              × IsValid next
              × (waiting (paths.normalize_repo repo) next.commits
                  ≡ waiting (paths.normalize_repo repo) q.commits ++ added ∷ [])
              × (waiting other next.commits ≡ waiting other q.commits)))
        ⊎ ((acceptable paths repo files message ≡ false)
            × ((e : EnqueueError) × (enqueue paths repo files message agent_id now q
                  ≡ (raised e, q))))
  enqueue_cases other ne v = elim (Bool-cases (acceptable paths repo files message)) [
    | inl h ↦ inl (
      h,
      (
        enqueued paths repo files message agent_id now q,
        enqueue_accepts paths repo files message agent_id now q h,
        record {
          increasing = IsIncreasing-append 1 q.next_id q.commits added v.increasing refl;
          rows = all_rows-append q.tokens q.commits added ∙ ground arith;
        },
        ground (
          arith,
          waiting-append (paths.normalize_repo repo) q.commits added,
          eq_refl (paths.normalize_repo repo),
        ),
        ground
            (arith, waiting-append other q.commits added, eq_iff (paths.normalize_repo repo) other),
      ),
    )
    | inr h ↦ inr (h, enqueue_raises paths repo files message agent_id now q h)
  ]
