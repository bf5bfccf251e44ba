-- ===== src/Queue/Outcome.antt =====
-- Which claimed entries of the commit queue end as done.
use ciwarden.Base.{
  String, ◌≡◌, refl, Bool, true, false, ◌&&◌, not, Option, none, some, if◌then◌else◌, arith,
  Bool-cases, Option-cases, if_ind, ◌⊎◌, inl, inr,
}
use ciwarden.Queue.{Commit, Queue, mark_failed, has_token}
use ciwarden.Queue.Worker.{
  World, Post, answered, http_error, other_error, granted, settle, judge, process_entry, recover,
  generate_queue_token, head_sha_text, post_of, blocked_error,
}
use Prim.Native.String.{◌++◌}
use ciwarden.Queue.Worker.Cases.{done_with}

-- The merge token in the orchestrator's answer.
abbrev pub granted_by : Post → Option String
granted_by (answered v) = granted v
granted_by _ = none

-- The lock cleared, and git added and committed.
abbrev pub is_committed : World → Commit → Bool
is_committed w c =
    w.lock_cleared && ((w.git_add c.files).succeeded && (w.git_commit c.message).succeeded)

abbrev pub queue_token_of : World → Commit → String
queue_token_of w c = generate_queue_token w (head_sha_text w) c.id

-- The merge token with which an entry is done.
abbrev pub cleared_with : World → Commit → Queue → Option String
cleared_with w c q =
    if is_committed w c && not (has_token (queue_token_of w c) q.tokens)
    then granted_by (post_of w c)
    else none

abbrev pub Fails : World → Commit → Queue → Queue → Type 0
Fails w c q after = (e : String) × (sha : Option String) × (after ≡ mark_failed c.id e sha w.now q)

module _ (w : World) (c : Commit) (q : Queue) where
  judge_done :
      (post : Post) (m : String)
      → granted_by post ≡ some m
      → has_token (queue_token_of w c) q.tokens ≡ false
      → recover w c.id (judge w c.id (head_sha_text w) post q)
        ≡ done_with w c.id (head_sha_text w) m (queue_token_of w c) q
  unfolding judge settle
  judge_done (http_error e) m h fresh = absurd (ground arith)
  judge_done (other_error e) m h fresh = absurd (ground arith)
  judge_done (answered v) m h fresh = ground arith

  judge-Fails :
      (post : Post)
      → ((granted_by post ≡ none) ⊎ (has_token (queue_token_of w c) q.tokens ≡ true))
      → Fails w c q (recover w c.id (judge w c.id (head_sha_text w) post q))
  unfolding judge settle
  judge-Fails (http_error e) h = (_, some (head_sha_text w), refl)
  judge-Fails (other_error e) h = (_, none, refl)
  judge-Fails (answered v) h = elim (Option-cases (granted v)) [
    | inl k ↦ (blocked_error v, some (head_sha_text w), ground arith)
    | inr (m, k) ↦
        ("worker exception: " ++ "UNIQUE constraint failed: queue_tokens.token", none, ground arith)
  ]

  uncleared :
      not w.lock_cleared ≡ false
      → not (w.git_add c.files).succeeded ≡ false
      → not (w.git_commit c.message).succeeded ≡ false
      → cleared_with w c q ≡ none
      → (granted_by (post_of w c) ≡ none) ⊎ (has_token (queue_token_of w c) q.tokens ≡ true)
  uncleared lock add commit h = elim (Bool-cases (has_token (queue_token_of w c) q.tokens)) [
    | inl taken ↦ inr taken
    | inr fresh ↦ inl (ground arith)
  ]

  -- A claimed entry is marked as done, with the sha of HEAD, the merge token of the answer and a
  -- queue token that is stored with it, exactly if the index lock cleared, `git add` and `git commit`
  -- succeeded, the orchestrator answered with a merge token that is not empty, and the new queue token
  -- was not in the table. In all other cases, exceptions included, it is marked as failed with an
  -- error, and no token is stored.
  pub process_cases :
      ((m : String) × (cleared_with w c q ≡ some m)
        × (recover w c.id (process_entry w c q)
            ≡ done_with w c.id (head_sha_text w) m (queue_token_of w c) q))
      ⊎ ((cleared_with w c q ≡ none) × Fails w c q (recover w c.id (process_entry w c q)))
  unfolding process_entry
  process_cases = elim (Option-cases (cleared_with w c q)) [
    | inr (m, h) ↦ inl (m, h, ground (arith, judge_done (post_of w c) m))
    | inl h ↦ inr (
      h,
      if_ind (λ r. Fails w c q (recover w c.id r)) (not w.lock_cleared) (λ _. (_, none, refl))
          (λ lock.
            if_ind (λ r. Fails w c q (recover w c.id r)) (not (w.git_add c.files).succeeded)
              (λ _. (_, none, refl))
              (λ add.
                if_ind (λ r. Fails w c q (recover w c.id r))
                  (not (w.git_commit c.message).succeeded) (λ _. (_, none, refl))
                  (λ commit. judge-Fails (post_of w c) (uncleared lock add commit h)))),
    )
  ]
