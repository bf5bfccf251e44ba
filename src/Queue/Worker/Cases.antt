-- ===== src/Queue/Worker/Cases.antt =====
-- The two ways in which the processing of an entry ends, as a proof rule.
use ciwarden.Base.{
  ℕ, String, ◌≡◌, refl, Bool, true, false, not, Option, none, some, [], ◌∷◌, ◌++◌, if_ind,
}
use ciwarden.Queue.{Commit, TokenRow, Queue, mark_done, mark_failed, has_token}
use ciwarden.Queue.Worker.{
  World, Post, answered, http_error, other_error, granted, settle, judge, process_entry, recover,
  generate_queue_token, head_sha_text, post_of,
}

abbrev pub token_row : World → String → ℕ → String → TokenRow
token_row w t id sha = record {
  token = t;
  commit_entry_id = id;
  commit_sha = sha;
  issued_at = w.now;
}

-- The queue with the entry marked as done and its token stored.
abbrev pub done_with : World → ℕ → String → String → String → Queue → Queue
done_with w id sha m t q =
    mark_done id sha m t w.now (record q { tokens = q.tokens ++ token_row w t id sha ∷ [] })

module _ {ℓ} (P : Queue → Type ℓ) (w : World) (id : ℕ) (q : Queue)
    (fails : (e : String) (sha : Option String) → P (mark_failed id e sha w.now q))
    (ends : (sha m t : String) → has_token t q.tokens ≡ false → P (done_with w id sha m t q)) where
  settle_ind : (sha m : String) → P (recover w id (settle w id sha m q))
  unfolding settle
  settle_ind sha m = split (has_token t q.tokens) refl
    where
      t : String
      t = generate_queue_token w sha id

      split : (b : Bool) → has_token t q.tokens ≡ b → P (recover w id (settle w id sha m q))
      split true e = rw (e, settle) (fails _ none)
      split false e = rw (e, settle) (ends sha m t e)

  judge_ind : (sha : String) (post : Post) → P (recover w id (judge w id sha post q))
  unfolding judge
  judge_ind sha (http_error e) = fails _ (some sha)
  judge_ind sha (other_error e) = fails _ none
  judge_ind sha (answered v) = split (granted v) refl
    where
      split : (o : Option String) → granted v ≡ o → P (recover w id (judge w id sha (answered v) q))
      split none e = rw (e, judge) (fails _ (some sha))
      split (some m) e = rw (e, judge) (settle_ind sha m)

  pub process_ind : (c : Commit) → c.id ≡ id → P (recover w id (process_entry w c q))
  unfolding process_entry
  process_ind c same = rw same (
      if_ind (λ r. P (recover w id r)) (not w.lock_cleared) (λ _. fails _ none)
        (λ _.
          if_ind (λ r. P (recover w id r)) (not (w.git_add c.files).succeeded) (λ _. fails _ none)
            (λ _.
              if_ind (λ r. P (recover w id r)) (not (w.git_commit c.message).succeeded)
                (λ _. fails _ none) (λ _. judge_ind (head_sha_text w) (post_of w c)))))
