-- ===== src/Queue/Entries.antt =====
-- The worker of queue/commit_queue.py, round by round.
use ciwarden.Base.{
  ℕ, zero, suc, String, ◌≡◌, ◌≢◌, refl, sym, ap, ◌∙◌, true, none, some, List, [], ◌∷◌, arith, inl,
  inr, Option-cases, subst,
}
use ciwarden.Queue.{Commit, Queue, update, set_processing, set_failed, set_done, claim_next, oldest}
use ciwarden.Queue.Rows.{IsIncreasing-update, IsValid, claimed-update, rows-claim, process-IsValid}
use ciwarden.Queue.Fifo.{
  waiting, head?, tail, oldest-eq-head, waiting-claim, quiet, quiet-claim, waiting-update,
  waiting-claim_ne, head-is_pending,
}
use ciwarden.Queue.Worker.{
  World, Tick, contended, work, process_entry, process_claimed, recover, round, worker,
}
use ciwarden.Queue.Worker.Cases.{process_ind}

-- What a round does with the oldest pending entry, once the claim is known.
pub round_claimed :
    (repo : String) (now : ℕ) (w : World) (q : Queue) (c : Commit)
    → oldest repo q.commits ≡ some c
    → round repo (work now w) q
      ≡ recover w c.id
          (process_entry w c (record q { commits = update c.id (set_processing now) q.commits }))
unfolding round claim_next process_claimed
round_claimed repo now w q c e = rw (e, claim_next)

pub round_empty :
    (repo : String) (now : ℕ) (w : World) (q : Queue)
    → oldest repo q.commits ≡ none
    → round repo (work now w) q ≡ q
unfolding round claim_next process_claimed
round_empty repo now w q e = rw (e, claim_next)

process_waiting :
    (other : String) (w : World) (c : Commit) (q : Queue)
    → quiet c.id q.commits ≡ true
    → waiting other (recover w c.id (process_entry w c q)).commits ≡ waiting other q.commits
process_waiting other w c q h =
    process_ind (λ (r : Queue). waiting other r.commits ≡ waiting other q.commits) w c.id q
      (λ e sha. waiting-update other c.id (set_failed e sha w.now) (λ d. refl) q.commits h)
      (λ sha m t fresh. waiting-update other c.id (set_done sha m t w.now) (λ d. refl) q.commits h)
      c refl

tail_empty : (l : List Commit) → head? l ≡ none → tail l ≡ l
tail_empty [] h = refl
tail_empty (x ∷ xs) h = absurd (ground arith)

served_round :
    (repo other : String) (now : ℕ) (w : World) (q : Queue)
    → IsValid q
    → (waiting repo (round repo (work now w) q).commits ≡ tail (waiting repo q.commits))
      × (repo ≢ other → waiting other (round repo (work now w) q).commits ≡ waiting other q.commits)
served_round repo other now w q v = elim (Option-cases (oldest repo q.commits)) [
  | inl e ↦
      let still = round_empty repo now w q e in
      let first = oldest-eq-head repo 1 q.next_id q.commits v.increasing in
      (
        ap (λ (r : Queue). waiting repo r.commits) still
            ∙ sym (tail_empty (waiting repo q.commits) (sym first ∙ e)),
        λ ne. ap (λ (r : Queue). waiting other r.commits) still,
      )
  | inr (c, e) ↦
      let first = sym (oldest-eq-head repo 1 q.next_id q.commits v.increasing) ∙ e in
      let q' = record q { commits = update c.id (set_processing now) q.commits } in
      let calm = quiet-claim c.id now q.commits in
      (
        ap (λ (r : Queue). waiting repo r.commits) (round_claimed repo now w q c e)
            ∙ process_waiting repo w c q' calm
            ∙ waiting-claim repo now 1 q.next_id q.commits c v.increasing first,
        λ ne.
            ap (λ (r : Queue). waiting other r.commits) (round_claimed repo now w q c e)
            ∙ process_waiting other w c q' calm
            ∙ waiting-claim_ne repo other now 1 q.next_id q.commits c ne v.increasing first,
      )
]

-- One round of the worker takes the oldest pending entry of its repository out of the queue, and
-- leaves the queue of any other repository as it was, whatever git and the orchestrator do.
pub waiting-round :
    (repo other : String) (now : ℕ) (w : World) (q : Queue)
    → IsValid q
    → repo ≢ other
    → (waiting repo (round repo (work now w) q).commits ≡ tail (waiting repo q.commits))
      × (waiting other (round repo (work now w) q).commits ≡ waiting other q.commits)
waiting-round repo other now w q v ne =
    let (own, others) = served_round repo other now w q v in (own, others ne)

-- Every round keeps the table well-formed.
pub round-IsValid : (repo : String) (t : Tick) (q : Queue) → IsValid q → IsValid (round repo t q)
unfolding round
round-IsValid repo contended q v = v
round-IsValid repo (work now w) q v = elim (Option-cases (oldest repo q.commits)) [
  | inl e ↦ subst IsValid (sym (round_empty repo now w q e)) v
  | inr (c, e) ↦
      let first = sym (oldest-eq-head repo 1 q.next_id q.commits v.increasing) ∙ e in
      let q' = record q { commits = update c.id (set_processing now) q.commits } in
      subst IsValid (sym (round_claimed repo now w q c e)) (
        process-IsValid w c.id q' (claimed-update c.id now q.commits)
          (record {
            increasing =
                IsIncreasing-update c.id (set_processing now) (λ d. refl) 1 q.next_id q.commits
                  v.increasing;
            rows =
                rows-claim q.tokens c.id now q.commits
                  (head-is_pending repo 1 q.next_id q.commits c v.increasing first) v.rows;
          })
          c refl)
]

-- The rounds in which the worker got to ask for an entry.
abbrev pub asked : List Tick → ℕ
asked [] = 0
asked (contended ∷ ts) = asked ts
asked (work now w ∷ ts) = suc (asked ts)

abbrev pub drop {ℓ} : {A : Type ℓ} → ℕ → List A → List A
drop zero xs = xs
drop (suc n) xs = drop n (tail xs)

drop_empty : (n : ℕ) → drop {A = Commit} n [] ≡ []
drop_empty zero = refl
drop_empty (suc n) = drop_empty n

worker_served :
    (repo : String) (ts : List Tick) (q : Queue)
    → IsValid q
    → (waiting repo (worker repo ts q).commits ≡ drop (asked ts) (waiting repo q.commits))
      × IsValid (worker repo ts q)
unfolding worker round
worker_served repo [] q v = (refl, v)
worker_served repo (contended ∷ ts) q v = worker_served repo ts q v
worker_served repo (work now w ∷ ts) q v =
    let q' = round repo (work now w) q in
    let rest = worker_served repo ts q' (round-IsValid repo (work now w) q v) in
    (rest.0 ∙ ap (drop (asked ts)) (served_round repo repo now w q v).0, rest.1)

-- The worker serves its repository first in, first out: after its rounds the queue is what is left
-- behind as many entries as it asked for, and the table is still well-formed.
pub worker_drains :
    (repo : String) (ts : List Tick) (q : Queue)
    → IsValid q
    → (waiting repo (worker repo ts q).commits ≡ drop (asked ts) (waiting repo q.commits))
      × IsValid (worker repo ts q)
worker_drains repo ts q v = worker_served repo ts q v
