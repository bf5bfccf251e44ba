-- ===== src/Queue/Idle.antt =====
-- The status `processing` in the rounds of the worker of queue/commit_queue.py.
use ciwarden.Base.{
  ℕ, String, ◌≡◌, refl, ap, ◌∙◌, Bool, true, false, ◌||◌, List, [], ◌∷◌, eqb, arith, all, inl, inr,
  Option-cases,
}
use ciwarden.Queue.{Status, Commit, Queue, update, set_processing, set_failed, set_done, oldest}
use ciwarden.Queue.Worker.{World, Tick, contended, work, round, worker}
use ciwarden.Queue.Worker.Cases.{process_ind}
use ciwarden.Queue.Entries.{round_claimed, round_empty}

-- No row in processing.
abbrev pub is_settled : Status → Bool
is_settled Status.processing = false
is_settled _ = true

abbrev pub idle : List Commit → Bool
idle cs = all (λ (c : Commit). is_settled c.status) cs

abbrev idle_but : ℕ → List Commit → Bool
idle_but id cs = all (λ (c : Commit). eqb c.id id || is_settled c.status) cs

idle_but-claim :
    (id now : ℕ) (cs : List Commit)
    → idle cs ≡ true
    → idle_but id (update id (set_processing now) cs) ≡ true
idle_but-claim id now [] h = refl
idle_but-claim id now (c ∷ cs) h = ground (arith, idle_but-claim id now cs)

idle-update :
    (id : ℕ) (change : Commit → Commit)
    → ((c : Commit) → is_settled (change c).status ≡ true)
    → (cs : List Commit) → idle_but id cs ≡ true
    → idle (update id change cs) ≡ true
idle-update id change ends [] h = refl
idle-update id change ends (c ∷ cs) h = ground (arith, ends c, idle-update id change ends cs)

round-idle :
    (repo : String) (now : ℕ) (w : World) (q : Queue)
    → idle q.commits ≡ true
    → idle (round repo (work now w) q).commits ≡ true
round-idle repo now w q h = elim (Option-cases (oldest repo q.commits)) [
  | inl e ↦ ap (λ (r : Queue). idle r.commits) (round_empty repo now w q e) ∙ h
  | inr (c, e) ↦
      let q' = record q { commits = update c.id (set_processing now) q.commits } in
      let claimed_one = idle_but-claim c.id now q.commits h in
      ap (λ (r : Queue). idle r.commits) (round_claimed repo now w q c e)
      ∙ process_ind (λ (r : Queue). idle r.commits ≡ true) w c.id q'
          (λ e sha. idle-update c.id (set_failed e sha w.now) (λ d. refl) q'.commits claimed_one)
          (λ sha m t fresh.
            idle-update c.id (set_done sha m t w.now) (λ d. refl) q'.commits claimed_one)
          c refl
]

-- Whatever git, the orchestrator and the token table do, exceptions included, no round of the worker
-- leaves an entry in processing: if none was there before, each claimed entry is done or failed.
worker-idle :
    (repo : String) (ts : List Tick) (q : Queue)
    → idle q.commits ≡ true
    → idle (worker repo ts q).commits ≡ true
unfolding worker round
worker-idle repo [] q h = h
worker-idle repo (contended ∷ ts) q h = worker-idle repo ts q h
worker-idle repo (work now w ∷ ts) q h =
    worker-idle repo ts (round repo (work now w) q) (round-idle repo now w q h)
