-- ===== src/Distributor/Finish.antt =====
-- How the release loop ends when the agents signal.
use ciwarden.Base.{
  ◌≤◌, ◌<◌, String, ◌≡◌, refl, sym, ◌∙◌, Bool, true, false, ◌||◌, List, [], ◌∷◌, ◌==◌, eq_iff,
  eq_refl, arith, elem, all, length, Nodup, keys, Bool-cases, inl, inr, subst, if_ind,
}
use ciwarden.Dag.{Nodes, finished, Marks, validate}
use ciwarden.Dag.Acyclic.{Grounded, validate-Grounded}
use ciwarden.Dag.Fuel.{IsClosed, unvisited, unvisited-le, unvisited-cons, unvisited_all}
use ciwarden.Distributor.{
  Agent, Poll, Loop, ids_of, promote, all_done, is_stalled, pass, Exit, completed, run, seed, blank,
  run_dependency_aware,
}
use ciwarden.Distributor.Writes.{ready_agents-ready, ready_agents-keys}
use ciwarden.Distributor.Stall.{is_stalled-False, some_ready}
use ciwarden.Distributor.Steps.{Within, promote-Steps, promote-hits}
use ciwarden.Distributor.Opens.{AllOpen, pass-facts}

all-intro :
    (p : String → Bool) (xs : List String)
    → ((x : String) → elem x xs ≡ true → p x ≡ true)
    → all p xs ≡ true
all-intro p [] h = refl
all-intro p (x ∷ xs) h =
    let first = h x (ground (arith, eq_refl x)) in
    let rest = all-intro p xs (λ y e. h y (ground arith)) in ground (arith, first, rest)

all_done-intro :
    (ids : List String) (l : Loop)
    → Within ids l
    → ((x : String) → elem x ids ≡ true → elem x l.done ≡ true)
    → all_done ids l ≡ true
all_done-intro ids l w h =
    let one = all-intro (λ id. elem id l.done) ids h in
    let two = all-intro (λ id. elem id ids) l.done w.done in ground (arith, one, two)

unvisited-zero :
    (ids done : List String)
    → unvisited ids done ≡ 0
    → (x : String) → elem x ids ≡ true
    → elem x done ≡ true
unvisited-zero [] done h x e = absurd (ground arith)
unvisited-zero (y ∷ ids) done h x e = elim (Bool-cases (elem y done)) [
  | inl seen ↦
      let rest = unvisited-zero ids done (ground (arith, seen)) x in
      ground (arith, rest, eq_iff x y, seen)
  | inr new ↦ absurd (ground (arith, new))
]

all-missing :
    (ids done : List String)
    → all (λ id. elem id done) ids ≡ false
    → (x : String) × (elem x ids ≡ true) × (elem x done ≡ false)
all-missing [] done h = absurd (ground arith)
all-missing (y ∷ ids) done h = elim (Bool-cases (elem y done)) [
  | inl seen ↦ let (x, e, new) = all-missing ids done (ground arith) in (x, ground arith, new)
  | inr new ↦ (y, ground (arith, eq_refl y), new)
]

-- In each of the polls every agent has its `.done` file, and the deadline has not passed.
abbrev pub Responsive : List Poll → Type 0
Responsive [] = Unit
Responsive (poll ∷ polls) =
    ((id : String) → poll.flagged id ≡ true) × (poll.late ≡ false) × Responsive polls

module _ (dag : Nodes) (ids : List String) (once : Nodup (keys dag)) (closed : IsClosed dag)
    (all_there : (n : String) → elem n (keys dag) ≡ true → elem n ids ≡ true)
    (all_grounded : (n : String)
      → elem n ids ≡ true
      → Grounded dag n × (elem n (keys dag) ≡ true)) where
  -- While an agent is left, a pass makes one more done.
  pass-less :
      (poll : Poll) (l : Loop)
      → ((id : String) → poll.flagged id ≡ true)
      → Within ids l
      → AllOpen dag l
      → all_done ids l ≡ false
      → unvisited ids (pass dag ids poll l).done < unvisited ids l.done
  pass-less poll l flag w windows left = elim (Bool-cases (all (λ id. elem id l.done) ids)) [
    | inl whole ↦
        let inside = all-intro (λ id. elem id ids) l.done w.done in
        absurd (ground (arith, whole, inside))
    | inr part ↦
        let (n, inside, new) = all-missing ids l.done part in
        let (ground_n, key) = all_grounded n inside in
        let (r, is_ready) = some_ready dag l.done closed n ground_n key new in
        let r_in = all_there r (ready_agents-keys dag l.done r is_ready) in
        let r_new = (ready_agents-ready dag l.done r once is_ready).1 in
        let hit = promote-hits ids poll ids l r (λ x e. e) w (flag r) r_in (windows r is_ready) in
        let steps = (promote-Steps ids poll ids l (λ x e. e) w).0 in
        let same = (pass-facts dag ids once all_there poll l w).2 in
        let less = unvisited-cons r ids l.done r_in r_new in
        let le = unvisited-le ids (r ∷ l.done) (promote poll ids l).done (λ x e.
          elim (Bool-cases (x == r)) [
            | inl is_r ↦
                subst (λ y. elem y (promote poll ids l).done ≡ true) (sym ((eq_iff x r).0 is_r)) hit
            | inr other ↦ steps.done x (ground (arith, other))
          ]) in
        subst (λ d. unvisited ids d < unvisited ids l.done) (sym same) (omega (arith, less, le))
  ]

  run-completed :
      (polls : List Poll) (l : Loop)
      → Responsive polls
      → Within ids l
      → AllOpen dag l
      → unvisited ids l.done ≤ length polls
      → (run dag ids polls l).0 ≡ completed
  unfolding run
  run-completed [] l good w windows enough =
      let e = all_done-intro ids l w (unvisited-zero ids l.done (omega arith)) in
      if_ind (λ (r : Exit × Loop). r.0 ≡ completed) (all_done ids l) (λ e. refl)
        (λ no. absurd (ground (arith, e, no)))
  run-completed (poll ∷ polls) l (flag, early, good) w windows enough =
      let after = pass dag ids poll l in
      let (v, now_open, _) = pass-facts dag ids once all_there poll l w in
      let Goal = λ (r : Exit × Loop). r.0 ≡ completed in
      if_ind Goal (all_done ids l) (λ e. refl)
        (λ left.
          let less = pass-less poll l flag w windows left in
          if_ind Goal (all_done ids after) (λ e. refl)
            (λ e.
              if_ind Goal (is_stalled dag ids after)
                (λ e. absurd (ground (arith, is_stalled-False dag ids after closed all_grounded)))
                (λ e.
                  if_ind Goal poll.late (λ e. absurd (ground (arith, early, e)))
                    (λ e. run-completed polls after good v now_open (omega arith)))))

length-ids_of : (agents : List Agent) → length (ids_of agents) ≡ length agents
length-ids_of [] = refl
length-ids_of (a ∷ agents) = ground (arith, length-ids_of agents)

pub seed-Within :
    (ids : List String) (flagged : String → Bool) (agents : List Agent) (l : Loop)
    → ((x : String) → elem x (ids_of agents) ≡ true → elem x ids ≡ true)
    → Within ids l
    → Within ids (seed flagged agents l)
unfolding seed
seed-Within ids flagged [] l sub w = w
seed-Within ids flagged (a ∷ agents) l sub w =
    let self = sub a.agent_id (ground (arith, eq_refl a.agent_id)) in
    seed-Within ids flagged agents _ (λ x e. sub x (ground arith))
      (record {
        agents = w.agents;
        done = λ x.
            if_ind (λ (d : List String). elem x d ≡ true → elem x ids ≡ true)
              (a.state == "done" || flagged a.agent_id)
              (λ hit e. ground (arith, w.done x, self, eq_iff x a.agent_id)) (λ miss. w.done x);
      })

-- On a graph with distinct nodes that `_validate` accepts, that names each dependency as a node, and
-- whose nodes are exactly the agents of the session: if in each poll the agents have their `.done`
-- files and the deadline has not passed, then one poll more than there are agents is enough for the
-- loop to report that all are done, whatever states it resumes from.
pub run_dependency_aware-completed :
    (dag : Nodes) (m : Marks) (flagged : String → Bool) (agents : List Agent) (polls : List Poll)
    → Nodup (keys dag)
    → validate dag ≡ finished m
    → IsClosed dag
    → ((n : String) → elem n (ids_of agents) ≡ elem n (keys dag))
    → Responsive polls
    → length agents < length polls
    → (run_dependency_aware dag flagged agents polls).0 ≡ completed
unfolding run_dependency_aware run
run_dependency_aware-completed dag m flagged agents [] once valid closed same good enough =
    absurd (omega arith)
run_dependency_aware-completed dag m flagged agents (poll ∷ polls) once valid closed same
      (flag, early, good) enough =
    let ids = ids_of agents in
    let l = seed flagged agents (blank agents) in
    let all_there = λ (n : String) (e : elem n (keys dag) ≡ true). same n ∙ e in
    let key = λ (n : String) (e : elem n ids ≡ true). sym (same n) ∙ e in
    let all_grounded : (n : String)
        → elem n ids ≡ true
        → Grounded dag n × (elem n (keys dag) ≡ true) =
      λ n e. (validate-Grounded dag m n valid (key n e), key n e) in
    let fresh : Within ids (blank agents) = record {
      agents = refl;
      done = λ x e. absurd (ground arith);
    } in
    let w = seed-Within ids flagged agents (blank agents) (λ x e. e) fresh in
    let after = pass dag ids poll l in
    let (v, windows, _) = pass-facts dag ids once all_there poll l w in
    let bound = unvisited-le ids [] after.done (λ x e. absurd (ground arith)) in
    let few = unvisited_all ids in
    let size = length-ids_of agents in
    let Goal = λ (r : Exit × Loop). r.0 ≡ completed in
    if_ind Goal (all_done ids l) (λ e. refl)
      (λ left.
        if_ind Goal (all_done ids after) (λ e. refl)
          (λ e.
            if_ind Goal (is_stalled dag ids after)
              (λ e. absurd (ground (arith, is_stalled-False dag ids after closed all_grounded)))
              (λ e.
                if_ind Goal poll.late (λ e. absurd (ground (arith, early, e)))
                  (λ e.
                    run-completed dag ids once closed all_there all_grounded polls after good v
                      windows (omega arith)))))
