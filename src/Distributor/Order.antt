-- ===== src/Distributor/Order.antt =====
-- The windows that the release loop opens: after the dependencies, and once for each agent.
use ciwarden.Base.{
  String, ◌≡◌, refl, sym, ◌∙◌, ap, Bool, true, false, ◌&&◌, ◌||◌, not, List, [], ◌∷◌, ◌++◌,
  if◌then◌else◌, ◌==◌, eq_refl, arith, elem, Nodup, keys, Option-cases, inl, inr, if_ind, subst,
}
use ciwarden.Base.Sort.{sort, str_le, elem-sort}
use ciwarden.Dag.{Nodes, deps_of, ready, ready_agents}
use ciwarden.Distributor.{
  Agent, Event, persisted, opened, Poll, Loop, valid_states, agent_by_id, set_state, updated,
  ids_of, agent_done, warn, promote_one, promote, release_one, release, block_one, block,
  has_failed_dep, is_blocked, pass, all_done, is_stalled, Exit, run, seed, blank,
  run_dependency_aware,
}
use ciwarden.Distributor.Writes.{
  agent_by_id-elem, ids_of-set_state, updated-written, ready_agents-ready, launch-opened,
  done-release_one,
}

-- The agents that a trace persists as done, and those whose windows it opens.
abbrev pub finished_in : List Event → List String
finished_in [] = []
finished_in (persisted id state ∷ t) = if state == "done" then id ∷ finished_in t else finished_in t
finished_in (opened id ∷ t) = finished_in t

abbrev pub opened_in : List Event → List String
opened_in [] = []
opened_in (persisted id state ∷ t) = opened_in t
opened_in (opened id ∷ t) = id ∷ opened_in t

-- Of a trace, the last event first: a window opens after the dependencies of its agent are done, for
-- an agent that is not done and has no window yet. `d0` and `l0` are done and launched at the start.
abbrev pub Ordered : Nodes → List String → List String → List Event → Type 0
Ordered dag d0 l0 [] = Unit
Ordered dag d0 l0 (persisted id state ∷ t) = Ordered dag d0 l0 t
Ordered dag d0 l0 (opened id ∷ t) =
    (ready (deps_of dag id) (finished_in t ++ d0) ≡ true)
    × (elem id (finished_in t ++ d0) ≡ false)
    × (elem id (opened_in t ++ l0) ≡ false)
    × Ordered dag d0 l0 t

module _ (dag : Nodes) (d0 l0 ids : List String) where
  pub record Inv (l : Loop) : Type 0 where
    pub agents : ids_of l.agents ≡ ids
    pub done : l.done ≡ finished_in l.trace ++ d0
    pub launched : l.launched ≡ opened_in l.trace ++ l0
    pub order : Ordered dag d0 l0 l.trace

  -- A write of a state other than "done".
  other-Inv :
      (id s : String) (l : Loop)
      → elem s valid_states ≡ true
      → (s == "done") ≡ false
      → elem id ids ≡ true
      → Inv l
      → Inv (updated id s l)
  other-Inv id s l valid other there inv =
      subst Inv (sym (updated-written id s l valid (ap (elem id) inv.agents ∙ there))) (record {
        agents = ids_of-set_state id s l.agents ∙ inv.agents;
        done = rw (other, finished_in) inv.done;
        launched = inv.launched;
        order = inv.order;
      })

  promote_one-Inv :
      (poll : Poll) (id : String) (l : Loop)
      → elem id ids ≡ true
      → Inv l
      → Inv (promote_one poll id l)
  promote_one-Inv poll id l there inv =
      if_ind Inv (elem id l.launched && not (elem id l.done) && agent_done poll id)
        (λ hit.
          subst Inv
            (sym (
              updated-written id "done"
                (record l { done = id ∷ l.done; warned = warn poll id l.warned }) refl
                (ap (elem id) inv.agents ∙ there)))
            (record {
              agents = ids_of-set_state id "done" l.agents ∙ inv.agents;
              done = ap (λ d. id ∷ d) inv.done;
              launched = inv.launched;
              order = inv.order;
            }))
        (λ miss. inv)

  promote-Inv :
      (poll : Poll) (xs : List String) (l : Loop)
      → ((x : String) → elem x xs ≡ true → elem x ids ≡ true)
      → Inv l
      → Inv (promote poll xs l)
  unfolding promote
  promote-Inv poll [] l sub inv = inv
  promote-Inv poll (x ∷ xs) l sub inv =
      promote-Inv poll xs (promote_one poll x l) (λ y e. sub y (ground arith))
        (promote_one-Inv poll x l (sub x (ground (arith, eq_refl x))) inv)

  release_one-Inv :
      (id : String) (l : Loop)
      → ready (deps_of dag id) l.done ≡ true
      → Inv l
      → Inv (release_one id l)
  release_one-Inv id l ok inv =
      if_ind Inv (elem id l.launched || elem id l.done) (λ skip. inv)
        (λ new. elim (Option-cases (agent_by_id id l.agents)) [
          | inl e ↦ rw e inv
          | inr (a, e) ↦
              let there = agent_by_id-elem id l.agents a e in
              rw e (
                subst Inv (sym (launch-opened id l there)) (record {
                  agents =
                      ids_of-set_state id "running" (set_state id "ready" l.agents)
                      ∙ ids_of-set_state id "ready" l.agents
                      ∙ inv.agents;
                  done = inv.done;
                  launched = ap (λ d. id ∷ d) inv.launched;
                  order = (
                    sym (ap (ready (deps_of dag id)) inv.done) ∙ ok,
                    sym (ap (elem id) inv.done) ∙ ground arith,
                    sym (ap (elem id) inv.launched) ∙ ground arith,
                    inv.order,
                  );
                }))
        ])

  release-Inv :
      (xs : List String) (l : Loop) (now : List String)
      → ((x : String) → elem x xs ≡ true → ready (deps_of dag x) now ≡ true)
      → l.done ≡ now
      → Inv l
      → Inv (release xs l)
  unfolding release
  release-Inv [] l now sub e inv = inv
  release-Inv (x ∷ xs) l now sub e inv =
      release-Inv xs (release_one x l) now (λ y h. sub y (ground arith)) (done-release_one x l ∙ e)
        (release_one-Inv x l (ap (ready (deps_of dag x)) e ∙ sub x (ground (arith, eq_refl x))) inv)

  block_one-Inv : (x : String) (l : Loop) → elem x ids ≡ true → Inv l → Inv (block_one dag x l)
  block_one-Inv x l there inv =
      if_ind Inv (elem x l.launched || elem x l.done) (λ skip. inv)
        (λ idle.
          if_ind Inv (has_failed_dep dag l x && not (is_blocked x l))
            (λ hit. other-Inv x "blocked" l refl refl there inv) (λ miss. inv))

  block-Inv :
      (xs : List String) (l : Loop)
      → ((x : String) → elem x xs ≡ true → elem x ids ≡ true)
      → Inv l
      → Inv (block dag xs l)
  unfolding block
  block-Inv [] l sub inv = inv
  block-Inv (x ∷ xs) l sub inv =
      block-Inv xs (block_one dag x l) (λ y e. sub y (ground arith))
        (block_one-Inv x l (sub x (ground (arith, eq_refl x))) inv)

  pass-Inv : Nodup (keys dag) → (poll : Poll) (l : Loop) → Inv l → Inv (pass dag ids poll l)
  unfolding pass
  pass-Inv once poll l inv =
      let promoted = promote poll ids l in
      block-Inv ids _ (λ y e. e)
        (release-Inv (sort str_le (ready_agents dag promoted.done)) promoted promoted.done
          (λ x e.
            (ready_agents-ready dag promoted.done x once
              (sym (elem-sort str_le x (ready_agents dag promoted.done)) ∙ e)).0)
          refl (promote-Inv poll ids l (λ y e. e) inv))

  run-Inv : Nodup (keys dag) → (polls : List Poll) (l : Loop) → Inv l → Inv (run dag ids polls l).1
  unfolding run
  run-Inv once [] l inv =
      if_ind (λ (r : Exit × Loop). Inv r.1) (all_done ids l) (λ e. inv) (λ e. inv)
  run-Inv once (poll ∷ polls) l inv =
      let after = pass-Inv once poll l inv in
      let l' = pass dag ids poll l in
      if_ind (λ (r : Exit × Loop). Inv r.1) (all_done ids l) (λ e. inv)
        (λ e.
          if_ind (λ (r : Exit × Loop). Inv r.1) (all_done ids l') (λ e. after)
            (λ e.
              if_ind (λ (r : Exit × Loop). Inv r.1) (is_stalled dag ids l') (λ e. after)
                (λ e.
                  if_ind (λ (r : Exit × Loop). Inv r.1) poll.late (λ e. after)
                    (λ e. run-Inv once polls l' after))))

seed-kept :
    (flagged : String → Bool) (agents : List Agent) (l : Loop)
    → ((seed flagged agents l).agents ≡ l.agents) × ((seed flagged agents l).trace ≡ l.trace)
unfolding seed
seed-kept flagged [] l = (refl, refl)
seed-kept flagged (a ∷ agents) l = seed-kept flagged agents _

pub seed-Inv :
    (dag : Nodes) (flagged : String → Bool) (agents : List Agent)
    → let start = seed flagged agents (blank agents) in
      Inv dag start.done start.launched (ids_of agents) start
seed-Inv dag flagged agents =
    let start = seed flagged agents (blank agents) in
    let (same, quiet) = seed-kept flagged agents (blank agents) in
    record {
      agents = ap ids_of same;
      done = ap (λ t. finished_in t ++ start.done) (sym quiet);
      launched = ap (λ t. opened_in t ++ start.launched) (sym quiet);
      order = subst (Ordered dag start.done start.launched) (sym quiet) tt;
    }

-- Whatever the polls show, on a graph without two nodes of one name: the release loop opens a window
-- only for an agent that is neither done nor launched at that moment, and only when each of its
-- dependencies is done at the start or has been persisted as done before; so no window is opened
-- twice.
pub run_dependency_aware-Ordered :
    (dag : Nodes) (flagged : String → Bool) (agents : List Agent) (polls : List Poll)
    → Nodup (keys dag)
    → Ordered dag
        (seed flagged agents (blank agents)).done
        (seed flagged agents (blank agents)).launched
        (run_dependency_aware dag flagged agents polls).1.trace
unfolding run_dependency_aware
run_dependency_aware-Ordered dag flagged agents polls once =
    let start = seed flagged agents (blank agents) in
    (run-Inv dag start.done start.launched (ids_of agents) once polls start
      (seed-Inv dag flagged agents)).order
