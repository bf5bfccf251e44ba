-- ===== src/Distributor/Relaunch.antt =====
-- The release loop goes on to release whatever is ready, agents that failed as well.
use ciwarden.Base.{
  String, ◌≡◌, refl, sym, ◌∙◌, ap, Bool, true, false, List, [], ◌∷◌, eq_iff, eq_refl, arith, all,
  elem, keys, if_ind,
}
use ciwarden.Base.Sort.{sort, str_le, elem-sort}
use ciwarden.Dag.{Nodes, finished, Marks, deps_of, validate, ready, ready_agents}
use ciwarden.Dag.Acyclic.{validate-Grounded}
use ciwarden.Dag.Fuel.{IsClosed}
use ciwarden.Distributor.{
  Agent, ids_of, seed, blank, run_dependency_aware, Poll, Loop, promote, release, is_stalled, Exit,
  all_done, pass, run,
}
use ciwarden.Distributor.Steps.{Within, promote-Steps}
use ciwarden.Distributor.Opens.{Opens-trans, release-Opens, release-hits, block-Opens}
use ciwarden.Distributor.Finish.{seed-Within}
use ciwarden.Distributor.Stall.{NotStalled, run-NotStalled, ready_agents-elem}

ready-intro :
    (ds done : List String)
    → ((d : String) → elem d ds ≡ true → elem d done ≡ true)
    → ready ds done ≡ true
ready-intro [] done h = refl
ready-intro (d ∷ ds) done h =
    ground (arith, h d, eq_refl d, ready-intro ds done (λ x e. h x (ground (arith, e))))

all-elem :
    (p : String → Bool) (x : String) (xs : List String)
    → all p xs ≡ true
    → elem x xs ≡ true
    → p x ≡ true
all-elem p x [] h m = absurd (ground arith)
all-elem p x (y ∷ ys) h m = ground (arith, eq_iff x y, all-elem p x ys)

-- Each agent of the session that is not done, and whose dependencies all are, has been launched.
abbrev pub NoneWaits : Nodes → List String → Loop → Type 0
NoneWaits dag ids l =
    (n : String)
    → elem n ids ≡ true
    → elem n l.done ≡ false
    → ((d : String) → elem d (deps_of dag n) ≡ true → elem d l.done ≡ true)
    → elem n l.launched ≡ true

module _ (dag : Nodes) (ids : List String)
    (known : (n : String) → elem n ids ≡ true → elem n (keys dag) ≡ true) where
  pass-NoneWaits :
      (poll : Poll) (l : Loop)
      → Within ids l
      → Within ids (pass dag ids poll l) × NoneWaits dag ids (pass dag ids poll l)
  unfolding pass
  pass-NoneWaits poll l w =
      let promoted = promote poll ids l in
      let (steps, v) = promote-Steps ids poll ids l (λ x e. e) w in
      let order = sort str_le (ready_agents dag promoted.done) in
      let released = release order promoted in
      let b = block-Opens dag ids released in
      let o = Opens-trans promoted released _ (release-Opens order promoted) b in
      (
        record {
          agents = o.agents ∙ v.agents;
          done = λ x e. v.done x (sym (ap (elem x) o.done) ∙ e);
        },
        λ n inside new below.
            let fresh : elem n promoted.done ≡ false = sym (ap (elem n) o.done) ∙ new in
            let can : ready (deps_of dag n) promoted.done ≡ true =
              ready-intro (deps_of dag n) promoted.done
                (λ d e. sym (ap (elem d) o.done) ∙ below d e) in
            b.launched n (
              release-hits order promoted n
                (elem-sort str_le n (ready_agents dag promoted.done)
                  ∙ ready_agents-elem dag promoted.done n (known n inside) fresh can)
                (ap (elem n) v.agents ∙ inside) fresh),
      )

  done-NoneWaits : (l : Loop) → all_done ids l ≡ true → NoneWaits dag ids l
  done-NoneWaits l h n inside new below =
      absurd (ground (arith, new, all-elem (λ id. elem id l.done) n ids (ground (arith, h)) inside))

  run-NoneWaits :
      (polls : List Poll) (l : Loop)
      → Within ids l
      → NoneWaits dag ids l
      → NoneWaits dag ids (run dag ids polls l).1
  unfolding run
  run-NoneWaits [] l w h =
      if_ind (λ (r : Exit × Loop). NoneWaits dag ids r.1) (all_done ids l) (λ e. h) (λ e. h)
  run-NoneWaits (poll ∷ polls) l w h =
      let after = pass dag ids poll l in
      let (v, now) = pass-NoneWaits poll l w in
      let Goal = λ (r : Exit × Loop). NoneWaits dag ids r.1 in
      if_ind Goal (all_done ids l) (λ e. h)
        (λ e.
          if_ind Goal (all_done ids after) (λ e. now)
            (λ e.
              if_ind Goal (is_stalled dag ids after) (λ e. now)
                (λ e. if_ind Goal poll.late (λ e. now) (λ e. run-NoneWaits polls after v now))))

  first-NoneWaits :
      (poll : Poll) (polls : List Poll) (l : Loop)
      → Within ids l
      → NoneWaits dag ids (run dag ids (poll ∷ polls) l).1
  unfolding run
  first-NoneWaits poll polls l w =
      let after = pass dag ids poll l in
      let (v, now) = pass-NoneWaits poll l w in
      let Goal = λ (r : Exit × Loop). NoneWaits dag ids r.1 in
      if_ind Goal (all_done ids l) (λ e. done-NoneWaits l e)
        (λ e.
          if_ind Goal (all_done ids after) (λ e. now)
            (λ e.
              if_ind Goal (is_stalled dag ids after) (λ e. now)
                (λ e. if_ind Goal poll.late (λ e. now) (λ e. run-NoneWaits polls after v now))))

-- On a graph that `_validate` accepts, that names each dependency as a node, and in which every agent
-- of the session is a node: the loop never ends with the stall report; and after any number of polls
-- but none, each agent of the session that is not done and whose dependencies all are has been
-- launched. Both hold whatever states the session resumes from: an agent that failed is no exception,
-- nor is one that is marked as blocked.
pub run_dependency_aware-NotStalled :
    (dag : Nodes) (m : Marks) (flagged : String → Bool) (agents : List Agent) (poll : Poll)
    (polls : List Poll)
    → validate dag ≡ finished m
    → IsClosed dag
    → ((n : String) → elem n (ids_of agents) ≡ true → elem n (keys dag) ≡ true)
    → NotStalled (run_dependency_aware dag flagged agents (poll ∷ polls)).0
      × NoneWaits dag (ids_of agents) (run_dependency_aware dag flagged agents (poll ∷ polls)).1
unfolding run_dependency_aware
run_dependency_aware-NotStalled dag m flagged agents poll polls valid closed known =
    let ids = ids_of agents in
    let fresh : Within ids (blank agents) = record {
      agents = refl;
      done = λ x e. absurd (ground arith);
    } in
    (
      run-NotStalled dag ids closed
          (λ n e. (validate-Grounded dag m n valid (known n e), known n e)) (poll ∷ polls)
          (seed flagged agents (blank agents)),
      first-NoneWaits dag ids known poll polls (seed flagged agents (blank agents))
          (seed-Within ids flagged agents (blank agents) (λ x e. e) fresh),
    )
