-- ===== src/Distributor/Writes.antt =====
-- What the writes of `update_state` and `launch` do, and the agents that are ready.
use ciwarden.Base.{
  String, ◌≡◌, refl, sym, ◌∙◌, ap, true, false, ◌||◌, some, List, [], ◌∷◌, ◌==◌, eq_iff, arith,
  elem, Nodup, keys, Bool-cases, Option-cases, inl, inr, if_ind, subst,
}
use ciwarden.Dag.{Nodes, deps_of, ready, ready_agents}
use ciwarden.Distributor.{
  Agent, persisted, opened, Loop, valid_states, agent_by_id, set_state, update_state, updated,
  ids_of, launch, release_one,
}

pub agent_by_id-some :
    (id : String) (agents : List Agent)
    → elem id (ids_of agents) ≡ true
    → (a : Agent) × (agent_by_id id agents ≡ some a)
agent_by_id-some id [] h = absurd (ground arith)
agent_by_id-some id (a ∷ agents) h = elim (Bool-cases (id == a.agent_id)) [
  | inl e ↦ (a, rw (e, agent_by_id) refl)
  | inr e ↦ rw (e, agent_by_id) (agent_by_id-some id agents (ground arith))
]

pub agent_by_id-elem :
    (id : String) (agents : List Agent) (a : Agent)
    → agent_by_id id agents ≡ some a
    → elem id (ids_of agents) ≡ true
agent_by_id-elem id [] a h = absurd (ground arith)
agent_by_id-elem id (b ∷ agents) a h = ground (arith, agent_by_id-elem id agents a)

pub ids_of-set_state :
    (id s : String) (agents : List Agent) → ids_of (set_state id s agents) ≡ ids_of agents
ids_of-set_state id s [] = refl
ids_of-set_state id s (a ∷ agents) = ground (arith, ids_of-set_state id s agents)

-- What `update_state` does for an agent that is there.
abbrev pub written : String → String → Loop → Loop
written id s l = record l { agents = set_state id s l.agents; trace = persisted id s ∷ l.trace }

pub updated-written :
    (id s : String) (l : Loop)
    → elem s valid_states ≡ true
    → elem id (ids_of l.agents) ≡ true
    → updated id s l ≡ written id s l
unfolding update_state
updated-written id s l valid there =
    let (a, e) = agent_by_id-some id l.agents there in ground (arith, valid, e, update_state)

pub ready_agents-keys :
    (dag : Nodes) (done : List String) (id : String)
    → elem id (ready_agents dag done) ≡ true
    → elem id (keys dag) ≡ true
unfolding ready_agents
ready_agents-keys [] done id h = absurd (ground arith)
ready_agents-keys ((n, node) ∷ dag) done id h = ground (arith, ready_agents-keys dag done id)

pub ready_agents-ready :
    (dag : Nodes) (done : List String) (id : String)
    → Nodup (keys dag)
    → elem id (ready_agents dag done) ≡ true
    → (ready (deps_of dag id) done ≡ true) × (elem id done ≡ false)
unfolding ready_agents
ready_agents-ready [] done id once h = absurd (ground arith)
ready_agents-ready ((n, node) ∷ dag) done id once h =
    let below = ready_agents-keys dag done id in
    elim (Bool-cases (id == n)) [
      | inl same ↦
          let first : elem id (keys dag) ≡ false =
            subst (λ x. elem x (keys dag) ≡ false) (sym ((eq_iff id n).0 same)) once.0 in
          (ground (arith, below, first, same), ground (arith, below, first, same, eq_iff id n))
      | inr other ↦
          let ih = ready_agents-ready dag done id once.1 (ground arith) in rw (other, deps_of) ih
    ]

-- What `launch` does for an agent that is there.
abbrev pub started : String → Loop → Loop
started id l = record l {
  agents = set_state id "running" (set_state id "ready" l.agents);
  launched = id ∷ l.launched;
  trace = persisted id "running" ∷ opened id ∷ persisted id "ready" ∷ l.trace;
}

pub launch-opened :
    (id : String) (l : Loop) → elem id (ids_of l.agents) ≡ true → launch id l ≡ started id l
launch-opened id l there =
    ap
      (λ r.
        updated id "running" (record r { launched = id ∷ r.launched; trace = opened id ∷ r.trace }))
      (updated-written id "ready" l refl there)
    ∙ updated-written id "running"
        (record (written id "ready" l) {
          launched = id ∷ l.launched;
          trace = opened id ∷ persisted id "ready" ∷ l.trace;
        })
        refl (ap (elem id) (ids_of-set_state id "ready" l.agents) ∙ there)

pub done-release_one : (id : String) (l : Loop) → (release_one id l).done ≡ l.done
done-release_one id l =
    if_ind (λ (r : Loop). r.done ≡ l.done) (elem id l.launched || elem id l.done) (λ skip. refl)
      (λ new. elim (Option-cases (agent_by_id id l.agents)) [
        | inl e ↦ rw e refl
        | inr (a, e) ↦
            rw e (ap (λ r. r.done) (launch-opened id l (agent_by_id-elem id l.agents a e)))
      ])
