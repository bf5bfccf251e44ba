-- ===== src/Distributor.antt =====
-- conductor/distributor.py: the release loop of a session with dependencies.
use ciwarden.Base.{
  String, Bool, true, false, ◌&&◌, ◌||◌, not, Option, none, some, List, [], ◌∷◌, map, if◌then◌else◌,
  ◌==◌, elem, all, any, filter, get,
}
use ciwarden.Base.Sort.{sort, str_le}
use ciwarden.Dag.{Node, Nodes, ready_agents}
pub mod Order
pub mod Writes
pub mod Stall
pub mod Steps
pub mod Opens
pub mod Finish
pub mod Relaunch
pub mod Wait
pub mod Stray

pub record Agent : Type 0 where
  pub agent_id : String
  pub state : String

-- What the loop does to the world: the manifest with a new state of an agent, a window for an agent.
pub data Event : Type 0 where
  persisted : String → String → Event
  opened : String → Event

-- What the file system and git show in one pass: which agents have `.done`, which staging
-- directories are empty, for which agents the repository has stray files; and whether the
-- deadline has passed at its end.
pub record Poll : Type 0 where
  pub flagged : String → Bool
  pub staging_empty : String → Bool
  pub stray : String → Bool
  pub late : Bool

-- The session's agents, the sets of the loop, and the events, the last one first.
pub record Loop : Type 0 where
  pub agents : List Agent
  pub done : List String
  pub launched : List String
  pub failed : List String
  pub warned : List String
  pub trace : List Event

abbrev pub valid_states : List String
valid_states = "waiting" ∷ "ready" ∷ "running" ∷ "done" ∷ "failed" ∷ "blocked" ∷ []

abbrev pub agent_by_id : String → List Agent → Option Agent
agent_by_id id [] = none
agent_by_id id (a ∷ agents) = if id == a.agent_id then some a else agent_by_id id agents

abbrev pub set_state : String → String → List Agent → List Agent
set_state id state [] = []
set_state id state (a ∷ agents) =
    if id == a.agent_id
    then (record a { state = state }) ∷ agents
    else a ∷ set_state id state agents

-- none: the ValueError. No manifest is saved for an agent that is not there.
unfoldable pub update_state : String → String → Loop → Option Loop
update_state id state l =
    if not (elem state valid_states) then none else elim (agent_by_id id l.agents) [
      | none ↦ some l
      | some a ↦
          some (record l {
            agents = set_state id state l.agents;
            trace = persisted id state ∷ l.trace;
          })
    ]

-- `update_state` with a state that is valid: the error cannot occur.
abbrev pub updated : String → String → Loop → Loop
updated id state l = elim (update_state id state l) [ none ↦ l | some m ↦ m ]

abbrev pub ids_of : List Agent → List String
ids_of agents = map (λ a. a.agent_id) agents

-- `_agent_done`, and the warning it gives once.
abbrev pub agent_done : Poll → String → Bool
agent_done poll id = poll.flagged id || poll.staging_empty id && poll.stray id

abbrev pub warn : Poll → String → List String → List String
warn poll id warned =
    if poll.flagged id || not (poll.staging_empty id && poll.stray id) || elem id warned
    then warned
    else id ∷ warned

-- Step 1 of a pass.
abbrev pub promote_one : Poll → String → Loop → Loop
promote_one poll id l =
    if elem id l.launched && not (elem id l.done) && agent_done poll id
    then updated id "done" (record l { done = id ∷ l.done; warned = warn poll id l.warned })
    else l

unfoldable pub promote : Poll → List String → Loop → Loop
promote poll [] l = l
promote poll (id ∷ ids) l = promote poll ids (promote_one poll id l)

-- Step 2: `launch` opens the window of the agent.
abbrev pub launch : String → Loop → Loop
launch id l =
    let ready = updated id "ready" l in
    updated id "running"
      (record ready { launched = id ∷ ready.launched; trace = opened id ∷ ready.trace })

abbrev pub release_one : String → Loop → Loop
release_one id l =
    if elem id l.launched || elem id l.done
    then l
    else elim (agent_by_id id l.agents) [ none ↦ l | some a ↦ launch id l ]

unfoldable pub release : List String → Loop → Loop
release [] l = l
release (id ∷ ids) l = release ids (release_one id l)

-- Step 3.
abbrev pub has_failed_dep : Nodes → Loop → String → Bool
has_failed_dep dag l id = elim (get id dag) [
  | none ↦ false
  | some node ↦ any (λ dep. elem dep l.failed) node.depends_on
]

abbrev pub is_blocked : String → Loop → Bool
is_blocked id l = elim (agent_by_id id l.agents) [ none ↦ false | some a ↦ a.state == "blocked" ]

abbrev pub block_one : Nodes → String → Loop → Loop
block_one dag id l =
    if elem id l.launched || elem id l.done
    then l
    else if has_failed_dep dag l id && not (is_blocked id l)
    then updated id "blocked" l
    else l

unfoldable pub block : Nodes → List String → Loop → Loop
block dag [] l = l
block dag (id ∷ ids) l = block dag ids (block_one dag id l)

-- One pass: the three steps.
unfoldable pub pass : Nodes → List String → Poll → Loop → Loop
pass dag ids poll l =
    let promoted = promote poll ids l in
    block dag ids (release (sort str_le (ready_agents dag promoted.done)) promoted)

-- `done == all_ids`, two sets.
abbrev pub all_done : List String → Loop → Bool
all_done ids l = all (λ id. elem id l.done) ids && all (λ id. elem id ids) l.done

abbrev pub is_nil {ℓ} : {A : Type ℓ} → List A → Bool
is_nil [] = true
is_nil (x ∷ xs) = false

abbrev pub remaining : List String → Loop → List String
remaining ids l = filter (λ id. not (elem id l.done)) ids

-- The guard against a stall.
unfoldable pub is_stalled : Nodes → List String → Loop → Bool
is_stalled dag ids l =
    not (is_nil (remaining ids l))
    && not (any (λ id. elem id l.launched) (remaining ids l))
    && is_nil (ready_agents dag l.done)

-- `polling`: the loop has not ended with the polls given.
pub data Exit : Type 0 where
  completed stalled timed_out polling : Exit

unfoldable pub run : Nodes → List String → List Poll → Loop → Exit × Loop
run dag ids [] l = if all_done ids l then (completed, l) else (polling, l)
run dag ids (poll ∷ polls) l =
    let after = pass dag ids poll l in
    let rest = run dag ids polls after in
    if all_done ids l
    then (completed, l)
    else if all_done ids after
    then (completed, after)
    else if is_stalled dag ids after
    then (stalled, after)
    else if poll.late
    then (timed_out, after)
    else rest

-- The sets at the start of the loop: `flagged` is which agents have `.done`.
abbrev pub add_if : Bool → String → List String → List String
add_if test id ids = if test then id ∷ ids else ids

unfoldable pub seed : (String → Bool) → List Agent → Loop → Loop
seed flagged [] l = l
seed flagged (a ∷ agents) l = seed flagged agents (record l {
  done = add_if (a.state == "done" || flagged a.agent_id) a.agent_id l.done;
  launched = add_if (a.state == "running" || a.state == "done") a.agent_id l.launched;
  failed = add_if (a.state == "failed") a.agent_id l.failed;
})

abbrev pub blank : List Agent → Loop
blank agents = record {
  agents = agents;
  done = [];
  launched = [];
  failed = [];
  warned = [];
  trace = [];
}

-- The whole function, for the polls it makes.
unfoldable pub run_dependency_aware : Nodes → (String → Bool) → List Agent → List Poll → Exit × Loop
run_dependency_aware dag flagged agents polls =
    run dag (ids_of agents) polls (seed flagged agents (blank agents))

-- The test that selects this loop.
unfoldable pub has_dependencies : Nodes → Bool
has_dependencies [] = false
has_dependencies ((n, node) ∷ nodes) = not (is_nil node.depends_on) || has_dependencies nodes
