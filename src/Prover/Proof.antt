-- ===== src/Prover/Proof.antt =====
-- conductor/prover.py, the proof of a session, and conductor/distributor.py, `wait_for_done`: each
-- agent's schema is put into live/ and checked against its peers until it has no conflict.
use ciwarden.Base.{
  ℕ, zero, suc, String, Bool, true, false, ◌&&◌, ◌||◌, not, Option, none, some, List, [], ◌∷◌, ◌++◌,
  map, if◌then◌else◌, Dict, get, put, keys, values, filter,
}
use ciwarden.Peers.{Conflict, Entry}
use ciwarden.Peers.Live.{Value, entry, keyless, no_object, File, json, Live, stem_of, check_live}
use ciwarden.Distributor.{Poll}
use ciwarden.Distributor.Wait.{wait_for_done}
use ciwarden.Prover.{AgentSpec, agents_in_parse_order}
pub mod Held
pub mod Apart
pub mod Compatible

-- An agent's schema file: an object with a key `modules` whose value is an object, one module entry
-- (it has one of the four keys), or any other object and the objects among its values. No file and
-- no object are an object with no values.
pub data Schema : Type 0 where
  modules : Dict Value → Schema
  single : Entry → Schema
  mapping : List Entry → Schema

-- `read_agent_schema`; none: there is no file, it is no JSON, or its value is no object.
abbrev pub read_agent_schema : Option Schema → Schema
read_agent_schema none = mapping []
read_agent_schema (some s) = s

abbrev pub objects_of : List Value → List Entry
objects_of [] = []
objects_of (entry e ∷ vs) = e ∷ objects_of vs
objects_of (keyless es ∷ vs) =
    (record { exposes = []; consumes = []; assumptions = [] }) ∷ objects_of vs
objects_of (no_object ∷ vs) = objects_of vs

-- `_iter_module_entries`
unfoldable pub iter_module_entries : Schema → List Entry
iter_module_entries (modules members) = objects_of (values members)
iter_module_entries (single e) = e ∷ []
iter_module_entries (mapping es) = es

abbrev pub publish_members : String → Dict Value → Live → Live
publish_members agent_id [] live = live
publish_members agent_id ((name, value) ∷ members) live =
    publish_members agent_id members (put (stem_of agent_id name) (json value) live)

-- `_publish_live`: only a schema with `modules` is written.
unfoldable pub publish_live : String → Schema → Live → Live
publish_live agent_id (modules members) live = publish_members agent_id members live
publish_live agent_id (single e) live = live
publish_live agent_id (mapping es) live = live

-- What the agent has written when its schema is read, and the polls after a report on it.
pub record Turn : Type 0 where
  pub file : Option Schema
  pub polls : List Poll

-- A report that is written: the agent, the number of the attempt, the conflicts. Writing it clears
-- the agent's `.done`.
pub record Report : Type 0 where
  pub agent_id : String
  pub attempt : ℕ
  pub conflicts : List Conflict

-- The files of live/, the agents that are clean with the schemas they were checked with, and the
-- reports, the last ones first.
pub record Proofing : Type 0 where
  pub live : Live
  pub accepted : List (String × Schema)
  pub reports : List Report

-- `clean`: the loop ends; `gave_up`: a wait is over its time and False is returned; `raised`: an
-- exception; `waiting`: the turns end, and the loop goes on with what the agent writes next.
pub data Outcome : Type 0 where
  clean gave_up raised waiting : Proofing → Outcome

abbrev pub published : String → Schema → Proofing → Proofing
published agent_id schema p = record p { live = publish_live agent_id schema p.live }

abbrev pub accept : String → Schema → Proofing → Proofing
accept agent_id schema p = record p { accepted = (agent_id, schema) ∷ p.accepted }

abbrev pub report : String → ℕ → List Conflict → Proofing → Proofing
report agent_id attempt conflicts p = record p {
  reports = (record { agent_id = agent_id; attempt = attempt; conflicts = conflicts }) ∷ p.reports;
}

-- The agent's loop, from the attempt of the given number on.
unfoldable pub proof_loop : (String → String) → String → ℕ → List Turn → Proofing → Outcome
proof_loop lower agent_id attempt [] p = waiting p
proof_loop lower agent_id attempt (turn ∷ turns) p =
    let schema = read_agent_schema turn.file in
    let out = published agent_id schema p in
    elim (check_live lower agent_id (iter_module_entries schema) out.live) [
      | none ↦ raised out
      | some [] ↦ clean (accept agent_id schema out)
      | some (c ∷ cs) ↦
          let told = report agent_id attempt (c ∷ cs) out in
          elim (wait_for_done turn.polls (agent_id ∷ [])) [
            | none ↦ waiting told
            | some false ↦ gave_up told
            | some true ↦ proof_loop lower agent_id (suc attempt) turns told
          ]
    ]

-- The loop over the agents, with the turns of each. No two agents have one name, so that the attempts
-- of each are counted from 1.
unfoldable pub proof_all :
    (String → String) → (String → List Turn) → List AgentSpec → Proofing → Outcome
proof_all lower turns [] p = clean p
proof_all lower turns (a ∷ agents) p = elim (proof_loop lower a.agent_id 1 (turns a.agent_id) p) [
  | clean q ↦ proof_all lower turns agents q
  | gave_up q ↦ gave_up q
  | raised q ↦ raised q
  | waiting q ↦ waiting q
]

-- The session's proof on the files of live/ that are there; none: see `parse_order`.
unfoldable pub proof_session :
    (String → String) → (String → List Turn) → List AgentSpec → Live → Option Outcome
proof_session lower turns agents live = elim (agents_in_parse_order agents) [
  | none ↦ none
  | some ordered ↦
      some (proof_all lower turns ordered (record { live = live; accepted = []; reports = [] }))
]
