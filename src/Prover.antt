-- ===== src/Prover.antt =====
-- conductor/prover.py: the order in which the agents are proofed.
use ciwarden.Base.{
  ℕ, zero, suc, String, Bool, true, false, ◌||◌, not, Option, none, some, List, [], ◌∷◌, ◌++◌, map,
  if◌then◌else◌, ◌==◌, elem, all, length, Dict, get, keys, put,
}
use ciwarden.Base.Sort.{sort, str_le}
use mathlib.Core.Option
pub mod Complete
pub mod Ordered
pub mod Proof
pub mod Expected

-- Each module_key with the module_keys it depends on.
abbrev pub Graph : Type 0
Graph = Dict (List String)

pub record AgentSpec : Type 0 where
  pub agent_id : String
  pub module_key : String
  pub dependencies : List String

abbrev build_into : Graph → List AgentSpec → Graph
build_into graph [] = graph
build_into graph (a ∷ agents) = build_into (put a.module_key a.dependencies graph) agents

unfoldable pub build_dependency_graph : List AgentSpec → Graph
build_dependency_graph agents = build_into [] agents

-- The variables of `parse_order`.
pub record Parsing : Type 0 where
  pub ordered : List String
  pub satisfied : List String
  pub remaining : Graph

abbrev pub can_go : Graph → List String → List String → Bool
can_go graph satisfied deps = all (λ d. elem d satisfied || not (elem d (keys graph))) deps

unfoldable pub ready_modules : Graph → List String → Graph → List String
ready_modules graph satisfied [] = []
ready_modules graph satisfied ((m, deps) ∷ remaining) =
    let rest = ready_modules graph satisfied remaining in
    if can_go graph satisfied deps then m ∷ rest else rest

-- dict.pop(key, None)
abbrev pub pop : String → Graph → Graph
pop k [] = []
pop k ((j, v) ∷ d) = let rest = pop k d in if k == j then rest else (j, v) ∷ rest

abbrev pub place : String → Parsing → Parsing
place m p = record {
  ordered = p.ordered ++ m ∷ [];
  satisfied = m ∷ p.satisfied;
  remaining = pop m p.remaining;
}

unfoldable pub place_all : List String → Parsing → Parsing
place_all [] p = p
place_all (m ∷ ms) p = place_all ms (place m p)

-- The batch of one round; on a cycle, all that is left.
abbrev pub or_rest : List String → Graph → List String
or_rest [] remaining = keys remaining
or_rest (m ∷ ms) remaining = m ∷ ms

unfoldable pub batch : Graph → Parsing → List String
batch graph p = sort str_le (or_rest (ready_modules graph p.satisfied p.remaining) p.remaining)

-- The loop, on fuel; none: the fuel ran out.
unfoldable pub rounds : ℕ → Graph → Parsing → Option (List String)
rounds zero graph p = elim p.remaining [ [] ↦ some p.ordered | x ∷ xs ↦ none ]
rounds (suc fuel) graph p =
    let rest = rounds fuel graph (place_all (batch graph p) p) in
    elim p.remaining [ [] ↦ some p.ordered | x ∷ xs ↦ rest ]

unfoldable pub parse_order : Graph → Option (List String)
parse_order graph =
    rounds (length graph) graph (record { ordered = []; satisfied = []; remaining = graph })

abbrev by_key : List AgentSpec → String → Option AgentSpec
by_key [] k = none
by_key (a ∷ agents) k =
    let later = by_key agents k in
    elim later [ some b ↦ some b | none ↦ if k == a.module_key then some a else none ]

abbrev pick : List AgentSpec → List String → List AgentSpec
pick agents [] = []
pick agents (k ∷ ks) =
    let rest = pick agents ks in elim (by_key agents k) [ none ↦ rest | some a ↦ a ∷ rest ]

-- Of two agents with one module_key only the later one is proofed.
unfoldable pub agents_in_parse_order : List AgentSpec → Option (List AgentSpec)
agents_in_parse_order agents =
    Option.map (pick agents) (parse_order (build_dependency_graph agents))
