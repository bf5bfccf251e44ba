-- ===== src/Examples/Graphs.antt =====
-- Small graphs of conductor/dag.py and conductor/prover.py.
use ciwarden.Base.{
  String, ◌≡◌, refl, true, some, List, [], ◌∷◌, ◌==◌, elem, keys, Nodup, arith, eq_iff, Bool-cases,
  inl, inr, subst, sym,
}
use ciwarden.Dag.{
  Node, Nodes, deps_of, Marks, finished, cycle, validate, visit_all, visit_deps, dfs,
}
use ciwarden.Dag.Acyclic.{Grounded, validate-Grounded}
use ciwarden.Dag.Cycle.{Chain, validate-Chain}
use ciwarden.Dag.Fuel.{IsClosed}
use ciwarden.Dag.Build.{Prompts, graph}
use ciwarden.Dag.Prompt.{codes}
use ciwarden.Dag.Topological.{topological_order}
use ciwarden.Dag.Topological.Agree.{Agree, topological_order-Agree}
use ciwarden.Prover.{Graph, parse_order}
use ciwarden.Prover.Complete.{parse_order-permutes}
use ciwarden.Prover.Ordered.{Founded, founded, DepsFirst, parse_order-DepsFirst}

abbrev node : String → List String → String × Node
node id deps = (id, record { agent_id = id; depends_on = deps; required_by = [] })

-- A chain, and a cycle of two.
abbrev line : Nodes
line = node "a" ("b" ∷ []) ∷ node "b" ("c" ∷ []) ∷ node "c" [] ∷ []

abbrev loop : Nodes
loop = node "a" ("b" ∷ []) ∷ node "b" ("a" ∷ []) ∷ []

abbrev line_marks : Marks
line_marks = record { visited = "c" ∷ "b" ∷ "a" ∷ []; in_stack = [] }

line-eq : validate line ≡ finished line_marks
unfolding validate visit_all visit_deps dfs
line-eq = refl

loop-eq : validate loop ≡ cycle "b" "a"
unfolding validate visit_all visit_deps dfs
loop-eq = refl

validate-Grounded_example : Grounded line "a"
validate-Grounded_example = validate-Grounded line line_marks "a" line-eq refl

validate-Chain_example : (elem "a" (deps_of loop "b") ≡ true) × Chain loop "b" "b"
validate-Chain_example = validate-Chain loop "b" "a" loop-eq

line-IsClosed : IsClosed line
line-IsClosed n d e = ground (arith, eq_iff n "a", eq_iff n "b", eq_iff n "c")

-- Two prompts, the second of which consumes the contracts of the first.
abbrev prompts : Prompts
prompts =
    ("agent_001", codes "EXPOSES: heap")
    ∷ ("agent_002", codes "CONTRACTS_CONSUMED: Agent 1\n\nWrite it.")
    ∷ []

topological_order-Agree_example :
    Agree (graph prompts) (validate (graph prompts)) (topological_order (graph prompts))
topological_order-Agree_example = topological_order-Agree prompts (refl, (refl, tt))

-- Modules, one of which depends on one outside the graph.
abbrev modules : Graph
modules = ("fs", "heap" ∷ "libc" ∷ []) ∷ ("heap", []) ∷ []

parse_order-permutes_example :
    (order : List String) × (parse_order modules ≡ some order)
    × Nodup order
    × ((x : String) → elem x order ≡ elem x (keys modules))
parse_order-permutes_example = parse_order-permutes modules (refl, (refl, tt))

heap-Founded : Founded modules "heap"
heap-Founded = founded "heap" (λ d e key. absurd (ground (arith, e)))

fs-Founded : Founded modules "fs"
fs-Founded = founded "fs" λ d e key. elim (Bool-cases (d == "heap")) [
  | inl same ↦ subst (Founded modules) (sym ((eq_iff d "heap").0 same)) heap-Founded
  | inr other ↦
      let libc : (d == "libc") ≡ true = ground (arith, e, other) in
      let outside = subst (λ x. elem x (keys modules) ≡ true) ((eq_iff d "libc").0 libc) key in
      absurd (ground (arith, outside))
]

modules-Founded : (m : String) → elem m (keys modules) ≡ true → Founded modules m
modules-Founded m key = elim (Bool-cases (m == "heap")) [
  | inl same ↦ subst (Founded modules) (sym ((eq_iff m "heap").0 same)) heap-Founded
  | inr other ↦
      subst (Founded modules) (sym ((eq_iff m "fs").0 (ground (arith, key, other)))) fs-Founded
]

parse_order-DepsFirst_example :
    (order : List String) × (parse_order modules ≡ some order) × DepsFirst modules [] order
parse_order-DepsFirst_example = parse_order-DepsFirst modules (refl, (refl, tt)) modules-Founded
