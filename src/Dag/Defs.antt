-- ===== src/Dag/Defs.antt =====
-- conductor/dag.py: nodes, `_validate`, `topological_order` and `ready_agents`.
use ciwarden.Base.{
  ℕ, zero, suc, String, Bool, ◌&&◌, not, none, some, List, [], ◌∷◌, if◌then◌else◌, ◌==◌, elem, all,
  length, Dict, get, keys,
}

pub record Node : Type 0 where
  pub agent_id : String
  pub depends_on : List String
  pub required_by : List String

abbrev pub Nodes : Type 0
Nodes = Dict Node

-- nodes[n].depends_on, for a key n
abbrev pub deps_of : Nodes → String → List String
deps_of nodes n = elim (get n nodes) [ none ↦ [] | some node ↦ node.depends_on ]

-- The two sets of the search.
pub record Marks : Type 0 where
  pub visited : List String
  pub in_stack : List String

-- `cycle n d`: the ValueError that names the edge from n back to d. `key_error`: no such node.
pub data Search : Type 0 where
  finished : Marks → Search
  cycle : String → String → Search
  key_error out_of_fuel : Search

abbrev pub discard : String → List String → List String
discard x [] = []
discard x (y ∷ ys) = let rest = discard x ys in if x == y then rest else y ∷ rest

abbrev pub enter : String → Marks → Marks
enter n m = record { visited = n ∷ m.visited; in_stack = n ∷ m.in_stack }

abbrev pub leave : String → Search → Search
leave n (finished m) = finished (record m { in_stack = discard n m.in_stack })
leave n (cycle a b) = cycle a b
leave n key_error = key_error
leave n out_of_fuel = out_of_fuel

-- What a search that ended well is followed by.
abbrev pub and_then : Search → (Marks → Search) → Search
and_then (finished m) k = k m
and_then (cycle a b) k = cycle a b
and_then key_error k = key_error
and_then out_of_fuel k = out_of_fuel

-- The loop over the dependencies of a node; `visit` is the recursive call.
unfoldable pub visit_deps : (String → Marks → Search) → String → List String → Marks → Search
visit_deps visit n [] m = finished m
visit_deps visit n (d ∷ ds) m =
    if not (elem d m.visited)
    then and_then (visit d m) (visit_deps visit n ds)
    else if elem d m.in_stack
    then cycle n d
    else visit_deps visit n ds m

-- Recursion on fuel: as deep as there are nodes that are not visited.
unfoldable pub dfs : ℕ → Nodes → String → Marks → Search
dfs zero nodes n m = out_of_fuel
dfs (suc fuel) nodes n m = elim (get n nodes) [
  | none ↦ key_error
  | some node ↦ leave n (visit_deps (dfs fuel nodes) n node.depends_on (enter n m))
]

-- The loop over all nodes.
unfoldable pub visit_all : (String → Marks → Search) → List String → Marks → Search
visit_all visit [] m = finished m
visit_all visit (n ∷ ns) m =
    if not (elem n m.visited)
    then and_then (visit n m) (visit_all visit ns)
    else visit_all visit ns m

unfoldable pub validate : Nodes → Search
validate nodes =
    visit_all (dfs (suc (length nodes)) nodes) (keys nodes) (record { visited = []; in_stack = [] })

abbrev pub ready : List String → List String → Bool
ready deps done = all (λ d. elem d done) deps

-- The agents not yet done whose dependencies are all done.
unfoldable pub ready_agents : Nodes → List String → List String
ready_agents [] done = []
ready_agents ((n, node) ∷ nodes) done =
    let rest = ready_agents nodes done in
    if not (elem n done) && ready node.depends_on done then n ∷ rest else rest
