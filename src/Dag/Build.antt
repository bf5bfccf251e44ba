-- ===== src/Dag/Build.antt =====
-- conductor/dag.py: `DAGBuilder.build`.
use ciwarden.Base.{ℕ, String, List, [], ◌∷◌, ◌++◌, if◌then◌else◌, ◌==◌, Dict, keys}
use ciwarden.Dag.Defs.{Node, Nodes, Search, validate}
use ciwarden.Dag.Prompt.{extract_dependencies, number_index}

-- The prompts of the session, by agent, in code points.
abbrev pub Prompts : Type 0
Prompts = Dict (List ℕ)

abbrev pub blank : Prompts → Nodes
blank [] = []
blank ((id, text) ∷ prompts) =
    (id, record { agent_id = id; depends_on = []; required_by = [] }) ∷ blank prompts

-- nodes[k] is changed, if it is there.
abbrev pub modify : String → (Node → Node) → Nodes → Nodes
modify k change [] = []
modify k change ((j, node) ∷ nodes) =
    if k == j then (j, change node) ∷ nodes else (j, node) ∷ modify k change nodes

abbrev pub add_dependents : String → List String → Nodes → Nodes
add_dependents id [] nodes = nodes
add_dependents id (dep ∷ deps) nodes =
    add_dependents id deps
      (modify dep (λ node. record node { required_by = node.required_by ++ id ∷ [] }) nodes)

abbrev pub link : List (ℕ × String) → Prompts → Nodes → Nodes
link index [] nodes = nodes
link index ((id, text) ∷ prompts) nodes =
    let deps = extract_dependencies text index id in
    link index prompts
      (add_dependents id deps (modify id (λ node. record node { depends_on = deps }) nodes))

-- The graph before it is validated.
unfoldable pub graph : Prompts → Nodes
graph prompts = link (number_index (keys prompts)) prompts (blank prompts)

-- The graph, and what `_validate` says of it.
unfoldable pub build : Prompts → Nodes × Search
build prompts = (graph prompts, validate (graph prompts))
