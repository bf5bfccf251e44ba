-- ===== src/Dag/Mirror.antt =====
-- conductor/dag.py: `required_by`, the edges that `DAGBuilder.build` keeps in reverse.
use ciwarden.Base.{
  ℕ, String, ◌≡◌, refl, sym, ◌∙◌, ap, Bool, true, ◌||◌, ◌&&◌, none, some, List, [], ◌∷◌,
  if◌then◌else◌, ◌==◌, eq_iff, eq_refl, arith, elem, elem-append, get, keys, Bool-cases,
  Option-cases, inl, inr, Nodup, elem-keys,
}
use ciwarden.Dag.Defs.{Nodes, deps_of}
use ciwarden.Dag.Prompt.{extract_dependencies, number_index}
use ciwarden.Dag.Build.{Prompts, graph, modify, add_dependents, link, blank}
use ciwarden.Dag.Linked.{
  IsFine, IsIndexOf, extract-IsFine, number_index-IsIndexOf, get-modify, keys-modify, dependent,
  with_deps, link_one, deps_of-link_one, keys-link_one, keys-blank, deps_of-blank,
}

-- The agents that wait for one.
abbrev pub required_of : Nodes → String → List String
required_of nodes n = elim (get n nodes) [ none ↦ [] | some node ↦ node.required_by ]

-- The two lists of edges agree.
abbrev pub IsMirror : Nodes → Type 0
IsMirror nodes = (a d : String) → elem a (required_of nodes d) ≡ elem d (deps_of nodes a)

pub required-modify_deps :
    (d id : String) (deps : List String) (nodes : Nodes)
    → required_of (modify id (with_deps deps) nodes) d ≡ required_of nodes d
required-modify_deps d id deps nodes = ground (arith, get-modify d id (with_deps deps) nodes)

required-dependent :
    (a d x id : String) (nodes : Nodes)
    → elem a (required_of (modify x (dependent id) nodes) d)
      ≡ (elem a (required_of nodes d) || a == id && (d == x && elem d (keys nodes)))
required-dependent a d x id nodes = elim (Option-cases (get d nodes)) [
  | inl e ↦ ground (arith, e, get-modify d x (dependent id) nodes, elem-keys d nodes)
  | inr (node, e) ↦ ground (
    arith,
    e,
    get-modify d x (dependent id) nodes,
    elem-keys d nodes,
    elem-append a node.required_by (id ∷ []),
  )
]

add_or :
    (p q r k t : Bool) → (((p || q && (t && k)) || q && (r && k)) ≡ (p || q && ((t || r) && k)))
add_or p q r k t = ground arith

required-add :
    (a d id : String) (deps : List String) (nodes : Nodes)
    → elem a (required_of (add_dependents id deps nodes) d)
      ≡ (elem a (required_of nodes d) || a == id && (elem d deps && elem d (keys nodes)))
required-add a d id [] nodes = ground arith
required-add a d id (x ∷ xs) nodes =
    required-add a d id xs (modify x (dependent id) nodes)
    ∙ ap (λ p. p || a == id && (elem d xs && elem d (keys (modify x (dependent id) nodes))))
        (required-dependent a d x id nodes)
    ∙ ap
        (λ ks.
          (elem a (required_of nodes d) || a == id && (d == x && elem d (keys nodes)))
          || a == id && (elem d xs && elem d ks))
        (keys-modify x (dependent id) nodes)
    ∙ add_or (elem a (required_of nodes d)) (a == id) (elem d xs) (elem d (keys nodes)) (d == x)

pub required-blank : (prompts : Prompts) (n : String) → required_of (blank prompts) n ≡ []
required-blank [] n = refl
required-blank ((id, text) ∷ prompts) n = ground (arith, required-blank prompts n)

-- One round of `build` for an agent that has no edges yet keeps the two lists of edges in step.
pub link_one-IsMirror :
    (ids : List String) (id : String) (deps : List String) (nodes : Nodes)
    → keys nodes ≡ ids
    → elem id ids ≡ true
    → IsFine ids id deps
    → deps_of nodes id ≡ []
    → IsMirror nodes
    → IsMirror (link_one id deps nodes)
link_one-IsMirror ids id deps nodes ks key fine none_yet mirror a d =
    required-add a d id deps (modify id (with_deps deps) nodes)
    ∙ ap
        (λ r.
          elem a r || a == id && (elem d deps && elem d (keys (modify id (with_deps deps) nodes))))
        (required-modify_deps d id deps nodes)
    ∙ ap (λ r. elem a (required_of nodes d) || a == id && (elem d deps && elem d r))
        (keys-modify id (with_deps deps) nodes ∙ ks)
    ∙ ap (λ b. b || a == id && (elem d deps && elem d ids)) (mirror a d)
    ∙ edge
    ∙ ap (elem d) (sym (deps_of-link_one a id deps nodes))
  where
    edge :
        (elem d (deps_of nodes a) || a == id && (elem d deps && elem d ids))
        ≡ elem d (if a == id && elem a (keys nodes) then deps else deps_of nodes a)
    edge = elim (Bool-cases (a == id)) [
      | inl hit ↦
          let same : a ≡ id = (eq_iff a id).0 hit in
          let inside : elem a (keys nodes) ≡ true =
            ap (elem a) ks ∙ ap (λ x. elem x ids) same ∙ key in
          let empty : deps_of nodes a ≡ [] = ap (deps_of nodes) same ∙ none_yet in
          let there = fine.known d in rw (hit, inside, empty) (ground (arith, there))
      | inr miss ↦ rw miss (ground arith)
    ]

-- The agents that `build` links are new to it: their own lists are still empty.
link-IsMirror :
    (ids : List String) (index : List (ℕ × String)) (prompts : Prompts) (nodes : Nodes)
    → IsIndexOf ids index
    → keys nodes ≡ ids
    → Nodup (keys prompts)
    → ((n : String) → elem n (keys prompts) ≡ true → elem n ids ≡ true)
    → ((n : String) → elem n (keys prompts) ≡ true → deps_of nodes n ≡ [])
    → IsMirror nodes
    → IsMirror (link index prompts nodes)
link-IsMirror ids index [] nodes indexed ks once sub fresh mirror = mirror
link-IsMirror ids index ((id, text) ∷ prompts) nodes indexed ks once sub fresh mirror =
    let deps = extract_dependencies text index id in
    link-IsMirror ids index prompts (link_one id deps nodes) indexed
      (keys-link_one id deps nodes ∙ ks) once.1 (λ n e. sub n (ground arith))
      (λ n e. deps_of-link_one n id deps nodes ∙ ground (arith, fresh n, once.0, eq_iff n id))
      (link_one-IsMirror ids id deps nodes ks (sub id (ground (arith, eq_refl id)))
        (extract-IsFine ids index indexed id text) (fresh id (ground (arith, eq_refl id))) mirror)

-- For prompts of distinct agents, the two lists of edges that `build` fills agree: a is in the
-- `required_by` of d exactly when d is in the `depends_on` of a.
pub graph-IsMirror : (prompts : Prompts) → Nodup (keys prompts) → IsMirror (graph prompts)
unfolding graph
graph-IsMirror prompts once =
    link-IsMirror (keys prompts) (number_index (keys prompts)) prompts (blank prompts)
      (number_index-IsIndexOf (keys prompts)) (keys-blank prompts) once (λ n e. e)
      (λ n e. deps_of-blank prompts n)
      λ a d. ap (elem a) (required-blank prompts d) ∙ ap (elem d) (sym (deps_of-blank prompts a))
