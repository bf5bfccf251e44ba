-- ===== src/Dag/Linked.antt =====
-- The graph that `DAGBuilder.build` makes: its names and its dependencies.
use ciwarden.Base.{
  Nodup-snoc, ℕ, String, ◌≡◌, refl, sym, ◌∙◌, ap, true, false, ◌||◌, ◌&&◌, none, some, List, [],
  ◌∷◌, ◌++◌, if◌then◌else◌, ◌==◌, eq_iff, eq_refl, arith, elem, elem-append, get, keys, Bool-cases,
  Option-cases, inl, inr, subst, if_ind, Nodup, is_some, elem-keys, eqb,
}
use mathlib.Core.Option
use ciwarden.Base.Sort.{sort, str_le, elem-sort}
use ciwarden.Dag.Defs.{Node, Nodes, deps_of, validate}
use ciwarden.Dag.Fuel.{Decides, validate-Decides}
use ciwarden.Dag.Prompt.{
  get_num, collect, extract_dependencies, number_index, set_default, index_from, trailing_number,
  consumed_section, agent_refs,
}
use ciwarden.Dag.Build.{Prompts, blank, modify, add_dependents, link, graph}

-- The dependencies of an agent: not itself, none twice, and agents of the session only.
pub record IsFine (ids : List String) (self : String) (deps : List String) : Type 0 where
  pub others : elem self deps ≡ false
  pub once : Nodup deps
  pub known : (d : String) → elem d deps ≡ true → elem d ids ≡ true

abbrev pub IsIndexOf : List String → List (ℕ × String) → Type 0
IsIndexOf ids index = (n : ℕ) (id : String) → get_num n index ≡ some id → elem id ids ≡ true

module _ (ids : List String) (index : List (ℕ × String)) (indexed : IsIndexOf ids index)
    (self : String) where
  collect_one :
      (deps : List String) (dep : String)
      → elem dep ids ≡ true
      → IsFine ids self deps
      → IsFine ids self (if dep == self || elem dep deps then deps else deps ++ dep ∷ [])
  collect_one deps dep key fine = elim (Bool-cases (dep == self || elem dep deps)) [
    | inl skip ↦ rw skip fine
    | inr add ↦ rw add (record {
      others =
          ground (
            arith,
            elem-append self deps (dep ∷ []),
            fine.others,
            eq_iff self dep,
            eq_iff dep self,
          );
      once = Nodup-snoc deps dep fine.once (ground arith);
      known = λ d e. ground (arith, elem-append d deps (dep ∷ []), fine.known d, eq_iff d dep);
    })
  ]

  collect-IsFine :
      (refs : List ℕ) (deps : List String)
      → IsFine ids self deps
      → IsFine ids self (collect index self deps refs)
  collect-IsFine [] deps fine = fine
  collect-IsFine (n ∷ ns) deps fine = elim (Option-cases (get_num n index)) [
    | inl e ↦ rw (e, collect) (collect-IsFine ns deps fine)
    | inr (dep, e) ↦
        rw (e, collect) (collect-IsFine ns _ (collect_one deps dep (indexed n dep e) fine))
  ]

  pub extract-IsFine : (text : List ℕ) → IsFine ids self (extract_dependencies text index self)
  unfolding extract_dependencies
  extract-IsFine text =
      let none_yet : IsFine ids self [] = record {
        others = refl;
        once = tt;
        known = λ d e. absurd (ground arith);
      } in
      elim (Option-cases (consumed_section text)) [
        | inl e ↦ rw (e, extract_dependencies) none_yet
        | inr (section, e) ↦
            rw (e, extract_dependencies) (collect-IsFine (agent_refs section) [] none_yet)
      ]

get_num-append :
    (n m : ℕ) (id : String) (index : List (ℕ × String))
    → get_num n (index ++ (m, id) ∷ [])
      ≡ (if is_some (get_num n index) then get_num n index else if eqb n m then some id else none)
get_num-append n m id [] = refl
get_num-append n m id ((k, x) ∷ index) = ground (arith, get_num-append n m id index)

set_default-IsIndexOf :
    (ids : List String) (index : List (ℕ × String)) (m : ℕ) (id : String)
    → elem id ids ≡ true
    → IsIndexOf ids index
    → IsIndexOf ids (set_default m id index)
set_default-IsIndexOf ids index m id key h n x e =
    ground (arith, get_num-append n m id index, h n x)

index_from-IsIndexOf :
    (ids : List String) (index : List (ℕ × String)) (ns : List String)
    → ((x : String) → elem x ns ≡ true → elem x ids ≡ true)
    → IsIndexOf ids index
    → IsIndexOf ids (index_from index ns)
index_from-IsIndexOf ids index [] sub h = h
index_from-IsIndexOf ids index (x ∷ xs) sub h =
    let rest = λ (y : String) (e : elem y xs ≡ true). sub y (ground arith) in
    elim (Option-cases (trailing_number x)) [
      | inl e ↦ rw (e, index_from) (index_from-IsIndexOf ids index xs rest h)
      | inr (n, e) ↦
          rw (e, index_from)
            (index_from-IsIndexOf ids (set_default n x index) xs rest
              (set_default-IsIndexOf ids index n x (sub x (ground (arith, eq_refl x))) h))
    ]

-- The index points at agents of the session.
pub number_index-IsIndexOf : (ids : List String) → IsIndexOf ids (number_index ids)
unfolding number_index
number_index-IsIndexOf ids =
    index_from-IsIndexOf ids [] (sort str_le ids) (λ x e. sym (elem-sort str_le x ids) ∙ e)
      (λ n x e. absurd (ground arith))

-- How the two changes of a node read.
pub get-modify :
    (n k : String) (change : Node → Node) (nodes : Nodes)
    → get n (modify k change nodes)
      ≡ (if n == k then Option.map change (get n nodes) else get n nodes)
get-modify n k change [] = ground arith
get-modify n k change ((j, node) ∷ nodes) =
    ground (arith, eq_iff n k, eq_iff k j, eq_iff n j, get-modify n k change nodes)

pub keys-modify :
    (k : String) (change : Node → Node) (nodes : Nodes) → keys (modify k change nodes) ≡ keys nodes
keys-modify k change [] = refl
keys-modify k change ((j, node) ∷ nodes) = ground (arith, keys-modify k change nodes)

abbrev pub dependent : String → Node → Node
dependent id node = record node { required_by = node.required_by ++ id ∷ [] }

deps_of-dependent :
    (n k id : String) (nodes : Nodes) → deps_of (modify k (dependent id) nodes) n ≡ deps_of nodes n
deps_of-dependent n k id nodes = ground (arith, get-modify n k (dependent id) nodes)

deps_of-add_dependents :
    (n id : String) (deps : List String) (nodes : Nodes)
    → deps_of (add_dependents id deps nodes) n ≡ deps_of nodes n
deps_of-add_dependents n id [] nodes = refl
deps_of-add_dependents n id (d ∷ ds) nodes =
    deps_of-add_dependents n id ds (modify d (dependent id) nodes) ∙ deps_of-dependent n d id nodes

keys-add_dependents :
    (id : String) (deps : List String) (nodes : Nodes)
    → keys (add_dependents id deps nodes) ≡ keys nodes
keys-add_dependents id [] nodes = refl
keys-add_dependents id (d ∷ ds) nodes =
    keys-add_dependents id ds (modify d (dependent id) nodes) ∙ keys-modify d (dependent id) nodes

abbrev AllFine : List String → Nodes → Type 0
AllFine ids nodes = (n : String) → IsFine ids n (deps_of nodes n)

abbrev pub with_deps : List String → Node → Node
with_deps deps node = record node { depends_on = deps }

-- One round of the loop of `build`.
abbrev pub link_one : String → List String → Nodes → Nodes
link_one id deps nodes = add_dependents id deps (modify id (with_deps deps) nodes)

pub deps_of-link_one :
    (n id : String) (deps : List String) (nodes : Nodes)
    → deps_of (link_one id deps nodes) n
      ≡ (if n == id && elem n (keys nodes) then deps else deps_of nodes n)
deps_of-link_one n id deps nodes =
    deps_of-add_dependents n id deps (modify id (with_deps deps) nodes)
    ∙ ground (arith, get-modify n id (with_deps deps) nodes, elem-keys n nodes)

pub keys-link_one :
    (id : String) (deps : List String) (nodes : Nodes) → keys (link_one id deps nodes) ≡ keys nodes
keys-link_one id deps nodes =
    keys-add_dependents id deps (modify id (with_deps deps) nodes)
    ∙ keys-modify id (with_deps deps) nodes

link_one-AllFine :
    (ids : List String) (id : String) (deps : List String) (nodes : Nodes)
    → IsFine ids id deps
    → AllFine ids nodes
    → AllFine ids (link_one id deps nodes)
link_one-AllFine ids id deps nodes fine all_fine n =
    subst (IsFine ids n) (sym (deps_of-link_one n id deps nodes)) (
      if_ind (IsFine ids n) (n == id && elem n (keys nodes))
        (λ hit. subst (λ x. IsFine ids x deps) (sym ((eq_iff n id).0 (ground arith))) fine)
        (λ miss. all_fine n))

link-AllFine :
    (ids : List String) (index : List (ℕ × String)) (prompts : Prompts) (nodes : Nodes)
    → IsIndexOf ids index
    → AllFine ids nodes
    → AllFine ids (link index prompts nodes)
link-AllFine ids index [] nodes indexed h = h
link-AllFine ids index ((id, text) ∷ prompts) nodes indexed h =
    let deps = extract_dependencies text index id in
    link-AllFine ids index prompts (link_one id deps nodes) indexed
      (link_one-AllFine ids id deps nodes (extract-IsFine ids index indexed id text) h)

keys-link :
    (index : List (ℕ × String)) (prompts : Prompts) (nodes : Nodes)
    → keys (link index prompts nodes) ≡ keys nodes
keys-link index [] nodes = refl
keys-link index ((id, text) ∷ prompts) nodes =
    let deps = extract_dependencies text index id in
    keys-link index prompts (link_one id deps nodes) ∙ keys-link_one id deps nodes

pub keys-blank : (prompts : Prompts) → keys (blank prompts) ≡ keys prompts
keys-blank [] = refl
keys-blank ((id, text) ∷ prompts) = ground (arith, keys-blank prompts)

pub deps_of-blank : (prompts : Prompts) (n : String) → deps_of (blank prompts) n ≡ []
deps_of-blank [] n = refl
deps_of-blank ((id, text) ∷ prompts) n = ground (arith, deps_of-blank prompts n)

pub keys-graph : (prompts : Prompts) → keys (graph prompts) ≡ keys prompts
unfolding graph
keys-graph prompts =
    keys-link (number_index (keys prompts)) prompts (blank prompts) ∙ keys-blank prompts

-- In the graph that `build` makes, no agent depends on itself, none lists a dependency twice, and
-- every dependency is an agent of the session: references to other agents are dropped.
pub graph-IsFine :
    (prompts : Prompts) (n : String) → IsFine (keys prompts) n (deps_of (graph prompts) n)
unfolding graph
graph-IsFine prompts =
    link-AllFine (keys prompts) (number_index (keys prompts)) prompts (blank prompts)
      (number_index-IsIndexOf (keys prompts))
      λ n.
        subst (IsFine (keys prompts) n) (sym (deps_of-blank prompts n))
          (record { others = refl; once = tt; known = λ d e. absurd (ground arith) })

-- `build` always ends: `_validate` accepts the graph or reports a cycle, and neither runs into a
-- missing node nor out of fuel.
pub build-Decides : (prompts : Prompts) → Decides (validate (graph prompts))
build-Decides prompts =
    validate-Decides (graph prompts)
      λ n d e. ap (elem d) (keys-graph prompts) ∙ (graph-IsFine prompts n).known d e
