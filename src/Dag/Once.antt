-- ===== src/Dag/Once.antt =====
-- conductor/dag.py: no agent stands twice in a list of `required_by` that `DAGBuilder.build` fills.
use ciwarden.Base.{
  ℕ, String, ◌≡◌, refl, sym, ◌∙◌, ap, true, false, ◌&&◌, List, [], ◌∷◌, ◌++◌, if◌then◌else◌, ◌==◌,
  eq_iff, eq_refl, arith, elem, keys, Nodup, Nodup-snoc, elem-keys, subst, if_ind,
}
use ciwarden.Dag.Defs.{Nodes, deps_of}
use ciwarden.Dag.Prompt.{extract_dependencies, number_index}
use ciwarden.Dag.Build.{Prompts, graph, modify, add_dependents, link, blank}
use ciwarden.Dag.Linked.{
  IsIndexOf, extract-IsFine, number_index-IsIndexOf, get-modify, keys-modify, dependent, with_deps,
  link_one, deps_of-link_one, keys-link_one, keys-blank, deps_of-blank,
}
use ciwarden.Dag.Mirror.{
  required_of, IsMirror, required-modify_deps, required-blank, link_one-IsMirror,
}

required-dependent_eq :
    (d x id : String) (nodes : Nodes)
    → required_of (modify x (dependent id) nodes) d ≡ (
        if d == x && elem d (keys nodes)
        then required_of nodes d ++ id ∷ []
        else required_of nodes d)
required-dependent_eq d x id nodes =
    ground (arith, get-modify d x (dependent id) nodes, elem-keys d nodes)

-- An agent with distinct dependencies is put at the end of each of their lists.
required-add_eq :
    (d id : String) (deps : List String) (nodes : Nodes)
    → Nodup deps
    → required_of (add_dependents id deps nodes) d ≡ (
        if elem d deps && elem d (keys nodes)
        then required_of nodes d ++ id ∷ []
        else required_of nodes d)
required-add_eq d id [] nodes once = refl
required-add_eq d id (x ∷ xs) nodes once =
    required-add_eq d id xs (modify x (dependent id) nodes) once.1
    ∙ ap
        (λ ks.
          let old = required_of (modify x (dependent id) nodes) d in
          if elem d xs && elem d ks then old ++ id ∷ [] else old)
        (keys-modify x (dependent id) nodes)
    ∙ ground (arith, required-dependent_eq d x id nodes, once.0, eq_iff d x)

abbrev pub AllOnce : Nodes → Type 0
AllOnce nodes = (d : String) → Nodup (required_of nodes d)

link_one-AllOnce :
    (id : String) (deps : List String) (nodes : Nodes)
    → Nodup deps
    → ((d : String) → elem id (required_of nodes d) ≡ false)
    → AllOnce nodes
    → AllOnce (link_one id deps nodes)
link_one-AllOnce id deps nodes once new all_once d =
    let linked = modify id (with_deps deps) nodes in
    let same = required-modify_deps d id deps nodes in
    subst Nodup (sym (required-add_eq d id deps linked once)) (
      if_ind Nodup (elem d deps && elem d (keys linked))
        (λ hit.
          subst (λ l. Nodup (l ++ id ∷ [])) (sym same)
            (Nodup-snoc (required_of nodes d) id (all_once d) (new d)))
        (λ miss. subst Nodup (sym same) (all_once d)))

link-AllOnce :
    (ids : List String) (index : List (ℕ × String)) (prompts : Prompts) (nodes : Nodes)
    → IsIndexOf ids index
    → keys nodes ≡ ids
    → Nodup (keys prompts)
    → ((n : String) → elem n (keys prompts) ≡ true → elem n ids ≡ true)
    → ((n : String) → elem n (keys prompts) ≡ true → deps_of nodes n ≡ [])
    → IsMirror nodes
    → AllOnce nodes
    → AllOnce (link index prompts nodes)
link-AllOnce ids index [] nodes indexed ks once sub fresh mirror h = h
link-AllOnce ids index ((id, text) ∷ prompts) nodes indexed ks once sub fresh mirror h =
    let deps = extract_dependencies text index id in
    let fine = extract-IsFine ids index indexed id text in
    let none_yet = fresh id (ground (arith, eq_refl id)) in
    link-AllOnce ids index prompts (link_one id deps nodes) indexed
      (keys-link_one id deps nodes ∙ ks) once.1 (λ n e. sub n (ground arith))
      (λ n e. deps_of-link_one n id deps nodes ∙ ground (arith, fresh n, once.0, eq_iff n id))
      (link_one-IsMirror ids id deps nodes ks (sub id (ground (arith, eq_refl id))) fine none_yet
        mirror)
      (link_one-AllOnce id deps nodes fine.once (λ d. mirror id d ∙ ap (elem d) none_yet) h)

-- Each agent stands once among those that wait for another.
pub graph-AllOnce : (prompts : Prompts) → Nodup (keys prompts) → AllOnce (graph prompts)
unfolding graph
graph-AllOnce prompts once =
    link-AllOnce (keys prompts) (number_index (keys prompts)) prompts (blank prompts)
      (number_index-IsIndexOf (keys prompts)) (keys-blank prompts) once (λ n e. e)
      (λ n e. deps_of-blank prompts n)
      (λ a d. ap (elem a) (required-blank prompts d) ∙ ap (elem d) (sym (deps_of-blank prompts a)))
      λ d. subst Nodup (sym (required-blank prompts d)) tt
