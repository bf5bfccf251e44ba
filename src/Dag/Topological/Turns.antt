-- ===== src/Dag/Topological/Turns.antt =====
-- conductor/dag.py, `topological_order`: what a node that is taken changes.
use ciwarden.Base.{
  suc, String, ◌≡◌, refl, sym, ◌∙◌, ap, true, false, ◌&&◌, ◌||◌, not, Option, none, some, List, [],
  ◌∷◌, ◌++◌, ◌==◌, eq_iff, eq_refl, arith, elem, elem-append, length, length-append, eqb, Dict, get,
  keys, elem-keys, Nodup, Nodup-snoc, Bool-cases, Option-cases, inl, inr, subst, ◌⊎◌,
}
use ciwarden.Base.Sort.{sort, str_le, elem-sort, Nodup-sort}
use ciwarden.Dag.Defs.{Nodes, deps_of}
use ciwarden.Dag.Mirror.{IsMirror, required_of}
use ciwarden.Dag.Topological.{ℤ, pos, Kahn, Turn, over, went, failed, turn, take_first, lower}
use ciwarden.Dag.Topological.Lowering.{
  degree, missing, missing-zero, missing-some, missing-snoc, Lowered, lower-Lowered,
}

-- The names are distinct, no list of edges repeats one, and the two lists of edges agree.
pub record IsLinked (nodes : Nodes) : Type 0 where
  pub names : Nodup (keys nodes)
  pub deps : (n : String) → Nodup (deps_of nodes n)
  pub dependents : (n : String) → Nodup (required_of nodes n)
  pub mirror : IsMirror nodes
  pub closed : (n d : String) → elem d (deps_of nodes n) ≡ true → elem d (keys nodes) ≡ true

-- Every member has its dependencies before it, in the list or in `seen`.
abbrev pub DepsBefore : Nodes → List String → List String → Type 0
DepsBefore nodes seen [] = Unit
DepsBefore nodes seen (n ∷ ns) =
    ((d : String) → elem d (deps_of nodes n) ≡ true → elem d seen ≡ true)
    × DepsBefore nodes (seen ++ n ∷ []) ns

pub DepsBefore-snoc :
    (nodes : Nodes) (seen ns : List String) (n : String)
    → DepsBefore nodes seen ns
    → ((d : String) → elem d (deps_of nodes n) ≡ true → elem d (seen ++ ns) ≡ true)
    → DepsBefore nodes seen (ns ++ n ∷ [])
DepsBefore-snoc nodes seen [] n h k =
    (λ d e. sym (elem-append d seen [] ∙ ground arith) ∙ k d e, tt)
DepsBefore-snoc nodes seen (x ∷ xs) n h k = (
  h.0,
  DepsBefore-snoc nodes (seen ++ x ∷ []) xs n h.1 λ d e.
      elem-append d (seen ++ x ∷ []) xs
      ∙ ground (arith, elem-append d seen (x ∷ []), elem-append d seen (x ∷ xs), k d e),
)

pub keys-required :
    (nodes : Nodes) (a n : String)
    → IsMirror nodes
    → elem a (required_of nodes n) ≡ true
    → elem a (keys nodes) ≡ true
keys-required nodes a n mirror e = elim (Option-cases (get a nodes)) [
  | inr (node, h) ↦ elem-keys a nodes ∙ rw h refl
  | inl h ↦
      let edge : elem n (deps_of nodes a) ≡ true = sym (mirror a n) ∙ e in absurd (ground arith)
]

pub record Inv (nodes : Nodes) (k : Kahn) : Type 0 where
  pub known : (x : String) → elem x (keys k.in_degree) ≡ elem x (keys nodes)
  pub counted :
      (x : String)
      → elem x (keys nodes) ≡ true
      → degree x k.in_degree ≡ pos (missing k.order (deps_of nodes x))
  pub queued :
      (x : String)
      → elem x k.queue ≡ (
          elem x (keys nodes)
          && (not (elem x k.order) && eqb (missing k.order (deps_of nodes x)) 0))
  pub once : Nodup k.queue
  pub order_once : Nodup k.order
  pub placed : (x : String) → elem x k.order ≡ true → elem x (keys nodes) ≡ true
  pub done :
      (x d : String)
      → elem x k.order ≡ true
      → elem d (deps_of nodes x) ≡ true
      → elem d k.order ≡ true
  pub ordered : DepsBefore nodes [] k.order

module _ (nodes : Nodes) (linked : IsLinked nodes) (k : Kahn) (inv : Inv nodes k) (n : String)
    (rest : List String) (front : (x : String) → elem x (n ∷ rest) ≡ elem x k.queue)
    (once : Nodup (n ∷ rest)) where
  abbrev grown : List String
  grown = k.order ++ n ∷ []

  here : elem n k.queue ≡ true
  here = sym (front n) ∙ ground (arith, eq_refl n)

  key : elem n (keys nodes) ≡ true
  key = ground (arith, inv.queued n, here)

  new : elem n k.order ≡ false
  new = ground (arith, inv.queued n, here)

  none_missing : missing k.order (deps_of nodes n) ≡ 0
  none_missing = ground (arith, inv.queued n, here)

  not_self : elem n (deps_of nodes n) ≡ false
  not_self = elim (Bool-cases (elem n (deps_of nodes n))) [
    | inr e ↦ e
    | inl e ↦ absurd (ground (arith, missing-zero k.order (deps_of nodes n) n none_missing e, new))
  ]

  -- A dependent of the node is in neither list, as the node was missing.
  not_yet :
      (x : String)
      → elem x (required_of nodes n) ≡ true
      → (elem x k.queue ≡ false) × (elem x k.order ≡ false)
  not_yet x e =
      let edge : elem n (deps_of nodes x) ≡ true = sym (linked.mirror x n) ∙ e in
      let (m, h) = missing-some k.order (deps_of nodes x) n edge new in
      (
        ground (arith, inv.queued x, h),
        elim (Bool-cases (elem x k.order)) [
          | inr out ↦ out
          | inl inside ↦ absurd (ground (arith, inv.done x n inside edge, new))
        ],
      )

  elem-grown : (x : String) → elem x grown ≡ (elem x k.order || x == n)
  elem-grown x = elem-append x k.order (n ∷ []) ∙ ground arith

  module _ (r : Dict ℤ × List String) (l : Lowered (required_of nodes n) k.in_degree rest r) where
    abbrev next : Kahn
    next = record { in_degree = r.0; queue = r.1; order = grown }

    next-counted :
        (x : String)
        → elem x (keys nodes) ≡ true
        → degree x r.0 ≡ pos (missing grown (deps_of nodes x))
    next-counted x e = ground (
      arith,
      l.values x,
      inv.counted x e,
      linked.mirror x n,
      missing-snoc k.order (deps_of nodes x) n (linked.deps x) new,
    )

    next-queued :
        (x : String)
        → elem x r.1
          ≡ (elem x (keys nodes) && (not (elem x grown) && eqb (missing grown (deps_of nodes x)) 0))
    next-queued x = elim (Bool-cases (elem x (required_of nodes n))) [
      | inl e ↦
          let there = keys-required nodes x n linked.mirror e in
          ground (
            arith,
            l.queued x,
            l.values x,
            next-counted x there,
            not_yet x e,
            front x,
            elem-grown x,
            eq_iff x n,
            not_self,
            linked.mirror x n,
          )
      | inr e ↦ ground (
        arith,
        l.queued x,
        front x,
        once.0,
        inv.queued x,
        elem-grown x,
        eq_iff x n,
        linked.mirror x n,
        missing-snoc k.order (deps_of nodes x) n (linked.deps x) new,
      )
    ]

    next-Inv : Inv nodes next
    next-Inv = record {
      known = λ x. l.known x ∙ inv.known x;
      counted = next-counted;
      queued = next-queued;
      once = l.once once.1 λ x e. ground (arith, not_yet x e, front x);
      order_once = Nodup-snoc k.order n inv.order_once new;
      placed = λ x e. ground (arith, elem-grown x, inv.placed x, key, eq_iff x n);
      done = λ x d e h. elim (Bool-cases (x == n)) [
        | inl same ↦
            let edge : elem d (deps_of nodes n) ≡ true =
              ap (λ y. elem d (deps_of nodes y)) (sym ((eq_iff x n).0 same)) ∙ h in
            elem-grown d
            ∙ ground (arith, missing-zero k.order (deps_of nodes n) d none_missing edge)
        | inr other ↦ elem-grown d ∙ ground (arith, inv.done x d (ground (arith, elem-grown x)) h)
      ];
      ordered =
          DepsBefore-snoc nodes [] k.order n inv.ordered
            λ d e. missing-zero k.order (deps_of nodes n) d none_missing e;
    }

  -- A round on a queue that is not empty places its first node.
  step : (k' : Kahn) × (take_first nodes (n ∷ rest) k ≡ went k') × Inv nodes k' × (k'.order ≡ grown)
  step = elim (Option-cases (get n nodes)) [
    | inl e ↦ absurd (ground (arith, e, elem-keys n nodes, key))
    | inr (node, e) ↦
        let dependents : required_of nodes n ≡ node.required_by = ground (arith, e) in
        let (r, run, l) =
          lower-Lowered (required_of nodes n) k.in_degree rest (linked.dependents n)
            λ x h. inv.known x ∙ keys-required nodes x n linked.mirror h in
        (
          next r l,
          rw (e, take_first)
              (ap (λ o. released o) (ap (λ ds. lower ds k.in_degree rest) (sym dependents) ∙ run)),
          next-Inv r l,
          refl,
        )
  ]
    where
      released : Option (Dict ℤ × List String) → Turn
      released o = elim o [
        | none ↦ failed
        | some (degrees, queue) ↦
            went (record { in_degree = degrees; queue = queue; order = grown })
      ]

-- The empty queue ends the loop, and any other places one more node.
pub turn-Inv :
    (nodes : Nodes)
    → IsLinked nodes
    → (k : Kahn) → Inv nodes k
    → ((turn nodes k ≡ over) × ((x : String) → elem x k.queue ≡ false))
      ⊎ ((k' : Kahn) × (turn nodes k ≡ went k')
          × Inv nodes k'
          × (length k'.order ≡ suc (length k.order)))
unfolding turn
turn-Inv nodes linked k inv = split (sort str_le k.queue) refl
  where
    split :
        (q : List String)
        → sort str_le k.queue ≡ q
        → ((take_first nodes (sort str_le k.queue) k ≡ over)
            × ((x : String) → elem x k.queue ≡ false))
          ⊎ ((k' : Kahn) × (take_first nodes (sort str_le k.queue) k ≡ went k')
              × Inv nodes k'
              × (length k'.order ≡ suc (length k.order)))
    split [] e = inl (rw e refl, λ x. sym (elem-sort str_le x k.queue) ∙ ap (elem x) e)
    split (n ∷ rest) e =
        let (k', run, inv', grew) =
          step nodes linked k inv n rest (λ x. ap (elem x) (sym e) ∙ elem-sort str_le x k.queue)
            (subst Nodup e (Nodup-sort str_le k.queue inv.once)) in
        inr (k', rw e run, inv', ap length grew ∙ ground (arith, length-append k.order (n ∷ [])))
