-- ===== src/Dag/Cycle.antt =====
-- The cycle that `_validate` reports is there.
use ciwarden.Base.{
  ℕ, zero, suc, String, ◌≡◌, refl, sym, ◌∙◌, true, false, not, ◌⊎◌, inl, inr, Option, none, some,
  List, [], ◌∷◌, ◌==◌, eq_iff, eq_refl, arith, elem, length, get, keys, Bool-cases, if_ind, subst,
}
use ciwarden.Dag.Defs.{
  Node, Nodes, deps_of, Marks, Search, finished, cycle, key_error, out_of_fuel, enter, leave,
  and_then, visit_deps, dfs, visit_all, validate,
}
use ciwarden.Dag.Acyclic.{Sound, Inv, Grows, VisitSound, dfs-Sound, enter-Inv}

-- A chain of one dependency or more.
pub data Chain (nodes : Nodes) (a : String) : String → Type 0 where
  step : (b : String) → elem b (deps_of nodes a) ≡ true → Chain nodes a b
  snoc :
      {b : String} (c : String)
      → Chain nodes a b
      → elem c (deps_of nodes b) ≡ true
      → Chain nodes a c

pub Chain-cons :
    (nodes : Nodes) (a b : String) {c : String}
    → elem b (deps_of nodes a) ≡ true
    → Chain nodes b c
    → Chain nodes a c
Chain-cons nodes a b e (step c k) = snoc c (step b e) k
Chain-cons nodes a b e (snoc c ch k) = snoc c (Chain-cons nodes a b e ch) k

module _ (nodes : Nodes) where
  abbrev pub Real : Search → Type 0
  Real (cycle a b) = (elem b (deps_of nodes a) ≡ true) × Chain nodes a a
  Real _ = Unit

  -- Each node on the stack leads to the node.
  abbrev Leads : String → Marks → Type 0
  Leads n m = (x : String) → elem x m.in_stack ≡ true → Chain nodes x n

  -- Or is the node.
  abbrev LeadsOrIs : String → Marks → Type 0
  LeadsOrIs n m = (x : String) → elem x m.in_stack ≡ true → (x ≡ n) ⊎ Chain nodes x n

  abbrev VisitReal : (String → Marks → Search) → Type 0
  VisitReal visit =
      (n : String) (m : Marks)
      → Inv nodes m
      → elem n m.visited ≡ false
      → Leads n m
      → Real (visit n m)

  Leads-step :
      (n d : String) (m : Marks) → LeadsOrIs n m → elem d (deps_of nodes n) ≡ true → Leads d m
  Leads-step n d m h e x k = elim (h x k) [
    | inl same ↦ subst (λ y. Chain nodes y d) (sym same) (step d e)
    | inr chain ↦ snoc d chain e
  ]

  back_edge :
      (n d : String) (m : Marks)
      → LeadsOrIs n m
      → elem d (deps_of nodes n) ≡ true
      → elem d m.in_stack ≡ true
      → Real (cycle n d)
  back_edge n d m h e k = (
    e,
    elim (h d k) [
      | inl same ↦ subst (Chain nodes n) same (step d e)
      | inr chain ↦ Chain-cons nodes n d e chain
    ],
  )

  module _ (visit : String → Marks → Search) (sound : VisitSound nodes visit)
      (real : VisitReal visit) where
    Real-and_then :
        (d : String) (m : Marks) (k : Marks → Search)
        → Inv nodes m
        → elem d m.visited ≡ false
        → Real (visit d m)
        → ((m' : Marks) → Inv nodes m' → Grows nodes m m' → Real (k m'))
        → Real (and_then (visit d m) k)
    Real-and_then d m k inv new h f = go (visit d m) (sound d m inv new) h
      where
        go :
            (r : Search)
            → Sound nodes m r (λ m'. elem d m'.visited ≡ true)
            → Real r
            → Real (and_then r k)
        go (finished m') (inv', g, _) h = f m' inv' g
        go (cycle a b) s h = h
        go key_error s h = tt
        go out_of_fuel s h = tt

    visit_deps-Real :
        (n : String) (ds : List String) (m : Marks)
        → ((d : String) → elem d ds ≡ true → elem d (deps_of nodes n) ≡ true)
        → Inv nodes m
        → LeadsOrIs n m
        → Real (visit_deps visit n ds m)
    unfolding visit_deps
    visit_deps-Real n [] m sub inv leads = tt
    visit_deps-Real n (d ∷ ds) m sub inv leads =
        let here = sub d (ground (arith, eq_refl d)) in
        let rest = λ (x : String) (k : elem x ds ≡ true). sub x (ground arith) in
        if_ind Real (not (elem d m.visited))
          (λ new.
            Real-and_then d m (visit_deps visit n ds) inv (ground arith)
              (real d m inv (ground arith) (Leads-step n d m leads here))
              λ m' inv' g. visit_deps-Real n ds m' rest inv' (λ x k. leads x (sym (g.same x) ∙ k)))
          (λ seen.
            if_ind Real (elem d m.in_stack) (λ back. back_edge n d m leads here back)
              (λ off. visit_deps-Real n ds m rest inv leads))

    visit_all-Real :
        (ns : List String) (m : Marks)
        → Inv nodes m
        → ((x : String) → elem x m.in_stack ≡ false)
        → Real (visit_all visit ns m)
    unfolding visit_all
    visit_all-Real [] m inv idle = tt
    visit_all-Real (n ∷ ns) m inv idle =
        if_ind Real (not (elem n m.visited))
          (λ new.
            Real-and_then n m (visit_all visit ns) inv (ground arith)
              (real n m inv (ground arith) (λ x k. absurd (ground (arith, idle x))))
              λ m' inv' g. visit_all-Real ns m' inv' (λ x. g.same x ∙ idle x))
          (λ seen. visit_all-Real ns m inv idle)

  leave-Real : (n : String) (r : Search) → Real r → Real (leave n r)
  leave-Real n (finished m) h = tt
  leave-Real n (cycle a b) h = h
  leave-Real n key_error h = tt
  leave-Real n out_of_fuel h = tt

  enter-LeadsOrIs : (n : String) (m : Marks) → Leads n m → LeadsOrIs n (enter n m)
  enter-LeadsOrIs n m leads x k = elim (Bool-cases (x == n)) [
    | inl same ↦ inl ((eq_iff x n).0 same)
    | inr other ↦ inr (leads x (ground arith))
  ]

  dfs-Real : (fuel : ℕ) → VisitReal (dfs fuel nodes)
  unfolding dfs
  dfs-Real zero n m inv new leads = tt
  dfs-Real (suc fuel) n m inv new leads = split (get n nodes) refl (dfs-Real fuel)
    where
      split :
          (found : Option Node)
          → get n nodes ≡ found
          → VisitReal (dfs fuel nodes)
          → Real (dfs (suc fuel) nodes n m)
      split none e ih = rw (e, dfs) tt
      split (some node) e ih =
          let deps : deps_of nodes n ≡ node.depends_on = ground arith in
          rw (e, dfs)
            (leave-Real n (visit_deps (dfs fuel nodes) n node.depends_on (enter n m)) (
              visit_deps-Real (dfs fuel nodes) (dfs-Sound nodes fuel) ih n node.depends_on
                (enter n m) (λ d k. rw deps k) (enter-Inv nodes n m inv)
                (enter-LeadsOrIs n m leads)))

abbrev pub fresh_marks : Marks
fresh_marks = record { visited = []; in_stack = [] }

pub fresh_marks-Inv : (nodes : Nodes) → Inv nodes fresh_marks
fresh_marks-Inv nodes = record {
  left = λ x k _. absurd (ground arith);
  stacked = λ x k. absurd (ground arith);
}

-- If `_validate` reports the edge from a back to b, then a depends on b and there is a chain of
-- dependencies from a to a.
pub validate-Chain :
    (nodes : Nodes) (a b : String)
    → validate nodes ≡ cycle a b
    → (elem b (deps_of nodes a) ≡ true) × Chain nodes a a
unfolding validate
validate-Chain nodes a b e =
    let fuel = suc (length nodes) in
    subst (Real nodes) e (
      visit_all-Real nodes (dfs fuel nodes) (dfs-Sound nodes fuel) (dfs-Real nodes fuel)
        (keys nodes) fresh_marks (fresh_marks-Inv nodes) (λ x. refl))
