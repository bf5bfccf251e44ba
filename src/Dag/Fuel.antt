-- ===== src/Dag/Fuel.antt =====
-- `_validate` always ends with a verdict: the fuel is enough, and no node is missing.
use ciwarden.Base.{
  ℕ, zero, suc, ◌≤◌, ◌<◌, String, ◌≡◌, refl, true, false, not, Option, none, some, List, [], ◌∷◌,
  if◌then◌else◌, ◌==◌, eq_iff, eq_refl, arith, elem, length, get, keys, Bool-cases, inl, inr,
  if_ind, elem-keys,
}
use ciwarden.Dag.Defs.{
  Node, Nodes, deps_of, Marks, Search, finished, cycle, key_error, out_of_fuel, enter, leave,
  and_then, visit_deps, dfs, visit_all, validate,
}
use ciwarden.Dag.Acyclic.{Sound, Inv, Grows, VisitSound, dfs-Sound, enter-Inv}
use ciwarden.Dag.Cycle.{fresh_marks, fresh_marks-Inv}

-- Every dependency is a node of the graph.
abbrev pub IsClosed : Nodes → Type 0
IsClosed nodes = (n d : String) → elem d (deps_of nodes n) ≡ true → elem d (keys nodes) ≡ true

-- How many of `ns` are not visited.
abbrev pub unvisited : List String → List String → ℕ
unvisited [] seen = 0
unvisited (n ∷ ns) seen = if elem n seen then unvisited ns seen else suc (unvisited ns seen)

pub unvisited-le :
    (ns seen more : List String)
    → ((x : String) → elem x seen ≡ true → elem x more ≡ true)
    → unvisited ns more ≤ unvisited ns seen
unvisited-le [] seen more h = omega arith
unvisited-le (n ∷ ns) seen more h = ground (arith, unvisited-le ns seen more h, h n)

pub unvisited-cons :
    (n : String) (ns seen : List String)
    → elem n ns ≡ true
    → elem n seen ≡ false
    → unvisited ns (n ∷ seen) < unvisited ns seen
unvisited-cons n [] seen h k = absurd (ground arith)
unvisited-cons n (y ∷ ys) seen h k = elim (Bool-cases (y == n)) [
  | inl same ↦ ground (arith, eq_iff y n, unvisited-le ys seen (n ∷ seen) (λ x e. ground arith))
  | inr other ↦ ground (arith, eq_iff y n, eq_iff n y, unvisited-cons n ys seen)
]

pub unvisited_all : (ns : List String) → unvisited ns [] ≡ length ns
unvisited_all [] = refl
unvisited_all (n ∷ ns) = ground (arith, unvisited_all ns)

abbrev pub Decides : Search → Type 0
Decides (finished m) = Unit
Decides (cycle a b) = Unit
Decides key_error = ⊥
Decides out_of_fuel = ⊥

module _ (nodes : Nodes) (closed : IsClosed nodes) where
  abbrev VisitDecides : ℕ → (String → Marks → Search) → Type 0
  VisitDecides fuel visit =
      (n : String) (m : Marks)
      → Inv nodes m
      → elem n (keys nodes) ≡ true
      → elem n m.visited ≡ false
      → unvisited (keys nodes) m.visited ≤ fuel
      → Decides (visit n m)

  module _ (fuel : ℕ) (visit : String → Marks → Search) (sound : VisitSound nodes visit)
      (decides : VisitDecides fuel visit) where
    Decides-and_then :
        (d : String) (m : Marks) (k : Marks → Search)
        → Inv nodes m
        → elem d m.visited ≡ false
        → Decides (visit d m)
        → ((m' : Marks) → Inv nodes m' → Grows nodes m m' → Decides (k m'))
        → Decides (and_then (visit d m) k)
    Decides-and_then d m k inv new h f = go (visit d m) (sound d m inv new) h
      where
        go :
            (r : Search)
            → Sound nodes m r (λ m'. elem d m'.visited ≡ true)
            → Decides r
            → Decides (and_then r k)
        go (finished m') (inv', g, _) h = f m' inv' g
        go (cycle a b) s h = tt
        go key_error s h = h
        go out_of_fuel s h = h

    less :
        (m m' : Marks)
        → Grows nodes m m'
        → unvisited (keys nodes) m.visited ≤ fuel
        → unvisited (keys nodes) m'.visited ≤ fuel
    less m m' g h = omega (arith, unvisited-le (keys nodes) m.visited m'.visited g.more)

    visit_deps-Decides :
        (n : String) (ds : List String) (m : Marks)
        → ((d : String) → elem d ds ≡ true → elem d (keys nodes) ≡ true)
        → Inv nodes m
        → unvisited (keys nodes) m.visited ≤ fuel
        → Decides (visit_deps visit n ds m)
    unfolding visit_deps
    visit_deps-Decides n [] m sub inv h = tt
    visit_deps-Decides n (d ∷ ds) m sub inv h =
        let rest = λ (x : String) (k : elem x ds ≡ true). sub x (ground arith) in
        if_ind Decides (not (elem d m.visited))
          (λ new.
            Decides-and_then d m (visit_deps visit n ds) inv (ground arith)
              (decides d m inv (sub d (ground (arith, eq_refl d))) (ground arith) h)
              λ m' inv' g. visit_deps-Decides n ds m' rest inv' (less m m' g h))
          (λ seen.
            if_ind Decides (elem d m.in_stack) (λ back. tt)
              (λ off. visit_deps-Decides n ds m rest inv h))

    visit_all-Decides :
        (ns : List String) (m : Marks)
        → ((d : String) → elem d ns ≡ true → elem d (keys nodes) ≡ true)
        → Inv nodes m
        → unvisited (keys nodes) m.visited ≤ fuel
        → Decides (visit_all visit ns m)
    unfolding visit_all
    visit_all-Decides [] m sub inv h = tt
    visit_all-Decides (n ∷ ns) m sub inv h =
        let rest = λ (x : String) (k : elem x ns ≡ true). sub x (ground arith) in
        if_ind Decides (not (elem n m.visited))
          (λ new.
            Decides-and_then n m (visit_all visit ns) inv (ground arith)
              (decides n m inv (sub n (ground (arith, eq_refl n))) (ground arith) h)
              λ m' inv' g. visit_all-Decides ns m' rest inv' (less m m' g h))
          (λ seen. visit_all-Decides ns m rest inv h)

  leave-Decides : (n : String) (r : Search) → Decides r → Decides (leave n r)
  leave-Decides n (finished m) h = tt
  leave-Decides n (cycle a b) h = tt
  leave-Decides n key_error h = h
  leave-Decides n out_of_fuel h = h

  dfs-Decides : (fuel : ℕ) → VisitDecides fuel (dfs fuel nodes)
  unfolding dfs
  dfs-Decides zero n m inv key new h =
      omega (arith, unvisited-cons n (keys nodes) m.visited key new)
  dfs-Decides (suc fuel) n m inv key new h = split (get n nodes) refl (dfs-Decides fuel)
    where
      split :
          (found : Option Node)
          → get n nodes ≡ found
          → VisitDecides fuel (dfs fuel nodes)
          → Decides (dfs (suc fuel) nodes n m)
      split none e ih = absurd (ground (arith, elem-keys n nodes))
      split (some node) e ih =
          let deps : deps_of nodes n ≡ node.depends_on = ground arith in
          rw (e, dfs)
            (leave-Decides n (visit_deps (dfs fuel nodes) n node.depends_on (enter n m)) (
              visit_deps-Decides fuel (dfs fuel nodes) (dfs-Sound nodes fuel) ih n node.depends_on
                (enter n m) (λ d k. closed n d (rw deps k)) (enter-Inv nodes n m inv)
                (omega (arith, unvisited-cons n (keys nodes) m.visited key new))))

pub length-keys : {V : Type 0} (d : List (String × V)) → length (keys d) ≡ length d
length-keys [] = refl
length-keys ((k, v) ∷ d) = ground (arith, length-keys d)

-- On a graph whose dependencies are all nodes, `_validate` ends: with acceptance or with a cycle.
-- As much fuel as there are nodes, and one, is enough.
pub validate-Decides : (nodes : Nodes) → IsClosed nodes → Decides (validate nodes)
unfolding validate
validate-Decides nodes closed =
    let fuel = suc (length nodes) in
    visit_all-Decides nodes closed fuel (dfs fuel nodes) (dfs-Sound nodes fuel)
      (dfs-Decides nodes closed fuel) (keys nodes) fresh_marks (λ d k. k) (fresh_marks-Inv nodes)
      (omega (arith, unvisited_all (keys nodes), length-keys nodes))
