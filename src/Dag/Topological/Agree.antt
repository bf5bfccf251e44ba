-- ===== src/Dag/Topological/Agree.antt =====
-- `topological_order` against `_validate`, on the graphs that `DAGBuilder.build` makes.
use ciwarden.Base.{
  ℕ, zero, suc, ◌+◌, ◌≤◌, ◌<◌, String, ◌≡◌, refl, sym, ◌∙◌, ap, true, false, List, [], ◌∷◌, ◌++◌,
  if◌then◌else◌, ◌==◌, eq_iff, eq_refl, arith, elem, elem-append, length, eqb, get, keys, elem-keys,
  Option-cases, Nodup, Bool-cases, inl, inr, ◌⊎◌, subst,
}
use ciwarden.Dag.Defs.{Nodes, deps_of, Search, finished, cycle, key_error, validate}
use ciwarden.Dag.Acyclic.{Grounded, grounded, validate-Grounded}
use ciwarden.Dag.Cycle.{Chain, step, snoc, validate-Chain}
use ciwarden.Dag.Fuel.{unvisited, unvisited-cons, unvisited_all, length-keys, Decides}
use ciwarden.Dag.Build.{Prompts, graph}
use ciwarden.Dag.Linked.{graph-IsFine, keys-graph, build-Decides}
use ciwarden.Dag.Mirror.{graph-IsMirror}
use ciwarden.Dag.Once.{graph-AllOnce}
use ciwarden.Dag.Topological.{Kahn, Sorting, sorted, cycle_present, waves, begun, topological_order}
use ciwarden.Dag.Topological.Lowering.{missing-all}
use ciwarden.Dag.Topological.Turns.{DepsBefore, turn-Inv}
use ciwarden.Dag.Topological.Turns.{IsLinked, Inv}
use ciwarden.Dag.Topological.Waves.{begun-Inv}

-- Distinct members of a list are no more than it has, also beside those of `seen`.
Nodup-unvisited :
    (xs ys seen : List String)
    → Nodup xs
    → ((x : String) → elem x xs ≡ true → elem x ys ≡ true)
    → ((x : String) → elem x xs ≡ true → elem x seen ≡ false)
    → length xs ≤ unvisited ys seen
Nodup-unvisited [] ys seen once sub new = omega arith
Nodup-unvisited (x ∷ xs) ys seen once sub new =
    let there : elem x (x ∷ xs) ≡ true = ground (arith, eq_refl x) in
    let fewer = unvisited-cons x ys seen (sub x there) (new x there) in
    let rest =
      Nodup-unvisited xs ys (x ∷ seen) once.1 (λ y e. sub y (ground arith))
        (λ y e. ground (arith, new y, once.0, eq_iff y x)) in
    omega (arith, fewer, rest)

Nodup-length :
    (xs ys : List String)
    → Nodup xs
    → ((x : String) → elem x xs ≡ true → elem x ys ≡ true)
    → length xs ≤ length ys
Nodup-length xs ys once sub =
    omega (arith, Nodup-unvisited xs ys [] once sub (λ x e. refl), unvisited_all ys)

-- As many distinct members as the list has are all of them.
Nodup-full :
    (xs ys : List String)
    → Nodup xs
    → ((x : String) → elem x xs ≡ true → elem x ys ≡ true)
    → length xs ≡ length ys
    → (x : String) → elem x ys ≡ true
    → elem x xs ≡ true
Nodup-full xs ys once sub full x e = elim (Bool-cases (elem x xs)) [
  | inl h ↦ h
  | inr h ↦
      let too_many =
        Nodup-length (x ∷ xs) ys (h, once) (λ y k. ground (arith, sub y, eq_iff y x, e)) in
      absurd (omega (arith, too_many, full))
]

Chain-first :
    (nodes : Nodes) (a : String) {c : String}
    → Chain nodes a c
    → (b : String) × (elem b (deps_of nodes a) ≡ true) × ((b ≡ c) ⊎ Chain nodes b c)
Chain-first nodes a (step b e) = (b, e, inl refl)
Chain-first nodes a (snoc c ch e) =
    let (b, k, later) = Chain-first nodes a ch in
    elim later [
      | inl same ↦ (b, k, inr (step c (subst (λ y. elem c (deps_of nodes y) ≡ true) (sym same) e)))
      | inr rest ↦ (b, k, inr (snoc c rest e))
    ]

Grounded-no_loop : (nodes : Nodes) (a : String) → Grounded nodes a → Chain nodes a a → ⊥
Grounded-no_loop nodes a (grounded a' below) loop =
    let (b, e, later) = Chain-first nodes a' loop in
    Grounded-no_loop nodes b (below b e) (elim later [
      | inl same ↦ step b (subst (λ y. elem b (deps_of nodes y) ≡ true) (sym same) e)
      | inr rest ↦ snoc b rest e
    ])

keys-deps_of :
    (nodes : Nodes) (n d : String) → elem d (deps_of nodes n) ≡ true → elem n (keys nodes) ≡ true
keys-deps_of nodes n d e = elim (Option-cases (get n nodes)) [
  | inr (node, h) ↦ elem-keys n nodes ∙ rw h refl
  | inl h ↦ absurd (ground arith)
]

module _ (nodes : Nodes) (linked : IsLinked nodes) where
  abbrev verdict : Kahn → Sorting
  verdict k = if eqb (length k.order) (length nodes) then sorted k.order else cycle_present

  -- Where the loop ends: on an empty queue.
  abbrev Ends : ℕ → Kahn → Type 0
  Ends fuel k =
      (k' : Kahn) × Inv nodes k'
      × ((x : String) → elem x k'.queue ≡ false)
      × (waves fuel nodes k ≡ verdict k')

  -- A round for each node that is not placed, and one, is enough.
  waves-Ends :
      (fuel : ℕ) (k : Kahn) → Inv nodes k → length nodes < fuel + length k.order → Ends fuel k
  unfolding waves
  waves-Ends zero k inv enough = absurd (
      omega (arith, Nodup-length k.order (keys nodes) inv.order_once inv.placed, length-keys nodes))
  waves-Ends (suc fuel) k inv enough = elim (turn-Inv nodes linked k inv) [
    | inl (e, empty) ↦ (k, inv, empty, rw (e, waves) refl)
    | inr (k', e, inv', grew) ↦
        let (last, inv'', empty, run) = waves-Ends fuel k' inv' (omega (arith, grew)) in
        (last, inv'', empty, rw (e, waves) run)
  ]

  module _ (k : Kahn) (inv : Inv nodes k) (empty : (x : String) → elem x k.queue ≡ false) where
    -- Nothing waits in the queue, so what has a grounded chain is placed.
    placed_of : (n : String) → Grounded nodes n → elem n (keys nodes) ≡ true → elem n k.order ≡ true
    placed_of n (grounded n' below) key =
        let zero_left =
          missing-all k.order (deps_of nodes n')
            λ d e. placed_of d (below d e) (linked.closed n' d e) in
        ground (arith, inv.queued n', empty n', zero_left)

    sorted_of :
        ((n : String) → elem n (keys nodes) ≡ true → Grounded nodes n) → verdict k ≡ sorted k.order
    sorted_of all =
        let most = Nodup-length k.order (keys nodes) inv.order_once inv.placed in
        let least = Nodup-length (keys nodes) k.order linked.names λ x e. placed_of x (all x e) e in
        ground (arith, most, least, length-keys nodes)

    Grounded-before :
        (seen ns : List String)
        → ((x : String) → elem x seen ≡ true → Grounded nodes x)
        → DepsBefore nodes seen ns
        → (x : String) → elem x ns ≡ true
        → Grounded nodes x
    Grounded-before seen [] h b x e = absurd (ground arith)
    Grounded-before seen (n ∷ ns) h b x e =
        let first : Grounded nodes n = grounded n (λ d k. h d (b.0 d k)) in
        elim (Bool-cases (x == n)) [
          | inl same ↦ subst (Grounded nodes) (sym ((eq_iff x n).0 same)) first
          | inr other ↦
              Grounded-before (seen ++ n ∷ []) ns
                (λ y k. elim (Bool-cases (y == n)) [
                  | inl same ↦ subst (Grounded nodes) (sym ((eq_iff y n).0 same)) first
                  | inr old ↦ h y (ground (arith, elem-append y seen (n ∷ [])))
                ])
                b.1 x (ground arith)
        ]

    full :
        length k.order ≡ length nodes
        → (x : String) → elem x (keys nodes) ≡ true
        → elem x k.order ≡ true
    full e = Nodup-full k.order (keys nodes) inv.order_once inv.placed (e ∙ sym (length-keys nodes))

    Grounded-all :
        length k.order ≡ length nodes → (x : String) → elem x (keys nodes) ≡ true → Grounded nodes x
    Grounded-all e x key =
        Grounded-before [] k.order (λ y h. absurd (ground arith)) inv.ordered x (full e x key)

pub graph-IsLinked : (prompts : Prompts) → Nodup (keys prompts) → IsLinked (graph prompts)
graph-IsLinked prompts once = record {
  names = subst Nodup (sym (keys-graph prompts)) once;
  deps = λ n. (graph-IsFine prompts n).once;
  dependents = graph-AllOnce prompts once;
  mirror = graph-IsMirror prompts once;
  closed = λ n d e. ap (elem d) (keys-graph prompts) ∙ (graph-IsFine prompts n).known d e;
}

-- An order of the agents: each once, and after all of its dependencies.
pub record IsOrder (nodes : Nodes) (order : List String) : Type 0 where
  pub once : Nodup order
  pub members : (x : String) → elem x order ≡ elem x (keys nodes)
  pub deps_before : DepsBefore nodes [] order

-- The two readings of one graph agree: both accept, or both report a cycle.
abbrev pub Agree : Nodes → Search → Sorting → Type 0
Agree nodes (finished m) s = (order : List String) × (s ≡ sorted order) × IsOrder nodes order
Agree nodes (cycle a b) s = s ≡ cycle_present
Agree nodes other s = ⊥

agree :
    (nodes : Nodes) (linked : IsLinked nodes)
    → Decides (validate nodes)
    → Agree nodes (validate nodes) (topological_order nodes)
unfolding topological_order
agree nodes linked decides =
    let (k, inv, empty, run) =
      waves-Ends nodes linked (suc (length nodes)) (begun nodes) (begun-Inv nodes linked)
        (omega arith) in
    split k inv empty run (validate nodes) refl decides
  where
    split :
        (k : Kahn)
        → Inv nodes k
        → ((x : String) → elem x k.queue ≡ false)
        → topological_order nodes ≡ verdict nodes linked k
        → (r : Search) → validate nodes ≡ r
        → Decides r
        → Agree nodes r (topological_order nodes)
    split k inv empty run (finished m) e d =
        let all = λ (n : String). validate-Grounded nodes m n e in
        (
          k.order,
          run ∙ sorted_of nodes linked k inv empty all,
          record {
            once = inv.order_once;
            members = λ x. elim (Bool-cases (elem x (keys nodes))) [
              | inl key ↦ placed_of nodes linked k inv empty x (all x key) key ∙ sym key
              | inr out ↦ ground (arith, inv.placed x)
            ];
            deps_before = inv.ordered;
          },
        )
    split k inv empty run (cycle a b) e d =
        elim (Bool-cases (eqb (length k.order) (length nodes))) [
          | inr short ↦ run ∙ rw short refl
          | inl all ↦
              let (back, loop) = validate-Chain nodes a b e in
              absurd (
                Grounded-no_loop nodes a
                  (Grounded-all nodes linked k inv empty (ground arith) a
                    (keys-deps_of nodes a b back))
                  loop)
        ]
    split k inv empty run key_error e d = elim d [ ]
    split k inv empty run Search.out_of_fuel e d = elim d [ ]

-- On every graph that `build` makes of distinct agents, `topological_order` ends and agrees with
-- `_validate`: where that accepts, it is an order of all agents, each once, with the dependencies of
-- each before it; where that reports a cycle, it raises its error for a cycle. It never meets an
-- unknown node, and as many rounds as there are nodes, and one, are enough.
pub topological_order-Agree :
    (prompts : Prompts)
    → Nodup (keys prompts)
    → Agree (graph prompts) (validate (graph prompts)) (topological_order (graph prompts))
topological_order-Agree prompts once =
    agree (graph prompts) (graph-IsLinked prompts once) (build-Decides prompts)
