-- ===== src/Prover/Ordered.antt =====
-- Without a cycle, `parse_order` puts dependencies first.
use ciwarden.Base.{
  String, ◌≡◌, refl, sym, ◌∙◌, ap, Bool, true, false, ◌||◌, not, Option, none, some, List, [], ◌∷◌,
  ◌++◌, if◌then◌else◌, ◌==◌, eq_iff, eq_refl, arith, elem, elem-append, length, Nodup, get, keys,
  Bool-cases, inl, inr, subst,
}
use ciwarden.Base.Sort.{str_le, elem-sort}
use ciwarden.Prover.{
  Graph, Parsing, can_go, ready_modules, place, place_all, or_rest, batch, parse_order,
}
use ciwarden.Prover.Complete.{Inv, start, start-Inv, rounds-Total}

abbrev pub deps_in : Graph → String → List String
deps_in graph m = elim (get m graph) [ none ↦ [] | some deps ↦ deps ]

-- All chains of dependencies inside the graph end at this module.
pub data Founded (graph : Graph) : String → Type 0 where
  founded :
      (m : String)
      → ((d : String)
          → elem d (deps_in graph m) ≡ true
          → elem d (keys graph) ≡ true
          → Founded graph d)
      → Founded graph m

-- Each module of `order` has all its dependencies, those that are modules, in `seen` or earlier.
abbrev pub DepsFirst : Graph → List String → List String → Type 0
DepsFirst graph seen [] = Unit
DepsFirst graph seen (m ∷ order) =
    (can_go graph seen (deps_in graph m) ≡ true) × DepsFirst graph (m ∷ seen) order

can_go_mono :
    (graph : Graph) (xs ys ds : List String)
    → ((x : String) → elem x xs ≡ true → elem x ys ≡ true)
    → can_go graph xs ds ≡ true
    → can_go graph ys ds ≡ true
can_go_mono graph xs ys [] sub h = refl
can_go_mono graph xs ys (d ∷ ds) sub h = ground (arith, sub d, can_go_mono graph xs ys ds sub)

DepsFirst-snoc :
    (graph : Graph) (seen order : List String) (m : String) (all_seen : List String)
    → ((x : String) → elem x all_seen ≡ true → (elem x seen || elem x order) ≡ true)
    → can_go graph all_seen (deps_in graph m) ≡ true
    → DepsFirst graph seen order
    → DepsFirst graph seen (order ++ m ∷ [])
DepsFirst-snoc graph seen [] m all_seen sub ok h =
    (can_go_mono graph all_seen seen (deps_in graph m) (λ x e. ground (arith, sub x)) ok, tt)
DepsFirst-snoc graph seen (y ∷ order) m all_seen sub ok h =
    (h.0, DepsFirst-snoc graph (y ∷ seen) order m all_seen (λ x e. ground (arith, sub x)) ok h.1)

ready_modules-can_go :
    (graph : Graph) (sat : List String) (d : Graph) (x : String)
    → Nodup (keys d)
    → elem x (ready_modules graph sat d) ≡ true
    → (elem x (keys d) ≡ true) × (can_go graph sat (deps_in d x) ≡ true)
unfolding ready_modules
ready_modules-can_go graph sat [] x once h = absurd (ground arith)
ready_modules-can_go graph sat ((m, deps) ∷ d) x once h =
    let below = λ (e : elem x (ready_modules graph sat d) ≡ true).
      ready_modules-can_go graph sat d x once.1 e in
    elim (Bool-cases (x == m)) [
      | inl same ↦
          let first : elem x (keys d) ≡ false =
            subst (λ y. elem y (keys d) ≡ false) (sym ((eq_iff x m).0 same)) once.0 in
          (ground (arith, same), rw (same, deps_in) (ground (arith, same, below, first)))
      | inr other ↦ (ground (arith, below), rw (other, deps_in) (below (ground arith)).1)
    ]

ready_modules-elem :
    (graph : Graph) (sat : List String) (d : Graph) (x : String)
    → elem x (keys d) ≡ true
    → can_go graph sat (deps_in d x) ≡ true
    → elem x (ready_modules graph sat d) ≡ true
unfolding ready_modules
ready_modules-elem graph sat [] x key ok = absurd (ground arith)
ready_modules-elem graph sat ((m, deps) ∷ d) x key ok = elim (Bool-cases (x == m)) [
  | inl same ↦
      let now : can_go graph sat deps ≡ true =
        sym (
          ap
            (λ (b : Bool).
              can_go graph sat (elim (if b then some deps else get x d) [ none ↦ [] | some l ↦ l ]))
            same)
        ∙ ok in
      ground (arith, now, same)
  | inr other ↦
      let later : can_go graph sat (deps_in d x) ≡ true =
        sym (
          ap
            (λ (b : Bool).
              can_go graph sat (elim (if b then some deps else get x d) [ none ↦ [] | some l ↦ l ]))
            other)
        ∙ ok in
      let ih = ready_modules-elem graph sat d x (ground arith) later in ground (arith, ih)
]

blocked_by :
    (graph : Graph) (sat ds : List String)
    → can_go graph sat ds ≡ false
    → (d : String) × (elem d ds ≡ true) × (elem d sat ≡ false) × (elem d (keys graph) ≡ true)
blocked_by graph sat [] h = absurd (ground arith)
blocked_by graph sat (d ∷ ds) h = elim (Bool-cases (elem d sat || not (elem d (keys graph)))) [
  | inl e ↦
      let (x, inside, new, key) = blocked_by graph sat ds (ground arith) in
      (x, ground arith, new, key)
  | inr e ↦ (d, ground (arith, eq_refl d), ground arith, ground arith)
]

module _ (graph : Graph) where
  deps_kept :
      (p : Parsing)
      → Inv graph p
      → (m : String) → elem m (keys p.remaining) ≡ true
      → can_go graph p.satisfied (deps_in p.remaining m)
        ≡ can_go graph p.satisfied (deps_in graph m)
  deps_kept p inv m here =
      ap
        (λ (o : Option (List String)).
          can_go graph p.satisfied (elim o [ none ↦ [] | some deps ↦ deps ]))
        (inv.kept m here)

  -- While a founded module remains, some module is ready.
  some_ready :
      (p : Parsing)
      → Inv graph p
      → (m : String) → Founded graph m
      → elem m (keys p.remaining) ≡ true
      → (r : String) × (elem r (ready_modules graph p.satisfied p.remaining) ≡ true)
  some_ready p inv m (founded _ below) here =
      elim (Bool-cases (can_go graph p.satisfied (deps_in graph m))) [
        | inl ok ↦ (
          m,
          ready_modules-elem graph p.satisfied p.remaining m here (deps_kept p inv m here ∙ ok),
        )
        | inr wait ↦
            let (d, dep, new, key) = blocked_by graph p.satisfied (deps_in graph m) wait in
            some_ready p inv d (below d dep key) (ground (arith, inv.parts d))
      ]

  place_all-DepsFirst :
      (ms all_seen : List String) (p : Parsing)
      → ((x : String) → elem x ms ≡ true → can_go graph all_seen (deps_in graph x) ≡ true)
      → ((x : String) → elem x all_seen ≡ true → elem x p.ordered ≡ true)
      → DepsFirst graph [] p.ordered
      → DepsFirst graph [] (place_all ms p).ordered
  unfolding place_all
  place_all-DepsFirst [] all_seen p ok sub h = h
  place_all-DepsFirst (m ∷ ms) all_seen p ok sub h =
      place_all-DepsFirst ms all_seen (place m p) (λ x e. ok x (ground arith))
        (λ x e. elem-append x p.ordered (m ∷ []) ∙ ground (arith, sub x))
        (DepsFirst-snoc graph [] p.ordered m all_seen sub (ok m (ground (arith, eq_refl m))) h)

  module _ (all_founded : (m : String) → elem m (keys graph) ≡ true → Founded graph m) where
    -- Without a cycle each module of a batch is ready.
    batch-can_go :
        (p : Parsing)
        → Inv graph p
        → (x : String) → elem x (batch graph p) ≡ true
        → can_go graph p.satisfied (deps_in graph x) ≡ true
    unfolding batch
    batch-can_go p inv x e =
        go (ready_modules graph p.satisfied p.remaining) refl (sym (elem-sort str_le x _) ∙ e)
      where
        go :
            (r : List String)
            → ready_modules graph p.satisfied p.remaining ≡ r
            → elem x (or_rest r p.remaining) ≡ true
            → can_go graph p.satisfied (deps_in graph x) ≡ true
        go [] same e =
            let (y, is_ready) =
              some_ready p inv x (all_founded x (ground (arith, inv.parts x, e))) e in
            let nothing = ap (elem y) same in absurd (ground (arith, nothing, is_ready))
        go (m ∷ ms) same e =
            let (here, ok) =
              ready_modules-can_go graph p.satisfied p.remaining x inv.left_once
                (ap (elem x) same ∙ e) in
            sym (deps_kept p inv x here) ∙ ok

-- On a graph with distinct modules in which every chain of dependencies ends, `parse_order` puts each
-- module after all of its dependencies that are modules of the graph.
pub parse_order-DepsFirst :
    (graph : Graph)
    → Nodup (keys graph)
    → ((m : String) → elem m (keys graph) ≡ true → Founded graph m)
    → (order : List String) × (parse_order graph ≡ some order) × DepsFirst graph [] order
unfolding parse_order
parse_order-DepsFirst graph once all_founded =
    let (q, e, inv, good, empty) =
      rounds-Total graph (λ p. DepsFirst graph [] p.ordered)
        (λ p inv good.
          place_all-DepsFirst graph (batch graph p) p.satisfied p
            (batch-can_go graph all_founded p inv) (λ x e. inv.same x ∙ e) good)
        (length graph) (start graph) (start-Inv graph once) tt (omega arith) in
    (q.ordered, e, good)
