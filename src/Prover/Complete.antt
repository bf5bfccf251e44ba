-- ===== src/Prover/Complete.antt =====
-- `parse_order` ends, and orders each module once.
use ciwarden.Base.{
  ℕ, zero, suc, ◌≤◌, ◌<◌, String, ◌≡◌, refl, sym, ◌∙◌, ap, true, false, ◌||◌, ◌&&◌, not, none, some,
  List, [], ◌∷◌, Nodup-snoc, if◌then◌else◌, ◌==◌, eq_iff, eq_refl, arith, elem, elem-append, length,
  Nodup, get, keys, if_ind,
}
use ciwarden.Base.Sort.{sort, str_le, elem-sort, Nodup-sort}
use ciwarden.Prover.{
  Graph, Parsing, can_go, ready_modules, pop, place, place_all, or_rest, batch, rounds, parse_order,
}

pub keys-pop :
    (x m : String) (d : Graph) → elem x (keys (pop m d)) ≡ (elem x (keys d) && not (x == m))
keys-pop x m [] = refl
keys-pop x m ((j, v) ∷ d) = ground (arith, keys-pop x m d, eq_iff m j, eq_iff x j, eq_iff x m)

Nodup-pop : (m : String) (d : Graph) → Nodup (keys d) → Nodup (keys (pop m d))
Nodup-pop m [] h = tt
Nodup-pop m ((j, v) ∷ d) h =
    if_ind (λ (r : Graph). Nodup (keys r)) (m == j) (λ e. Nodup-pop m d h.1)
      (λ e. (keys-pop j m d ∙ ground (arith, h.0), Nodup-pop m d h.1))

get-pop : (x m : String) (d : Graph) → get x (pop m d) ≡ (if x == m then none else get x d)
get-pop x m [] = ground arith
get-pop x m ((j, v) ∷ d) = ground (arith, get-pop x m d, eq_iff m j, eq_iff x j, eq_iff x m)

length-pop : (m : String) (d : Graph) → length (pop m d) ≤ length d
length-pop m [] = omega arith
length-pop m ((j, v) ∷ d) = ground (arith, length-pop m d)

length-pop_less : (m : String) (d : Graph) → elem m (keys d) ≡ true → length (pop m d) < length d
length-pop_less m [] h = absurd (ground arith)
length-pop_less m ((j, v) ∷ d) h = ground (arith, length-pop m d, length-pop_less m d)

ready_modules-sub :
    (graph : Graph) (sat : List String) (d : Graph) (x : String)
    → elem x (ready_modules graph sat d) ≡ true
    → elem x (keys d) ≡ true
unfolding ready_modules
ready_modules-sub graph sat [] x h = h
ready_modules-sub graph sat ((m, deps) ∷ d) x h = ground (arith, ready_modules-sub graph sat d x)

ready_modules-Nodup :
    (graph : Graph) (sat : List String) (d : Graph)
    → Nodup (keys d)
    → Nodup (ready_modules graph sat d)
unfolding ready_modules
ready_modules-Nodup graph sat [] h = tt
ready_modules-Nodup graph sat ((m, deps) ∷ d) h =
    let sub = ready_modules-sub graph sat d m in
    if_ind Nodup (can_go graph sat deps)
      (λ e. (ground (arith, sub, h.0), ready_modules-Nodup graph sat d h.1))
      (λ e. ready_modules-Nodup graph sat d h.1)

-- The batch of a round is not empty, has no module twice and only modules that remain.
pub batch-sub :
    (graph : Graph) (p : Parsing) (x : String)
    → elem x (batch graph p) ≡ true
    → elem x (keys p.remaining) ≡ true
unfolding batch
batch-sub graph p x h =
    go (ready_modules graph p.satisfied p.remaining)
      (ready_modules-sub graph p.satisfied p.remaining x) (sym (elem-sort str_le x _) ∙ h)
  where
    go :
        (r : List String)
        → (elem x r ≡ true → elem x (keys p.remaining) ≡ true)
        → elem x (or_rest r p.remaining) ≡ true
        → elem x (keys p.remaining) ≡ true
    go [] sub e = e
    go (m ∷ ms) sub e = sub e

batch-Nodup : (graph : Graph) (p : Parsing) → Nodup (keys p.remaining) → Nodup (batch graph p)
unfolding batch
batch-Nodup graph p h = Nodup-sort str_le _ (
    go (ready_modules graph p.satisfied p.remaining)
      (ready_modules-Nodup graph p.satisfied p.remaining h))
  where
    go : (r : List String) → Nodup r → Nodup (or_rest r p.remaining)
    go [] n = h
    go (m ∷ ms) n = n

-- What is placed and what remains make up the graph.
pub record Inv (graph : Graph) (p : Parsing) : Type 0 where
  pub parts : (x : String) → elem x (keys graph) ≡ (elem x p.satisfied || elem x (keys p.remaining))
  pub apart : (x : String) → elem x (keys p.remaining) ≡ true → elem x p.satisfied ≡ false
  pub same : (x : String) → elem x p.ordered ≡ elem x p.satisfied
  pub once : Nodup p.ordered
  pub left_once : Nodup (keys p.remaining)
  pub kept : (x : String) → elem x (keys p.remaining) ≡ true → get x p.remaining ≡ get x graph

module _ (graph : Graph) where
  place-Inv :
      (m : String) (p : Parsing)
      → elem m (keys p.remaining) ≡ true
      → Inv graph p
      → Inv graph (place m p)
  place-Inv m p here inv = record {
    parts = λ x.
        inv.parts x
        ∙ edge x
        ∙ sym (ap (λ b. (x == m || elem x p.satisfied) || b) (keys-pop x m p.remaining));
    apart =
        λ x e. let still = sym (keys-pop x m p.remaining) ∙ e in ground (arith, still, inv.apart x);
    same = λ x. elem-append x p.ordered (m ∷ []) ∙ ground (arith, inv.same x);
    once = Nodup-snoc p.ordered m inv.once (inv.same m ∙ inv.apart m here);
    left_once = Nodup-pop m p.remaining inv.left_once;
    kept = λ x e.
        let still = sym (keys-pop x m p.remaining) ∙ e in
        get-pop x m p.remaining ∙ ground (arith, still, inv.kept x);
  }
    where
      edge :
          (x : String)
          → (elem x p.satisfied || elem x (keys p.remaining))
            ≡ ((x == m || elem x p.satisfied) || (elem x (keys p.remaining) && not (x == m)))
      edge x = ground (arith, eq_iff x m, here)

  place_all-Inv :
      (ms : List String) (p : Parsing)
      → Nodup ms
      → ((x : String) → elem x ms ≡ true → elem x (keys p.remaining) ≡ true)
      → Inv graph p
      → Inv graph (place_all ms p)
  unfolding place_all
  place_all-Inv [] p once sub inv = inv
  place_all-Inv (m ∷ ms) p once sub inv =
      place_all-Inv ms (place m p) once.1
        (λ x e. keys-pop x m p.remaining ∙ ground (arith, sub x, e, once.0, eq_iff x m))
        (place-Inv m p (sub m (ground (arith, eq_refl m))) inv)

  length-place_all :
      (ms : List String) (p : Parsing) → length (place_all ms p).remaining ≤ length p.remaining
  unfolding place_all
  length-place_all [] p = omega arith
  length-place_all (m ∷ ms) p =
      omega (arith, length-place_all ms (place m p), length-pop m p.remaining)

  -- A round leaves fewer modules.
  round-less :
      (p : Parsing)
      → (x : String) → elem x (batch graph p) ≡ true
      → length (place_all (batch graph p) p).remaining < length p.remaining
  unfolding place_all
  round-less p x here = go (batch graph p) (batch-sub graph p) here
    where
      go :
          (ms : List String)
          → ((y : String) → elem y ms ≡ true → elem y (keys p.remaining) ≡ true)
          → elem x ms ≡ true
          → length (place_all ms p).remaining < length p.remaining
      go [] sub e = absurd (ground arith)
      go (m ∷ ms) sub e =
          let less = length-pop_less m p.remaining (sub m (ground (arith, eq_refl m))) in
          omega (arith, less, length-place_all ms (place m p))

  nonempty_batch :
      (p : Parsing)
      → (x : String) → elem x (keys p.remaining) ≡ true
      → (y : String) × (elem y (batch graph p) ≡ true)
  unfolding batch
  nonempty_batch p x here = go (ready_modules graph p.satisfied p.remaining)
    where
      go : (r : List String) → (y : String) × (elem y (sort str_le (or_rest r p.remaining)) ≡ true)
      go [] = (x, elem-sort str_le x (keys p.remaining) ∙ here)
      go (m ∷ ms) = (m, elem-sort str_le m (m ∷ ms) ∙ ground (arith, eq_refl m))

  -- What holds of the variables at the end, when nothing remains.
  module _ (Good : Parsing → Type 0)
      (step : (p : Parsing) → Inv graph p → Good p → Good (place_all (batch graph p) p)) where
    abbrev Result : ℕ → Parsing → Type 0
    Result fuel p =
        (q : Parsing) × (rounds fuel graph p ≡ some q.ordered)
        × Inv graph q
        × Good q
        × (q.remaining ≡ [])

    abbrev Total : ℕ → Type 0
    Total fuel = (p : Parsing) → Inv graph p → Good p → length p.remaining ≤ fuel → Result fuel p

    pub rounds-Total : (fuel : ℕ) → Total fuel
    unfolding rounds
    rounds-Total zero p inv good enough = go p.remaining refl
      where
        go : (rem : Graph) → p.remaining ≡ rem → Result zero p
        go [] e = (p, rw (e, rounds) refl, inv, good, e)
        go ((k, deps) ∷ rem) e =
            let size : length p.remaining ≡ suc (length rem) = ap length e in absurd (omega arith)
    rounds-Total (suc fuel) p inv good enough = go p.remaining refl (rounds-Total fuel)
      where
        go : (rem : Graph) → p.remaining ≡ rem → Total fuel → Result (suc fuel) p
        go [] e later = (p, rw (e, rounds) refl, inv, good, e)
        go ((k, deps) ∷ rem) e later =
            let here : elem k (keys p.remaining) ≡ true =
              ap (λ d. elem k (keys d)) e ∙ ground (arith, eq_refl k) in
            let (y, in_batch) = nonempty_batch p k here in
            let less = round-less p y in_batch in
            let next = place_all (batch graph p) p in
            let next_inv =
              place_all-Inv (batch graph p) p (batch-Nodup graph p inv.left_once)
                (batch-sub graph p) inv in
            let (q, r, i, g, none_left) = later next next_inv (step p inv good) (omega arith) in
            (q, rw (e, rounds) r, i, g, none_left)

abbrev pub start : Graph → Parsing
start graph = record { ordered = []; satisfied = []; remaining = graph }

pub start-Inv : (graph : Graph) → Nodup (keys graph) → Inv graph (start graph)
start-Inv graph once = record {
  parts = λ x. refl;
  apart = λ x e. refl;
  same = λ x. refl;
  once = tt;
  left_once = once;
  kept = λ x e. refl;
}

-- For any graph with distinct modules, with cycles or without, `parse_order` ends with an order that
-- holds each module of the graph once and nothing else.
pub parse_order-permutes :
    (graph : Graph)
    → Nodup (keys graph)
    → (order : List String) × (parse_order graph ≡ some order)
      × Nodup order
      × ((x : String) → elem x order ≡ elem x (keys graph))
unfolding parse_order
parse_order-permutes graph once =
    let (q, e, inv, _, empty) =
      rounds-Total graph (λ p. Unit) (λ p i g. tt) (length graph) (start graph)
        (start-Inv graph once) tt (omega arith) in
    let none_left = λ (x : String). ap (λ d. elem x (keys d)) empty in
    (q.ordered, e, inv.once, λ x. inv.same x ∙ ground (arith, none_left x, inv.parts x))
