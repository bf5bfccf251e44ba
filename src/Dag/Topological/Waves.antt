-- ===== src/Dag/Topological/Waves.antt =====
-- conductor/dag.py, `topological_order`: the invariant holds at the start.
use ciwarden.Base.{
  suc, String, ◌≡◌, refl, sym, ◌∙◌, ap, true, ◌&&◌, List, [], ◌∷◌, eq_iff, arith, elem, length,
  Dict, keys, Nodup, Bool-cases, inl, inr, subst,
}
use ciwarden.Dag.Defs.{Nodes, deps_of}
use ciwarden.Dag.Topological.{ℤ, pos, is_zero, in_degrees, roots, begun}
use ciwarden.Dag.Topological.Lowering.{degree, missing}
use ciwarden.Dag.Topological.Turns.{IsLinked, Inv}

in_degrees-known :
    (nodes : Nodes) (x : String) → elem x (keys (in_degrees nodes)) ≡ elem x (keys nodes)
in_degrees-known [] x = refl
in_degrees-known ((n, node) ∷ nodes) x = ground (arith, in_degrees-known nodes x)

missing-none : (ds : List String) → missing [] ds ≡ length ds
missing-none [] = refl
missing-none (d ∷ ds) = ap suc (missing-none ds)

degree-in_degrees :
    (nodes : Nodes) (x : String)
    → elem x (keys nodes) ≡ true
    → degree x (in_degrees nodes) ≡ pos (missing [] (deps_of nodes x))
degree-in_degrees [] x e = absurd (ground arith)
degree-in_degrees ((n, node) ∷ nodes) x e =
    ground (arith, missing-none node.depends_on, degree-in_degrees nodes x)

elem-roots :
    (degrees : Dict ℤ) (x : String)
    → Nodup (keys degrees)
    → elem x (roots degrees) ≡ (elem x (keys degrees) && is_zero (degree x degrees))
elem-roots [] x once = refl
elem-roots ((n, k) ∷ degrees) x once =
    ground (arith, elem-roots degrees x once.1, once.0, eq_iff x n)

Nodup-roots : (degrees : Dict ℤ) → Nodup (keys degrees) → Nodup (roots degrees)
Nodup-roots [] once = tt
Nodup-roots ((n, k) ∷ degrees) once = elim (Bool-cases (is_zero k)) [
  | inl z ↦ rw z (elem-roots degrees n once.1 ∙ ground (arith, once.0), Nodup-roots degrees once.1)
  | inr z ↦ rw z (Nodup-roots degrees once.1)
]

keys-in_degrees : (nodes : Nodes) → keys (in_degrees nodes) ≡ keys nodes
keys-in_degrees [] = refl
keys-in_degrees ((n, node) ∷ nodes) = ap (λ ks. n ∷ ks) (keys-in_degrees nodes)

pub begun-Inv : (nodes : Nodes) → IsLinked nodes → Inv nodes (begun nodes)
begun-Inv nodes linked =
    let once : Nodup (keys (in_degrees nodes)) =
      subst Nodup (sym (keys-in_degrees nodes)) linked.names in
    record {
      known = in_degrees-known nodes;
      counted = degree-in_degrees nodes;
      queued = λ x. ground (
        arith,
        elem-roots (in_degrees nodes) x once,
        in_degrees-known nodes x,
        degree-in_degrees nodes x,
      );
      once = Nodup-roots (in_degrees nodes) once;
      order_once = tt;
      placed = λ x e. absurd (ground arith);
      done = λ x d e h. absurd (ground arith);
      ordered = tt;
    }
