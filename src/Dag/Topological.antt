-- ===== src/Dag/Topological.antt =====
-- conductor/dag.py: `topological_order`.
use ciwarden.Base.{
  ℕ, zero, suc, String, Bool, true, false, Option, none, some, List, [], ◌∷◌, ◌++◌, if◌then◌else◌,
  length, eqb, Dict, get, put, keys,
}
use ciwarden.Base.Sort.{sort, str_le}
use ciwarden.Dag.Defs.{Node, Nodes}
pub mod Lowering
pub mod Turns
pub mod Waves
pub mod Agree

-- An `int`: `negsuc n` is -(n + 1).
pub data ℤ : Type 0 where
  pos : ℕ → ℤ
  negsuc : ℕ → ℤ

-- k - 1
abbrev pub decrement : ℤ → ℤ
decrement (pos zero) = negsuc 0
decrement (pos (suc n)) = pos n
decrement (negsuc n) = negsuc (suc n)

abbrev pub is_zero : ℤ → Bool
is_zero (pos n) = eqb n 0
is_zero (negsuc n) = false

-- The variables of the loop.
pub record Kahn : Type 0 where
  pub in_degree : Dict ℤ
  pub queue : List String
  pub order : List String

abbrev pub in_degrees : Nodes → Dict ℤ
in_degrees [] = []
in_degrees ((n, node) ∷ nodes) = (n, pos (length node.depends_on)) ∷ in_degrees nodes

abbrev pub roots : Dict ℤ → List String
roots [] = []
roots ((n, degree) ∷ degrees) =
    let rest = roots degrees in if is_zero degree then n ∷ rest else rest

-- The loop over the dependents of a node; `none` is the KeyError of an unknown one.
unfoldable pub lower : List String → Dict ℤ → List String → Option (Dict ℤ × List String)
lower [] degrees queue = some (degrees, queue)
lower (d ∷ ds) degrees queue = elim (get d degrees) [
  | none ↦ none
  | some k ↦
      lower ds (put d (decrement k) degrees)
        (if is_zero (decrement k) then queue ++ d ∷ [] else queue)
]

-- `over`: the queue is empty. `failed`: a KeyError.
pub data Turn : Type 0 where
  over failed : Turn
  went : Kahn → Turn

abbrev pub release : String → List String → List String → Kahn → Turn
release n dependents rest k = elim (lower dependents k.in_degree rest) [
  | none ↦ failed
  | some (degrees, queue) ↦
      went (record { in_degree = degrees; queue = queue; order = k.order ++ n ∷ [] })
]

-- One round, on the sorted queue.
abbrev pub take_first : Nodes → List String → Kahn → Turn
take_first nodes [] k = over
take_first nodes (n ∷ rest) k = elim (get n nodes) [
  | none ↦ failed
  | some node ↦ release n node.required_by rest k
]

unfoldable pub turn : Nodes → Kahn → Turn
turn nodes k = take_first nodes (sort str_le k.queue) k

pub data Sorting : Type 0 where
  sorted : List String → Sorting
  cycle_present key_error out_of_fuel : Sorting

-- Recursion on fuel: a round for each node, and the test that ends the loop.
unfoldable pub waves : ℕ → Nodes → Kahn → Sorting
waves zero nodes k = out_of_fuel
waves (suc fuel) nodes k = elim (turn nodes k) [
  | over ↦ if eqb (length k.order) (length nodes) then sorted k.order else cycle_present
  | failed ↦ key_error
  | went k' ↦ waves fuel nodes k'
]

abbrev pub begun : Nodes → Kahn
begun nodes = record { in_degree = in_degrees nodes; queue = roots (in_degrees nodes); order = [] }

unfoldable pub topological_order : Nodes → Sorting
topological_order nodes = waves (suc (length nodes)) nodes (begun nodes)
