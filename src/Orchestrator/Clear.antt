-- ===== src/Orchestrator/Clear.antt =====
-- The registry as a whole against the answers of its two phases.
use ciwarden.Base.{String, ◌≡◌, refl, Bool, ◌&&◌, List, [], ◌∷◌, ◌++◌, arith, all, filter, leb}
use ciwarden.Base.Sort.{sort, insert}
use ciwarden.Gates.Registry.{
  Registry, Config, is_parallel, is_sequential, parallel_gates, sequential_gates, gate_order,
}
use ciwarden.Orchestrator.{World, call_gate, answers}
use ciwarden.Orchestrator.Phases.{
  verdict, is_clear, clears, is_clear-verdict, verdict-append, first_answers, later_answers,
}

-- Filtering by the two phases, and sorting one of them, loses no gate.
module _ (w : World) where
  abbrev pub gate_clears : String × Config → Bool
  gate_clears e = clears (call_gate w e.1)

  all-insert :
      (le : String × Config → String × Config → Bool) (x : String × Config)
      (xs : List (String × Config))
      → all gate_clears (insert le x xs) ≡ (gate_clears x && all gate_clears xs)
  all-insert le x [] = refl
  all-insert le x (y ∷ ys) = ground (arith, all-insert le x ys)

  all-sort :
      (le : String × Config → String × Config → Bool) (xs : List (String × Config))
      → all gate_clears (sort le xs) ≡ all gate_clears xs
  all-sort le [] = refl
  all-sort le (x ∷ xs) = ground (arith, all-insert le x (sort le xs), all-sort le xs)

  all_phases :
      (registry : Registry)
      → all gate_clears registry ≡ (
          all gate_clears (filter (λ e. is_parallel e.1) registry)
          && all gate_clears (filter (λ e. is_sequential e.1) registry))
  all_phases [] = refl
  all_phases ((name, config) ∷ rest) = ground (arith, all_phases rest)

  all-answers :
      (l : List (String × Config)) → all (λ e. clears e.1) (answers w l) ≡ all gate_clears l
  all-answers [] = refl
  all-answers (x ∷ xs) = ground (arith, all-answers xs)

  -- The chain is clear exactly if every registered gate lets it go on.
  pub is_clear-registry :
      (registry : Registry)
      → is_clear (verdict (first_answers w registry ++ later_answers w registry))
        ≡ all gate_clears registry
  is_clear-registry registry =
      let one = parallel_gates registry in
      let two = sequential_gates registry in
      ground (
        arith,
        verdict-append (first_answers w registry) (later_answers w registry),
        is_clear-verdict (first_answers w registry),
        is_clear-verdict (later_answers w registry),
        all-answers one,
        all-answers two,
        all_phases registry,
        all-sort (λ a b. leb (gate_order a.1) (gate_order b.1))
            (filter (λ e. is_sequential e.1) registry),
      )
