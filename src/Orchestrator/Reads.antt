-- ===== src/Orchestrator/Reads.antt =====
-- How often the handler reads the clock while it looks at the gates.
use ciwarden.Base.{
  ℕ, ◌+◌, Option-cases, put, String, ◌≡◌, ◌∙◌, List, [], ◌∷◌, ◌++◌, arith, Dict, length,
  length-append, inl, inr,
}
use ciwarden.Gates.Registry.{Registry, Config, parallel_gates, sequential_gates}
use ciwarden.Orchestrator.{
  Payload, Reply, Server, World, Walk, passed, report_of, call_gate, save_result, check,
  visit_parallel, visit_sequential, run_gates, resume, answers, names, log_calls,
}
use ciwarden.Orchestrator.Phases.{
  verdict, shape, server, recorded, recorded-append, first_answers, later_answers,
  visit_parallel-Follows,
}

module _ (w : World) (p : Payload) where
  reads-visit_parallel :
      (l : List (String × Reply)) (results : Dict Reply) (s : Server)
      → (server (visit_parallel w p l results s)).reads ≡ s.reads + length (recorded l)
  unfolding visit_parallel check
  reads-visit_parallel [] results s = omega arith
  reads-visit_parallel ((name, reply) ∷ rest) results s = elim (Option-cases (report_of reply)) [
    | inl e ↦ ground (arith, e)
    | inr (r, e) ↦
        ground
          (arith, e, reads-visit_parallel rest (put name reply results) (save_result w p name r s))
  ]

  reads-visit_sequential :
      (l : List (String × Config)) (results : Dict Reply) (s : Server)
      → (server (visit_sequential w p l results s)).reads
        ≡ s.reads + length (recorded (answers w l))
  unfolding visit_sequential check
  reads-visit_sequential [] results s = omega arith
  reads-visit_sequential ((name, config) ∷ rest) results s =
      elim (Option-cases (report_of (call_gate w config))) [
        | inl e ↦ ground (arith, e)
        | inr (r, e) ↦ ground (
          arith,
          e,
          reads-visit_sequential rest (put name (call_gate w config) results)
              (save_result w p name r (log_calls (name ∷ []) s)),
        )
      ]

  reads-resume :
      (registry : Registry) (n : ℕ) (walk : Walk)
      → (server walk).reads ≡ n + length (recorded (first_answers w registry))
      → shape walk ≡ verdict (first_answers w registry)
      → (server (resume w p registry walk)).reads
        ≡ n + length (recorded (first_answers w registry ++ later_answers w registry))
  unfolding resume
  reads-resume registry n (passed results s) e v =
      let first = recorded (first_answers w registry) in
      let later = recorded (later_answers w registry) in
      reads-visit_sequential (sequential_gates registry) results s
      ∙ ground (
        arith,
        e,
        v,
        recorded-append (first_answers w registry) (later_answers w registry),
        length-append first later,
      )
  reads-resume registry n walk e v =
      ground (arith, e, v, recorded-append (first_answers w registry) (later_answers w registry))

  -- One reading for each gate that is recorded.
  pub reads-run_gates :
      (registry : Registry) (s : Server)
      → (server (run_gates w p registry s)).reads
        ≡ s.reads + length (recorded (first_answers w registry ++ later_answers w registry))
  unfolding run_gates
  reads-run_gates registry s =
      let first = first_answers w registry in
      let s0 = log_calls (names (parallel_gates registry)) s in
      reads-resume registry s.reads (visit_parallel w p first [] s0)
        (reads-visit_parallel first [] s0) ((visit_parallel-Follows w p first [] s0).0)
