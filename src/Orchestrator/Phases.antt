-- ===== src/Orchestrator/Phases.antt =====
-- The two loops of the handler against a reading of the answers alone.
use ciwarden.Base.{
  Option-cases, put, String, ◌≡◌, refl, ap, sym, Bool, true, false, not, none, some, List, [], ◌∷◌,
  ◌++◌, map, append_assoc, append-nil, if◌then◌else◌, ◌==◌, arith, Dict, all, inl, inr,
}
use ciwarden.Gates.Registry.{Registry, Config, parallel_gates, sequential_gates}
use ciwarden.Orchestrator.{
  Payload, Reply, Run, Server, World, Walk, passed, blocked, crashed, report_of, call_gate,
  save_result, saved_run, check, visit_parallel, visit_sequential, run_gates, resume, answers,
  names, log_calls,
}

-- What a list of answers decides: all clear, stopped at a gate with its output, or an answer
-- that lacks a key.
pub data Verdict : Type 0 where
  clear : Verdict
  stopped : String → String → Verdict
  broken : Verdict

abbrev pub verdict : List (String × Reply) → Verdict
verdict [] = clear
verdict ((name, reply) ∷ rest) = elim (report_of reply) [
  | none ↦ broken
  | some r ↦ if r.status == "fail" then stopped name r.output else verdict rest
]

abbrev pub is_clear : Verdict → Bool
is_clear clear = true
is_clear (stopped _ _) = false
is_clear broken = false

-- The gates looked at, in order: those up to the first that is not clear.
abbrev pub called : List (String × Reply) → List String
called [] = []
called ((name, reply) ∷ rest) =
    name
    ∷ elim (report_of reply) [ none ↦ [] | some r ↦ if r.status == "fail" then [] else called rest ]

-- The gates recorded: the same, without one whose answer lacks a key.
abbrev pub recorded : List (String × Reply) → List String
recorded [] = []
recorded ((name, reply) ∷ rest) = elim (report_of reply) [
  | none ↦ []
  | some r ↦ name ∷ (if r.status == "fail" then [] else recorded rest)
]

abbrev pub shape : Walk → Verdict
shape (passed _ _) = clear
shape (blocked name r _ _) = stopped name r.output
shape (crashed _) = broken

abbrev pub server : Walk → Server
server (passed _ s) = s
server (blocked _ _ _ s) = s
server (crashed s) = s

abbrev pub gate_names : List Run → List String
gate_names runs = map (λ (r : Run). r.gate_name) runs

gate_names-append : (xs ys : List Run) → gate_names (xs ++ ys) ≡ gate_names xs ++ gate_names ys
gate_names-append [] ys = refl
gate_names-append (x ∷ xs) ys = ap (◌∷◌ x.gate_name) (gate_names-append xs ys)

pub recorded-append :
    (xs ys : List (String × Reply))
    → recorded (xs ++ ys)
      ≡ (if is_clear (verdict xs) then recorded xs ++ recorded ys else recorded xs)
recorded-append [] ys = refl
recorded-append ((name, reply) ∷ rest) ys = ground (arith, recorded-append rest ys)

-- A reply lets the chain go on.
abbrev pub clears : Reply → Bool
clears reply = elim (report_of reply) [ none ↦ false | some r ↦ not (r.status == "fail") ]

pub is_clear-verdict : (l : List (String × Reply)) → is_clear (verdict l) ≡ all (λ e. clears e.1) l
is_clear-verdict [] = refl
is_clear-verdict ((name, reply) ∷ rest) = ground (arith, is_clear-verdict rest)

pub verdict-append :
    (xs ys : List (String × Reply))
    → verdict (xs ++ ys) ≡ (if is_clear (verdict xs) then verdict ys else verdict xs)
verdict-append [] ys = refl
verdict-append ((name, reply) ∷ rest) ys = ground (arith, verdict-append rest ys)

-- A walk over `l` from `s` decides what `l` decides, records its gates behind those of `s`, and
-- leaves the tokens alone.
abbrev Follows : List (String × Reply) → Server → Walk → Type 0
Follows l s walk =
    (shape walk ≡ verdict l)
    × ((server walk).tokens ≡ s.tokens)
    × (gate_names (server walk).runs ≡ gate_names s.runs ++ recorded l)

module _ (w : World) (p : Payload) where
  names_saved :
      (s : Server) (run : Run) (l : List String)
      → gate_names (s.runs ++ run ∷ []) ++ l ≡ gate_names s.runs ++ run.gate_name ∷ l
  names_saved s run l =
      rw (gate_names-append s.runs (run ∷ []))
        (append_assoc (gate_names s.runs) (run.gate_name ∷ []) l)

  pub visit_parallel-Follows :
      (l : List (String × Reply)) (results : Dict Reply) (s : Server)
      → Follows l s (visit_parallel w p l results s)
  unfolding visit_parallel check
  visit_parallel-Follows [] results s = (refl, refl, sym (append-nil _))
  visit_parallel-Follows ((name, reply) ∷ rest) results s = elim (Option-cases (report_of reply)) [
    | inl e ↦ ground (arith, append-nil (gate_names s.runs))
    | inr (r, e) ↦
        let s' = save_result w p name r s in
        ground (
          arith,
          visit_parallel-Follows rest (put name reply results) s',
          names_saved s (saved_run w p name r s) (recorded rest),
          names_saved s (saved_run w p name r s) [],
          append-nil (gate_names s'.runs),
        )
  ]

  pub visit_sequential-Follows :
      (l : List (String × Config)) (results : Dict Reply) (s : Server)
      → Follows (answers w l) s (visit_sequential w p l results s)
  unfolding visit_sequential check
  visit_sequential-Follows [] results s = (refl, refl, sym (append-nil _))
  visit_sequential-Follows ((name, config) ∷ rest) results s =
      elim (Option-cases (report_of (call_gate w config))) [
        | inl e ↦ ground (arith, append-nil (gate_names s.runs))
        | inr (r, e) ↦
            let s' = save_result w p name r (log_calls (name ∷ []) s) in
            let results' = put name (call_gate w config) results in
            ground (
              arith,
              visit_sequential-Follows rest results' s',
              names_saved s (saved_run w p name r s) (recorded (answers w rest)),
              names_saved s (saved_run w p name r s) [],
              append-nil (gate_names s'.runs),
            )
      ]

  calls-visit_parallel :
      (l : List (String × Reply)) (results : Dict Reply) (s : Server)
      → (server (visit_parallel w p l results s)).calls ≡ s.calls
  unfolding visit_parallel check
  calls-visit_parallel [] results s = refl
  calls-visit_parallel ((name, reply) ∷ rest) results s = elim (Option-cases (report_of reply)) [
    | inl e ↦ ground arith
    | inr (r, e) ↦
        ground
          (arith, calls-visit_parallel rest (put name reply results) (save_result w p name r s))
  ]

  calls-visit_sequential :
      (l : List (String × Config)) (results : Dict Reply) (s : Server)
      → (server (visit_sequential w p l results s)).calls ≡ s.calls ++ called (answers w l)
  unfolding visit_sequential check
  calls-visit_sequential [] results s = sym (append-nil _)
  calls-visit_sequential ((name, config) ∷ rest) results s =
      elim (Option-cases (report_of (call_gate w config))) [
        | inl e ↦ ground arith
        | inr (r, e) ↦
            let s' = save_result w p name r (log_calls (name ∷ []) s) in
            let results' = put name (call_gate w config) results in
            ground (
              arith,
              calls-visit_sequential rest results' s',
              append_assoc s.calls (name ∷ []) (called (answers w rest)),
            )
      ]

module _ (w : World) (registry : Registry) where
  abbrev pub first_answers : List (String × Reply)
  first_answers = answers w (parallel_gates registry)

  abbrev pub later_answers : List (String × Reply)
  later_answers = answers w (sequential_gates registry)

module _ (w : World) (p : Payload) (registry : Registry) where
  resume-Follows :
      (s : Server) (walk : Walk)
      → Follows (first_answers w registry) s walk
      → Follows
          ((first_answers w registry) ++ (later_answers w registry))
          s
          (resume w p registry walk)
  unfolding resume
  resume-Follows s (passed results s') h = ground (
    arith,
    visit_sequential-Follows w p (sequential_gates registry) results s',
    verdict-append (first_answers w registry) (later_answers w registry),
    recorded-append (first_answers w registry) (later_answers w registry),
    append_assoc (gate_names s.runs) (recorded (first_answers w registry))
        (recorded (later_answers w registry)),
  )
  resume-Follows s walk h = ground (
    arith,
    verdict-append (first_answers w registry) (later_answers w registry),
    recorded-append (first_answers w registry) (later_answers w registry),
  )

  pub run_gates-Follows :
      (s : Server)
      → Follows
          ((first_answers w registry) ++ (later_answers w registry))
          s
          (run_gates w p registry s)
  unfolding run_gates
  run_gates-Follows s =
      let s0 = log_calls (names (parallel_gates registry)) s in
      resume-Follows s (visit_parallel w p (first_answers w registry) [] s0)
        (visit_parallel-Follows w p (first_answers w registry) [] s0)

  calls-resume :
      (walk : Walk)
      → (server (resume w p registry walk)).calls
        ≡ (server walk).calls
          ++ (if is_clear (shape walk) then called (later_answers w registry) else [])
  unfolding resume
  calls-resume (passed results s) = calls-visit_sequential w p (sequential_gates registry) results s
  calls-resume walk = sym (append-nil _)

  pub calls-run_gates :
      (s : Server)
      → (server (run_gates w p registry s)).calls
        ≡ (s.calls ++ names (parallel_gates registry))
          ++ (if is_clear (verdict (first_answers w registry))
              then called (later_answers w registry)
              else [])
  unfolding run_gates
  calls-run_gates s =
      let s0 = log_calls (names (parallel_gates registry)) s in
      let walk = visit_parallel w p (first_answers w registry) [] s0 in
      cc (
        calls-resume walk,
        calls-visit_parallel w p (first_answers w registry) [] s0,
        (visit_parallel-Follows w p (first_answers w registry) [] s0).0,
      )
