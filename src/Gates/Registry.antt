-- ===== src/Gates/Registry.antt =====
-- gates/gates.py: the registry, built for a C++ project or, by default, for a Python one.
use ciwarden.Base.{
  ℕ, String, Bool, true, false, Option, none, some, List, [], ◌∷◌, if◌then◌else◌, ◌==◌, Dict, put,
  get, filter, leb,
}
use ciwarden.Base.Sort.{sort}

pub data Phase : Type 0 where
  parallel sequential : Phase

pub record Config : Type 0 where
  pub command : List String
  pub port : ℕ
  pub phase : Phase
  pub order : Option ℕ
  pub description : String
  pub custom_app : Option String
  pub gate_class : Option String

abbrev pub Registry : Type 0
Registry = Dict Config

abbrev build_script : String
build_script =
    "import compileall; raise SystemExit(0 if compileall.compile_dir('.', quiet=1) else 1)"

abbrev in_parallel : List String → ℕ → String → Config
in_parallel command port description = record {
  command = command;
  port = port;
  phase = parallel;
  order = none;
  description = description;
  custom_app = none;
  gate_class = none;
}

abbrev in_sequence : List String → ℕ → ℕ → String → Config
in_sequence command port order description = record {
  command = command;
  port = port;
  phase = sequential;
  order = some order;
  description = description;
  custom_app = none;
  gate_class = none;
}

abbrev cpp_gates : Registry
cpp_gates =
    (
      "lint",
      in_parallel
          ("clang-tidy" ∷ "--checks=clang-analyzer-*,modernize-*,performance-*" ∷ "-p" ∷ "build/"
            ∷ "src/" ∷ [])
          8001 "Static analysis & style enforcement (C++)",
    )
    ∷ (
      "typecheck",
      in_parallel ("cmake" ∷ "--build" ∷ "build/" ∷ "--target" ∷ "bt_engine" ∷ []) 8002
          "Type safety verification (compiler)",
    )
    ∷ (
      "security",
      in_parallel
          ("cppcheck" ∷ "--enable=warning,performance,portability" ∷ "--error-exitcode=1" ∷ "src/"
            ∷ [])
          8003 "Security & static analysis (C++)",
    )
    ∷ (
      "test",
      in_sequence
          ("ctest" ∷ "--test-dir" ∷ "build/" ∷ "--output-on-failure" ∷ "-R" ∷ "bt_tests" ∷ []) 8004
          1 "Unit & integration test suite (C++)",
    )
    ∷ (
      "build",
      in_sequence ("cmake" ∷ "--build" ∷ "build/" ∷ "--target" ∷ "bt_tests" ∷ []) 8005 3
          "Compilation & build validation (C++)",
    )
    ∷ []

-- The interpreter `sys.executable` is an argument.
abbrev python_gates : String → Registry
python_gates executable =
    ("lint", in_parallel ("ruff" ∷ "check" ∷ "." ∷ []) 8001 "Static analysis & style enforcement")
    ∷ (
      "typecheck",
      in_parallel ("mypy" ∷ "." ∷ "--ignore-missing-imports" ∷ []) 8002 "Type safety verification",
    )
    ∷ (
      "security",
      in_parallel ("bandit" ∷ "-r" ∷ "." ∷ "-ll" ∷ "-q" ∷ []) 8003 "Security & dependency audit",
    )
    ∷ (
      "test",
      in_sequence ("pytest" ∷ "--tb=short" ∷ "-q" ∷ []) 8004 1 "Unit & integration test suite",
    )
    ∷ (
      "build",
      in_sequence (executable ∷ "-c" ∷ build_script ∷ []) 8005 3 "Compilation & build validation",
    )
    ∷ []

abbrev memory_gate : Config
memory_gate = record {
  command = [];
  port = 8006;
  phase = parallel;
  order = none;
  description = "Generational memory — architectural drift detection";
  custom_app = some "memory.app:app";
  gate_class = none;
}

abbrev stress_gate : Config
stress_gate = record {
  command = [];
  port = 8007;
  phase = sequential;
  order = some 2;
  description = "API stress testing — three-phase load runner";
  custom_app = none;
  gate_class = some "StressGate";
}

-- The argument says whether the project has a CMakeLists.txt.
unfoldable pub build_gate_registry : Bool → String → Registry
build_gate_registry is_cpp executable =
    let registry = if is_cpp then cpp_gates else python_gates executable in
    put "stress" stress_gate (put "memory" memory_gate registry)

-- The app of a gate: a module's own, the stress gate's, or that of a command.
pub data GateApp : Type 0 where
  custom : String → GateApp
  stress : String → ℕ → GateApp
  base : String → List String → ℕ → GateApp

app_of_class : String → Config → Option String → GateApp
app_of_class name config none = base name config.command config.port
app_of_class name config (some class) =
    if class == "StressGate" then stress name config.port else base name config.command config.port

app_of : String → Config → GateApp
unfolding app_of_class
app_of name config = elim config.custom_app [
  | some app ↦ custom app
  | none ↦ app_of_class name config config.gate_class
]

-- `none` is the KeyError of a gate that is not registered.
unfoldable pub get_gate_app : Registry → String → Option GateApp
unfolding app_of
get_gate_app registry name = elim (get name registry) [
  | none ↦ none
  | some config ↦ some (app_of name config)
]

abbrev pub is_parallel : Config → Bool
is_parallel c = elim c.phase [ parallel ↦ true | sequential ↦ false ]

abbrev pub is_sequential : Config → Bool
is_sequential c = elim c.phase [ parallel ↦ false | sequential ↦ true ]

-- The order key, 99 by default.
abbrev pub gate_order : Config → ℕ
gate_order c = elim c.order [ none ↦ 99 | some n ↦ n ]

abbrev pub parallel_gates : Registry → List (String × Config)
parallel_gates registry = filter (λ e. is_parallel e.1) registry

abbrev pub sequential_gates : Registry → List (String × Config)
sequential_gates registry =
    sort (λ a b. leb (gate_order a.1) (gate_order b.1)) (filter (λ e. is_sequential e.1) registry)
