-- ===== src/Examples/Commits.antt =====
-- A commit with one parallel and one sequential gate, of orchestrator/orchestrator.py.
use ciwarden.Base.{
  ◌⊎◌, ℕ, String, ◌≡◌, refl, true, false, none, some, [], ◌∷◌, ◌++◌, ◌||◌, ◌&&◌, ◌==◌, is_some, eqb,
  if◌then◌else◌, all,
}
use ciwarden.Gates.{code}
use ciwarden.Gates.Registry.{Registry, Config, parallel, sequential}
use ciwarden.Orchestrator.{
  Payload, Reply, Server, World, json, GateChainResult, result, init_db, handle_commit,
  generate_token, find_token, verify_token, valid, already_used, report_of, call_gate, check,
  visit_parallel, visit_sequential, resume, run_gates, finish,
}
use ciwarden.Orchestrator.Phases.{verdict, is_clear}
use ciwarden.Orchestrator.Clear.{gate_clears}
use ciwarden.Orchestrator.Commit.{
  chain, token_of_chain, verdict_of, handle_commit-verdict, handle_commit_issued,
}
use ciwarden.Orchestrator.Tokens.{
  IsKeyed, serve, handle_commit-IsKeyed, verify-serve, verify-ne-already_used,
}
use ciwarden.Orchestrator.Auth.{
  AuthDb, IsAllowed, handled, denied, post_commit, post_commit-IsAllowed, generate_api_key,
  validate_key, validate_key-generate,
}

abbrev lint : Config
lint = record {
  command = "ruff" ∷ [];
  port = 8001;
  phase = parallel;
  order = none;
  description = "";
  custom_app = none;
  gate_class = none;
}

abbrev test : Config
test = record {
  command = "pytest" ∷ [];
  port = 8004;
  phase = sequential;
  order = some 1;
  description = "";
  custom_app = none;
  gate_class = none;
}

abbrev registry : Registry
registry = ("lint", lint) ∷ ("test", test) ∷ []

abbrev reply : String → Reply
reply status = record {
  status = some status;
  output = some "3 errors";
  exit_code = some (code 0);
  duration_ms = some 5;
}

-- All gates pass; and a world in which the tests fail.
abbrev good : World
good = record {
  service = λ port. json (reply "pass");
  clock = λ n. n;
  time_text = λ n. "now";
  sha256 = λ s. s;
}

abbrev bad : World
bad = record good { service = λ port. json (reply (if eqb port 8004 then "fail" else "pass")) }

abbrev payload : Payload
payload = record { agent_id = "agent_001"; branch = "main"; commit_sha = "abc" }

abbrev answered : GateChainResult
answered = record {
  agent_id = "agent_001";
  commit_sha = "abc";
  branch = "main";
  merge_token = some "abcnow";
  blocked_at = none;
  reason = none;
  total_duration_ms = 5;
  results = ("lint", reply "pass") ∷ ("test", reply "pass") ∷ [];
}

abbrev stopped_at_test : GateChainResult
stopped_at_test = record {
  agent_id = "agent_001";
  commit_sha = "abc";
  branch = "main";
  merge_token = none;
  blocked_at = some "test";
  reason = some "3 errors";
  total_duration_ms = 3;
  results = ("lint", reply "pass") ∷ ("test", reply "fail") ∷ [];
}

answered-eq : (handle_commit good payload registry init_db).0 ≡ result answered
unfolding handle_commit run_gates resume visit_parallel visit_sequential check report_of call_gate
    finish generate_token
answered-eq = refl

stopped-eq : (handle_commit bad payload registry init_db).0 ≡ result stopped_at_test
unfolding handle_commit run_gates resume visit_parallel visit_sequential check report_of call_gate
    finish generate_token
stopped-eq = refl

handle_commit_issued_example :
    (all (gate_clears good) registry ≡ true)
    × (answered.blocked_at ≡ none)
    × (answered.commit_sha ≡ payload.commit_sha)
    × (now : ℕ) × (find_token "abcnow" (handle_commit good payload registry init_db).1.tokens
        ≡ some (record { token = "abcnow"; commit_sha = "abc"; issued_at = now; used = false }))
handle_commit_issued_example =
    handle_commit_issued good payload registry init_db answered "abcnow" answered-eq refl

-- The table after the good commit.
abbrev after : Server
after = (handle_commit good payload registry init_db).1

-- The same commit again, at another time.
abbrev later : World
later = record good { time_text = λ n. "later" }

handle_commit-verdict_example : verdict_of (handle_commit later payload registry after).0 ≡ (
    if is_clear (verdict (chain later payload registry after))
      && is_some (find_token (token_of_chain later payload registry after) after.tokens)
    then none
    else some (verdict (chain later payload registry after)))
handle_commit-verdict_example = handle_commit-verdict later payload registry after

handle_commit-IsKeyed_example : IsKeyed (handle_commit good payload registry init_db).1.tokens
handle_commit-IsKeyed_example = handle_commit-IsKeyed good payload registry init_db tt

verifies : verify_token "abcnow" after ≡ valid "abc" 4
unfolding verify_token handle_commit run_gates resume visit_parallel visit_sequential check
    report_of call_gate finish generate_token
verifies = refl

verify-serve_example :
    verify_token "abcnow" (serve registry ((bad, payload) ∷ (good, payload) ∷ []) after)
    ≡ valid "abc" 4
verify-serve_example =
    verify-serve registry ((bad, payload) ∷ (good, payload) ∷ []) after "abcnow" "abc" 4 verifies

verify-ne-already_used_example :
    ¬ (verify_token "abcnow" (serve registry ((good, payload) ∷ []) init_db) ≡ already_used)
verify-ne-already_used_example = verify-ne-already_used registry ((good, payload) ∷ []) "abcnow"

-- A table with the hash of one key.
abbrev db : AuthDb
db = record { key_hash = "secret"; label = "master"; created_at = 1 } ∷ []

post_commit-IsAllowed_example :
    (IsAllowed good.sha256 db (some "guess") none
      × (post_commit good db (some "guess") none payload registry init_db ≡ (
        handled (handle_commit good payload registry init_db).0,
        (handle_commit good payload registry init_db).1,
      )))
    ⊎ ((¬ IsAllowed good.sha256 db (some "guess") none)
        × ((detail : String) × (post_commit good db (some "guess") none payload registry init_db
              ≡ (denied detail, init_db))))
post_commit-IsAllowed_example =
    post_commit-IsAllowed good db (some "guess") none payload registry init_db

abbrev two_keys : AuthDb
two_keys = db ++ record { key_hash = "other"; label = "ci"; created_at = 2 } ∷ []

validate_key-generate_example :
    ◌≡◌ {A = String} "other" "other"
    × (validate_key (λ s. s) "guess" two_keys
        ≡ (validate_key (λ s. s) "guess" db || "guess" == "other"))
unfolding generate_api_key
validate_key-generate_example = validate_key-generate (λ s. s) "other" "ci" "guess" 2 db refl
