-- ===== src/Examples/Proofs.antt =====
-- Runs of conductor/prover.py, of `wait_for_done` in conductor/distributor.py, and of the files of
-- memory/contract_store.py.
use ciwarden.Base.{
  ℕ, String, ◌≡◌, refl, Bool, true, false, Option, none, some, List, [], ◌∷◌, if◌then◌else◌, ◌==◌,
  arith, map,
}
use ciwarden.Distributor.{Poll}
use ciwarden.Distributor.Wait.{wait_for_done, wait_for_done-Returns}
use ciwarden.Memory.{ContractSummary}
use ciwarden.Memory.Files.{load_latest_contract, load_previous_contract}
use ciwarden.Memory.Files.Writes.{save_all}
use ciwarden.Memory.Files.Recent.{new_store, load_contract-Recent}
use ciwarden.Base.Text.{strip, join}
use ciwarden.Peers.{
  exposed, assumption, Entry, check, merge_schema_into, check_collisions,
  check_interface_mismatches, check_assumption_clashes, assumptions_contradict, contradict,
  norm_sig,
}
use ciwarden.Peers.Live.{Live, entry, owner_of, stem_of, check_live, read_files, read_all_live}
use ciwarden.Prover.{
  AgentSpec, agents_in_parse_order, build_dependency_graph, parse_order, rounds, batch,
  ready_modules, place_all,
}
use ciwarden.Prover.Proof.{
  modules, Turn, Proofing, Outcome, clean, gave_up, raised, waiting, proof_session, proof_all,
  proof_loop, iter_module_entries, publish_live,
}
use ciwarden.Prover.Proof.Compatible.{AllApart, rev_onto, proof_session-AllApart}

abbrev poll : Poll
poll = record {
  flagged = λ id. id == "ui_agent";
  staging_empty = λ id. false;
  stray = λ id. false;
  late = false;
}

abbrev late_poll : Poll
late_poll = record {
  flagged = λ id. false;
  staging_empty = λ id. false;
  stray = λ id. false;
  late = true;
}

wait_for_done-Returns_example :
    wait_for_done (poll ∷ late_poll ∷ []) ("ui_agent" ∷ "core_agent" ∷ []) ≡ some false
wait_for_done-Returns_example =
    wait_for_done-Returns (poll ∷ late_poll ∷ []) ("ui_agent" ∷ "core_agent" ∷ []) refl

abbrev exposes_only : String → Entry
exposes_only symbol = record {
  exposes = exposed symbol "fn()" ∷ [];
  consumes = [];
  assumptions = assumption "std" ∷ [];
}

abbrev turn : String → String → Turn
turn name symbol = record {
  file = some (modules ((name, entry (exposes_only symbol)) ∷ []));
  polls = poll ∷ [];
}

-- The second agent first exposes a symbol of the first one's.
abbrev turns : String → List Turn
turns id =
    if id == "core_agent"
    then turn "core" "alloc" ∷ []
    else turn "ui" "alloc" ∷ turn "ui" "draw" ∷ []

abbrev specs : List AgentSpec
specs =
    (record { agent_id = "ui_agent"; module_key = "ui"; dependencies = "core" ∷ [] })
    ∷ (record { agent_id = "core_agent"; module_key = "core"; dependencies = [] })
    ∷ []

abbrev in_order : List AgentSpec
in_order =
    (record { agent_id = "core_agent"; module_key = "core"; dependencies = [] })
    ∷ (record { agent_id = "ui_agent"; module_key = "ui"; dependencies = "core" ∷ [] })
    ∷ []

abbrev no_live : Live
no_live = []

in_order_lem : agents_in_parse_order specs ≡ some in_order
unfolding agents_in_parse_order build_dependency_graph parse_order rounds batch ready_modules
    place_all
in_order_lem = refl

-- What is left when the session's proof ends, whichever way.
abbrev left_of : Option Outcome → Proofing
left_of none = record { live = no_live; accepted = []; reports = [] }
left_of (some (clean q)) = q
left_of (some (gave_up q)) = q
left_of (some (raised q)) = q
left_of (some (waiting q)) = q

abbrev run : Option Outcome
run = proof_session (λ s. s) turns specs no_live

run-clean : run ≡ some (clean (left_of run))
unfolding proof_session agents_in_parse_order build_dependency_graph parse_order rounds batch
    ready_modules place_all proof_all proof_loop iter_module_entries publish_live wait_for_done
    check_live read_all_live read_files owner_of stem_of join check merge_schema_into
    check_collisions check_interface_mismatches check_assumption_clashes assumptions_contradict
    contradict strip norm_sig
run-clean = refl

plain : (◌≡◌ {A = Bool} false false × Unit {0}) × (◌≡◌ {A = Bool} true true)
plain = ((refl, tt), refl)

proof_session-AllApart_example :
    AllApart (λ s. s) (left_of run).accepted
    × (map (λ t. t.0) (left_of run).accepted ≡ rev_onto ("core_agent" ∷ "ui_agent" ∷ []) [])
proof_session-AllApart_example =
    proof_session-AllApart (λ s. s) turns specs in_order no_live (left_of run) in_order_lem
      ((refl, (plain, tt)), ((refl, (plain, (plain, tt))), tt)) (refl, (refl, tt)) run-clean

abbrev summary : String → ℕ → ContractSummary
summary name sequence = record {
  module_name = name;
  generation_id = "gen";
  sequence = sequence;
  contracts = [];
  assumptions = [];
  dependencies = [];
  exposes = [];
}

abbrev saves : List ContractSummary
saves = summary "core" 12 ∷ summary "ui" 40 ∷ summary "core" 9 ∷ summary "core" 2 ∷ []

load_contract-Recent_example :
    (load_latest_contract "core" (save_all saves new_store) ≡ some (summary "core" 12))
    × (load_previous_contract "core" 12 (save_all saves new_store) ≡ some (summary "core" 9))
load_contract-Recent_example =
    load_contract-Recent saves "core" 12
      (omega arith, (omega arith, (omega arith, (omega arith, tt))))
