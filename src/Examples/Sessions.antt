-- ===== src/Examples/Sessions.antt =====
-- A session of two agents, of conductor/distributor.py and memory/peer_checker.py.
use ciwarden.Base.{String, ◌≡◌, refl, Bool, true, false, List, [], ◌∷◌, arith, eq_iff, Dict}
use ciwarden.Dag.{Nodes, Marks, finished, validate, visit_all, visit_deps, dfs}
use ciwarden.Dag.Fuel.{IsClosed}
use ciwarden.Distributor.{Agent, Poll, completed, seed, blank, run_dependency_aware}
use ciwarden.Distributor.Order.{Ordered, run_dependency_aware-Ordered}
use ciwarden.Distributor.Stall.{NotStalled}
use ciwarden.Distributor.Relaunch.{NoneWaits, run_dependency_aware-NotStalled}
use ciwarden.Distributor.Finish.{run_dependency_aware-completed}
use ciwarden.Peers.{AgentView, Entry, exposed, bare, consumes_symbol, assumption, peers_of, check}
use ciwarden.Peers.Clean.{is_clean, is_compatible, own_view, check-compatible}

abbrev dag : Nodes
dag =
    ("b", record { agent_id = "b"; depends_on = "a" ∷ []; required_by = [] })
    ∷ ("a", record { agent_id = "a"; depends_on = []; required_by = "b" ∷ [] })
    ∷ []

-- One agent failed before the session is resumed.
abbrev agents : List Agent
agents =
    record { agent_id = "b"; state = "waiting" } ∷ record { agent_id = "a"; state = "failed" } ∷ []

abbrev signalled : Poll
signalled = record {
  flagged = λ id. true;
  staging_empty = λ id. false;
  stray = λ id. false;
  late = false;
}

abbrev polls : List Poll
polls = signalled ∷ signalled ∷ signalled ∷ []

abbrev nothing_done : String → Bool
nothing_done id = false

abbrev marks : Marks
marks = record { visited = "a" ∷ "b" ∷ []; in_stack = [] }

dag-eq : validate dag ≡ finished marks
unfolding validate visit_all visit_deps dfs
dag-eq = refl

dag-IsClosed : IsClosed dag
dag-IsClosed n d e = ground (arith, eq_iff n "a", eq_iff n "b")

run_dependency_aware-Ordered_example :
    Ordered dag
      (seed nothing_done agents (blank agents)).done
      (seed nothing_done agents (blank agents)).launched
      (run_dependency_aware dag nothing_done agents polls).1.trace
run_dependency_aware-Ordered_example =
    run_dependency_aware-Ordered dag nothing_done agents polls (refl, (refl, tt))

run_dependency_aware-NotStalled_example :
    NotStalled (run_dependency_aware dag nothing_done agents polls).0
    × NoneWaits dag ("b" ∷ "a" ∷ []) (run_dependency_aware dag nothing_done agents polls).1
run_dependency_aware-NotStalled_example =
    run_dependency_aware-NotStalled dag marks nothing_done agents signalled
      (signalled ∷ signalled ∷ []) dag-eq dag-IsClosed (λ n e. e)

run_dependency_aware-completed_example :
    (run_dependency_aware dag nothing_done agents polls).0 ≡ completed
run_dependency_aware-completed_example =
    run_dependency_aware-completed dag marks nothing_done agents polls (refl, (refl, tt)) dag-eq
      dag-IsClosed (λ n. refl) ((λ id. refl), refl, ((λ id. refl), refl, ((λ id. refl), refl, tt)))
      (omega arith)

abbrev heap : Entry
heap = record {
  exposes = exposed "alloc" "fn alloc(n: usize)" ∷ bare "free" ∷ [];
  consumes = [];
  assumptions = assumption "no_std" ∷ [];
}

abbrev fs : Entry
fs = record {
  exposes = exposed "open" "fn open()" ∷ [];
  consumes =
      consumes_symbol (record {
        symbol = "alloc";
        expected_signature = "fn  alloc(n: usize)";
        consumed_in = "fs.rs";
      })
      ∷ [];
  assumptions = assumption "std" ∷ [];
}

abbrev live : Dict AgentView
live = ("a", own_view "a" (heap ∷ [])) ∷ ("b", own_view "b" (fs ∷ [])) ∷ []

check-compatible_example :
    is_clean (check (λ s. s) "b" (fs ∷ []) live)
    ≡ is_compatible (λ s. s) (own_view "b" (fs ∷ [])) (peers_of "b" live)
check-compatible_example = check-compatible (λ s. s) "b" (fs ∷ []) live
