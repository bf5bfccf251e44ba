-- ===== src/Lib.antt =====
-- CIWarden: a chain of gates in front of every commit, a queue that serializes the commits of
-- several agents, and a conductor that runs a session of agents in dependency order.
--
-- How the parts interact. The conductor builds the dependency graph of a session from its prompts,
-- releases the agents as their dependencies are done, proofs what they declare against each other
-- in dependency order, and enqueues one commit. The worker of the commit queue takes the oldest
-- entry of its repository, commits it with git, and asks the orchestrator, which calls the gates
-- (command gates, the memory gate on port 8006 and the stress gate on port 8007) and issues a
-- merge token.
--
-- Base             dictionaries, lists, sorting, and the string methods that the program uses.
-- Gates            gates/base_gate.py (Runner) and gates/gates.py (Registry).
-- Orchestrator     orchestrator/orchestrator.py: `handle_commit` as a function of the world, the
--                  payload, the registry and the server's two tables; Auth is
--                  orchestrator/auth.py with the middleware; Phases, Clear, Reads, Commit and
--                  Tokens have the theorems.
-- Queue            queue/commit_queue.py: the two tables and `enqueue`; Worker has
--                  `process_entry`, the rounds of `worker`, and Worker/Lock has
--                  `wait_for_index_lock`; Rows, Fifo, Entries, Idle, Enqueue and Outcome have
--                  the theorems.
-- Dag              conductor/dag.py: Defs has `_validate` and `ready_agents`, Prompt the
--                  scanners of the regular expressions, Build `DAGBuilder.build`; Topological
--                  has `topological_order`; Acyclic, Cycle, Fuel, Linked, Mirror, Once and the
--                  children of Topological have the theorems.
-- Distributor      conductor/distributor.py: `update_state` and `run_dependency_aware`; Writes,
--                  Order, Stall, Relaunch, Steps, Opens and Finish have the theorems; Wait has
--                  `wait_for_done` and Stray `repo_untracked_for_agent`.
-- Prover           conductor/prover.py: `parse_order`; Complete and Ordered have the theorems;
--                  Proof is `proof_session`, on the turns of each agent (what its schema file
--                  has when it is read, and the polls of the wait after a report), with Held,
--                  Apart and Compatible for the theorems; Expected is
--                  `build_expected_interfaces`.
-- Memory           memory/models.py; Drift is memory/drift_scorer.py, Vdb the
--                  VectorContractStore of memory/contract_store.py, Gate is
--                  memory/memory_gate.py on that store; Bounds, Same, Baselines, Retry and
--                  Managed have the theorems. Files is the file-based ContractStore with names
--                  as lists of code points, whose order is in Names, the choice of files in
--                  Sorted, the saves in Writes, the theorem in Recent; Lookup has
--                  `list_contracts` and `retrieve_by_files` of the vector store. FileGate is the
--                  gate's solo run on the file-based store, Baseline its theorem.
-- Migration        scripts/migrate_contracts.py, from the one store to the other; Keeps,
--                  Origin and Again have the theorems.
-- SchemaCapture    memory/schema_capture.py: the schema that an agent declares.
-- Session          conductor/session.py; Manifest has `save_manifest` and `from_manifest`.
-- Router           conductor/router.py; Setup is `build_router` of conductor/cli.py, Routes has
--                  the theorem.
-- Commit           conductor/commit.py: `atomic_commit`, with `collect_files` of
--                  conductor/distributor.py and the priming of conductor/vdb_io.py; Multi is
--                  `atomic_commit_multi_repo`; Outcome, ColdStart, Grouping and Sequence have
--                  the theorems.
-- Peers            memory/peer_checker.py; Live reads the live files, Report is
--                  `format_conflict_report`; Clean and Seen have the theorems.
-- Stress           gates/stress_gate.py: the mock API and the load; Criteria has the evaluation
--                  and `StressGate.run`; RateLimit, Load and Verdicts have the theorems.
-- Examples         concrete runs.
--
-- How the code is modelled. A handler is a function from a state to an answer and a state;
-- database tables are lists of rows in the order of insertion, a Python dict is an association
-- list in insertion order, a set is a list. Git, the gate services, the orchestrator as the worker
-- sees it, SHA-256, the clock, the file system and the contract client are arguments. Exceptions
-- are values of a result type. Times and rates are natural numbers: milliseconds, hundredths,
-- ten-thousandths; floats are exact fractions. `str` of a number and `str.lower` are arguments;
-- the names of the file-based store write the digits out.
--
-- Fuel. The search of `_validate` recurses on one more than the number of nodes, which Dag/Fuel
-- shows to be enough; so do the rounds of `topological_order`, by Dag/Topological/Agree;
-- `parse_order` runs as many rounds as there are modules, which Prover/Complete shows to be
-- enough. The wait for the index lock runs on fuel that its theorem asks to cover the timeout. The
-- worker and the release loop run over lists of rounds and polls, as the code runs until it is
-- stopped, until all is done, or until a deadline; so do the wait for agents and the proof of a
-- session, which has no limit of retries. The digits of a number n take n + 1.
--
-- Not modelled: command lines, logging and printing, HTTP servers, certificates, the Terminal
-- windows and texts of prompts, the discovery and parsing of source files, JSON that does not
-- parse. Of concurrency, a claim is one transaction, as in the code; the parallel gates are asked
-- before the first answer is looked at.
pub mod Base
pub mod Gates
pub mod Orchestrator
pub mod Queue
pub mod Dag
pub mod Distributor
pub mod Prover
pub mod Memory
pub mod Migration
pub mod Session
pub mod Router
pub mod SchemaCapture
pub mod Commit
pub mod Peers
pub mod Stress
pub mod Examples
