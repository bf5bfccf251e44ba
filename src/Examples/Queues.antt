-- ===== src/Examples/Queues.antt =====
-- Queues of two repositories, of queue/commit_queue.py.
use ciwarden.Base.{
  ◌⊎◌, eq_iff, ◌*◌, String, ◌≡◌, ◌≢◌, refl, true, false, none, some, List, [], ◌∷◌, ◌++◌, ◌==◌,
  arith, leb,
}
use ciwarden.Queue.{Commit, Queue, new_commit, entry, raised, EnqueueError, enqueue, Paths}
use ciwarden.Queue.Worker.{
  World, Git, answered, Tick, contended, work, round, worker, process_entry, recover, head_sha_text,
}
use ciwarden.Queue.Worker.Cases.{done_with}
use ciwarden.Queue.Worker.Lock.{Looks, wait_for_index_lock, Ends, wait_for_index_lock-Ends}
use ciwarden.Queue.Rows.{IsValid}
use ciwarden.Queue.Fifo.{waiting, tail}
use ciwarden.Queue.Entries.{waiting-round, round-IsValid, worker_drains, asked, drop}
use ciwarden.Queue.Enqueue.{enqueue_cases, acceptable}
use ciwarden.Queue.Outcome.{process_cases, cleared_with, queue_token_of, Fails}

abbrev first : Commit
first = new_commit 1 "/a" ("x.py" ∷ []) "one" "agent_001" 10

abbrev second : Commit
second = new_commit 2 "/b" ("y.py" ∷ []) "two" "agent_002" 11

abbrev third : Commit
third = new_commit 3 "/a" ("z.py" ∷ []) "three" "agent_003" 12

abbrev q : Queue
q = record { commits = first ∷ second ∷ third ∷ []; next_id = 4; tokens = [] }

q-IsValid : IsValid q
q-IsValid = record {
  increasing = (omega arith, (omega arith, (omega arith, omega arith)));
  rows = refl;
}

a-ne-b : ◌≢◌ {A = String} "/a" "/b"
a-ne-b e = let same = (eq_iff "/a" "/b").1 e in absurd (ground (arith, same))

abbrev works : String → Git
works text = record { succeeded = true; stdout = text; stderr = "" }

abbrev w : World
w = record {
  lock_cleared = true;
  git_add = λ files. works "";
  git_commit = λ message. works "";
  head_sha = works "abc\n";
  head_branch = works "main\n";
  post = λ agent branch sha.
      answered (record { merge_token = some "token"; blocked_at = none; reason = none });
  digest = λ sha id now. "digest";
  now = 20;
}

waiting-round_example :
    (waiting "/a" (round "/a" (work 20 w) q).commits ≡ tail (waiting "/a" q.commits))
    × (waiting "/b" (round "/a" (work 20 w) q).commits ≡ waiting "/b" q.commits)
waiting-round_example = waiting-round "/a" "/b" 20 w q q-IsValid a-ne-b

round-IsValid_example : IsValid (round "/a" (work 20 w) q)
round-IsValid_example = round-IsValid "/a" (work 20 w) q q-IsValid

abbrev ticks : List Tick
ticks = work 20 w ∷ contended ∷ work 30 w ∷ []

worker_drains_example :
    (waiting "/a" (worker "/a" ticks q).commits ≡ drop (asked ticks) (waiting "/a" q.commits))
    × IsValid (worker "/a" ticks q)
worker_drains_example = worker_drains "/a" ticks q q-IsValid

-- A lock that goes away at the third look.
abbrev looks : Looks
looks = record { time = λ n. n * 500; locked = λ n. leb n 1 }

wait_for_index_lock-Ends_example : Ends looks 1000 (wait_for_index_lock 3 looks 1000)
wait_for_index_lock-Ends_example =
    wait_for_index_lock-Ends looks 500 (λ n. omega arith) 2 1000 (omega arith)

process_cases_example :
    ((m : String) × (cleared_with w first q ≡ some m)
      × (recover w 1 (process_entry w first q)
          ≡ done_with w 1 (head_sha_text w) m (queue_token_of w first) q))
    ⊎ ((cleared_with w first q ≡ none) × Fails w first q (recover w 1 (process_entry w first q)))
process_cases_example = process_cases w first q

abbrev paths : Paths
paths = record { normalize_repo = λ p. p; has_git = λ p. p == "/a" }

abbrev files : List String
files = "x.py" ∷ "dir/y.py" ∷ []

enqueue_cases_example :
    ((acceptable paths "/a" files "msg" ≡ true)
      × ((next : Queue) × (enqueue paths "/a" files "msg" "agent_001" 40 q ≡ (entry 4, next))
          × IsValid next
          × (waiting "/a" next.commits
              ≡ waiting "/a" q.commits ++ new_commit 4 "/a" files "msg" "agent_001" 40 ∷ [])
          × (waiting "/b" next.commits ≡ waiting "/b" q.commits)))
    ⊎ ((acceptable paths "/a" files "msg" ≡ false)
        × ((e : EnqueueError) × (enqueue paths "/a" files "msg" "agent_001" 40 q ≡ (raised e, q))))
enqueue_cases_example = enqueue_cases paths "/a" files "msg" "agent_001" 40 q "/b" a-ne-b q-IsValid
