-- ===== src/Queue/Worker/Lock.antt =====
-- `wait_for_index_lock` of queue/commit_queue.py: it polls until the lock is gone or the deadline
-- has passed. Times are in milliseconds.
use ciwarden.Base.{
  ℕ, zero, suc, ◌+◌, ◌*◌, ◌≤◌, ◌≡◌, refl, Bool, true, false, not, Option, none, some, if◌then◌else◌,
  ltb, arith, Bool-cases, inl, inr,
}

-- At the n-th look: the time, and whether the lock is there.
pub record Looks : Type 0 where
  pub time : ℕ → ℕ
  pub locked : ℕ → Bool

-- `none` is a loop that did not end on its fuel.
pub poll_lock : ℕ → Looks → ℕ → ℕ → Option Bool
poll_lock zero w deadline n = none
poll_lock (suc fuel) w deadline n =
    let rest = poll_lock fuel w deadline (suc n) in
    if ltb (w.time n) deadline
    then (if not (w.locked n) then some true else rest)
    else some (not (w.locked n))

-- The first look is at the time from which the deadline counts.
pub wait_for_index_lock : ℕ → Looks → ℕ → Option Bool
wait_for_index_lock fuel w timeout = poll_lock fuel w (w.time 0 + timeout) 0

-- `true` for a look at which the lock was gone; `false` for one past the deadline at which it was
-- still there.
abbrev pub Answers : Looks → ℕ → Bool → Type 0
Answers w deadline true = (k : ℕ) × (w.locked k ≡ false)
Answers w deadline false = (k : ℕ) × (deadline ≤ w.time k) × (w.locked k ≡ true)

abbrev pub Ends : Looks → ℕ → Option Bool → Type 0
Ends w deadline out = (cleared : Bool) × (out ≡ some cleared) × Answers w deadline cleared

last_look :
    (w : Looks) (deadline n : ℕ) → deadline ≤ w.time n → Ends w deadline (some (not (w.locked n)))
last_look w deadline n late = split (w.locked n) refl
  where
    split : (b : Bool) → w.locked n ≡ b → Ends w deadline (some (not (w.locked n)))
    split true e = (false, ground arith, (n, late, e))
    split false e = (true, ground arith, (n, e))

module _ (w : Looks) (poll : ℕ) (sleeps : (n : ℕ) → w.time n + poll ≤ w.time (suc n)) where
  poll_lock-Ends :
      (fuel deadline n : ℕ)
      → deadline ≤ w.time n + fuel * poll
      → Ends w deadline (poll_lock (suc fuel) w deadline n)
  unfolding poll_lock
  poll_lock-Ends zero deadline n h =
      let late : ltb (w.time n) deadline ≡ false = ground arith in
      rw (late, poll_lock) (last_look w deadline n (omega arith))
  poll_lock-Ends (suc fuel) deadline n h = elim (Bool-cases (ltb (w.time n) deadline)) [
    | inr late ↦ rw (late, poll_lock) (last_look w deadline n (ground arith))
    | inl early ↦ elim (Bool-cases (w.locked n)) [
      | inr gone ↦ (true, ground arith, (n, gone))
      | inl there ↦
          let next = poll_lock-Ends fuel deadline (suc n) (omega (arith, sleeps n)) in
          (next.0, ground arith, next.2)
    ]
  ]

  -- Where each sleep takes the clock on by `poll` at least, so many looks that their sleeps cover
  -- the timeout are enough for the loop to end: with `true` only if it saw the lock gone, and with
  -- `false` only if it saw the lock at or after the deadline.
  pub wait_for_index_lock-Ends :
      (fuel timeout : ℕ)
      → timeout ≤ fuel * poll
      → Ends w (w.time 0 + timeout) (wait_for_index_lock (suc fuel) w timeout)
  unfolding wait_for_index_lock
  wait_for_index_lock-Ends fuel timeout h = poll_lock-Ends fuel (w.time 0 + timeout) 0 (omega arith)
