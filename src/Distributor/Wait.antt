-- ===== src/Distributor/Wait.antt =====
-- conductor/distributor.py, `wait_for_done`: waiting for agents that all run already. The warnings it
-- prints are left out.
use ciwarden.Base.{
  String, ◌≡◌, refl, Bool, true, false, ◌&&◌, ◌||◌, not, Option, none, some, List, [], ◌∷◌,
  if◌then◌else◌, arith, Bool-cases, ◌⊎◌, inl, inr, filter, all, any,
}
use ciwarden.Distributor.{Poll, agent_done}

-- One pass over the pending agents.
abbrev pub still_pending : Poll → List String → List String
still_pending poll pending = filter (λ id. not (agent_done poll id)) pending

-- The polls that are given; none: it waits on after them.
unfoldable pub wait_for_done : List Poll → List String → Option Bool
wait_for_done polls [] = some true
wait_for_done [] (id ∷ pending) = none
wait_for_done (poll ∷ polls) (id ∷ pending) =
    let later = wait_for_done polls (still_pending poll (id ∷ pending)) in
    elim (still_pending poll (id ∷ pending)) [
      | [] ↦ some true
      | j ∷ js ↦ if poll.late then some false else later
    ]

-- The agent was done in a poll, and no earlier one was late.
abbrev pub done_in_time : List Poll → String → Bool
done_in_time [] id = false
done_in_time (poll ∷ polls) id =
    let later = done_in_time polls id in agent_done poll id || (not poll.late && later)

done_in_time-late :
    (poll : Poll) (polls : List Poll) (pending : List String)
    → poll.late ≡ true
    → all (done_in_time (poll ∷ polls)) pending ≡ all (agent_done poll) pending
done_in_time-late poll polls [] h = refl
done_in_time-late poll polls (id ∷ ids) h = ground (arith, done_in_time-late poll polls ids h)

done_in_time-early :
    (poll : Poll) (polls : List Poll) (pending : List String)
    → poll.late ≡ false
    → all (done_in_time (poll ∷ polls)) pending
      ≡ all (done_in_time polls) (still_pending poll pending)
done_in_time-early poll polls [] h = refl
done_in_time-early poll polls (id ∷ ids) h = ground (arith, done_in_time-early poll polls ids h)

still_pending-none :
    (poll : Poll) (pending : List String)
    → still_pending poll pending ≡ []
    → all (agent_done poll) pending ≡ true
still_pending-none poll [] h = refl
still_pending-none poll (id ∷ ids) h = ground (arith, still_pending-none poll ids)

still_pending-some :
    (poll : Poll) (pending : List String) (x : String) (xs : List String)
    → still_pending poll pending ≡ x ∷ xs
    → all (agent_done poll) pending ≡ false
still_pending-some poll [] x xs h = absurd (cc)
still_pending-some poll (id ∷ ids) x xs h = ground (arith, still_pending-some poll ids x xs)

List-cases : (xs : List String) → (xs ≡ []) ⊎ ((y : String) × (ys : List String) × (xs ≡ y ∷ ys))
List-cases [] = inl refl
List-cases (x ∷ xs) = inr (x, xs, refl)

all-done :
    (poll : Poll) (polls : List Poll) (pending : List String)
    → all (agent_done poll) pending ≡ true
    → all (done_in_time (poll ∷ polls)) pending ≡ true
all-done poll polls [] h = refl
all-done poll polls (id ∷ ids) h = ground (arith, all-done poll polls ids)

-- Where some poll comes after the deadline, `wait_for_done` returns: True exactly when each of the
-- pending agents was done in some poll that no late one precedes.
pub wait_for_done-Returns :
    (polls : List Poll) (pending : List String)
    → any (λ poll. poll.late) polls ≡ true
    → wait_for_done polls pending ≡ some (all (done_in_time polls) pending)
unfolding wait_for_done
wait_for_done-Returns polls [] h = refl
wait_for_done-Returns [] (id ∷ ids) h = absurd (ground arith)
wait_for_done-Returns (poll ∷ polls) (id ∷ ids) h =
    let pending = id ∷ ids in
    elim (List-cases (still_pending poll pending)) [
      | inl e ↦ ground (arith, e, all-done poll polls pending (still_pending-none poll pending e))
      | inr (x, xs, e) ↦
          let left = still_pending-some poll pending x xs e in
          elim (Bool-cases poll.late) [
            | inl l ↦ ground (arith, e, l, done_in_time-late poll polls pending l, left)
            | inr l ↦ ground (
              arith,
              e,
              l,
              done_in_time-early poll polls pending l,
              wait_for_done-Returns polls (still_pending poll pending) (ground (arith, l)),
            )
          ]
    ]
