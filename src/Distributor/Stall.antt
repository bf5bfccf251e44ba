-- ===== src/Distributor/Stall.antt =====
-- The stall guard of the release loop, on a graph that the validation accepted.
use ciwarden.Base.{
  String, ◌≡◌, refl, sym, ◌∙◌, ap, Bool, true, false, not, none, some, List, [], ◌∷◌, if◌then◌else◌,
  ◌==◌, eq_iff, eq_refl, arith, elem, filter, get, keys, Bool-cases, inl, inr, subst, if_ind,
}
use ciwarden.Dag.{Nodes, deps_of, ready, ready_agents}
use ciwarden.Dag.Acyclic.{Grounded, grounded}
use ciwarden.Dag.Fuel.{IsClosed}
use ciwarden.Distributor.{
  Poll, Loop, remaining, is_nil, is_stalled, Exit, completed, stalled, timed_out, polling, all_done,
  pass, run,
}

missing :
    (ds done : List String)
    → ready ds done ≡ false
    → (d : String) × (elem d ds ≡ true) × (elem d done ≡ false)
missing [] done h = absurd (ground arith)
missing (d ∷ ds) done h = elim (Bool-cases (elem d done)) [
  | inl e ↦ let (x, inside, new) = missing ds done (ground arith) in (x, ground arith, new)
  | inr e ↦ (d, ground (arith, eq_refl d), e)
]

pub ready_agents-elem :
    (dag : Nodes) (done : List String) (n : String)
    → elem n (keys dag) ≡ true
    → elem n done ≡ false
    → ready (deps_of dag n) done ≡ true
    → elem n (ready_agents dag done) ≡ true
unfolding ready_agents
ready_agents-elem [] done n key new ok = absurd (ground arith)
ready_agents-elem ((k, node) ∷ dag) done n key new ok = elim (Bool-cases (n == k)) [
  | inl same ↦
      let there : elem k done ≡ false =
        subst (λ x. elem x done ≡ false) ((eq_iff n k).0 same) new in
      let now : ready node.depends_on done ≡ true =
        sym (
          ap
            (λ (b : Bool).
              ready
                (elim (if b then some node else get n dag) [ none ↦ [] | some m ↦ m.depends_on ])
                done)
            same)
        ∙ ok in
      ground (arith, there, now, same)
  | inr other ↦
      let later : ready (deps_of dag n) done ≡ true =
        sym (
          ap
            (λ (b : Bool).
              ready
                (elim (if b then some node else get n dag) [ none ↦ [] | some m ↦ m.depends_on ])
                done)
            other)
        ∙ ok in
      let ih = ready_agents-elem dag done n (ground arith) new later in ground (arith, ih)
]

-- Where an agent that is not done is grounded, some agent is ready.
pub some_ready :
    (dag : Nodes) (done : List String)
    → IsClosed dag
    → (n : String) → Grounded dag n
    → elem n (keys dag) ≡ true
    → elem n done ≡ false
    → (r : String) × (elem r (ready_agents dag done) ≡ true)
some_ready dag done closed n (grounded _ below) key new =
    elim (Bool-cases (ready (deps_of dag n) done)) [
      | inl ok ↦ (n, ready_agents-elem dag done n key new ok)
      | inr wait ↦
          let (d, dep, fresh) = missing (deps_of dag n) done wait in
          some_ready dag done closed d (below d dep) (closed n d dep) fresh
    ]

filter-some :
    (p : String → Bool) (xs : List String)
    → is_nil (filter p xs) ≡ false
    → (x : String) × (elem x xs ≡ true) × (p x ≡ true)
filter-some p [] h = absurd (ground arith)
filter-some p (x ∷ xs) h = elim (Bool-cases (p x)) [
  | inl e ↦ (x, ground (arith, eq_refl x), e)
  | inr e ↦ let (y, inside, ok) = filter-some p xs (ground arith) in (y, ground arith, ok)
]

nil-elem : (x : String) (xs : List String) → elem x xs ≡ true → is_nil xs ≡ false
nil-elem x [] h = absurd (ground arith)
nil-elem x (y ∷ ys) h = refl

-- Grounded in all its agents, the session is never stalled.
pub is_stalled-False :
    (dag : Nodes) (ids : List String) (l : Loop)
    → IsClosed dag
    → ((n : String) → elem n ids ≡ true → Grounded dag n × (elem n (keys dag) ≡ true))
    → is_stalled dag ids l ≡ false
unfolding is_stalled
is_stalled-False dag ids l closed all_grounded = elim (Bool-cases (is_nil (remaining ids l))) [
  | inl none_left ↦ ground (arith, none_left)
  | inr left ↦
      let (n, inside, new) = filter-some (λ id. not (elem id l.done)) ids left in
      let (ground_n, key) = all_grounded n inside in
      let (r, is_ready) = some_ready dag l.done closed n ground_n key (ground (arith, new)) in
      let not_nil = nil-elem r (ready_agents dag l.done) is_ready in ground (arith, not_nil)
]

-- The exit of the loop is not the stall.
abbrev pub NotStalled : Exit → Type 0
NotStalled stalled = ⊥
NotStalled completed = Unit
NotStalled timed_out = Unit
NotStalled polling = Unit

pub run-NotStalled :
    (dag : Nodes) (ids : List String)
    → IsClosed dag
    → ((n : String) → elem n ids ≡ true → Grounded dag n × (elem n (keys dag) ≡ true))
    → (polls : List Poll) (l : Loop) → NotStalled (run dag ids polls l).0
unfolding run
run-NotStalled dag ids closed h [] l =
    if_ind (λ (r : Exit × Loop). NotStalled r.0) (all_done ids l) (λ e. tt) (λ e. tt)
run-NotStalled dag ids closed h (poll ∷ polls) l =
    let after = pass dag ids poll l in
    if_ind (λ (r : Exit × Loop). NotStalled r.0) (all_done ids l) (λ e. tt)
      (λ e.
        if_ind (λ (r : Exit × Loop). NotStalled r.0) (all_done ids after) (λ e. tt)
          (λ e.
            if_ind (λ (r : Exit × Loop). NotStalled r.0) (is_stalled dag ids after)
              (λ e. absurd (ground (arith, is_stalled-False dag ids after closed h)))
              (λ e.
                if_ind (λ (r : Exit × Loop). NotStalled r.0) poll.late (λ e. tt)
                  (λ e. run-NotStalled dag ids closed h polls after))))
