-- ===== src/Queue/Fifo.antt =====
-- The queue of a repository is first in, first out: the pending rows as an abstract queue.
use ciwarden.Base.{
  ℕ, suc, ◌≤◌, String, ◌≡◌, ◌≢◌, refl, Bool, true, false, ◌||◌, not, Option, none, some, List, [],
  ◌∷◌, eqb, arith, all, filter, Bool-cases, inl, inr, Option-cases, eq_iff,
}
use ciwarden.Queue.{Commit, update, set_processing, is_pending, is_waiting, oldest}
use ciwarden.Queue.Rows.{IsIncreasing, absent}

-- The pending rows of a repository, oldest first.
abbrev pub waiting : String → List Commit → List Commit
waiting repo cs = filter (is_waiting repo) cs

abbrev pub head? {ℓ} : {A : Type ℓ} → List A → Option A
head? [] = none
head? (x ∷ xs) = some x

abbrev pub tail {ℓ} : {A : Type ℓ} → List A → List A
tail [] = []
tail (x ∷ xs) = xs

pub head-le :
    (repo : String) (lo hi : ℕ) (cs : List Commit) (c : Commit)
    → IsIncreasing lo cs hi
    → head? (waiting repo cs) ≡ some c
    → lo ≤ c.id
head-le repo lo hi [] c h e = absurd (ground arith)
head-le repo lo hi (x ∷ xs) c h e = elim (Bool-cases (is_waiting repo x)) [
  | inl k ↦ ground arith
  | inr k ↦ ground (arith, head-le repo (suc x.id) hi xs c)
]

-- Where the identifiers grow, the oldest pending row is the first.
pub oldest-eq-head :
    (repo : String) (lo hi : ℕ) (cs : List Commit)
    → IsIncreasing lo cs hi
    → oldest repo cs ≡ head? (waiting repo cs)
unfolding oldest
oldest-eq-head repo lo hi [] h = refl
oldest-eq-head repo lo hi (x ∷ xs) h = elim (Option-cases (head? (waiting repo xs))) [
  | inl e ↦ ground (arith, oldest-eq-head repo (suc x.id) hi xs)
  | inr (d, e) ↦
      ground (arith, oldest-eq-head repo (suc x.id) hi xs, head-le repo (suc x.id) hi xs d)
]

update_absent :
    (id : ℕ) (change : Commit → Commit) (cs : List Commit)
    → all (λ (c : Commit). not (eqb c.id id)) cs ≡ true
    → update id change cs ≡ cs
update_absent id change [] h = refl
update_absent id change (c ∷ cs) h = ground (arith, update_absent id change cs)

-- The claim takes its row out of the queue of its repository.
pub waiting-claim :
    (repo : String) (now lo hi : ℕ) (cs : List Commit) (c : Commit)
    → IsIncreasing lo cs hi
    → head? (waiting repo cs) ≡ some c
    → waiting repo (update c.id (set_processing now) cs) ≡ tail (waiting repo cs)
waiting-claim repo now lo hi [] c h e = refl
waiting-claim repo now lo hi (x ∷ xs) c h e = elim (Bool-cases (is_waiting repo x)) [
  | inl k ↦
      let same : x ≡ c = ground arith in
      let gone = absent c.id (suc x.id) hi xs in
      let rest = update_absent c.id (set_processing now) xs in ground (arith, gone, rest)
  | inr k ↦
      ground (arith, head-le repo (suc x.id) hi xs c, waiting-claim repo now (suc x.id) hi xs c)
]

absent_pending :
    (id : ℕ) (cs : List Commit)
    → all (λ (c : Commit). not (eqb c.id id)) cs ≡ true
    → all (λ (c : Commit). not (eqb c.id id) || is_pending c.status) cs ≡ true
absent_pending id [] h = refl
absent_pending id (c ∷ cs) h = ground (arith, absent_pending id cs)

-- The claim leaves the queues of the other repositories alone.
pub waiting-claim_ne :
    (repo other : String) (now lo hi : ℕ) (cs : List Commit) (c : Commit)
    → repo ≢ other
    → IsIncreasing lo cs hi
    → head? (waiting repo cs) ≡ some c
    → waiting other (update c.id (set_processing now) cs) ≡ waiting other cs
waiting-claim_ne repo other now lo hi [] c ne h e = refl
waiting-claim_ne repo other now lo hi (x ∷ xs) c ne h e = elim (Bool-cases (is_waiting repo x)) [
  | inl k ↦
      let same : x ≡ c = ground arith in
      let gone = absent c.id (suc x.id) hi xs in
      let rest = update_absent c.id (set_processing now) xs in
      ground (arith, gone, rest, eq_iff x.repo repo, eq_iff x.repo other)
  | inr k ↦ ground (
    arith,
    head-le repo (suc x.id) hi xs c,
    waiting-claim_ne repo other now (suc x.id) hi xs c ne,
  )
]

-- The row that a claim reads is pending, and the only one with its identifier.
pub head-is_pending :
    (repo : String) (lo hi : ℕ) (cs : List Commit) (c : Commit)
    → IsIncreasing lo cs hi
    → head? (waiting repo cs) ≡ some c
    → all (λ (d : Commit). not (eqb d.id c.id) || is_pending d.status) cs ≡ true
head-is_pending repo lo hi [] c h e = refl
head-is_pending repo lo hi (x ∷ xs) c h e = elim (Bool-cases (is_waiting repo x)) [
  | inl k ↦
      let same : x ≡ c = ground arith in
      ground (arith, absent_pending c.id xs, absent c.id (suc x.id) hi xs)
  | inr k ↦ ground (arith, head-le repo (suc x.id) hi xs c, head-is_pending repo (suc x.id) hi xs c)
]

-- A row that is not pending before a change nor after it leaves every queue alone.
abbrev pub quiet : ℕ → List Commit → Bool
quiet id cs = all (λ (c : Commit). not (eqb c.id id) || not (is_pending c.status)) cs

pub quiet-claim :
    (id now : ℕ) (cs : List Commit) → quiet id (update id (set_processing now) cs) ≡ true
quiet-claim id now [] = refl
quiet-claim id now (c ∷ cs) = ground (arith, quiet-claim id now cs)

pub waiting-update :
    (repo : String) (id : ℕ) (change : Commit → Commit)
    → ((c : Commit) → is_pending (change c).status ≡ false)
    → (cs : List Commit) → quiet id cs ≡ true
    → waiting repo (update id change cs) ≡ waiting repo cs
waiting-update repo id change ends [] h = refl
waiting-update repo id change ends (c ∷ cs) h =
    ground (arith, ends c, waiting-update repo id change ends cs)
