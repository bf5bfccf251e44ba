-- ===== src/Distributor/Opens.antt =====
-- What releasing and blocking do to the sets of the release loop, and one pass.
use ciwarden.Base.{
  String, ◌≡◌, refl, sym, ◌∙◌, ap, true, false, ◌&&◌, ◌||◌, not, List, [], ◌∷◌, ◌==◌, eq_iff,
  eq_refl, arith, elem, Nodup, keys, Bool-cases, Option-cases, inl, inr, subst, if_ind,
}
use ciwarden.Base.Sort.{sort, str_le, elem-sort}
use ciwarden.Dag.{Nodes, ready_agents}
use ciwarden.Distributor.{
  opened, Poll, Loop, agent_by_id, updated, ids_of, promote, launch, release_one, release,
  has_failed_dep, is_blocked, block_one, block, pass,
}
use ciwarden.Distributor.Writes.{agent_by_id-some, ready_agents-ready, ready_agents-keys}
use ciwarden.Distributor.Steps.{Same, Within, updated-Same, promote-Steps}

-- What releasing and blocking change: only more windows.
pub record Opens (l l' : Loop) : Type 0 where
  pub done : l'.done ≡ l.done
  pub launched : (x : String) → elem x l.launched ≡ true → elem x l'.launched ≡ true
  pub agents : ids_of l'.agents ≡ ids_of l.agents

Opens-refl : (l : Loop) → Opens l l
Opens-refl l = record { done = refl; launched = λ x e. e; agents = refl }

pub Opens-trans : (a b c : Loop) → Opens a b → Opens b c → Opens a c
Opens-trans a b c g h = record {
  done = h.done ∙ g.done;
  launched = λ x e. h.launched x (g.launched x e);
  agents = h.agents ∙ g.agents;
}

Same-Opens : (l l' : Loop) → Same l l' → Opens l l'
Same-Opens l l' s = record {
  done = s.done;
  launched = λ x e. ap (elem x) s.launched ∙ e;
  agents = s.agents;
}

launch-Opens :
    (id : String) (l : Loop) → Opens l (launch id l) × (elem id (launch id l).launched ≡ true)
launch-Opens id l =
    let prepared = updated id "ready" l in
    let one = updated-Same id "ready" l in
    let shown : Loop = record prepared {
      launched = id ∷ prepared.launched;
      trace = opened id ∷ prepared.trace;
    } in
    let two = updated-Same id "running" shown in
    (
      Opens-trans l prepared _ (Same-Opens l prepared one) (
          Opens-trans prepared shown _
            (record { done = refl; launched = λ x e. ground (arith, e); agents = refl })
            (Same-Opens shown _ two)),
      ap (elem id) two.launched ∙ ground (arith, eq_refl id),
    )

release_one-Opens : (id : String) (l : Loop) → Opens l (release_one id l)
release_one-Opens id l =
    if_ind (Opens l) (elem id l.launched || elem id l.done) (λ skip. Opens-refl l)
      (λ new. elim (Option-cases (agent_by_id id l.agents)) [
        | inl e ↦ rw e (Opens-refl l)
        | inr (a, e) ↦ rw e ((launch-Opens id l).0)
      ])

release_one-hit :
    (id : String) (l : Loop)
    → elem id (ids_of l.agents) ≡ true
    → elem id l.done ≡ false
    → elem id (release_one id l).launched ≡ true
release_one-hit id l there new =
    if_ind (λ (r : Loop). elem id r.launched ≡ true) (elem id l.launched || elem id l.done)
      (λ skip. ground (arith, new))
      (λ idle. let (a, e) = agent_by_id-some id l.agents there in rw e ((launch-Opens id l).1))

pub release-Opens : (xs : List String) (l : Loop) → Opens l (release xs l)
unfolding release
release-Opens [] l = Opens-refl l
release-Opens (x ∷ xs) l =
    Opens-trans l _ _ (release_one-Opens x l) (release-Opens xs (release_one x l))

pub release-hits :
    (xs : List String) (l : Loop) (id : String)
    → elem id xs ≡ true
    → elem id (ids_of l.agents) ≡ true
    → elem id l.done ≡ false
    → elem id (release xs l).launched ≡ true
unfolding release
release-hits [] l id e there new = absurd (ground arith)
release-hits (x ∷ xs) l id e there new =
    let step = release_one-Opens x l in
    elim (Bool-cases (id == x)) [
      | inl same ↦ (release-Opens xs (release_one x l)).launched id (
          subst (λ y. elem id (release_one y l).launched ≡ true) ((eq_iff id x).0 same)
            (release_one-hit id l there new))
      | inr other ↦
          release-hits xs (release_one x l) id (ground (arith, other))
            (ap (elem id) step.agents ∙ there) (ap (elem id) step.done ∙ new)
    ]

block_one-Opens : (dag : Nodes) (id : String) (l : Loop) → Opens l (block_one dag id l)
block_one-Opens dag id l =
    if_ind (Opens l) (elem id l.launched || elem id l.done) (λ skip. Opens-refl l)
      (λ idle.
        if_ind (Opens l) (has_failed_dep dag l id && not (is_blocked id l))
          (λ hit. Same-Opens l _ (updated-Same id "blocked" l)) (λ miss. Opens-refl l))

pub block-Opens : (dag : Nodes) (xs : List String) (l : Loop) → Opens l (block dag xs l)
unfolding block
block-Opens dag [] l = Opens-refl l
block-Opens dag (x ∷ xs) l =
    Opens-trans l _ _ (block_one-Opens dag x l) (block-Opens dag xs (block_one dag x l))

-- Every agent that is ready has a window.
abbrev pub AllOpen : Nodes → Loop → Type 0
AllOpen dag l = (x : String) → elem x (ready_agents dag l.done) ≡ true → elem x l.launched ≡ true

module _ (dag : Nodes) (ids : List String) (once : Nodup (keys dag))
    (all_there : (n : String) → elem n (keys dag) ≡ true → elem n ids ≡ true) where
  pub pass-facts :
      (poll : Poll) (l : Loop)
      → Within ids l
      → Within ids (pass dag ids poll l)
        × AllOpen dag (pass dag ids poll l)
        × ((pass dag ids poll l).done ≡ (promote poll ids l).done)
  unfolding pass
  pass-facts poll l w =
      let promoted = promote poll ids l in
      let (steps, v) = promote-Steps ids poll ids l (λ x e. e) w in
      let order = sort str_le (ready_agents dag promoted.done) in
      let released = release order promoted in
      let r = release-Opens order promoted in
      let b = block-Opens dag ids released in
      let o = Opens-trans promoted released _ r b in
      (
        record {
          agents = o.agents ∙ v.agents;
          done = λ x e. v.done x (sym (ap (elem x) o.done) ∙ e);
        },
        (λ x e.
            let now : elem x (ready_agents dag promoted.done) ≡ true =
              sym (ap (λ d. elem x (ready_agents dag d)) o.done) ∙ e in
            b.launched x (
              release-hits order promoted x
                (elem-sort str_le x (ready_agents dag promoted.done) ∙ now)
                (ap (elem x) v.agents ∙ all_there x (ready_agents-keys dag promoted.done x now))
                (ready_agents-ready dag promoted.done x once now).1)),
        o.done,
      )
