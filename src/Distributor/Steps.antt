-- ===== src/Distributor/Steps.antt =====
-- What promoting does to the sets of the release loop.
use ciwarden.Base.{
  String, ◌≡◌, refl, sym, ◌∙◌, ap, true, ◌&&◌, not, Option, none, some, List, [], ◌∷◌, ◌==◌, eq_iff,
  eq_refl, arith, elem, Bool-cases, inl, inr, subst, if_ind,
}
use ciwarden.Distributor.{
  Agent, persisted, Poll, Loop, valid_states, agent_by_id, set_state, update_state, updated, ids_of,
  agent_done, warn, promote_one, promote,
}
use ciwarden.Distributor.Writes.{ids_of-set_state}

-- What no write of a state changes.
pub record Same (l l' : Loop) : Type 0 where
  pub done : l'.done ≡ l.done
  pub launched : l'.launched ≡ l.launched
  pub agents : ids_of l'.agents ≡ ids_of l.agents

Same-refl : (l : Loop) → Same l l
Same-refl l = record { done = refl; launched = refl; agents = refl }

pub updated-Same : (id s : String) (l : Loop) → Same l (updated id s l)
unfolding update_state
updated-Same id s l =
    if_ind Kept (not (elem s valid_states)) (λ bad. Same-refl l)
      (λ ok. go (agent_by_id id l.agents))
  where
    Kept : Option Loop → Type 0
    Kept o = Same l (elim o [ none ↦ l | some m ↦ m ])

    go :
        (o : Option Agent)
        → Kept (elim o [
          | none ↦ some l
          | some a ↦
              some (record l { agents = set_state id s l.agents; trace = persisted id s ∷ l.trace })
        ])
    go none = Same-refl l
    go (some a) = record { done = refl; launched = refl; agents = ids_of-set_state id s l.agents }

module _ (ids : List String) where
  -- From `l` to `l'` nothing is forgotten, and both sets stay in the session.
  pub record Steps (l l' : Loop) : Type 0 where
    pub done : (x : String) → elem x l.done ≡ true → elem x l'.done ≡ true
    pub launched : (x : String) → elem x l.launched ≡ true → elem x l'.launched ≡ true

  pub record Within (l : Loop) : Type 0 where
    pub agents : ids_of l.agents ≡ ids
    pub done : (x : String) → elem x l.done ≡ true → elem x ids ≡ true

  Steps-refl : (l : Loop) → Steps l l
  Steps-refl l = record { done = λ x e. e; launched = λ x e. e }

  Steps-trans : (a b c : Loop) → Steps a b → Steps b c → Steps a c
  Steps-trans a b c g h = record {
    done = λ x e. h.done x (g.done x e);
    launched = λ x e. h.launched x (g.launched x e);
  }

  Same-Steps : (l l' : Loop) → Same l l' → Steps l l'
  Same-Steps l l' s = record {
    done = λ x e. ap (elem x) s.done ∙ e;
    launched = λ x e. ap (elem x) s.launched ∙ e;
  }

  Same-Within : (l l' : Loop) → Same l l' → Within l → Within l'
  Same-Within l l' s w = record {
    agents = s.agents ∙ w.agents;
    done = λ x e. w.done x (sym (ap (elem x) s.done) ∙ e);
  }

  abbrev signalled : Poll → String → Loop → Loop
  signalled poll id l = record l { done = id ∷ l.done; warned = warn poll id l.warned }

  promote_one-Steps :
      (poll : Poll) (id : String) (l : Loop)
      → elem id ids ≡ true
      → Within l
      → Steps l (promote_one poll id l) × Within (promote_one poll id l)
  promote_one-Steps poll id l there w =
      if_ind (λ (r : Loop). Steps l r × Within r)
        (elem id l.launched && not (elem id l.done) && agent_done poll id)
        (λ hit.
          let next = signalled poll id l in
          let same = updated-Same id "done" next in
          (
            Steps-trans l next _ (record { done = λ x e. ground (arith, e); launched = λ x e. e })
                (Same-Steps next _ same),
            Same-Within next _ same (record {
              agents = w.agents;
              done = λ x e. ground (arith, w.done x, there, eq_iff x id);
            }),
          ))
        (λ miss. (Steps-refl l, w))

  pub promote-Steps :
      (poll : Poll) (xs : List String) (l : Loop)
      → ((x : String) → elem x xs ≡ true → elem x ids ≡ true)
      → Within l
      → Steps l (promote poll xs l) × Within (promote poll xs l)
  unfolding promote
  promote-Steps poll [] l sub w = (Steps-refl l, w)
  promote-Steps poll (x ∷ xs) l sub w =
      let (s, v) = promote_one-Steps poll x l (sub x (ground (arith, eq_refl x))) w in
      let (t, u) = promote-Steps poll xs (promote_one poll x l) (λ y e. sub y (ground arith)) v in
      (Steps-trans l _ _ s t, u)

  -- An agent that has a window and a `.done` file is done.
  promote_one-hit :
      (poll : Poll) (id : String) (l : Loop)
      → poll.flagged id ≡ true
      → elem id l.launched ≡ true
      → elem id (promote_one poll id l).done ≡ true
  promote_one-hit poll id l flag window =
      if_ind (λ (r : Loop). elem id r.done ≡ true)
        (elem id l.launched && not (elem id l.done) && agent_done poll id)
        (λ hit.
          ap (elem id) (updated-Same id "done" (signalled poll id l)).done
          ∙ ground (arith, eq_refl id))
        (λ miss. ground (arith, flag, window))

  pub promote-hits :
      (poll : Poll) (xs : List String) (l : Loop) (id : String)
      → ((x : String) → elem x xs ≡ true → elem x ids ≡ true)
      → Within l
      → poll.flagged id ≡ true
      → elem id xs ≡ true
      → elem id l.launched ≡ true
      → elem id (promote poll xs l).done ≡ true
  unfolding promote
  promote-hits poll [] l id sub w flag there started = absurd (ground arith)
  promote-hits poll (x ∷ xs) l id sub w flag there started =
      let rest = λ (y : String) (e : elem y xs ≡ true). sub y (ground arith) in
      let (s, v) = promote_one-Steps poll x l (sub x (ground (arith, eq_refl x))) w in
      elim (Bool-cases (id == x)) [
        | inl same ↦ (promote-Steps poll xs (promote_one poll x l) rest v).0.done id (
            subst (λ y. elem y (promote_one poll x l).done ≡ true) (sym ((eq_iff id x).0 same))
              (promote_one-hit poll x l
                (subst (λ y. poll.flagged y ≡ true) ((eq_iff id x).0 same) flag)
                (subst (λ y. elem y l.launched ≡ true) ((eq_iff id x).0 same) started)))
        | inr other ↦
            promote-hits poll xs (promote_one poll x l) id rest v flag (ground (arith, other))
              (s.launched id started)
      ]
