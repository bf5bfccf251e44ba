-- ===== src/Commit/Grouping.antt =====
-- How `atomic_commit_multi_repo` groups the agents by repository.
use ciwarden.Base.{
  String, ◌≡◌, refl, sym, ◌∙◌, ap, Bool, true, false, ◌&&◌, ◌||◌, none, some, List, [], ◌∷◌, ◌++◌,
  ◌==◌, eq_iff, eq_refl, arith, elem, elem-append, Dict, get, keys, Nodup, append_assoc, append-nil,
  Bool-cases, Option-cases, inl, inr, subst,
}
use ciwarden.Dag.{deps_of}
use ciwarden.Dag.Topological.Turns.{DepsBefore}
use ciwarden.Session.{AgentSpec, ConductorSession, agent_by_id}
use ciwarden.Commit.Multi.{append_agent, group_one, group_agents}

abbrev members : String → Dict (List String) → List String
members repo groups = elim (get repo groups) [ none ↦ [] | some ids ↦ ids ]

module _ (s : ConductorSession) where
  -- The agent is in the session, and writes to the repository.
  abbrev pub writes_to : String → String → Bool
  writes_to repo id = elim (agent_by_id s id) [ none ↦ false | some a ↦ repo == a.repo ]

  -- Where a list of agents begins with one whose dependencies all write to `earlier` repositories.
  abbrev pub FirstAfter : List String → List String → Type 0
  FirstAfter earlier [] = ⊥
  FirstAfter earlier (id ∷ ids) =
      (d : String) (a : AgentSpec)
      → elem d (deps_of s.dag id) ≡ true
      → agent_by_id s d ≡ some a
      → elem a.repo earlier ≡ true

  -- Each group follows the repositories that its first agent depends on.
  abbrev pub FirstsAfter : List String → Dict (List String) → Type 0
  FirstsAfter earlier [] = Unit
  FirstsAfter earlier ((repo, ids) ∷ groups) =
      FirstAfter earlier ids × FirstsAfter (earlier ++ repo ∷ []) groups

  keys-append :
      (r repo id : String) (groups : Dict (List String))
      → elem r (keys (append_agent repo id groups)) ≡ (elem r (keys groups) || r == repo)
  keys-append r repo id [] = ground arith
  keys-append r repo id ((q, ids) ∷ groups) =
      ground (arith, eq_iff repo q, eq_iff r q, eq_iff r repo, keys-append r repo id groups)

  Nodup-append_agent :
      (repo id : String) (groups : Dict (List String))
      → Nodup (keys groups)
      → Nodup (keys (append_agent repo id groups))
  Nodup-append_agent repo id [] h = (refl, tt)
  Nodup-append_agent repo id ((q, ids) ∷ groups) h = elim (Bool-cases (repo == q)) [
    | inl same ↦ rw same h
    | inr other ↦ rw other (
      keys-append q repo id groups ∙ ground (arith, h.0, eq_iff q repo, eq_iff repo q),
      Nodup-append_agent repo id groups h.1,
    )
  ]

  members-append :
      (r repo id x : String) (groups : Dict (List String))
      → elem x (members r (append_agent repo id groups))
        ≡ (elem x (members r groups) || r == repo && x == id)
  members-append r repo id x [] = ground arith
  members-append r repo id x ((q, ids) ∷ groups) = ground (
    arith,
    eq_iff repo q,
    eq_iff r q,
    eq_iff r repo,
    elem-append x ids (id ∷ []),
    members-append r repo id x groups,
  )

  FirstAfter-append :
      (earlier ids : List String) (id : String)
      → FirstAfter earlier ids
      → FirstAfter earlier (ids ++ id ∷ [])
  FirstAfter-append earlier [] id h = absurd h
  FirstAfter-append earlier (n ∷ ids) id h = h

  -- A new repository comes last, and a known one keeps its first agent.
  FirstsAfter-append :
      (earlier : List String) (repo id : String) (groups : Dict (List String))
      → FirstsAfter earlier groups
      → (elem repo (keys groups) ≡ false → FirstAfter (earlier ++ keys groups) (id ∷ []))
      → FirstsAfter earlier (append_agent repo id groups)
  FirstsAfter-append earlier repo id [] h new =
      (λ d a e k. sym (elem-append a.repo earlier [] ∙ ground arith) ∙ new refl d a e k, tt)
  FirstsAfter-append earlier repo id ((q, ids) ∷ groups) h new = elim (Bool-cases (repo == q)) [
    | inl same ↦ rw same (FirstAfter-append earlier ids id h.0, h.1)
    | inr other ↦ rw other (
      h.0,
      FirstsAfter-append (earlier ++ q ∷ []) repo id groups h.1 (λ out d a e k.
          ap (elem a.repo) (append_assoc earlier (q ∷ []) (keys groups))
          ∙ new (ground arith) d a e k),
    )
  ]

  -- What the loop has built from the agents that it has seen.
  record Grouped (seen : List String) (groups : Dict (List String)) : Type 0 where
    pub once : Nodup (keys groups)
    pub members :
        (repo x : String) → elem x (members repo groups) ≡ (elem x seen && writes_to repo x)
    pub known :
        (x : String) (a : AgentSpec)
        → elem x seen ≡ true
        → agent_by_id s x ≡ some a
        → elem a.repo (keys groups) ≡ true
    pub firsts : FirstsAfter [] groups

  group_one-Grouped :
      (seen : List String) (groups : Dict (List String)) (id : String)
      → Grouped seen groups
      → ((d : String) → elem d (deps_of s.dag id) ≡ true → elem d seen ≡ true)
      → Grouped (seen ++ id ∷ []) (group_one s id groups)
  group_one-Grouped seen groups id g before = elim (Option-cases (agent_by_id s id)) [
    | inl e ↦
        rw (e, group_one)
          (record {
            once = g.once;
            members = λ repo x.
                ground (arith, g.members repo x, elem-append x seen (id ∷ []), eq_iff x id, e);
            known = λ x a k h.
                ground (arith, g.known x a, elem-append x seen (id ∷ []), eq_iff x id, e);
            firsts = g.firsts;
          })
    | inr (b, e) ↦
        rw (e, group_one)
          (record {
            once = Nodup-append_agent b.repo id groups g.once;
            members = λ repo x. ground (
              arith,
              members-append repo b.repo id x groups,
              g.members repo x,
              elem-append x seen (id ∷ []),
              eq_iff x id,
              e,
            );
            known = λ x a k h.
                keys-append a.repo b.repo id groups
                ∙ ground (
                  arith,
                  g.known x a,
                  elem-append x seen (id ∷ []),
                  eq_iff x id,
                  eq_refl a.repo,
                  e,
                );
            firsts =
                FirstsAfter-append [] b.repo id groups g.firsts
                  λ new d a k h. g.known d a (before d k) h;
          })
  ]

  group_agents-Grouped :
      (seen order : List String) (groups : Dict (List String))
      → Grouped seen groups
      → DepsBefore s.dag seen order
      → Grouped (seen ++ order) (group_agents s order groups)
  unfolding group_agents
  group_agents-Grouped seen [] groups g h = subst (λ l. Grouped l groups) (sym (append-nil seen)) g
  group_agents-Grouped seen (id ∷ order) groups g h =
      subst (λ l. Grouped l (group_agents s order (group_one s id groups)))
        (append_assoc seen (id ∷ []) order)
        (group_agents-Grouped (seen ++ id ∷ []) order (group_one s id groups)
          (group_one-Grouped seen groups id g h.0) h.1)

  -- Of an order that puts dependencies first: every repository has one group, which holds the agents
  -- of the session that write to it and no other, and every dependency of the first agent of a group
  -- writes to a repository whose group comes earlier.
  pub group_agents-FirstsAfter :
      (order : List String)
      → DepsBefore s.dag [] order
      → Nodup (keys (group_agents s order []))
        × ((repo x : String)
            → elem x (members repo (group_agents s order [])) ≡ (elem x order && writes_to repo x))
        × FirstsAfter [] (group_agents s order [])
  group_agents-FirstsAfter order h =
      let g =
        group_agents-Grouped [] order []
          (record {
            once = tt;
            members = λ repo x. refl;
            known = λ x a e k. absurd (ground arith);
            firsts = tt;
          })
          h in
      (g.once, g.members, g.firsts)
