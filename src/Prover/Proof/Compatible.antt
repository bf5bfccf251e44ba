-- ===== src/Prover/Proof/Compatible.antt =====
-- conductor/prover.py, `proof_session`: what holds of the agents that it has found clean.
use ciwarden.Base.{
  ℕ, suc, String, ◌≡◌, refl, sym, subst, ◌∙◌, ap, Bool, true, false, some, List, [], ◌∷◌, ◌==◌,
  arith, elem, map, All, All-map, Nodup, get, Option-cases, ◌⊎◌, inl, inr,
}
use ciwarden.Base.Text.{is_empty}
use ciwarden.Peers.Live.{Live, owner_of, check_live}
use ciwarden.Peers.Seen.{shows}
use ciwarden.Prover.{AgentSpec, agents_in_parse_order}
use ciwarden.Prover.Proof.{
  Schema, read_agent_schema, iter_module_entries, publish_live, Turn, Proofing, Outcome, clean,
  gave_up, raised, waiting, published, accept, report, proof_loop, proof_all, proof_session,
}
use ciwarden.Distributor.Wait.{wait_for_done}
use ciwarden.Prover.Proof.Held.{IsPublishable, Shown, publish-Shown, publish-others}
use ciwarden.Prover.Proof.Apart.{IsApart, clean-IsApart}

-- What the loop of one agent has done when it ends clean.
abbrev Cleared : (String → String) → String → Proofing → Proofing → Type 0
Cleared lower b p q =
    (schema : Schema) × (q.accepted ≡ (b, schema) ∷ p.accepted)
    × Shown b schema q.live
    × (check_live lower b (iter_module_entries schema) q.live ≡ some [])
    × ((stem : String) → (owner_of stem == b) ≡ false → get stem q.live ≡ get stem p.live)

abbrev pub IsGood : Turn → Type 0
IsGood turn = IsPublishable (read_agent_schema turn.file)

proof_loop-Cleared :
    (lower : String → String) (b : String) (n : ℕ) (turns : List Turn) (p q : Proofing)
    → is_empty b ≡ false
    → All IsGood turns
    → proof_loop lower b n turns p ≡ clean q
    → Cleared lower b p q
unfolding proof_loop
proof_loop-Cleared lower b n [] p q e g h = absurd (ground arith)
proof_loop-Cleared lower b n (turn ∷ turns) p q e g h =
    let schema = read_agent_schema turn.file in
    let live = publish_live b schema p.live in
    let others = λ (stem : String) (o : (owner_of stem == b) ≡ false).
      publish-others b stem schema p.live e g.0 o in
    elim (Option-cases (check_live lower b (iter_module_entries schema) live)) [
      | inl r ↦ absurd (ground (arith, r))
      | inr ([], r) ↦
          let done : accept b schema (published b schema p) ≡ q = ground (arith, r) in
          subst (λ t. Cleared lower b p t) done
            (schema, refl, publish-Shown b schema p.live e g.0, r, others)
      | inr (c ∷ cs, r) ↦ elim (Option-cases (wait_for_done turn.polls (b ∷ []))) [
        | inl w ↦ absurd (ground (arith, r, w))
        | inr (false, w) ↦ absurd (ground (arith, r, w))
        | inr (true, w) ↦
            let told = report b n (c ∷ cs) (published b schema p) in
            let (s, acc, shown, ok, same) =
              proof_loop-Cleared lower b (suc n) turns told q e g.1 (ground (arith, r, w)) in
            (s, acc, shown, ok, λ stem o. same stem o ∙ others stem o)
      ]
    ]

abbrev pub Accepted : Type 0
Accepted = List (String × Schema)

-- Each two of the agents are apart; the later ones stand first.
abbrev pub AllApart : (String → String) → Accepted → Type 0
AllApart lower [] = Unit
AllApart lower (later ∷ earlier) =
    All (λ (t : String × Schema). IsApart lower t.1 later.1) earlier × AllApart lower earlier

abbrev ids_of : List AgentSpec → List String
ids_of agents = map (λ a. a.agent_id) agents

-- rev_onto xs ys: the members of xs, the last one first, and ys.
abbrev pub rev_onto : List String → List String → List String
rev_onto [] ys = ys
rev_onto (x ∷ xs) ys = rev_onto xs (x ∷ ys)

All-both :
    {A : Type 0} (P Q R : A → Type 0) (xs : List A)
    → ((x : A) → P x → Q x → R x)
    → All P xs
    → All Q xs
    → All R xs
All-both P Q R [] f h k = tt
All-both P Q R (x ∷ xs) f h k = (f x h.0 k.0, All-both P Q R xs f h.1 k.1)

-- Between two agents' loops: the accepted agents are apart, what they declare is in live/, and they
-- are none of those to come.
abbrev Inv : (String → String) → List AgentSpec → Proofing → Type 0
Inv lower agents p =
    AllApart lower p.accepted
    × All (λ (t : String × Schema). Shown t.0 t.1 p.live) p.accepted
    × All (λ (t : String × Schema). elem t.0 (ids_of agents) ≡ false) p.accepted

Shown-kept :
    (a b : String) (schema : Schema) (old new : Live)
    → (a == b) ≡ false
    → ((stem : String) → (owner_of stem == b) ≡ false → get stem new ≡ get stem old)
    → Shown a schema old
    → Shown a schema new
Shown-kept a b schema old new n same shown of z h =
    let (stem, o, f) = shown of z h in
    (stem, o, ap (shows of) (same stem (ap (λ t. t == b) o ∙ n)) ∙ f)

Inv-step :
    (lower : String → String) (a : AgentSpec) (agents : List AgentSpec) (p q : Proofing)
    → Nodup (ids_of (a ∷ agents))
    → Inv lower (a ∷ agents) p
    → Cleared lower a.agent_id p q
    → Inv lower agents q
Inv-step lower a agents p q d inv (schema, acc, shown, ok, same) =
    let b = a.agent_id in
    let kept =
      All-both (λ t. Shown t.0 t.1 p.live) (λ t. elem t.0 (ids_of (a ∷ agents)) ≡ false)
        (λ t. Shown t.0 t.1 q.live × IsApart lower t.1 schema) p.accepted
        (λ t s n.
          let other : (t.0 == b) ≡ false = ground arith in
          let here = Shown-kept t.0 b t.1 p.live q.live other same s in
          (here, clean-IsApart lower t.0 b t.1 schema q.live other here ok))
        inv.1 inv.2 in
    subst
      (λ (l : Accepted).
        AllApart lower l
        × All (λ (t : String × Schema). Shown t.0 t.1 q.live) l
        × All (λ (t : String × Schema). elem t.0 (ids_of agents) ≡ false) l)
      (sym acc)
      (
        (All-map _ (λ t. IsApart lower t.1 schema) p.accepted (λ t s. s.1) kept, inv.0),
        (shown, All-map _ (λ t. Shown t.0 t.1 q.live) p.accepted (λ t s. s.0) kept),
        (
          d.0,
          All-map _ (λ t. elem t.0 (ids_of agents) ≡ false) p.accepted (λ t s. ground arith) inv.2,
        ),
      )

abbrev is_clean_end : Outcome → Bool
is_clean_end (clean q) = true
is_clean_end o = false

Outcome-cases : (o : Outcome) → ((q : Proofing) × (o ≡ clean q)) ⊎ (is_clean_end o ≡ false)
Outcome-cases (clean q) = inl (q, refl)
Outcome-cases (gave_up q) = inr refl
Outcome-cases (raised q) = inr refl
Outcome-cases (waiting q) = inr refl

-- The agent has a name, and each schema that it writes is publishable.
abbrev pub IsReadable : (String → List Turn) → AgentSpec → Type 0
IsReadable turns a = (is_empty a.agent_id ≡ false) × All IsGood (turns a.agent_id)

proof_all-AllApart :
    (lower : String → String) (turns : String → List Turn) (agents : List AgentSpec)
    (p q : Proofing)
    → All (IsReadable turns) agents
    → Nodup (ids_of agents)
    → Inv lower agents p
    → proof_all lower turns agents p ≡ clean q
    → AllApart lower q.accepted
      × (map (λ t. t.0) q.accepted ≡ rev_onto (ids_of agents) (map (λ t. t.0) p.accepted))
unfolding proof_all
proof_all-AllApart lower turns [] p q g d inv h =
    let e : p ≡ q = ground (arith, h) in
    subst
      (λ (r : Proofing).
        AllApart lower r.accepted × (map (λ t. t.0) r.accepted ≡ map (λ t. t.0) p.accepted))
      e (inv.0, refl)
proof_all-AllApart lower turns (a ∷ agents) p q g d inv h =
    elim (Outcome-cases (proof_loop lower a.agent_id 1 (turns a.agent_id) p)) [
      | inr n ↦ absurd (ground (arith, n))
      | inl (r, e) ↦
          let cleared =
            proof_loop-Cleared lower a.agent_id 1 (turns a.agent_id) p r g.0.0 g.0.1 e in
          let rest =
            proof_all-AllApart lower turns agents r q g.1 d.1
              (Inv-step lower a agents p r d inv cleared) (ground (arith, e)) in
          (
            rest.0,
            rest.1 ∙ ap (λ (l : Accepted). rev_onto (ids_of agents) (map (λ t. t.0) l)) cleared.1,
          )
    ]

-- Where the proof of a session ends with every agent clean, from whatever files stand in live/, each
-- agent of the order has been accepted once, and of each two of them the accepted schemas are apart:
-- no symbol is exposed by both, and no assumption of the later one contradicts one of the earlier.
-- The agents of the order have distinct names that are not empty, and each schema that they write
-- lists its modules under `modules`, each name once, without "__" in it and without "_" at its start
-- (so that the file's name can be read back), or has no entry at all.
pub proof_session-AllApart :
    (lower : String → String) (turns : String → List Turn) (agents ordered : List AgentSpec)
    (live : Live) (q : Proofing)
    → agents_in_parse_order agents ≡ some ordered
    → All (IsReadable turns) ordered
    → Nodup (map (λ a. a.agent_id) ordered)
    → proof_session lower turns agents live ≡ some (clean q)
    → AllApart lower q.accepted
      × (map (λ t. t.0) q.accepted ≡ rev_onto (map (λ a. a.agent_id) ordered) [])
unfolding proof_session
proof_session-AllApart lower turns agents ordered live q o g d h =
    proof_all-AllApart lower turns ordered (record { live = live; accepted = []; reports = [] }) q g
      d (tt, tt, tt) (ground (arith, o))
