-- ===== src/Peers/Clean.antt =====
-- What it means that the cross-check finds no conflict.
use ciwarden.Base.{
  String, ◌≡◌, refl, ◌∙◌, ap, Bool, true, false, ◌&&◌, ◌||◌, not, none, some, List, [], ◌∷◌, ◌++◌,
  if◌then◌else◌, ◌==◌, eq_iff, eq_refl, arith, any, all, elem, filter, Dict, get, keys, elem-keys,
  Option-cases, inl, inr,
}
use ciwarden.Base.Text.{strip}
use ciwarden.Peers.{
  Conflict, Consumed, AgentView, Entry, merge_schema_into, collisions_of, collisions_in,
  check_collisions, disagree, mismatch, mismatches_in, check_interface_mismatches, negates,
  negators, same_pair, contradict, assumptions_contradict, clashes_with, clashes_of,
  check_assumption_clashes, peers_of, check,
}

abbrev pub is_clean : List Conflict → Bool
is_clean [] = true
is_clean (c ∷ cs) = false

is_clean-append : (xs ys : List Conflict) → is_clean (xs ++ ys) ≡ (is_clean xs && is_clean ys)
is_clean-append [] ys = refl
is_clean-append (x ∷ xs) ys = refl

-- No peer exposes the symbol.
abbrev pub is_free : List AgentView → String → Bool
is_free peers symbol = all (λ p. not (elem symbol (keys p.exposes))) peers

-- Of the peers that expose the symbol, the first has a signature that does not disagree.
abbrev pub is_met : List AgentView → Consumed → Bool
is_met peers c = elim (filter (λ p. elem c.symbol (keys p.exposes)) peers) [
  | [] ↦ false
  | p ∷ ps ↦ elim (get c.symbol p.exposes) [
    | none ↦ false
    | some sig ↦ not (disagree c.expected_signature sig)
  ]
]

abbrev pub agrees : (String → String) → AgentView → AgentView → Bool
agrees lower mine peer =
    all (λ a. all (λ b. not (assumptions_contradict lower a b)) peer.assumptions) mine.assumptions

abbrev pub is_compatible : (String → String) → AgentView → List AgentView → Bool
is_compatible lower mine peers =
    all (is_free peers) (keys mine.exposes)
    && (all (is_met peers) mine.consumes && all (agrees lower mine) peers)

collisions_of-clean :
    (mine : AgentView) (symbol sig : String) (peers : List AgentView)
    → is_clean (collisions_of mine symbol sig peers) ≡ is_free peers symbol
collisions_of-clean mine symbol sig [] = refl
collisions_of-clean mine symbol sig (p ∷ peers) =
    ground (arith, elem-keys symbol p.exposes, collisions_of-clean mine symbol sig peers)

collisions_in-clean :
    (mine : AgentView) (exposes : Dict String) (peers : List AgentView)
    → is_clean (collisions_in mine exposes peers) ≡ all (is_free peers) (keys exposes)
collisions_in-clean mine [] peers = refl
collisions_in-clean mine ((symbol, sig) ∷ exposes) peers =
    is_clean-append (collisions_of mine symbol sig peers) (collisions_in mine exposes peers)
    ∙ ground
        (arith, collisions_of-clean mine symbol sig peers, collisions_in-clean mine exposes peers)

-- What `mismatch` finds, when the provider is known.
mismatch-met :
    (mine : AgentView) (c : Consumed) (peers : List AgentView)
    → is_clean (mismatch mine peers c) ≡ is_met peers c
mismatch-met mine c [] = refl
mismatch-met mine c (p ∷ peers) = elim (Option-cases (get c.symbol p.exposes)) [
  | inl e ↦ ground (arith, e, elem-keys c.symbol p.exposes, mismatch-met mine c peers)
  | inr (sig, e) ↦ ground (arith, e, elem-keys c.symbol p.exposes)
]

mismatches_in-clean :
    (mine : AgentView) (peers : List AgentView) (cs : List Consumed)
    → is_clean (mismatches_in mine peers cs) ≡ all (is_met peers) cs
mismatches_in-clean mine peers [] = refl
mismatches_in-clean mine peers (c ∷ cs) =
    is_clean-append (mismatch mine peers c) (mismatches_in mine peers cs)
    ∙ ap (λ b. b && is_clean (mismatches_in mine peers cs)) (mismatch-met mine c peers)
    ∙ ap (λ b. is_met peers c && b) (mismatches_in-clean mine peers cs)

clashes_with-clean :
    (lower : String → String) (mine peer : AgentView) (a : String) (bs : List String)
    → is_clean (clashes_with lower mine peer a bs)
      ≡ all (λ b. not (assumptions_contradict lower a b)) bs
clashes_with-clean lower mine peer a [] = refl
clashes_with-clean lower mine peer a (b ∷ bs) =
    ground (arith, clashes_with-clean lower mine peer a bs)

clashes_of-clean :
    (lower : String → String) (mine peer : AgentView) (as_ : List String)
    → is_clean (clashes_of lower mine peer as_)
      ≡ all (λ a. all (λ b. not (assumptions_contradict lower a b)) peer.assumptions) as_
clashes_of-clean lower mine peer [] = refl
clashes_of-clean lower mine peer (a ∷ rest) =
    is_clean-append (clashes_with lower mine peer a peer.assumptions)
      (clashes_of lower mine peer rest)
    ∙ ap (λ b. b && is_clean (clashes_of lower mine peer rest))
        (clashes_with-clean lower mine peer a peer.assumptions)
    ∙ ap (λ b. all (λ b. not (assumptions_contradict lower a b)) peer.assumptions && b)
        (clashes_of-clean lower mine peer rest)

clashes-clean :
    (lower : String → String) (mine : AgentView) (peers : List AgentView)
    → is_clean (check_assumption_clashes lower mine peers) ≡ all (agrees lower mine) peers
unfolding check_assumption_clashes
clashes-clean lower mine [] = refl
clashes-clean lower mine (p ∷ peers) =
    is_clean-append (clashes_of lower mine p mine.assumptions)
      (check_assumption_clashes lower mine peers)
    ∙ ap (λ b. b && is_clean (check_assumption_clashes lower mine peers))
        (clashes_of-clean lower mine p mine.assumptions)
    ∙ ap (λ b. agrees lower mine p && b) (clashes-clean lower mine peers)

-- What an agent declares, in one view.
abbrev pub own_view : String → List Entry → AgentView
own_view agent_id contracts =
    merge_schema_into
      (record { agent_id = agent_id; exposes = []; consumes = []; assumptions = [] }) contracts

-- The cross-check finds no conflict exactly when the agent is compatible with all other agents in
-- live/: no symbol of its is exposed by another, each symbol that it consumes is exposed and the first
-- agent that does so has no other signature for it, and no two assumptions contradict each other.
pub check-compatible :
    (lower : String → String) (agent_id : String) (contracts : List Entry) (live : Dict AgentView)
    → is_clean (check lower agent_id contracts live)
      ≡ is_compatible lower (own_view agent_id contracts) (peers_of agent_id live)
unfolding check check_collisions check_interface_mismatches
check-compatible lower agent_id contracts live =
    let mine = own_view agent_id contracts in
    let peers = peers_of agent_id live in
    is_clean-append (collisions_in mine mine.exposes peers) _
    ∙ ap (λ b. is_clean (collisions_in mine mine.exposes peers) && b)
        (is_clean-append (mismatches_in mine peers mine.consumes)
          (check_assumption_clashes lower mine peers))
    ∙ ap
        (λ b.
          b
          && (is_clean (mismatches_in mine peers mine.consumes)
              && is_clean (check_assumption_clashes lower mine peers)))
        (collisions_in-clean mine mine.exposes peers)
    ∙ ap
        (λ b.
          all (is_free peers) (keys mine.exposes)
          && (b && is_clean (check_assumption_clashes lower mine peers)))
        (mismatches_in-clean mine peers mine.consumes)
    ∙ ap (λ b. all (is_free peers) (keys mine.exposes) && (all (is_met peers) mine.consumes && b))
        (clashes-clean lower mine peers)

any-same :
    (p q : String → Bool) (xs : List String) → ((x : String) → p x ≡ q x) → any p xs ≡ any q xs
any-same p q [] h = refl
any-same p q (x ∷ xs) h = ground (arith, h x, any-same p q xs h)

negates-swap : (a b neg : String) → negates a b neg ≡ negates b a neg
negates-swap a b neg = ground arith

same_pair-swap : (a b x y : String) → same_pair a b x y ≡ same_pair b a x y
same_pair-swap a b x y = ground arith

eq-swap : (a b : String) → (a == b) ≡ (b == a)
eq-swap a b = ground (arith, eq_iff a b, eq_iff b a)

abbrev choice : Bool → Bool → Bool → Bool → Bool
choice same one two negs = if same then false else if one || two then true else negs

-- Contradiction does not depend on which of the two agents is checked, and no assumption contradicts
-- itself.
pub assumptions_contradict-swap :
    (lower : String → String) (a b : String)
    → (assumptions_contradict lower a b ≡ assumptions_contradict lower b a)
      × (assumptions_contradict lower a a ≡ false)
unfolding assumptions_contradict contradict
assumptions_contradict-swap lower a b =
    let x = lower (strip a) in
    let y = lower (strip b) in
    let negs = any-same (negates x y) (negates y x) negators (negates-swap x y) in
    let one = same_pair-swap x y "std" "no_std" in
    let two = same_pair-swap x y "std" "no std" in
    let shown = λ (p q : String). any (negates p q) negators in
    (
      ap (λ e. choice e (same_pair x y "std" "no_std") (same_pair x y "std" "no std") (shown x y))
            (eq-swap x y)
          ∙ ap (λ s. choice (y == x) s (same_pair x y "std" "no std") (shown x y)) one
          ∙ ap (λ s. choice (y == x) (same_pair y x "std" "no_std") s (shown x y)) two
          ∙ ap (choice (y == x) (same_pair y x "std" "no_std") (same_pair y x "std" "no std")) negs,
      ap (λ e. choice e (same_pair x x "std" "no_std") (same_pair x x "std" "no std") (shown x x))
          (eq_refl x),
    )
