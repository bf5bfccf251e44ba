-- ===== src/Peers.antt =====
-- memory/peer_checker.py: the cross-check of one agent's contracts against those of its peers.
use ciwarden.Base.{
  String, Bool, true, false, ◌&&◌, ◌||◌, not, Option, none, some, List, [], ◌∷◌, ◌++◌, map,
  if◌then◌else◌, ◌==◌, any, eqb, elem, Dict, get, put, keys, values, is_some,
}
use ciwarden.Base.Text.{is_empty, strip, words_from, join}
use Prim.Native.Char.{code}
use Prim.Native.String
pub mod Clean
pub mod Live
pub mod Report
pub mod Seen

pub data ConflictKind : Type 0 where
  collision interface_mismatch assumption_clash : ConflictKind

pub record Conflict : Type 0 where
  pub kind : ConflictKind
  pub agent_id : String
  pub peer_id : String
  pub symbol : String
  pub agent_signature : String
  pub peer_signature : String
  pub detail : String
  pub fix : String

pub record Consumed : Type 0 where
  pub symbol : String
  pub expected_signature : String
  pub consumed_in : String

pub record AgentView : Type 0 where
  pub agent_id : String
  pub exposes : Dict String
  pub consumes : List Consumed
  pub assumptions : List String

-- The members of the lists of a module entry, as JSON has them.
pub data Exposed : Type 0 where
  exposed : (symbol signature : String) → Exposed
  bare : String → Exposed
  other_exposed : Exposed

pub data Consumes : Type 0 where
  consumes_symbol : Consumed → Consumes
  other_consumed : Consumes

pub data Assumption : Type 0 where
  assumption : String → Assumption
  other_assumption : Assumption

pub record Entry : Type 0 where
  pub exposes : List Exposed
  pub consumes : List Consumes
  pub assumptions : List Assumption

-- `_merge_schema_into`: a signature replaces an earlier one, a bare name replaces nothing.
abbrev pub merge_exposed : Exposed → Dict String → Dict String
merge_exposed (exposed symbol signature) d = if is_empty symbol then d else put symbol signature d
merge_exposed (bare name) d = if is_some (get name d) then d else put name "" d
merge_exposed other_exposed d = d

abbrev pub merge_exposes : List Exposed → Dict String → Dict String
merge_exposes [] d = d
merge_exposes (e ∷ es) d = merge_exposes es (merge_exposed e d)

abbrev merge_consumes : List Consumes → List Consumed → List Consumed
merge_consumes [] cs = cs
merge_consumes (consumes_symbol c ∷ es) cs =
    merge_consumes es (if is_empty c.symbol then cs else cs ++ c ∷ [])
merge_consumes (other_consumed ∷ es) cs = merge_consumes es cs

abbrev pub merge_assumptions : List Assumption → List String → List String
merge_assumptions [] l = l
merge_assumptions (assumption a ∷ es) l = merge_assumptions es (l ++ a ∷ [])
merge_assumptions (other_assumption ∷ es) l = merge_assumptions es l

unfoldable pub merge_schema_into : AgentView → List Entry → AgentView
merge_schema_into view [] = view
merge_schema_into view (e ∷ entries) =
    merge_schema_into
      (record view {
        exposes = merge_exposes e.exposes view.exposes;
        consumes = merge_consumes e.consumes view.consumes;
        assumptions = merge_assumptions e.assumptions view.assumptions;
      })
      entries

-- `_norm_sig`: the words, with one space between them.
unfoldable pub norm_sig : String → String
norm_sig s = join " " (words_from "" s)

abbrev pub collision_of : AgentView → AgentView → String → String → String → Conflict
collision_of mine peer symbol sig peer_sig = record {
  kind = collision;
  agent_id = mine.agent_id;
  peer_id = peer.agent_id;
  symbol = symbol;
  agent_signature = sig;
  peer_signature = peer_sig;
  detail = join "" (
      "Symbol '" ∷ symbol ∷ "' is exposed by both " ∷ mine.agent_id ∷ " and " ∷ peer.agent_id ∷ "."
      ∷ []);
  fix = join "" ("Rename or namespace '" ∷ symbol ∷ "' so exactly one agent owns it." ∷ []);
}

abbrev pub collisions_of : AgentView → String → String → List AgentView → List Conflict
collisions_of mine symbol sig [] = []
collisions_of mine symbol sig (peer ∷ peers) =
    let rest = collisions_of mine symbol sig peers in
    elim (get symbol peer.exposes) [
      | none ↦ rest
      | some peer_sig ↦ collision_of mine peer symbol sig peer_sig ∷ rest
    ]

abbrev collisions_in : AgentView → Dict String → List AgentView → List Conflict
collisions_in mine [] peers = []
collisions_in mine ((symbol, sig) ∷ exposes) peers =
    collisions_of mine symbol sig peers ++ collisions_in mine exposes peers

unfoldable pub check_collisions : AgentView → List AgentView → List Conflict
check_collisions mine peers = collisions_in mine mine.exposes peers

-- The first peer that exposes the symbol, with the signature it has there.
abbrev pub provider : String → List AgentView → Option (AgentView × String)
provider symbol [] = none
provider symbol (peer ∷ peers) =
    let later = provider symbol peers in
    elim (get symbol peer.exposes) [ none ↦ later | some sig ↦ some (peer, sig) ]

abbrev pub unprovided : AgentView → Consumed → Conflict
unprovided mine c = record {
  kind = interface_mismatch;
  agent_id = mine.agent_id;
  peer_id = "(none)";
  symbol = c.symbol;
  agent_signature = c.expected_signature;
  peer_signature = "(not exposed by any peer)";
  detail = join "" ("Consumes '" ∷ c.symbol ∷ "' but no peer exposes it." ∷ []);
  fix =
      join ""
        ("Ensure an agent exposes '" ∷ c.symbol ∷ "', or correct the consumes declaration." ∷ []);
}

abbrev pub mismatch_of : AgentView → Consumed → AgentView → String → Conflict
mismatch_of mine c peer sig = record {
  kind = interface_mismatch;
  agent_id = mine.agent_id;
  peer_id = peer.agent_id;
  symbol = c.symbol;
  agent_signature = c.expected_signature;
  peer_signature = sig;
  detail = join "" (
      "Signature mismatch on '" ∷ c.symbol ∷ "': you expect '" ∷ c.expected_signature ∷ "', "
      ∷ peer.agent_id ∷ " exposes '" ∷ sig ∷ "'." ∷ []);
  fix = join "" ("Align your consumes signature to '" ∷ sig ∷ "'." ∷ []);
}

-- Two signatures disagree when both are given and differ beyond white space.
abbrev pub disagree : String → String → Bool
disagree expected actual =
    not (is_empty (norm_sig expected))
    && not (is_empty (norm_sig actual))
    && not (norm_sig expected == norm_sig actual)

abbrev pub mismatch : AgentView → List AgentView → Consumed → List Conflict
mismatch mine peers c = elim (provider c.symbol peers) [
  | none ↦ unprovided mine c ∷ []
  | some found ↦
      if disagree c.expected_signature found.1 then mismatch_of mine c found.0 found.1 ∷ [] else []
]

abbrev mismatches_in : AgentView → List AgentView → List Consumed → List Conflict
mismatches_in mine peers [] = []
mismatches_in mine peers (c ∷ cs) = mismatch mine peers c ++ mismatches_in mine peers cs

unfoldable pub check_interface_mismatches : AgentView → List AgentView → List Conflict
check_interface_mismatches mine peers = mismatches_in mine peers mine.consumes

abbrev pub negators : List String
negators = "no_" ∷ "no " ∷ "not " ∷ "non-" ∷ "!" ∷ "without " ∷ []

-- s.replace(" ", "_")
abbrev pub underscored : String → String
underscored String.[] = String.[]
underscored (String.◌∷◌ c s) =
    let rest = underscored s in
    if eqb (code c) 32 then join "" ("_" ∷ rest ∷ []) else String.◌∷◌ c rest

-- One of the two is the negation of the other.
abbrev pub negates : String → String → String → Bool
negates a b neg =
    let not_b = join "" (neg ∷ b ∷ []) in
    let not_a = join "" (neg ∷ a ∷ []) in
    (a == not_b || b == not_a) || (a == underscored not_b || b == underscored not_a)

-- The set of two strings is the set of two others.
abbrev pub same_pair : String → String → String → String → Bool
same_pair a b x y = (a == x && b == y) || (a == y && b == x)

-- `_assumptions_contradict` after `strip` and `lower`.
unfoldable pub contradict : String → String → Bool
contradict a b =
    if a == b
    then false
    else if same_pair a b "std" "no_std" || same_pair a b "std" "no std"
    then true
    else any (negates a b) negators

-- `lower` is str.lower.
unfoldable pub assumptions_contradict : (String → String) → String → String → Bool
assumptions_contradict lower a b = contradict (lower (strip a)) (lower (strip b))

abbrev pub clash_of : AgentView → AgentView → String → String → Conflict
clash_of mine peer a b = record {
  kind = assumption_clash;
  agent_id = mine.agent_id;
  peer_id = peer.agent_id;
  symbol = a;
  agent_signature = a;
  peer_signature = b;
  detail = join "" ("Assumption '" ∷ a ∷ "' contradicts " ∷ peer.agent_id ∷ "'s '" ∷ b ∷ "'." ∷ []);
  fix = join "" ("Reconcile shared-state assumption: '" ∷ a ∷ "' vs '" ∷ b ∷ "'." ∷ []);
}

abbrev pub clashes_with :
    (String → String) → AgentView → AgentView → String → List String → List Conflict
clashes_with lower mine peer a [] = []
clashes_with lower mine peer a (b ∷ bs) =
    let rest = clashes_with lower mine peer a bs in
    if assumptions_contradict lower a b then clash_of mine peer a b ∷ rest else rest

abbrev pub clashes_of : (String → String) → AgentView → AgentView → List String → List Conflict
clashes_of lower mine peer [] = []
clashes_of lower mine peer (a ∷ rest) =
    clashes_with lower mine peer a peer.assumptions ++ clashes_of lower mine peer rest

unfoldable pub check_assumption_clashes :
    (String → String) → AgentView → List AgentView → List Conflict
check_assumption_clashes lower mine [] = []
check_assumption_clashes lower mine (peer ∷ peers) =
    clashes_of lower mine peer mine.assumptions ++ check_assumption_clashes lower mine peers

abbrev pub peers_of : String → Dict AgentView → List AgentView
peers_of agent_id [] = []
peers_of agent_id ((id, view) ∷ live) =
    let rest = peers_of agent_id live in if id == agent_id then rest else view ∷ rest

-- `check`: against all agents of live/ but the agent itself.
unfoldable pub check : (String → String) → String → List Entry → Dict AgentView → List Conflict
check lower agent_id contracts live =
    let mine =
      merge_schema_into
        (record { agent_id = agent_id; exposes = []; consumes = []; assumptions = [] }) contracts in
    let peers = peers_of agent_id live in
    check_collisions mine peers
    ++ (check_interface_mismatches mine peers ++ check_assumption_clashes lower mine peers)
