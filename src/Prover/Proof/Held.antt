-- ===== src/Prover/Proof/Held.antt =====
-- conductor/prover.py, `_publish_live`: what is in live/ after an agent's schema is written.
use ciwarden.Base.{
  String, ◌≡◌, refl, ◌∙◌, ap, Bool, true, false, not, some, List, [], ◌∷◌, ◌==◌, eq_iff, eq_refl,
  arith, all, elem, Nodup, Dict, get, put, keys, values, any, ◌⊎◌, get-put, is_some, Bool-cases,
  inl, inr,
}
use ciwarden.Base.Text.{is_empty}
use ciwarden.Peers.{Entry}
use ciwarden.Peers.Seen.{shows}
use ciwarden.Peers.Live.{
  Value, entry, keyless, no_object, json, Live, before_last, owner_of, underscore_to, stem_of,
}
use ciwarden.Prover.Proof.{
  Schema, modules, single, mapping, objects_of, iter_module_entries, publish_members, publish_live,
}

-- A name of a module that leaves the agent readable in the file's name: "_" and the name have no
-- "__".
abbrev pub is_plain : String → Bool
is_plain name = not (is_some (before_last (underscore_to "" name)))

before_last-stem :
    (agent_id name : String)
    → is_plain name ≡ true
    → before_last (stem_of agent_id name) ≡ some agent_id
unfolding stem_of
before_last-stem String.[] name h = ground arith
before_last-stem (String.◌∷◌ c s) name h = ground (arith, before_last-stem s name)

pub owner_of-stem :
    (agent_id name : String)
    → is_empty agent_id ≡ false
    → is_plain name ≡ true
    → owner_of (stem_of agent_id name) ≡ agent_id
unfolding owner_of
owner_of-stem agent_id name e h = ground (arith, before_last-stem agent_id name, e)

tail : String → String
tail String.[] = ""
tail (String.◌∷◌ c s) = s

underscore_to-inj : (a r s : String) → underscore_to a r ≡ underscore_to a s → r ≡ s
unfolding tail
underscore_to-inj String.[] r s e = ap tail e
underscore_to-inj (String.◌∷◌ c a) r s e = underscore_to-inj a r s (ap tail e)

stem-distinct : (a m n : String) → (m == n) ≡ false → (stem_of a m == stem_of a n) ≡ false
unfolding stem_of
stem-distinct a m n h =
    let inj = λ (e : stem_of a m ≡ stem_of a n).
      underscore_to-inj "" m n (underscore_to-inj a (underscore_to "" m) (underscore_to "" n) e) in
    elim (Bool-cases (stem_of a m == stem_of a n)) [
      | inl e ↦
          absurd (ground (arith, eq_iff m n, inj ((eq_iff (stem_of a m) (stem_of a n)).0 e), h))
      | inr e ↦ e
    ]

-- The file of a module that is not among the members stays.
get-publish_absent :
    (a n : String) (members : Dict Value) (live : Live)
    → elem n (keys members) ≡ false
    → get (stem_of a n) (publish_members a members live) ≡ get (stem_of a n) live
get-publish_absent a n [] live h = refl
get-publish_absent a n ((m, v) ∷ members) live h =
    get-publish_absent a n members (put (stem_of a m) (json v) live) (ground arith)
    ∙ ground (arith, get-put (stem_of a n) (stem_of a m) (json v) live, stem-distinct a n m)

-- The files of other agents stay.
pub get-publish_members :
    (a stem : String) (members : Dict Value) (live : Live)
    → is_empty a ≡ false
    → all is_plain (keys members) ≡ true
    → (owner_of stem == a) ≡ false
    → get stem (publish_members a members live) ≡ get stem live
get-publish_members a stem [] live e h n = refl
get-publish_members a stem ((m, v) ∷ members) live e h n =
    get-publish_members a stem members (put (stem_of a m) (json v) live) e (ground arith) n
    ∙ ground (
      arith,
      get-put stem (stem_of a m) (json v) live,
      owner_of-stem a m,
      eq_iff stem (stem_of a m),
      eq_iff (owner_of stem) a,
    )

-- A schema that is published whole: it has `modules`, each name once and plain; or it has no entry.
abbrev pub IsPublishable : Schema → Type 0
IsPublishable (modules members) = Nodup (keys members) × (all is_plain (keys members) ≡ true)
IsPublishable (single e) = ⊥
IsPublishable (mapping []) = Unit
IsPublishable (mapping (e ∷ es)) = ⊥

-- A test of entries that an entry with no lists does not pass.
abbrev pub IsVoid : (Entry → Bool) → Type 0
IsVoid of = of (record { exposes = []; consumes = []; assumptions = [] }) ≡ false

-- Where an entry of the schema passes the test, a file of the agent's has an entry that does.
abbrev pub Shown : String → Schema → Live → Type 0
Shown a schema live =
    (of : Entry → Bool)
    → IsVoid of
    → any of (iter_module_entries schema) ≡ true
    → (stem : String) × (owner_of stem ≡ a) × (shows of (get stem live) ≡ true)

-- The file of a value shows what the schema's reader takes from the value.
objects-shows :
    (of : Entry → Bool) (v : Value) (vs : List Value)
    → IsVoid of
    → any of (objects_of (v ∷ vs)) ≡ true
    → (shows of (some (json v)) ≡ true) ⊎ (any of (objects_of vs) ≡ true)
objects-shows of (entry e) vs z h = elim (Bool-cases (of e)) [
  | inl t ↦ inl (ground (arith, t))
  | inr f ↦ inr (ground (arith, f))
]
objects-shows of (keyless es) vs z h = inr (ground arith)
objects-shows of no_object vs z h = inr h

members-Shown :
    (a : String) (of : Entry → Bool) (members : Dict Value) (live : Live)
    → is_empty a ≡ false
    → Nodup (keys members)
    → all is_plain (keys members) ≡ true
    → IsVoid of
    → any of (objects_of (values members)) ≡ true
    → (stem : String) × (owner_of stem ≡ a)
      × (shows of (get stem (publish_members a members live)) ≡ true)
members-Shown a of [] live e d p z h = absurd (ground arith)
members-Shown a of ((m, v) ∷ members) live e d p z h =
    elim (objects-shows of v (values members) z h) [
      | inl here ↦ (
        stem_of a m,
        owner_of-stem a m e (ground arith),
        ap (shows of) {y = some (json v)} (
              get-publish_absent a m members (put (stem_of a m) (json v) live) d.0
              ∙ get-put (stem_of a m) (stem_of a m) (json v) live
              ∙ ground (arith, eq_refl (stem_of a m)))
            ∙ here,
      )
      | inr later ↦
          members-Shown a of members (put (stem_of a m) (json v) live) e d.1 (ground arith) z later
    ]

-- What an agent's schema declares is in its files once it is published.
pub publish-Shown :
    (a : String) (schema : Schema) (live : Live)
    → is_empty a ≡ false
    → IsPublishable schema
    → Shown a schema (publish_live a schema live)
unfolding publish_live iter_module_entries
publish-Shown a (modules members) live e g of z h = members-Shown a of members live e g.0 g.1 z h
publish-Shown a (single s) live e g of z h = absurd g
publish-Shown a (mapping []) live e g of z h = absurd (ground arith)
publish-Shown a (mapping (s ∷ es)) live e g of z h = absurd g

-- Publishing writes no file of another agent.
pub publish-others :
    (a stem : String) (schema : Schema) (live : Live)
    → is_empty a ≡ false
    → IsPublishable schema
    → (owner_of stem == a) ≡ false
    → get stem (publish_live a schema live) ≡ get stem live
unfolding publish_live
publish-others a stem (modules members) live e g n = get-publish_members a stem members live e g.1 n
publish-others a stem (single s) live e g n = refl
publish-others a stem (mapping es) live e g n = refl
