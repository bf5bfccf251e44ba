-- ===== src/Peers/Seen.antt =====
-- What the views that are read from live/ hold.
use ciwarden.Base.{
  String, ◌≡◌, refl, ◌∙◌, ap, Bool, true, false, ◌&&◌, ◌||◌, not, Option, none, some, List, [], ◌∷◌,
  ◌++◌, ◌==◌, eq_iff, arith, any, elem, elem-append, Dict, get, keys, elem-keys-put, elem-keys,
  get-put, Option-cases, is_some, inl, inr,
}
use ciwarden.Base.Text.{is_empty}
use ciwarden.Base.Sort.{sort, elem-sort}
use ciwarden.Peers.{
  AgentView, Exposed, exposed, bare, other_exposed, Assumption, assumption, other_assumption, Entry,
  merge_exposed, merge_exposes, merge_assumptions, merge_schema_into,
}
use ciwarden.Peers.Live.{
  entry, keyless, no_object, File, unreadable, json, Live, owner_of, path_le, empty_view,
  add_entries, add_file, read_files, read_all_live,
}
use ciwarden.Peers.{peers_of}

-- The symbols and the assumptions that a module entry declares.
abbrev pub declares_item : String → Exposed → Bool
declares_item x (exposed symbol signature) = not (is_empty symbol) && x == symbol
declares_item x (bare name) = x == name
declares_item x other_exposed = false

abbrev pub declares : String → Entry → Bool
declares x e = any (declares_item x) e.exposes

abbrev pub assumes_item : String → Assumption → Bool
assumes_item x (assumption a) = x == a
assumes_item x other_assumption = false

abbrev pub assumes : String → Entry → Bool
assumes x e = any (assumes_item x) e.assumptions

merge_exposed-keys :
    (x : String) (e : Exposed) (d : Dict String)
    → elem x (keys (merge_exposed e d)) ≡ (declares_item x e || elem x (keys d))
merge_exposed-keys x (exposed symbol signature) d =
    ground (arith, elem-keys-put x symbol signature d)
merge_exposed-keys x (bare name) d =
    ground (arith, elem-keys-put x name "" d, elem-keys name d, eq_iff x name)
merge_exposed-keys x other_exposed d = refl

merge_exposes-keys :
    (x : String) (es : List Exposed) (d : Dict String)
    → elem x (keys (merge_exposes es d)) ≡ (any (declares_item x) es || elem x (keys d))
merge_exposes-keys x [] d = refl
merge_exposes-keys x (e ∷ es) d =
    merge_exposes-keys x es (merge_exposed e d) ∙ ground (arith, merge_exposed-keys x e d)

merge_assumptions-elem :
    (x : String) (es : List Assumption) (l : List String)
    → elem x (merge_assumptions es l) ≡ (any (assumes_item x) es || elem x l)
merge_assumptions-elem x [] l = refl
merge_assumptions-elem x (assumption a ∷ es) l =
    merge_assumptions-elem x es (l ++ a ∷ []) ∙ ground (arith, elem-append x l (a ∷ []))
merge_assumptions-elem x (other_assumption ∷ es) l = merge_assumptions-elem x es l

pub merge_schema-exposes :
    (x : String) (es : List Entry) (view : AgentView)
    → elem x (keys (merge_schema_into view es).exposes)
      ≡ (any (declares x) es || elem x (keys view.exposes))
unfolding merge_schema_into
merge_schema-exposes x [] view = refl
merge_schema-exposes x (e ∷ es) view =
    merge_schema-exposes x es _ ∙ ground (arith, merge_exposes-keys x e.exposes view.exposes)

pub merge_schema-assumptions :
    (x : String) (es : List Entry) (view : AgentView)
    → elem x (merge_schema_into view es).assumptions
      ≡ (any (assumes x) es || elem x view.assumptions)
unfolding merge_schema_into
merge_schema-assumptions x [] view = refl
merge_schema-assumptions x (e ∷ es) view =
    merge_schema-assumptions x es _
    ∙ ground (arith, merge_assumptions-elem x e.assumptions view.assumptions)

-- The view of the agent passes a test.
abbrev pub holds : (AgentView → Bool) → String → Dict AgentView → Bool
holds seen a views = elim (get a views) [ none ↦ false | some v ↦ seen v ]

-- The file has an entry that passes the test.
abbrev pub shows : (Entry → Bool) → Option File → Bool
shows of none = false
shows of (some unreadable) = false
shows of (some (json (entry e))) = any of (e ∷ [])
shows of (some (json (keyless es))) = any of es
shows of (some (json no_object)) = false

-- A Boolean test of a view that the merging of entries adds to, such as whether it exposes a symbol.
module _ (seen : AgentView → Bool) (of : Entry → Bool) where
  abbrev pub IsMerged : Type 0
  IsMerged =
      ((es : List Entry) (view : AgentView)
        → seen (merge_schema_into view es) ≡ (any of es || seen view))
      × ((id : String) → seen (empty_view id) ≡ false)

  add_entries-holds :
      (law : IsMerged) (a o : String) (es : List Entry) (views : Dict AgentView)
      → holds seen a (add_entries o es views) ≡ (a == o && any of es || holds seen a views)
  add_entries-holds law a o es views = elim (Option-cases (get o views)) [
    | inl e ↦ ground (
      arith,
      get-put a o (merge_schema_into (empty_view o) es) views,
      law.0 es (empty_view o),
      law.1 o,
      eq_iff a o,
      e,
    )
    | inr (v, e) ↦
        ground (arith, get-put a o (merge_schema_into v es) views, law.0 es v, eq_iff a o, e)
  ]

  add_file-holds :
      (law : IsMerged) (a stem : String) (file : Option File) (views out : Dict AgentView)
      → add_file stem file views ≡ some out
      → holds seen a out ≡ (a == owner_of stem && shows of file || holds seen a views)
  add_file-holds law a stem none views out h = ground arith
  add_file-holds law a stem (some unreadable) views out h = ground arith
  add_file-holds law a stem (some (json (entry e))) views out h =
      ground (arith, add_entries-holds law a (owner_of stem) (e ∷ []) views)
  add_file-holds law a stem (some (json (keyless es))) views out h =
      ground (arith, add_entries-holds law a (owner_of stem) es views)
  add_file-holds law a stem (some (json no_object)) views out h = absurd (ground arith)

  read_files-holds :
      (law : IsMerged) (a : String) (live : Live) (stems : List String) (views out : Dict AgentView)
      → read_files live stems views ≡ some out
      → holds seen a out
        ≡ (any (λ s. a == owner_of s && shows of (get s live)) stems || holds seen a views)
  unfolding read_files
  read_files-holds law a live [] views out h = ground arith
  read_files-holds law a live (s ∷ stems) views out h =
      elim (Option-cases (add_file s (get s live) views)) [
        | inl e ↦ absurd (ground (arith, e))
        | inr (next, e) ↦
            read_files-holds law a live stems next out (ground (arith, e))
            ∙ ground (arith, add_file-holds law a s (get s live) views next e)
      ]

any-mem :
    (p : String → Bool) (x : String) (xs : List String)
    → elem x xs ≡ true
    → p x ≡ true
    → any p xs ≡ true
any-mem p x [] m h = m
any-mem p x (y ∷ ys) m h = ground (arith, eq_iff x y, any-mem p x ys)

shows-there : (of : Entry → Bool) (f : Option File) → shows of f ≡ true → is_some f ≡ true
shows-there of none h = h
shows-there of (some f) h = refl

any-peers :
    (seen : AgentView → Bool) (a b : String) (views : Dict AgentView)
    → (a == b) ≡ false
    → holds seen a views ≡ true
    → any seen (peers_of b views) ≡ true
any-peers seen a b [] n h = h
any-peers seen a b ((k, v) ∷ views) n h =
    ground (arith, eq_iff a k, eq_iff k b, eq_iff a b, any-peers seen a b views)

-- An agent with a file that passes the test is among the peers of every other agent, in a view that
-- passes it.
pub read_all_live-seen :
    (seen : AgentView → Bool) (of : Entry → Bool) (law : IsMerged seen of) (a b stem : String)
    (live : Live) (out : Dict AgentView)
    → read_all_live live ≡ some out
    → (a == b) ≡ false
    → owner_of stem ≡ a
    → shows of (get stem live) ≡ true
    → any seen (peers_of b out) ≡ true
unfolding read_all_live
read_all_live-seen seen of law a b stem live out h n o f =
    let there : elem stem (keys live) ≡ true =
      elem-keys stem live ∙ shows-there of (get stem live) f in
    let listed = elem-sort path_le stem (keys live) ∙ there in
    let found =
      any-mem (λ s. a == owner_of s && shows of (get s live)) stem (sort path_le (keys live)) listed
        (ground (arith, o, f, eq_iff a (owner_of stem))) in
    any-peers seen a b out n (
      read_files-holds seen of law a live (sort path_le (keys live)) [] out h
      ∙ ap (λ (t : Bool). t || false) found)

pub exposes-IsMerged : (x : String) → IsMerged (λ v. elem x (keys v.exposes)) (declares x)
exposes-IsMerged x = (λ es view. merge_schema-exposes x es view, λ id. refl)

pub assumes-IsMerged : (x : String) → IsMerged (λ v. elem x v.assumptions) (assumes x)
assumes-IsMerged x = (λ es view. merge_schema-assumptions x es view, λ id. refl)
