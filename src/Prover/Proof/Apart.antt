-- ===== src/Prover/Proof/Apart.antt =====
-- conductor/prover.py and memory/peer_checker.py: what a clean check says of two agents.
use ciwarden.Base.{
  String, ◌≡◌, refl, sym, ◌∙◌, Bool, true, false, not, some, List, [], ◌∷◌, ◌==◌, eq_iff, arith,
  all, any, elem, Dict, keys, Option-cases, Bool-cases, inl, inr,
}
use ciwarden.Peers.{AgentView, Entry, peers_of, assumptions_contradict}
use ciwarden.Peers.Clean.{is_free, agrees, is_compatible, own_view, check-compatible}
use ciwarden.Peers.Live.{Live, empty_view, read_all_live, check_live}
use ciwarden.Peers.Seen.{
  declares, assumes, read_all_live-seen, merge_schema-exposes, merge_schema-assumptions,
  exposes-IsMerged, assumes-IsMerged,
}
use ciwarden.Prover.Proof.{Schema, iter_module_entries}
use ciwarden.Prover.Proof.Held.{Shown}

-- Two agents' schemas fit: no symbol is exposed by both, and no assumption of the later one
-- contradicts one of the earlier.
abbrev pub IsApart : (String → String) → Schema → Schema → Type 0
IsApart lower earlier later =
    ((x : String)
      → any (declares x) (iter_module_entries earlier) ≡ true
      → any (declares x) (iter_module_entries later) ≡ false)
    × ((a b : String)
        → any (assumes a) (iter_module_entries earlier) ≡ true
        → any (assumes b) (iter_module_entries later) ≡ true
        → assumptions_contradict lower b a ≡ false)

-- What a clean check has passed, by the files of another agent.
any-all :
    {C : Type 0} (p s : AgentView → Bool) (views : List AgentView)
    → all p views ≡ true
    → any s views ≡ true
    → ((v : AgentView) → p v ≡ true → s v ≡ true → C)
    → C
any-all p s [] h k f = absurd (ground arith)
any-all p s (v ∷ views) h k f = elim (Bool-cases (s v)) [
  | inl t ↦ f v (ground arith) t
  | inr n ↦ any-all p s views (ground arith) (ground (arith, n)) f
]

all-elem :
    (p : String → Bool) (x : String) (xs : List String)
    → all p xs ≡ true
    → elem x xs ≡ true
    → p x ≡ true
all-elem p x [] h m = absurd (ground arith)
all-elem p x (y ∷ ys) h m = ground (arith, eq_iff x y, all-elem p x ys)

-- No conflict on the peers that are read from live/.
check_live-compatible :
    (lower : String → String) (b : String) (es : List Entry) (live : Live)
    → check_live lower b es live ≡ some []
    → (views : Dict AgentView) × (read_all_live live ≡ some views)
      × (is_compatible lower (own_view b es) (peers_of b views) ≡ true)
unfolding check_live
check_live-compatible lower b es live h = elim (Option-cases (read_all_live live)) [
  | inl e ↦ absurd (ground (arith, e))
  | inr (views, e) ↦ (views, e, sym (check-compatible lower b es views) ∙ ground (arith, e))
]

-- A clean check of a schema, where live/ shows what another agent declares.
pub clean-IsApart :
    (lower : String → String) (a b : String) (earlier later : Schema) (live : Live)
    → (a == b) ≡ false
    → Shown a earlier live
    → check_live lower b (iter_module_entries later) live ≡ some []
    → IsApart lower earlier later
clean-IsApart lower a b earlier later live n shown h =
    let es = iter_module_entries later in
    let (views, read, fits) = check_live-compatible lower b es live h in
    let peers = peers_of b views in
    let mine = own_view b es in
    (
      λ x e. elim (Bool-cases (any (declares x) es)) [
        | inr f ↦ f
        | inl t ↦
            let (stem, o, f) = shown (declares x) refl e in
            let free : is_free peers x ≡ true =
              all-elem (is_free peers) x (keys mine.exposes) (ground (arith, fits))
                (merge_schema-exposes x es (empty_view b) ∙ ground (arith, t)) in
            any-all (λ v. not (elem x (keys v.exposes))) (λ v. elem x (keys v.exposes)) peers free
              (read_all_live-seen (λ v. elem x (keys v.exposes)) (declares x) (exposes-IsMerged x) a
                b stem live views read n o f)
              (λ v p q. ground (arith, p, q))
      ],
      λ p q e t.
          let (stem, o, f) = shown (assumes p) refl e in
          let mem : elem q mine.assumptions ≡ true =
            merge_schema-assumptions q es (empty_view b) ∙ ground (arith, t) in
          any-all (agrees lower mine) (λ v. elem p v.assumptions) peers (ground (arith, fits))
            (read_all_live-seen (λ v. elem p v.assumptions) (assumes p) (assumes-IsMerged p) a b
              stem live views read n o f)
            (λ v g m.
              let one =
                all-elem (λ a. all (λ b. not (assumptions_contradict lower a b)) v.assumptions) q
                  mine.assumptions g mem in
              let two =
                all-elem (λ b. not (assumptions_contradict lower q b)) p v.assumptions one m in
              ground (arith, two)),
    )
