-- ===== src/Dag/Acyclic.antt =====
-- A graph that `_validate` accepts has no cycle.
use ciwarden.Base.{
  ℕ, zero, suc, String, ◌≡◌, refl, sym, ◌∙◌, true, false, ◌&&◌, not, Option, none, some, List, [],
  ◌∷◌, ◌==◌, eq_iff, eq_refl, arith, elem, length, subst, if_ind, get, keys, Bool-cases, inl, inr,
}
use ciwarden.Dag.Defs.{
  Node, Nodes, deps_of, Marks, Search, finished, cycle, key_error, out_of_fuel, discard, enter,
  leave, and_then, visit_deps, dfs, visit_all, validate,
}

-- All chains of dependencies from the agent end.
pub data Grounded (nodes : Nodes) : String → Type 0 where
  grounded :
      (n : String)
      → ((d : String) → elem d (deps_of nodes n) ≡ true → Grounded nodes d)
      → Grounded nodes n

pub elem-discard :
    (x n : String) (l : List String) → elem x (discard n l) ≡ (elem x l && not (x == n))
elem-discard x n [] = refl
elem-discard x n (y ∷ ys) = ground (arith, elem-discard x n ys, eq_iff x n, eq_iff n y, eq_iff x y)

module _ (nodes : Nodes) where
  -- What is visited and left is grounded, and what is on the stack is visited.
  pub record Inv (m : Marks) : Type 0 where
    pub left : (x : String) → elem x m.visited ≡ true → elem x m.in_stack ≡ false → Grounded nodes x
    pub stacked : (x : String) → elem x m.in_stack ≡ true → elem x m.visited ≡ true

  -- From `m` to `m'` more is visited, and the stack is the same set.
  pub record Grows (m m' : Marks) : Type 0 where
    pub more : (x : String) → elem x m.visited ≡ true → elem x m'.visited ≡ true
    pub same : (x : String) → elem x m'.in_stack ≡ elem x m.in_stack

  abbrev pub Sound : Marks → Search → (Marks → Type 0) → Type 0
  Sound m (finished m') Post = Inv m' × Grows m m' × Post m'
  Sound m _ Post = Unit

  abbrev pub VisitSound : (String → Marks → Search) → Type 0
  VisitSound visit =
      (n : String) (m : Marks)
      → Inv m
      → elem n m.visited ≡ false
      → Sound m (visit n m) (λ m'. elem n m'.visited ≡ true)

  off_stack :
      (m : Marks) (x : String) → Inv m → elem x m.visited ≡ false → elem x m.in_stack ≡ false
  off_stack m x inv new = ground (arith, inv.stacked x)

  all_seen :
      (n : String) (ns : List String) (m : Marks)
      → elem n m.visited ≡ true
      → ((x : String) → elem x ns ≡ true → elem x m.visited ≡ true)
      → (x : String) → elem x (n ∷ ns) ≡ true
      → elem x m.visited ≡ true
  all_seen n ns m seen rest x e = ground (arith, rest x, eq_iff x n)

  Grows-refl : (m : Marks) → Grows m m
  Grows-refl m = record { more = λ x h. h; same = λ x. refl }

  Grows-trans : (a b c : Marks) → Grows a b → Grows b c → Grows a c
  Grows-trans a b c g h = record {
    more = λ x e. h.more x (g.more x e);
    same = λ x. h.same x ∙ g.same x;
  }

  abbrev AllGrounded : List String → Type 0
  AllGrounded ds = (d : String) → elem d ds ≡ true → Grounded nodes d

  AllGrounded-cons :
      (d : String) (ds : List String) → Grounded nodes d → AllGrounded ds → AllGrounded (d ∷ ds)
  AllGrounded-cons d ds g h x e = elim (Bool-cases (x == d)) [
    | inl k ↦ subst (Grounded nodes) (sym ((eq_iff x d).0 k)) g
    | inr k ↦ h x (ground arith)
  ]

  Sound-weaken :
      {P Q : Marks → Type 0} (m m' : Marks) (r : Search)
      → Grows m m'
      → ((x : Marks) → Grows m' x → P x → Q x)
      → Sound m' r P
      → Sound m r Q
  Sound-weaken m m' (finished x) g f (inv, g', p) = (inv, Grows-trans m m' x g g', f x g' p)
  Sound-weaken m m' (cycle a b) g f h = tt
  Sound-weaken m m' key_error g f h = tt
  Sound-weaken m m' out_of_fuel g f h = tt

  Sound-and_then :
      (P Q : Marks → Type 0) (m : Marks) (r : Search) (k : Marks → Search)
      → Sound m r P
      → ((m' : Marks) → Inv m' → Grows m m' → P m' → Sound m (k m') Q)
      → Sound m (and_then r k) Q
  Sound-and_then P Q m (finished m') k (inv, g, p) f = f m' inv g p
  Sound-and_then P Q m (cycle a b) k h f = tt
  Sound-and_then P Q m key_error k h f = tt
  Sound-and_then P Q m out_of_fuel k h f = tt

  module _ (visit : String → Marks → Search) (sound : VisitSound visit) where
    visit_deps-Sound :
        (n : String) (ds : List String) (m : Marks)
        → Inv m
        → Sound m (visit_deps visit n ds m) (λ m'. AllGrounded ds)
    unfolding visit_deps
    visit_deps-Sound n [] m inv = (inv, Grows-refl m, λ d e. absurd (ground arith))
    visit_deps-Sound n (d ∷ ds) m inv =
        if_ind (λ r. Sound m r (λ m'. AllGrounded (d ∷ ds))) (not (elem d m.visited))
          (λ new.
            Sound-and_then _ _ m (visit d m) (visit_deps visit n ds) (sound d m inv (ground arith))
              λ m' inv' g seen.
                Sound-weaken m m' (visit_deps visit n ds m') g
                  (λ x g' rest.
                    AllGrounded-cons d ds
                      (inv'.left d seen (g.same d ∙ off_stack m d inv (ground arith))) rest)
                  (visit_deps-Sound n ds m' inv'))
          (λ seen.
            if_ind (λ r. Sound m r (λ m'. AllGrounded (d ∷ ds))) (elem d m.in_stack) (λ back. tt)
              (λ off.
                Sound-weaken m m (visit_deps visit n ds m) (Grows-refl m)
                  (λ x g' rest. AllGrounded-cons d ds (inv.left d (ground arith) off) rest)
                  (visit_deps-Sound n ds m inv)))

    visit_all-Sound :
        (ns : List String) (m : Marks)
        → Inv m
        → Sound m
            (visit_all visit ns m)
            (λ m'. (x : String) → elem x ns ≡ true → elem x m'.visited ≡ true)
    unfolding visit_all
    visit_all-Sound [] m inv = (inv, Grows-refl m, λ x e. absurd (ground arith))
    visit_all-Sound (n ∷ ns) m inv =
        let P = λ (m' : Marks). (x : String) → elem x (n ∷ ns) ≡ true → elem x m'.visited ≡ true in
        if_ind (λ r. Sound m r P) (not (elem n m.visited))
          (λ new.
            Sound-and_then _ _ m (visit n m) (visit_all visit ns) (sound n m inv (ground arith))
              λ m' inv' g seen.
                Sound-weaken m m' (visit_all visit ns m') g
                  (λ y g' rest. all_seen n ns y (g'.more n seen) rest) (visit_all-Sound ns m' inv'))
          (λ seen.
            Sound-weaken m m (visit_all visit ns m) (Grows-refl m)
              (λ y g' rest. all_seen n ns y (g'.more n (ground arith)) rest)
              (visit_all-Sound ns m inv))

  pub enter-Inv : (n : String) (m : Marks) → Inv m → Inv (enter n m)
  enter-Inv n m inv = record {
    left = λ x e k. inv.left x (ground arith) (ground arith);
    stacked = λ x e. ground (arith, inv.stacked x);
  }

  -- A node whose dependencies are all grounded is left.
  leave-Sound :
      (n : String) (m : Marks) (r : Search)
      → Inv m
      → elem n m.visited ≡ false
      → Sound (enter n m) r (λ m'. AllGrounded (deps_of nodes n))
      → Sound m (leave n r) (λ m'. elem n m'.visited ≡ true)
  leave-Sound n m (cycle a b) inv new h = tt
  leave-Sound n m key_error inv new h = tt
  leave-Sound n m out_of_fuel inv new h = tt
  leave-Sound n m (finished m') inv new (inv', g, deps) = (
    record {
      left = λ x e k. elim (Bool-cases (x == n)) [
        | inl same ↦ subst (Grounded nodes) (sym ((eq_iff x n).0 same)) (grounded n deps)
        | inr other ↦ inv'.left x e (ground (arith, elem-discard x n m'.in_stack))
      ];
      stacked = λ x e. ground (arith, inv'.stacked x, elem-discard x n m'.in_stack);
    },
    record {
      more = λ x e. ground (arith, g.more x);
      same = λ x.
          ground (arith, elem-discard x n m'.in_stack, g.same x, off_stack m n inv new, eq_iff x n);
    },
    ground (arith, g.more n, eq_refl n),
  )

  pub dfs-Sound : (fuel : ℕ) → VisitSound (dfs fuel nodes)
  unfolding dfs
  dfs-Sound zero n m inv new = tt
  dfs-Sound (suc fuel) n m inv new = split (get n nodes) refl (dfs-Sound fuel)
    where
      split :
          (found : Option Node)
          → get n nodes ≡ found
          → VisitSound (dfs fuel nodes)
          → Sound m (dfs (suc fuel) nodes n m) (λ m'. elem n m'.visited ≡ true)
      split none e ih = rw (e, dfs) tt
      split (some node) e ih =
          rw (e, dfs)
            (leave-Sound n m (visit_deps (dfs fuel nodes) n node.depends_on (enter n m)) inv new (
              let deps : deps_of nodes n ≡ node.depends_on = ground arith in
              rw deps (
                visit_deps-Sound (dfs fuel nodes) ih n node.depends_on (enter n m)
                  (enter-Inv n m inv))))

-- If `_validate` accepts the graph, every chain of dependencies from every agent ends: the graph has
-- no cycle.
pub validate-Grounded :
    (nodes : Nodes) (m : Marks) (n : String)
    → validate nodes ≡ finished m
    → elem n (keys nodes) ≡ true
    → Grounded nodes n
unfolding validate
validate-Grounded nodes m n e h =
    let start : Marks = record { visited = []; in_stack = [] } in
    let inv : Inv nodes start = record {
      left = λ x k _. absurd (ground arith);
      stacked = λ x k. absurd (ground arith);
    } in
    let fuel = suc (length nodes) in
    let sound =
      subst
        (λ r.
          Sound nodes start r
            (λ m'. (x : String) → elem x (keys nodes) ≡ true → elem x m'.visited ≡ true))
        e (visit_all-Sound nodes (dfs fuel nodes) (dfs-Sound nodes fuel) (keys nodes) start inv) in
    sound.0.left n (sound.2 n h) (sound.1.same n)
