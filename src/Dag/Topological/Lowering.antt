-- ===== src/Dag/Topological/Lowering.antt =====
-- The in-degrees of `topological_order`, and what one round does to them.
use ciwarden.Base.{
  ℕ, suc, ◌+◌, String, ◌≡◌, refl, ◌∙◌, true, false, ◌&&◌, ◌||◌, none, some, List, [], ◌∷◌, ◌++◌,
  if◌then◌else◌, ◌==◌, eq_iff, eq_refl, arith, elem, elem-append, Dict, get, put, keys, get-put,
  elem-keys, elem-keys-put, Nodup, Nodup-snoc, Bool-cases, Option-cases, inl, inr,
}
use ciwarden.Dag.Topological.{ℤ, pos, decrement, is_zero, lower}

abbrev pub degree : String → Dict ℤ → ℤ
degree n degrees = elim (get n degrees) [ none ↦ pos 0 | some k ↦ k ]

-- The dependencies that the order lacks.
abbrev pub missing : List String → List String → ℕ
missing order [] = 0
missing order (d ∷ ds) = if elem d order then missing order ds else suc (missing order ds)

pub missing-zero :
    (order ds : List String) (d : String)
    → missing order ds ≡ 0
    → elem d ds ≡ true
    → elem d order ≡ true
missing-zero order [] d z e = absurd (ground arith)
missing-zero order (x ∷ xs) d z e = ground (arith, eq_iff d x, missing-zero order xs d)

pub missing-all :
    (order ds : List String)
    → ((d : String) → elem d ds ≡ true → elem d order ≡ true)
    → missing order ds ≡ 0
missing-all order [] h = refl
missing-all order (d ∷ ds) h =
    ground (arith, h d, eq_refl d, missing-all order ds λ x e. h x (ground arith))

pub missing-some :
    (order ds : List String) (d : String)
    → elem d ds ≡ true
    → elem d order ≡ false
    → (m : ℕ) × (missing order ds ≡ suc m)
missing-some order [] d e k = absurd (ground arith)
missing-some order (x ∷ xs) d e k = elim (Bool-cases (elem x order)) [
  | inr new ↦ (missing order xs, rw new refl)
  | inl old ↦ let (m, h) = missing-some order xs d (ground (arith, eq_iff d x)) k in (m, rw old h)
]

missing-other :
    (order ds : List String) (n : String)
    → elem n ds ≡ false
    → missing (order ++ n ∷ []) ds ≡ missing order ds
missing-other order [] n e = refl
missing-other order (d ∷ ds) n e =
    ground (arith, elem-append d order (n ∷ []), eq_iff d n, eq_iff n d, missing-other order ds n)

-- A node that is placed is missing no more where it was.
pub missing-snoc :
    (order ds : List String) (n : String)
    → Nodup ds
    → elem n order ≡ false
    → missing order ds ≡ missing (order ++ n ∷ []) ds + (if elem n ds then 1 else 0)
missing-snoc order [] n once new = refl
missing-snoc order (d ∷ ds) n once new = ground (
  arith,
  elem-append d order (n ∷ []),
  eq_iff d n,
  eq_iff n d,
  missing-other order ds n,
  missing-snoc order ds n once.1 new,
)

-- What the loop over distinct dependents that all have a degree leaves behind.
pub record Lowered (ds : List String) (degrees : Dict ℤ) (queue : List String)
    (r : Dict ℤ × List String) : Type 0 where
  pub known : (x : String) → elem x (keys r.0) ≡ elem x (keys degrees)
  pub values :
      (x : String)
      → degree x r.0 ≡ (if elem x ds then decrement (degree x degrees) else degree x degrees)
  pub queued :
      (x : String)
      → elem x r.1 ≡ (elem x queue || elem x ds && is_zero (decrement (degree x degrees)))
  pub once : Nodup queue → ((x : String) → elem x ds ≡ true → elem x queue ≡ false) → Nodup r.1

module _ (d : String) (ds : List String) (degrees : Dict ℤ) (queue : List String) (k : ℤ)
    (found : get d degrees ≡ some k) (new : elem d ds ≡ false) where
  abbrev then_degrees : Dict ℤ
  then_degrees = put d (decrement k) degrees

  abbrev then_queue : List String
  then_queue = if is_zero (decrement k) then queue ++ d ∷ [] else queue

  elem-then_queue :
      (x : String) → elem x then_queue ≡ (elem x queue || x == d && is_zero (decrement k))
  elem-then_queue x = ground (arith, elem-append x queue (d ∷ []))

  degree-then :
      (x : String) → degree x then_degrees ≡ (if x == d then decrement k else degree x degrees)
  degree-then x = ground (arith, get-put x d (decrement k) degrees)

  Lowered-cons :
      (r : Dict ℤ × List String)
      → Lowered ds then_degrees then_queue r
      → Lowered (d ∷ ds) degrees queue r
  Lowered-cons r l = record {
    known = λ x.
        l.known x
        ∙ elem-keys-put x d (decrement k) degrees
        ∙ ground (arith, eq_iff x d, elem-keys d degrees);
    values = λ x. ground (arith, l.values x, degree-then x, eq_iff x d, found, new);
    queued =
        λ x. ground (arith, l.queued x, degree-then x, elem-then_queue x, eq_iff x d, found, new);
    once = λ u apart.
        l.once (if_once u (apart d (ground (arith, eq_refl d))))
          λ x e. elem-then_queue x ∙ ground (arith, apart x, eq_iff x d, new);
  }
    where
      if_once : Nodup queue → elem d queue ≡ false → Nodup then_queue
      if_once u e = elim (Bool-cases (is_zero (decrement k))) [
        | inl z ↦ rw z (Nodup-snoc queue d u e)
        | inr z ↦ rw z u
      ]

-- The loop ends well, and leaves that behind.
pub lower-Lowered :
    (ds : List String) (degrees : Dict ℤ) (queue : List String)
    → Nodup ds
    → ((x : String) → elem x ds ≡ true → elem x (keys degrees) ≡ true)
    → (r : Dict ℤ × List String) × (lower ds degrees queue ≡ some r) × Lowered ds degrees queue r
unfolding lower
lower-Lowered [] degrees queue once there = (
  (degrees, queue),
  refl,
  record { known = λ x. refl; values = λ x. refl; queued = λ x. ground arith; once = λ u apart. u },
)
lower-Lowered (d ∷ ds) degrees queue once there = elim (Option-cases (get d degrees)) [
  | inl e ↦ absurd (ground (arith, e, there d, eq_refl d, elem-keys d degrees))
  | inr (k, e) ↦
      let (r, run, l) =
        lower-Lowered ds (put d (decrement k) degrees)
          (if is_zero (decrement k) then queue ++ d ∷ [] else queue) once.1
          (λ x h. elem-keys-put x d (decrement k) degrees ∙ ground (arith, there x)) in
      (r, rw (e, lower) run, Lowered-cons d ds degrees queue k e once.0 r l)
]
