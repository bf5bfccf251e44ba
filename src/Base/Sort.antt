-- ===== src/Base/Sort.antt =====
-- Python's `sorted`, a stable sort, as insertion sort over a Boolean order.
use Prim.Native.Nat.{suc}
use mathlib.Core.Path.{◌≡◌, refl, ◌∙◌}
use mathlib.Core.Logic.{inl, inr}
use mathlib.Core.Bool.{Bool, true, false, ◌||◌}
use mathlib.Core.List.{List, [], ◌∷◌}
use native.Mathlib.Omega.{arith}
use text.Mathlib.Text.{◌==◌}
use text.Mathlib.TextEquality.{eq_iff}
use Prim.Native.String.{String, compare}
use Prim.Native.Nat.{Ordering}
use ciwarden.Base.Tests.{if◌then◌else◌, Bool-cases}
use ciwarden.Base.Lists.{elem, length, All, Nodup}

module _ {ℓ} {A : Type ℓ} (le : A → A → Bool) where
  -- before the first member that is greater
  abbrev pub insert : A → List A → List A
  insert x [] = x ∷ []
  insert x (y ∷ ys) = if le x y then x ∷ y ∷ ys else y ∷ insert x ys

  abbrev pub sort : List A → List A
  sort [] = []
  sort (x ∷ xs) = insert x (sort xs)

  pub length-insert : (x : A) (xs : List A) → length (insert x xs) ≡ suc (length xs)
  length-insert x [] = refl
  length-insert x (y ∷ ys) = ground (arith, length-insert x ys)

  pub length-sort : (xs : List A) → length (sort xs) ≡ length xs
  length-sort [] = refl
  length-sort (x ∷ xs) = ground (arith, length-insert x (sort xs), length-sort xs)

  pub All-insert {κ} : (P : A → Type κ) (x : A) (xs : List A) → P x → All P xs → All P (insert x xs)
  All-insert P x [] p h = (p, tt)
  All-insert P x (y ∷ ys) p h = elim (Bool-cases (le x y)) [
    | inl e ↦ rw e (p, h)
    | inr e ↦ rw e (h.0, All-insert P x ys p h.1)
  ]

-- a <= b on strings
abbrev pub str_le : String → String → Bool
str_le a b = elim (compare a b) [ Ordering.gt ↦ false | _ ↦ true ]

pub elem-insert :
    (le : String → String → Bool) (x y : String) (xs : List String)
    → elem x (insert le y xs) ≡ (x == y || elem x xs)
elem-insert le x y [] = refl
elem-insert le x y (z ∷ zs) = ground (arith, elem-insert le x y zs)

-- Sorting keeps the members.
pub elem-sort :
    (le : String → String → Bool) (x : String) (xs : List String) → elem x (sort le xs) ≡ elem x xs
elem-sort le x [] = refl
elem-sort le x (y ∷ ys) = ground (arith, elem-insert le x y (sort le ys), elem-sort le x ys)

Nodup-insert :
    (le : String → String → Bool) (x : String) (xs : List String)
    → elem x xs ≡ false
    → Nodup xs
    → Nodup (insert le x xs)
Nodup-insert le x [] e h = (e, h)
Nodup-insert le x (y ∷ ys) e h = elim (Bool-cases (le x y)) [
  | inl first ↦ rw first (e, h)
  | inr later ↦ rw later (
    elem-insert le y x ys ∙ ground (arith, eq_iff y x, eq_iff x y, h.0),
    Nodup-insert le x ys (ground arith) h.1,
  )
]

-- Sorting repeats nothing.
pub Nodup-sort : (le : String → String → Bool) (xs : List String) → Nodup xs → Nodup (sort le xs)
Nodup-sort le [] h = tt
Nodup-sort le (x ∷ xs) h =
    Nodup-insert le x (sort le xs) (elem-sort le x xs ∙ h.0) (Nodup-sort le xs h.1)
