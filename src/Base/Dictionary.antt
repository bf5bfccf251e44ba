-- ===== src/Base/Dictionary.antt =====
-- Python's `dict` with string keys, as an association list in insertion order.
use Prim.Native.String.{String}
use mathlib.Core.Path.{◌≡◌, refl}
use mathlib.Core.Bool.{◌||◌}
use mathlib.Core.Option.{Option, none, some}
use mathlib.Core.List.{List, [], ◌∷◌}
use native.Mathlib.Omega.{arith}
use text.Mathlib.Text.{◌==◌}
use text.Mathlib.TextEquality.{eq_iff}
use ciwarden.Base.Tests.{if◌then◌else◌, is_some}
use ciwarden.Base.Lists.{elem}

abbrev pub Dict {ℓ} : Type ℓ → Type ℓ
Dict V = List (String × V)

module _ {ℓ} {V : Type ℓ} where
  -- d.get(k)
  abbrev pub get : String → Dict V → Option V
  get k [] = none
  get k ((j, v) ∷ d) = if k == j then some v else get k d

  -- d[k] = v, which keeps the place of a key that is there
  abbrev pub put : String → V → Dict V → Dict V
  put k v [] = (k, v) ∷ []
  put k v ((j, w) ∷ d) = if k == j then (j, v) ∷ d else (j, w) ∷ put k v d

  -- list(d)
  abbrev pub keys : Dict V → List String
  keys [] = []
  keys ((k, v) ∷ d) = k ∷ keys d

  -- list(d.values())
  abbrev pub values : Dict V → List V
  values [] = []
  values ((k, v) ∷ d) = v ∷ values d

  pub get-put :
      (j k : String) (v : V) (d : Dict V) → get j (put k v d) ≡ (if j == k then some v else get j d)
  get-put j k v [] = refl
  get-put j k v ((i, w) ∷ d) = ground (arith, eq_iff j k, eq_iff k i, eq_iff j i, get-put j k v d)

  pub elem-keys-put :
      (j k : String) (v : V) (d : Dict V) → elem j (keys (put k v d)) ≡ (j == k || elem j (keys d))
  elem-keys-put j k v [] = refl
  elem-keys-put j k v ((i, w) ∷ d) =
      ground (arith, eq_iff j k, eq_iff k i, eq_iff j i, elem-keys-put j k v d)

  -- k in d
  pub elem-keys : (k : String) (d : Dict V) → elem k (keys d) ≡ is_some (get k d)
  elem-keys k [] = refl
  elem-keys k ((j, v) ∷ d) = ground (arith, elem-keys k d)
