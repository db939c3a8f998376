-- ===== src/Base/Map.antt =====
-- `HashMap` and `BTreeMap` as association lists: an insertion replaces the value of its key.
use mathlib.Core.Logic.{ite}
use mathlib.Core.Path.{◌≡◌, refl}
use mathlib.Core.Option.{Option, none, some}
use mathlib.Core.List.{List, [], ◌∷◌}
use native.Mathlib.Omega.{arith}

abbrev pub Map {ℓ} : Type ℓ → Type ℓ → Type ℓ
Map K V = List (K × V)

module _ {ℓ} {K V : Type ℓ} (dec : Discrete K) where
  unfoldable pub lookup : K → Map K V → Option V
  lookup k [] = none
  lookup k ((j, v) ∷ m) = ite (dec k j) (some v) (lookup k m)

  unfoldable pub insert : K → V → Map K V → Map K V
  insert k v [] = (k, v) ∷ []
  insert k v ((j, w) ∷ m) = ite (dec k j) ((k, v) ∷ m) ((j, w) ∷ insert k v m)

  -- one insertion after the other
  unfoldable pub insert_all : List (K × V) → Map K V → Map K V
  insert_all [] m = m
  insert_all ((k, v) ∷ l) m = insert_all l (insert k v m)

  -- the value of the last pair with the key
  unfoldable pub last_value : K → List (K × V) → Option V → Option V
  last_value k [] o = o
  last_value k ((j, v) ∷ l) o = last_value k l (ite (dec k j) (some v) o)

  pub lookup-insert :
      (k j : K) (v : V) (m : Map K V)
      → lookup j (insert k v m) ≡ ite (dec j k) (some v) (lookup j m)
  unfolding lookup insert
  lookup-insert k j v [] = refl
  lookup-insert k j v ((i, w) ∷ m) = ground (arith, lookup-insert k j v m)

  pub lookup-insert_all :
      (k : K) (l : List (K × V)) (m : Map K V)
      → lookup k (insert_all l m) ≡ last_value k l (lookup k m)
  unfolding insert_all last_value
  lookup-insert_all k [] m = refl
  lookup-insert_all k ((j, v) ∷ l) m = rw (lookup-insert_all k l (insert j v m), lookup-insert)
