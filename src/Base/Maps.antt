-- ===== src/Base/Maps.antt =====
-- A JavaScript `Map` with string keys: entries in the order in which their keys were first set.
use Prim.Native.String.{String}
use mathlib.Core.Path.{◌≡◌, refl}
use mathlib.Core.Bool.{Bool, true, false}
use mathlib.Core.Option.{Option, none, some}
use mathlib.Core.List.{List, [], ◌∷◌}
use native.Mathlib.Omega.{arith}
use local_first_se_platform.Base.Logic.{if◌then◌else◌, ◌==◌}

abbrev pub Dict {ℓ} : Type ℓ → Type ℓ
Dict V = List (String × V)

module _ {ℓ} {V : Type ℓ} where
  -- `map.get(key)`
  unfoldable pub lookup : String → Dict V → Option V
  lookup key [] = none
  lookup key ((other, stored) ∷ rest) = if other == key then some stored else lookup key rest

  -- `map.set(key, new)`: a key that is there keeps its place.
  unfoldable pub insert : String → V → Dict V → Dict V
  insert key new [] = (key, new) ∷ []
  insert key new ((other, old) ∷ rest) =
      if other == key then (other, new) ∷ rest else (other, old) ∷ insert key new rest

  -- `map.delete(k)`
  unfoldable pub remove : String → Dict V → Dict V
  remove k [] = []
  remove k ((j, w) ∷ m) = if j == k then remove k m else (j, w) ∷ remove k m

  -- `map.has(k)`
  unfoldable pub has : String → Dict V → Bool
  has k [] = false
  has k ((j, v) ∷ m) = if j == k then true else has k m

  abbrev pub values : Dict V → List V
  values [] = []
  values ((j, v) ∷ m) = v ∷ values m

  abbrev pub keys : Dict V → List String
  keys [] = []
  keys ((j, v) ∷ m) = j ∷ keys m

  pub lookup-insert :
      (key other : String) (new : V) (entries : Dict V)
      → lookup other (insert key new entries)
        ≡ (if key == other then some new else lookup other entries)
  unfolding lookup insert
  lookup-insert key other new [] = refl
  lookup-insert key other new (entry ∷ rest) = ground (arith, lookup-insert key other new rest)

  pub lookup-remove :
      (k j : String) (m : Dict V) → lookup j (remove k m) ≡ (if k == j then none else lookup j m)
  unfolding lookup remove
  lookup-remove k j [] = ground arith
  lookup-remove k j ((i, w) ∷ m) = ground (arith, lookup-remove k j m)

  pub has-lookup : (k : String) (m : Dict V) → has k m ≡ false → lookup k m ≡ none
  unfolding lookup has
  has-lookup k [] h = refl
  has-lookup k ((i, w) ∷ m) h = ground (arith, has-lookup k m)

  pub has-insert :
      (k j : String) (v : V) (m : Dict V)
      → has j (insert k v m) ≡ (if k == j then true else has j m)
  unfolding has insert
  has-insert k j v [] = refl
  has-insert k j v ((i, w) ∷ m) = ground (arith, has-insert k j v m)
