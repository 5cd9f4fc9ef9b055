-- ===== src/Base/Maps.antt =====
-- Go maps from texts, as lists with one entry for each key.
use mathlib.Core.Path.{◌≡◌, refl}
use mathlib.Core.Bool.{Bool, true, false}
use mathlib.Core.Option.{Option, none, some}
use mathlib.Core.List.{List, [], ◌∷◌, ◌++◌}
use native.Mathlib.Omega.{arith}
use fuelmind.Base.Tests.{if◌then◌else◌}
use fuelmind.Base.Lists.{any}
use fuelmind.Base.Strings.{Text, text_eq, text_eq_iff, text_eq_refl}

module _ {ℓ} {V : Type ℓ} where
  -- m[k]
  unfoldable pub lookup : Text → List (Text × V) → Option V
  lookup k [] = none
  lookup k ((j, v) ∷ m) = if text_eq j k then some v else lookup k m

  -- m[k] = v
  unfoldable pub insert : Text → V → List (Text × V) → List (Text × V)
  insert k v [] = (k, v) ∷ []
  insert k v ((j, w) ∷ m) =
      let rest = insert k v m in if text_eq j k then (j, v) ∷ m else (j, w) ∷ rest

  -- delete(m, k)
  unfoldable pub erase : Text → List (Text × V) → List (Text × V)
  erase k [] = []
  erase k ((j, w) ∷ m) = let rest = erase k m in if text_eq j k then rest else (j, w) ∷ rest

  abbrev pub keys_of : List (Text × V) → List Text
  keys_of [] = []
  keys_of ((j, w) ∷ m) = j ∷ keys_of m

  abbrev pub has_key : Text → List (Text × V) → Bool
  has_key k m = any (λ j. text_eq j k) (keys_of m)

  pub lookup-insert :
      (k j : Text) (v : V) (m : List (Text × V))
      → lookup j (insert k v m) ≡ (if text_eq k j then some v else lookup j m)
  unfolding lookup insert
  lookup-insert k j v [] = refl
  lookup-insert k j v ((i, w) ∷ m) =
      ground (arith, text_eq_iff k j, text_eq_iff i k, text_eq_iff i j, lookup-insert k j v m)

  pub lookup-insert_self :
      (k : Text) (v : V) (m : List (Text × V)) → lookup k (insert k v m) ≡ some v
  lookup-insert_self k v m = ground (arith, lookup-insert k k v m, text_eq_refl k)

  -- An entry of a new key goes to the end.
  pub insert_new :
      (k : Text) (v : V) (m : List (Text × V))
      → has_key k m ≡ false
      → insert k v m ≡ m ++ (k, v) ∷ []
  unfolding insert
  insert_new k v [] h = refl
  insert_new k v ((j, w) ∷ m) h = ground (arith, insert_new k v m (ground arith))

  pub keys_of-append : (m n : List (Text × V)) → keys_of (m ++ n) ≡ keys_of m ++ keys_of n
  keys_of-append [] n = refl
  keys_of-append ((j, w) ∷ m) n = ground (arith, keys_of-append m n)

  pub keys_of-insert_old :
      (k : Text) (v : V) (m : List (Text × V))
      → has_key k m ≡ true
      → keys_of (insert k v m) ≡ keys_of m
  unfolding insert
  keys_of-insert_old k v ((j, w) ∷ m) h = ground (arith, keys_of-insert_old k v m)
  keys_of-insert_old k v [] h = ground arith

  pub has_key-lookup :
      (k : Text) (v : V) (m : List (Text × V)) → lookup k m ≡ some v → has_key k m ≡ true
  unfolding lookup
  has_key-lookup k v [] h = ground arith
  has_key-lookup k v ((j, w) ∷ m) h = ground (arith, has_key-lookup k v m)

  pub lookup-lacks : (k : Text) (m : List (Text × V)) → has_key k m ≡ false → lookup k m ≡ none
  unfolding lookup
  lookup-lacks k [] h = refl
  lookup-lacks k ((j, w) ∷ m) h = ground (arith, lookup-lacks k m)

  pub lookup-erase :
      (k j : Text) (m : List (Text × V))
      → lookup j (erase k m) ≡ (if text_eq k j then none else lookup j m)
  unfolding lookup erase
  lookup-erase k j [] = ground arith
  lookup-erase k j ((i, w) ∷ m) =
      ground (arith, text_eq_iff k j, text_eq_iff i k, text_eq_iff i j, lookup-erase k j m)

  pub erase_lacks : (k : Text) (m : List (Text × V)) → has_key k m ≡ false → erase k m ≡ m
  unfolding erase
  erase_lacks k [] h = refl
  erase_lacks k ((j, w) ∷ m) h = ground (arith, erase_lacks k m)
