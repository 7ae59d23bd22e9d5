-- ===== src/Base/Dict.antt =====
-- `BTreeMap<String, V>` and `BTreeSet<String>`: the entries, found by key. The order in which a
-- `BTreeMap` is iterated is the order of the list here; the code modelled looks keys up, but for pins.
use Prim.Native.String.{String}
use mathlib.Core.Path.{◌≡◌, refl}
use mathlib.Core.Bool.{Bool, true, false}
use mathlib.Core.Option.{Option, none, some}
use mathlib.Core.List.{List, [], ◌∷◌}
use native.Mathlib.Omega.{arith}
use text.Mathlib.Text.{◌==◌ as str_eq}
use text.Mathlib.TextEquality.{eq_iff}
use text.Mathlib.TextPositions.{eq_refl}
use ossctl.Base.Tests.{if◌then◌else◌, is_some}

abbrev pub Dict {ℓ} : Type ℓ → Type ℓ
Dict V = List (String × V)

module _ {ℓ} {V : Type ℓ} where
  -- `map.get(key)`
  unfoldable pub lookup : String → Dict V → Option V
  lookup key [] = none
  lookup key (entry ∷ rest) = if str_eq entry.0 key then some entry.1 else lookup key rest

  -- `map.insert(key, value)`
  unfoldable pub insert : String → V → Dict V → Dict V
  insert key value [] = (key, value) ∷ []
  insert key value (entry ∷ rest) =
      if str_eq entry.0 key then (key, value) ∷ rest else entry ∷ insert key value rest

  -- `map.contains_key(k)`
  abbrev pub contains_key : String → Dict V → Bool
  contains_key k m = is_some (lookup k m)

  pub lookup-insert :
      (key other : String) (value : V) (entries : Dict V)
      → lookup other (insert key value entries)
        ≡ (if str_eq key other then some value else lookup other entries)
  unfolding lookup insert
  lookup-insert key other value [] = refl
  lookup-insert key other value (entry ∷ rest) = ground (
    arith,
    lookup-insert key other value rest,
    eq_iff entry.0 other,
    eq_iff entry.0 key,
    eq_iff key other,
  )

  pub lookup-insert_self :
      (key : String) (value : V) (entries : Dict V)
      → lookup key (insert key value entries) ≡ some value
  lookup-insert_self key value entries = simp (eq_refl, lookup-insert)

  -- An insertion removes no key.
  pub contains_key-insert :
      (k j : String) (v : V) (m : Dict V)
      → contains_key j m ≡ true
      → contains_key j (insert k v m) ≡ true
  contains_key-insert k j v m h = rw lookup-insert (ground arith)

  pub insert-ne-nil : (k : String) (v : V) (m : Dict V) → (insert k v m ≡ []) → ⊥
  unfolding insert
  insert-ne-nil k v [] h = cc
  insert-ne-nil k v ((j, w) ∷ m) h = ground arith

-- `set.contains(k)`
unfoldable pub contains : String → List String → Bool
contains k [] = false
contains k (j ∷ s) = if str_eq j k then true else contains k s

-- `set.insert(k)`
unfoldable pub add : String → List String → List String
unfolding contains
add k s = if contains k s then s else k ∷ s

pub contains-add :
    (k j : String) (s : List String)
    → contains j (add k s) ≡ (if str_eq k j then true else contains j s)
unfolding add contains
contains-add k j s = ground (arith, eq_iff k j)
