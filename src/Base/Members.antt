-- ===== src/Base/Members.antt =====
-- Membership in mapped and joined lists, and in sets of texts.
use Prim.Native.String.{String}
use mathlib.Core.Path.{◌≡◌, refl}
use mathlib.Core.Logic.{◌⊎◌, inl, inr}
use mathlib.Core.Bool.{true}
use mathlib.Core.List.{List, [], ◌∷◌, ◌++◌, map, Memᴰ}
use native.Mathlib.Omega.{arith}
use text.Mathlib.Text.{◌==◌ as str_eq}
use text.Mathlib.TextEquality.{eq_iff}
use ossctl.Base.Tests.{Bool-cases}
use ossctl.Base.Dict.{contains}

pub Memᴰ-contains : (p : String) (xs : List String) → contains p xs ≡ true → Memᴰ p xs
unfolding contains
Memᴰ-contains p [] h = absurd (ground (arith, h))
Memᴰ-contains p (x ∷ xs) h = elim (Bool-cases (str_eq x p)) [
  | inl e ↦ Memᴰ.head (ground (arith, e, eq_iff x p))
  | inr e ↦ Memᴰ.tail (Memᴰ-contains p xs (rw e at h))
]

module _ {A B : Type 0} where
  pub Memᴰ-map : (f : A → B) {x : A} {xs : List A} → Memᴰ x xs → Memᴰ (f x) (map f xs)
  Memᴰ-map f (Memᴰ.head e) = Memᴰ.head (λ i. f (e i))
  Memᴰ-map f (Memᴰ.tail m) = Memᴰ.tail (Memᴰ-map f m)

  pub Memᴰ-map_from :
      (f : A → B) (y : B) (xs : List A) → Memᴰ y (map f xs) → (x : A) × Memᴰ x xs × (y ≡ f x)
  Memᴰ-map_from f y [] m = elim m [ ]
  Memᴰ-map_from f y (x ∷ xs) (Memᴰ.head e) = (x, Memᴰ.head refl, e)
  Memᴰ-map_from f y (x ∷ xs) (Memᴰ.tail m) =
      let (z, mz, e) = Memᴰ-map_from f y xs m in (z, Memᴰ.tail mz, e)

module _ {A : Type 0} where
  pub Memᴰ-left : {x : A} {xs : List A} (ys : List A) → Memᴰ x xs → Memᴰ x (xs ++ ys)
  Memᴰ-left ys (Memᴰ.head e) = Memᴰ.head e
  Memᴰ-left ys (Memᴰ.tail m) = Memᴰ.tail (Memᴰ-left ys m)

  pub Memᴰ-right : {x : A} (xs : List A) {ys : List A} → Memᴰ x ys → Memᴰ x (xs ++ ys)
  Memᴰ-right [] m = m
  Memᴰ-right (x ∷ xs) m = Memᴰ.tail (Memᴰ-right xs m)

  pub Memᴰ-either : {x : A} (xs ys : List A) → Memᴰ x (xs ++ ys) → Memᴰ x xs ⊎ Memᴰ x ys
  Memᴰ-either [] ys m = inr m
  Memᴰ-either (x ∷ xs) ys (Memᴰ.head e) = inl (Memᴰ.head e)
  Memᴰ-either (x ∷ xs) ys (Memᴰ.tail m) = elim (Memᴰ-either xs ys m) [
    | inl h ↦ inl (Memᴰ.tail h)
    | inr h ↦ inr h
  ]

pub contains-Memᴰ : {p : String} {xs : List String} → Memᴰ p xs → contains p xs ≡ true
unfolding contains
contains-Memᴰ {p} (Memᴰ.head {x = x} e) = ground (arith, e, eq_iff x p)
contains-Memᴰ {p} (Memᴰ.tail {x = x} m) = ground (arith, contains-Memᴰ m)
