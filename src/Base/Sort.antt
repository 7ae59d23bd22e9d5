-- ===== src/Base/Sort.antt =====
-- `slice::sort_by_key`, a stable sort, and what the sorts of the release engine rely on.
use Prim.Native.Nat.{ℕ, ◌<◌}
use mathlib.Core.Path.{◌≡◌, refl, ◌∙◌, sym, ap, subst, subst₂}
use mathlib.Core.Logic.{◌≢◌, ◌⊎◌, inl, inr}
use mathlib.Core.Bool.{true, false}
use mathlib.Core.List.{List, [], ◌∷◌, ◌++◌, Permᴰ, Memᴰ}
use native.Mathlib.Omega.{arith}
use ossctl.Base.Tests.{leb, leb→le, leb→lt, le→leb, Bool-cases, if◌then◌else◌}
use ossctl.Base.Lists.{All}

module _ {ℓ} {A : Type ℓ} (key : A → ℕ) where
  -- Before every item whose key is not smaller, so that equal keys keep their order.
  unfoldable pub insert_by : A → List A → List A
  insert_by x [] = x ∷ []
  insert_by x (y ∷ ys) = if leb (key x) (key y) then x ∷ y ∷ ys else y ∷ insert_by x ys

  unfoldable pub sort_by_key : List A → List A
  unfolding insert_by
  sort_by_key [] = []
  sort_by_key (x ∷ xs) = insert_by x (sort_by_key xs)

  -- The keys rise strictly, so no key stands twice.
  abbrev pub Ascending : List A → Type 0
  Ascending [] = Unit
  Ascending (x ∷ xs) = All (λ y. key x < key y) xs × Ascending xs

  abbrev pub Distinct : List A → Type 0
  Distinct [] = Unit
  Distinct (x ∷ xs) = All (λ y. key x ≢ key y) xs × Distinct xs

  pub All-insert_by {κ} :
      (P : A → Type κ) (x : A) (ys : List A) → P x → All P ys → All P (insert_by x ys)
  unfolding insert_by
  All-insert_by P x [] p h = (p, tt)
  All-insert_by P x (y ∷ ys) p h =
      elim (leb (key x) (key y)) as (λ b. All P (if b then x ∷ y ∷ ys else y ∷ insert_by x ys)) [
        | true ↦ (p, h)
        | false ↦ (h.0, All-insert_by P x ys p h.1)
      ]

  pub All-sort_by_key {κ} : (P : A → Type κ) (xs : List A) → All P xs → All P (sort_by_key xs)
  unfolding sort_by_key
  All-sort_by_key P [] h = tt
  All-sort_by_key P (x ∷ xs) h = All-insert_by P x (sort_by_key xs) h.0 (All-sort_by_key P xs h.1)

  All-weaken :
      (x y : A) (ys : List A)
      → key x < key y
      → All (λ z. key y < key z) ys
      → All (λ z. key x < key z) ys
  All-weaken x y [] h a = tt
  All-weaken x y (z ∷ ys) h a = (omega arith, All-weaken x y ys h a.1)

  insert_by_head : (x : A) (ys : List A) → All (λ y. key x < key y) ys → insert_by x ys ≡ x ∷ ys
  unfolding insert_by
  insert_by_head x [] h = refl
  insert_by_head x (y ∷ ys) h = rw (le→leb (key x) (key y) (omega arith))

  pub Ascending-insert_by :
      (x : A) (ys : List A)
      → All (λ y. key x ≢ key y) ys
      → Ascending ys
      → Ascending (insert_by x ys)
  unfolding insert_by
  Ascending-insert_by x [] d a = (tt, tt)
  Ascending-insert_by x (y ∷ ys) d a = elim (Bool-cases (leb (key x) (key y))) [
    | inl below ↦
        let lt : key x < key y = omega (arith, leb→le _ _ below, d.0) in
        rw below ((lt, All-weaken x y ys lt a.0), a)
    | inr above ↦ rw above (
      All-insert_by (λ z. key y < key z) x ys (leb→lt _ _ above) a.0,
      Ascending-insert_by x ys d.1 a.1,
    )
  ]

  pub Ascending-sort_by_key : (xs : List A) → Distinct xs → Ascending (sort_by_key xs)
  unfolding sort_by_key
  Ascending-sort_by_key [] d = tt
  Ascending-sort_by_key (x ∷ xs) d =
      Ascending-insert_by x (sort_by_key xs) (All-sort_by_key _ xs d.0)
        (Ascending-sort_by_key xs d.1)

  insert_by_comm :
      (x y : A) (l : List A)
      → key x ≢ key y
      → insert_by x (insert_by y l) ≡ insert_by y (insert_by x l)
  unfolding insert_by
  insert_by_comm x y [] d = ground arith
  insert_by_comm x y (z ∷ l) d = ground (arith, insert_by_comm x y l d)

  -- A permutation keeps the keys distinct.
  All-perm {κ} : (P : A → Type κ) {xs ys : List A} → Permᴰ xs ys → All P xs → All P ys
  All-perm P Permᴰ.nil h = tt
  All-perm P (Permᴰ.cons e p) h = (subst P e h.0, All-perm P p h.1)
  All-perm P (Permᴰ.swap e f) h = (subst P f h.1.0, (subst P e h.0, h.1.1))
  All-perm P (Permᴰ.trans p q) h = All-perm P q (All-perm P p h)

  Distinct-perm : {xs ys : List A} → Permᴰ xs ys → Distinct xs → Distinct ys
  Distinct-perm Permᴰ.nil d = tt
  Distinct-perm (Permᴰ.cons {l₂ = l} e p) d =
      (subst (λ x. All (λ y. key x ≢ key y) l) e (All-perm _ p d.0), Distinct-perm p d.1)
  Distinct-perm (Permᴰ.swap {l = l} e f) d =
      subst₂ (λ x y. Distinct (x ∷ y ∷ l)) f e (((λ p. d.0.0 (sym p)), d.1.0), (d.0.1, d.1.1))
  Distinct-perm (Permᴰ.trans p q) d = Distinct-perm q (Distinct-perm p d)

  -- With distinct keys the sorted list does not depend on the order of the input.
  pub sort_by_key-perm :
      {xs ys : List A} → Permᴰ xs ys → Distinct xs → sort_by_key xs ≡ sort_by_key ys
  unfolding sort_by_key
  sort_by_key-perm Permᴰ.nil d = refl
  sort_by_key-perm (Permᴰ.cons e p) d = rw (e, sort_by_key-perm p d.1)
  sort_by_key-perm (Permᴰ.swap {a = a} {b = b} {l = l} e f) d =
      rw (← e, ← f) (insert_by_comm a b (sort_by_key l) d.0.0)
  sort_by_key-perm (Permᴰ.trans p q) d =
      sort_by_key-perm p d ∙ sort_by_key-perm q (Distinct-perm p d)

  -- A list that is in order is left as it is.
  pub sort_by_key_of_Ascending : (xs : List A) → Ascending xs → sort_by_key xs ≡ xs
  unfolding sort_by_key
  sort_by_key_of_Ascending [] a = refl
  sort_by_key_of_Ascending (x ∷ xs) a =
      rw (sort_by_key_of_Ascending xs a.1) (insert_by_head x xs a.0)

  -- Sorting a sorted list with a new key at its end puts the new item in its place.
  pub sort_by_key-snoc :
      (xs : List A) (y : A)
      → Ascending xs
      → All (λ x. key x ≢ key y) xs
      → sort_by_key (xs ++ y ∷ []) ≡ insert_by y xs
  unfolding sort_by_key
  sort_by_key-snoc [] y a d = refl
  sort_by_key-snoc (x ∷ xs) y a d =
      rw (sort_by_key-snoc xs y a.1 d.1)
        (insert_by_comm x y xs d.0 ∙ ap (insert_by y) (insert_by_head x xs a.0))

  mem-below : (x e : A) (l : List A) → Memᴰ e (x ∷ l) → (e ≡ x) ⊎ Memᴰ e l
  mem-below x e l (Memᴰ.head p) = inl p
  mem-below x e l (Memᴰ.tail m) = inr m

  mem-above :
      (x e y : A) (ys : List A)
      → (Memᴰ e (insert_by x ys) → (e ≡ x) ⊎ Memᴰ e ys)
      → Memᴰ e (y ∷ insert_by x ys)
      → (e ≡ x) ⊎ Memᴰ e (y ∷ ys)
  mem-above x e y ys rec (Memᴰ.head p) = inr (Memᴰ.head p)
  mem-above x e y ys rec (Memᴰ.tail m) = elim (rec m) [ inl p ↦ inl p | inr r ↦ inr (Memᴰ.tail r) ]

  mem-insert_by : (x e : A) (ys : List A) → Memᴰ e (insert_by x ys) → (e ≡ x) ⊎ Memᴰ e ys
  unfolding insert_by
  mem-insert_by x e [] (Memᴰ.head p) = inl p
  mem-insert_by x e [] (Memᴰ.tail m) = elim m [ ]
  mem-insert_by x e (y ∷ ys) m = elim (Bool-cases (leb (key x) (key y))) [
    | inl below ↦ mem-below x e (y ∷ ys) (rw below at m)
    | inr above ↦ mem-above x e y ys (mem-insert_by x e ys) (rw above at m)
  ]

  -- Sorting adds nothing.
  pub mem-sort_by_key : (e : A) (xs : List A) → Memᴰ e (sort_by_key xs) → Memᴰ e xs
  unfolding sort_by_key
  mem-sort_by_key e [] m = elim m [ ]
  mem-sort_by_key e (x ∷ xs) m = elim (mem-insert_by x e (sort_by_key xs) m) [
    | inl p ↦ Memᴰ.head p
    | inr rest ↦ Memᴰ.tail (mem-sort_by_key e xs rest)
  ]
