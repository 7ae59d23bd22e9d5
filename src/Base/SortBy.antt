-- ===== src/Base/SortBy.antt =====
-- `sort_by` with a comparison, `dedup_by`, and what a test or a predicate over the items keeps.
use mathlib.Core.Path.{◌≡◌, refl}
use mathlib.Core.Logic.{inl, inr}
use mathlib.Core.Bool.{Bool, true, false, ◌||◌}
use mathlib.Core.List.{List, [], ◌∷◌}
use native.Mathlib.Omega.{arith}
use ossctl.Base.Tests.{Bool-cases, if◌then◌else◌}
use ossctl.Base.Lists.{All, any}

module _ {ℓ} {A : Type ℓ} (le : A → A → Bool) where
  -- Before every item that it is not above, so that equal items keep their order.
  unfoldable pub insert_in : A → List A → List A
  insert_in x [] = x ∷ []
  insert_in x (y ∷ ys) = if le x y then x ∷ y ∷ ys else y ∷ insert_in x ys

  unfoldable pub sort_by : List A → List A
  unfolding insert_in
  sort_by [] = []
  sort_by (x ∷ xs) = insert_in x (sort_by xs)

  any-insert_in : (p : A → Bool) (x : A) (ys : List A) → any p (insert_in x ys) ≡ (p x || any p ys)
  unfolding insert_in
  any-insert_in p x [] = refl
  any-insert_in p x (y ∷ ys) = elim (Bool-cases (le x y)) [
    | inl e ↦ rw e refl
    | inr e ↦ rw (e, any-insert_in p x ys) (ground arith)
  ]

  -- A test holds of an item of the sorted list when it holds of one of the input.
  pub any-sort_by : (p : A → Bool) (xs : List A) → any p (sort_by xs) ≡ any p xs
  unfolding sort_by
  any-sort_by p [] = refl
  any-sort_by p (x ∷ xs) = rw (any-insert_in p x (sort_by xs), any-sort_by p xs) refl

  All-insert_in {κ} :
      (P : A → Type κ) (x : A) (ys : List A) → P x → All P ys → All P (insert_in x ys)
  unfolding insert_in
  All-insert_in P x [] p h = (p, tt)
  All-insert_in P x (y ∷ ys) p h =
      elim (le x y) as (λ b. All P (if b then x ∷ y ∷ ys else y ∷ insert_in x ys)) [
        | true ↦ (p, h)
        | false ↦ (h.0, All-insert_in P x ys p h.1)
      ]

  pub All-sort_by {κ} : (P : A → Type κ) (xs : List A) → All P xs → All P (sort_by xs)
  unfolding sort_by
  All-sort_by P [] h = tt
  All-sort_by P (x ∷ xs) h = All-insert_in P x (sort_by xs) h.0 (All-sort_by P xs h.1)

module _ {ℓ} {A : Type ℓ} (same : A → A → Bool) where
  -- The items after one that is kept: those that are the same as the last one kept go.
  unfoldable pub dedup_after : A → List A → List A
  dedup_after x [] = []
  dedup_after x (y ∷ ys) =
      let rest = dedup_after (if same y x then x else y) ys in if same y x then rest else y ∷ rest

  -- `dedup_by`
  unfoldable pub dedup_by : List A → List A
  unfolding dedup_after
  dedup_by [] = []
  dedup_by (x ∷ xs) = x ∷ dedup_after x xs

  module _ (p : A → Bool) (alike : (x y : A) → same x y ≡ true → p x ≡ p y) where
    any-dedup_after : (x : A) (ys : List A) → (p x || any p (dedup_after x ys)) ≡ (p x || any p ys)
    unfolding dedup_after
    any-dedup_after x [] = refl
    any-dedup_after x (y ∷ ys) = elim (Bool-cases (same y x)) [
      | inl e ↦ rw e (ground (arith, alike y x e, any-dedup_after x ys))
      | inr e ↦ rw e (ground (arith, any-dedup_after y ys))
    ]

    -- A test that does not tell the same items apart keeps its answer.
    pub any-dedup_by : (xs : List A) → any p (dedup_by xs) ≡ any p xs
    unfolding dedup_by
    any-dedup_by [] = refl
    any-dedup_by (x ∷ xs) = any-dedup_after x xs

  All-dedup_after {κ} : (P : A → Type κ) (x : A) (ys : List A) → All P ys → All P (dedup_after x ys)
  unfolding dedup_after
  All-dedup_after P x [] h = tt
  All-dedup_after P x (y ∷ ys) h = elim (Bool-cases (same y x)) [
    | inl e ↦ rw e (All-dedup_after P x ys h.1)
    | inr e ↦ rw e ((h.0, All-dedup_after P y ys h.1))
  ]

  pub All-dedup_by {κ} : (P : A → Type κ) (xs : List A) → All P xs → All P (dedup_by xs)
  unfolding dedup_by
  All-dedup_by P [] h = tt
  All-dedup_by P (x ∷ xs) h = (h.0, All-dedup_after P x xs h.1)
