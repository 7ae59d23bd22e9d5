-- ===== src/Plan/Targets/Splice.antt =====
-- The derived targets in the place of the first Rust crates.io target
-- (crates/shipshape-core/src/release/plan.rs, `expand_rust_workspace_members`).
use mathlib.Core.Path.{subst}
use mathlib.Core.List.{Memᴰ}
use ossctl.Base.{◌≡◌, refl, ◌⊎◌, inl, inr, Bool, true, false, List, [], ◌∷◌, ◌++◌, Bool-cases}
use ossctl.Plan.{PlanTarget}
use ossctl.Plan.Targets.{is_rust_crates_io_publish, splice}
use ossctl.Base.Members.{Memᴰ-left, Memᴰ-right, Memᴰ-either}

module _ (derived : List PlanTarget) where
  splice_other :
      (b : Bool) (t : PlanTarget) (ts : List PlanTarget)
      → is_rust_crates_io_publish t ≡ false
      → splice derived b (t ∷ ts) ≡ t ∷ splice derived b ts
  unfolding splice
  splice_other b t ts e = rw e refl

  splice_first :
      (t : PlanTarget) (ts : List PlanTarget)
      → is_rust_crates_io_publish t ≡ true
      → splice derived false (t ∷ ts) ≡ derived ++ splice derived true ts
  unfolding splice
  splice_first t ts e = rw e refl

  splice_again :
      (t : PlanTarget) (ts : List PlanTarget)
      → is_rust_crates_io_publish t ≡ true
      → splice derived true (t ∷ ts) ≡ splice derived true ts
  unfolding splice
  splice_again t ts e = rw e refl

  pub Memᴰ-splice_other :
      {t : PlanTarget} {ts : List PlanTarget} (b : Bool)
      → is_rust_crates_io_publish t ≡ false
      → Memᴰ t ts
      → Memᴰ t (splice derived b ts)
  Memᴰ-splice_other {t = t} b h (Memᴰ.head {x = x} {xs = ts} e) =
      rw (splice_other b x ts (subst (λ y. is_rust_crates_io_publish y ≡ false) e h)) (Memᴰ.head e)
  Memᴰ-splice_other {t = t} b h (Memᴰ.tail {x = x} {xs = ts} m) =
      elim (Bool-cases (is_rust_crates_io_publish x)) [
        | inr r ↦ rw (splice_other b x ts r) (Memᴰ.tail (Memᴰ-splice_other b h m))
        | inl r ↦ elim b as (λ c. Memᴰ t (splice derived c (x ∷ ts))) [
          | true ↦ rw (splice_again x ts r) (Memᴰ-splice_other true h m)
          | false ↦ rw (splice_first x ts r) (Memᴰ-right derived (Memᴰ-splice_other true h m))
        ]
      ]

  -- The derived targets stand where the first Rust crates.io target stood.
  pub Memᴰ-splice_derived :
      {d t : PlanTarget} {ts : List PlanTarget}
      → Memᴰ d derived
      → is_rust_crates_io_publish t ≡ true
      → Memᴰ t ts
      → Memᴰ d (splice derived false ts)
  Memᴰ-splice_derived {d = d} {t = t} md h (Memᴰ.head {x = x} {xs = ts} e) =
      rw (splice_first x ts (subst (λ y. is_rust_crates_io_publish y ≡ true) e h))
        (Memᴰ-left (splice derived true ts) md)
  Memᴰ-splice_derived {d = d} {t = t} md h (Memᴰ.tail {x = x} {xs = ts} m) =
      elim (Bool-cases (is_rust_crates_io_publish x)) [
        | inr r ↦ rw (splice_other false x ts r) (Memᴰ.tail (Memᴰ-splice_derived md h m))
        | inl r ↦ rw (splice_first x ts r) (Memᴰ-left (splice derived true ts) md)
      ]

  pub splice_only :
      (b : Bool) (d : PlanTarget) (ts : List PlanTarget)
      → Memᴰ d (splice derived b ts)
      → Memᴰ d ts ⊎ Memᴰ d derived
  unfolding splice
  splice_only b d [] m = inl m
  splice_only b d (x ∷ ts) m = elim (Bool-cases (is_rust_crates_io_publish x)) [
    | inr r ↦ elim (rw (splice_other b x ts r) at m) [
      | Memᴰ.head e ↦ inl (Memᴰ.head e)
      | Memᴰ.tail k ↦ later x (splice_only b d ts k)
    ]
    | inl r ↦
        elim b as (λ c. Memᴰ d (splice derived c (x ∷ ts)) → Memᴰ d (x ∷ ts) ⊎ Memᴰ d derived) [
          | true ↦ λ k. later x (splice_only true d ts (rw (splice_again x ts r) at k))
          | false ↦ λ k.
              elim (Memᴰ-either derived (splice derived true ts) (rw (splice_first x ts r) at k)) [
                | inl h ↦ inr h
                | inr h ↦ later x (splice_only true d ts h)
              ]
        ]
          m
  ]
    where
      later : (y : PlanTarget) → Memᴰ d ts ⊎ Memᴰ d derived → Memᴰ d (y ∷ ts) ⊎ Memᴰ d derived
      later y (inl h) = inl (Memᴰ.tail h)
      later y (inr h) = inr h
