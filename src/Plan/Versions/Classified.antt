-- ===== src/Plan/Versions/Classified.antt =====
-- The rows that the targets are classified into
-- (crates/shipshape-core/src/release/plan.rs, `classify_target_versions`).
use mathlib.Core.Path.{subst}
use mathlib.Core.List.{Memᴰ}
use ossctl.Base.{
  ◌≡◌, refl, sym, ◌∙◌, ◌⊎◌, inl, inr, true, false, String, Option, none, some, List, [], ◌∷◌,
  is_empty, any, All, arith, Bool-cases, Option-cases, eq_iff, eq_refl,
}
use ossctl.Schema.{Ecosystem}
use ossctl.Plan.{PlanTarget}
use ossctl.Plan.Inputs.{Facts}
use ossctl.Plan.Versions.{
  reads_manifest, VersionMismatch, ClassifiedVersions, version_of, add_row, classify_targets,
}
use ossctl.Plan.Versions.Rows.{about, Share}

module _ (facts : Facts) where
  -- A target with a manifest and a known package.
  abbrev pub Checked : PlanTarget → String → Type 0
  Checked t name = (reads_manifest t.ecosystem ≡ true) × (t.package_name ≡ some name)

  -- The manifests say of every such target that it has this version.
  abbrev pub Agreed : String → List PlanTarget → Type 0
  Agreed v ts =
      (t : PlanTarget) (name : String)
      → Memᴰ t ts
      → Checked t name
      → version_of facts t.ecosystem name ≡ some v

  skipped :
      (t : PlanTarget) (ts : List PlanTarget)
      → reads_manifest t.ecosystem ≡ false
      → classify_targets facts (t ∷ ts) ≡ classify_targets facts ts
  unfolding classify_targets
  skipped t ts e = rw e refl

  unnamed :
      (t : PlanTarget) (ts : List PlanTarget)
      → t.package_name ≡ none
      → classify_targets facts (t ∷ ts) ≡ classify_targets facts ts
  unfolding classify_targets
  unnamed t ts e = elim (Bool-cases (reads_manifest t.ecosystem)) [
    | inl r ↦ rw (r, e, classify_targets) refl
    | inr r ↦ rw r refl
  ]

  classified :
      (t : PlanTarget) (ts : List PlanTarget) (name : String)
      → Checked t name
      → classify_targets facts (t ∷ ts)
        ≡ add_row t name (version_of facts t.ecosystem name) (classify_targets facts ts)
  unfolding classify_targets
  classified t ts name (r, e) = rw (r, e, classify_targets) refl

  -- What a row says is what the facts say of its package.
  abbrev pub Read : VersionMismatch → Type 0
  Read r = version_of facts r.ecosystem r.package_name ≡ some r.manifest_version

  add_row-Read :
      (t : PlanTarget) (name : String) (o : Option String) (rows : ClassifiedVersions)
      → version_of facts t.ecosystem name ≡ o
      → All Read rows.checkable
      → All Read (add_row t name o rows).checkable
  unfolding add_row
  add_row-Read t name none rows e h = h
  add_row-Read t name (some v) rows e h = (e, h)

  -- How a target is classified: it adds no row, or one for its package.
  Target-cases :
      (t : PlanTarget) (ts : List PlanTarget)
      → (classify_targets facts (t ∷ ts) ≡ classify_targets facts ts)
        ⊎ ((name : String) × Checked t name)
  Target-cases t ts = elim (Option-cases t.package_name) [
    | inl e ↦ inl (unnamed t ts e)
    | inr (name, e) ↦ elim (Bool-cases (reads_manifest t.ecosystem)) [
      | inl r ↦ inr (name, (r, e))
      | inr r ↦ inl (skipped t ts r)
    ]
  ]

  pub classify_targets-Read :
      (ts : List PlanTarget) → All Read (classify_targets facts ts).checkable
  unfolding classify_targets
  classify_targets-Read [] = tt
  classify_targets-Read (t ∷ ts) = elim (Target-cases t ts) [
    | inl e ↦ rw e (classify_targets-Read ts)
    | inr (name, c) ↦ rw (classified t ts name c) (
        add_row-Read t name (version_of facts t.ecosystem name) (classify_targets facts ts) refl
          (classify_targets-Read ts))
  ]

  add_row_cases :
      (t : PlanTarget) (name : String) (o : Option String) (rows : ClassifiedVersions)
      → is_empty (add_row t name o rows).missing ≡ true
      → (v : String) × (o ≡ some v) × (is_empty rows.missing ≡ true)
  unfolding add_row
  add_row_cases t name none rows h = absurd (ground (arith, h))
  add_row_cases t name (some v) rows h = (v, refl, h)

  about-add_row :
      (t : PlanTarget) (name : String) (v : String) (rows : ClassifiedVersions)
      → any (about t.ecosystem name) (add_row t name (some v) rows).checkable ≡ true
  unfolding add_row
  about-add_row t name v rows = ground (arith, eq_refl name)

  later-add_row :
      (e : Ecosystem) (n : String) (t : PlanTarget) (name : String) (o : Option String)
      (rows : ClassifiedVersions)
      → any (about e n) rows.checkable ≡ true
      → any (about e n) (add_row t name o rows).checkable ≡ true
  unfolding add_row
  later-add_row e n t name none rows h = h
  later-add_row e n t name (some v) rows h = ground (arith, h)

  -- The rows that the loop leaves for a tail are still empty of missing ones.
  rest_read :
      (t : PlanTarget) (ts : List PlanTarget)
      → is_empty (classify_targets facts (t ∷ ts)).missing ≡ true
      → is_empty (classify_targets facts ts).missing ≡ true
  rest_read t ts h = elim (Target-cases t ts) [
    | inl e ↦ rw e at h
    | inr (name, c) ↦
        let (v, e, r) =
          add_row_cases t name (version_of facts t.ecosystem name) (classify_targets facts ts)
            (rw (classified t ts name c) at h) in
        r
  ]

  covered_first :
      (t : PlanTarget) (ts : List PlanTarget) (name : String)
      → Checked t name
      → is_empty (classify_targets facts (t ∷ ts)).missing ≡ true
      → any (about t.ecosystem name) (classify_targets facts (t ∷ ts)).checkable ≡ true
  covered_first t ts name c h =
      let (v, e, r) =
        add_row_cases t name (version_of facts t.ecosystem name) (classify_targets facts ts)
          (rw (classified t ts name c) at h) in
      rw (classified t ts name c, e) (about-add_row t name v (classify_targets facts ts))

  covered_later :
      (e : Ecosystem) (n : String) (t : PlanTarget) (ts : List PlanTarget)
      → any (about e n) (classify_targets facts ts).checkable ≡ true
      → any (about e n) (classify_targets facts (t ∷ ts)).checkable ≡ true
  covered_later e n t ts h = elim (Target-cases t ts) [
    | inl s ↦ rw s h
    | inr (name, c) ↦
        rw (classified t ts name c) (
          later-add_row e n t name (version_of facts t.ecosystem name) (classify_targets facts ts)
            h)
  ]

  -- When nothing is missing, every target with a manifest and a package has a row.
  pub covered :
      {t : PlanTarget} {ts : List PlanTarget} (name : String)
      → Memᴰ t ts
      → Checked t name
      → is_empty (classify_targets facts ts).missing ≡ true
      → any (about t.ecosystem name) (classify_targets facts ts).checkable ≡ true
  covered {t = t} name (Memᴰ.head {x = x} {xs = ts} e) c h =
      subst (λ y. any (about y.ecosystem name) (classify_targets facts (x ∷ ts)).checkable ≡ true)
        (sym e) (covered_first x ts name (subst (λ y. Checked y name) e c) h)
  covered {t = t} name (Memᴰ.tail {x = x} {xs = ts} m) c h =
      covered_later t.ecosystem name x ts (covered name m c (rest_read x ts h))

  -- A row about a package, of those that say the same version, shows that version.
  pub row_version :
      (e : Ecosystem) (name v : String) (rows : List VersionMismatch)
      → any (about e name) rows ≡ true
      → All Read rows
      → Share v rows
      → version_of facts e name ≡ some v
  row_version e name v [] h r s = absurd (ground (arith, h))
  row_version e name v (q ∷ rows) h r s = elim (Bool-cases (about e name q)) [
    | inl b ↦
        let same_name : q.package_name ≡ name = ground (arith, b, eq_iff q.package_name name) in
        let same_ecosystem : q.ecosystem ≡ e = ground (arith, b) in
        (λ i. version_of facts (sym same_ecosystem i) (sym same_name i)) ∙ r.0 ∙ (λ i. some (s.0 i))
    | inr b ↦ row_version e name v rows (ground (arith, b, h)) r.1 s.1
  ]

  abbrev pub Sound : String → ClassifiedVersions → Type 0
  Sound v rows = (is_empty rows.missing ≡ true) × Share v rows.checkable

  add_row-Share :
      (t : PlanTarget) (name v : String) (rows : ClassifiedVersions)
      → Sound v rows
      → Sound v (add_row t name (some v) rows)
  unfolding add_row
  add_row-Share t name v rows h = (h.0, (refl, h.1))

  pub Agreed-Share :
      (v : String) (ts : List PlanTarget) → Agreed v ts → Sound v (classify_targets facts ts)
  Agreed-Share v [] a = unfold classify_targets in (refl, tt)
  Agreed-Share v (t ∷ ts) a =
      let (read, share) = Agreed-Share v ts (λ u n m c. a u n (Memᴰ.tail m) c) in
      elim (Target-cases t ts) [
        | inl e ↦ rw e (read, share)
        | inr (name, c) ↦
            rw (classified t ts name c, a t name (Memᴰ.head refl) c)
              (add_row-Share t name v (classify_targets facts ts) (read, share))
      ]

  pub some_row :
      (e : Ecosystem) (name : String) (rows : List VersionMismatch)
      → any (about e name) rows ≡ true
      → is_empty rows ≡ false
  some_row e name [] h = absurd (ground (arith, h))
  some_row e name (r ∷ rows) h = refl

  -- A row comes from a target with a manifest and a package.
  pub row_target :
      (ts : List PlanTarget)
      → is_empty (classify_targets facts ts).checkable ≡ false
      → (t : PlanTarget) × (name : String) × Memᴰ t ts × Checked t name
  row_target [] h = absurd (unfold classify_targets in ground (arith, h))
  row_target (t ∷ ts) h = elim (Target-cases t ts) [
    | inl e ↦ let (u, name, m, c) = row_target ts (rw e at h) in (u, name, Memᴰ.tail m, c)
    | inr (name, c) ↦ (t, name, Memᴰ.head refl, c)
  ]
