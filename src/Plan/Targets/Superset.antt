-- ===== src/Plan/Targets/Superset.antt =====
-- The expansion keeps what the contract declares
-- (crates/shipshape-core/src/release/plan.rs, `expand_rust_workspace_members`).
use mathlib.Core.Path.{subst}
use mathlib.Core.List.{Memᴰ}
use ossctl.Base.{
  ◌≡◌, refl, sym, ◌∙◌, ◌⊎◌, inl, inr, Bool, true, false, not, String, some, List, [], ◌∷◌, map, any,
  find, filter, is_some, arith, Bool-cases, Option-cases, eq_refl,
}
use ossctl.Base.Dict.{contains}
use ossctl.Schema.{rust, crates_io, cargo_publish}
use ossctl.Plan.{PlanTarget}
use ossctl.Plan.Inputs.{RustWorkspace, Facts}
use ossctl.Plan.Targets.{
  is_rust_crates_io_publish, dependency_closure_order, named, derived_target, splice, expand_with,
  expand_rust_workspace_members,
}
use ossctl.Plan.Targets.Closure.{Reach}
use ossctl.Plan.Targets.PublishSet.{dependency_closure_order-Reach}
use ossctl.Base.Members.{Memᴰ-contains, contains-Memᴰ, Memᴰ-map, Memᴰ-map_from}
use ossctl.Plan.Targets.Splice.{Memᴰ-splice_other, Memᴰ-splice_derived, splice_only}

abbrev pub declared : List PlanTarget → List String
declared base = named (filter is_rust_crates_io_publish base)

publish_fields :
    (t : PlanTarget)
    → is_rust_crates_io_publish t ≡ true
    → (t.ecosystem ≡ rust) × (t.registry ≡ crates_io) × (t.adapter ≡ cargo_publish)
unfolding is_rust_crates_io_publish
publish_fields t h = ground arith

derived_same :
    (r t : PlanTarget) (p : String)
    → is_rust_crates_io_publish r ≡ true
    → is_rust_crates_io_publish t ≡ true
    → t.package_name ≡ some p
    → t ≡ derived_target r p
derived_same r t p hr ht e =
    let (re, rr, ra) = publish_fields r hr in
    let (te, tr, ta) = publish_fields t ht in
    λ i. record {
      ecosystem = te i;
      package_name = e i;
      registry = (tr ∙ sym rr) i;
      adapter = (ta ∙ sym ra) i;
    }

contains-declared :
    {t : PlanTarget} {p : String} {ts : List PlanTarget}
    → is_rust_crates_io_publish t ≡ true
    → t.package_name ≡ some p
    → Memᴰ t ts
    → contains p (declared ts) ≡ true
unfolding named filter contains
contains-declared {t = t} {p = p} h e (Memᴰ.head {x = x} {xs = ts} s) =
    let hx : is_rust_crates_io_publish x ≡ true =
      subst (λ y. is_rust_crates_io_publish y ≡ true) s h in
    let ex : x.package_name ≡ some p = subst (λ (y : PlanTarget). y.package_name ≡ some p) s e in
    rw hx (rw (ex, named) (rw (eq_refl p) refl))
contains-declared {t = t} {p = p} h e (Memᴰ.tail {x = x} {xs = ts} m) =
    ground (arith, contains-declared h e m, Option-cases x.package_name)

-- A member of the publishes that has a package, when the guard for ambiguity let all through.
package_known :
    {t : PlanTarget} {ts : List PlanTarget}
    → any (λ (u : PlanTarget). not (is_some u.package_name)) (filter is_rust_crates_io_publish ts)
      ≡ false
    → is_rust_crates_io_publish t ≡ true
    → Memᴰ t ts
    → (p : String) × (t.package_name ≡ some p)
unfolding filter
package_known {t = t} a h (Memᴰ.head {x = x} {xs = ts} s) =
    let hx : is_rust_crates_io_publish x ≡ true =
      subst (λ y. is_rust_crates_io_publish y ≡ true) s h in
    elim (Option-cases x.package_name) [
      | inl e ↦ absurd (ground (arith, a, hx, e))
      | inr (p, e) ↦ (p, subst (λ (y : PlanTarget). y.package_name ≡ some p) (sym s) e)
    ]
package_known {t = t} a h (Memᴰ.tail {x = x} {xs = ts} m) = package_known (ground (arith, a)) h m

module _ (base : List PlanTarget) (workspace : RustWorkspace) (r : PlanTarget) where
  abbrev derived_targets : List PlanTarget
  derived_targets =
      map (derived_target r) (dependency_closure_order (declared base) workspace.members)

  abbrev ambiguous : Bool
  ambiguous =
      any (λ (t : PlanTarget). not (is_some t.package_name)) (filter is_rust_crates_io_publish base)

  expand_ambiguous : ambiguous ≡ true → expand_with base workspace r ≡ base
  unfolding expand_with
  expand_ambiguous e = rw e refl

  expand_resolved :
      ambiguous ≡ false → expand_with base workspace r ≡ splice derived_targets false base
  unfolding expand_with
  expand_resolved e = rw e refl

  Memᴰ-expand_with :
      (t : PlanTarget)
      → is_rust_crates_io_publish r ≡ true
      → Memᴰ t base
      → Memᴰ t (expand_with base workspace r)
  Memᴰ-expand_with t hr m = elim (Bool-cases ambiguous) [
    | inl a ↦ rw (expand_ambiguous a) m
    | inr a ↦ rw (expand_resolved a) (elim (Bool-cases (is_rust_crates_io_publish t)) [
      | inr h ↦ Memᴰ-splice_other derived_targets false h m
      | inl h ↦
          let (p, e) = package_known a h m in
          let in_order : contains p (dependency_closure_order (declared base) workspace.members)
              ≡ true =
            (dependency_closure_order-Reach (declared base) workspace.members p).1
              (Reach.root (contains-declared h e m), ground (arith, contains-declared h e m)) in
          Memᴰ-splice_derived derived_targets
            (subst (λ u. Memᴰ u derived_targets) (sym (derived_same r t p hr h e))
              (Memᴰ-map (derived_target r) (Memᴰ-contains p _ in_order)))
            h m
    ])
  ]

find_holds :
    (t : PlanTarget) (ts : List PlanTarget)
    → find is_rust_crates_io_publish ts ≡ some t
    → is_rust_crates_io_publish t ≡ true
unfolding find
find_holds t [] h = cc
find_holds t (x ∷ ts) h = elim (Bool-cases (is_rust_crates_io_publish x)) [
  | inl e ↦ subst (λ y. is_rust_crates_io_publish y ≡ true) (ground (arith, h, e)) e
  | inr e ↦ find_holds t ts (rw e at h)
]

abbrev pub Needed : List PlanTarget → Facts → PlanTarget → Type 0
Needed base facts t =
    (w : RustWorkspace) × (p : String) × (facts.rust_workspace ≡ some w)
    × (is_rust_crates_io_publish t ≡ true)
    × (t.package_name ≡ some p)
    × Reach (declared base) w.members p

-- The expansion of a Rust workspace drops no target that the contract declares.
pub Memᴰ-expand_rust_workspace_members :
    (base : List PlanTarget) (facts : Facts) (t : PlanTarget)
    → Memᴰ t base
    → Memᴰ t (expand_rust_workspace_members base facts)
unfolding expand_rust_workspace_members
Memᴰ-expand_rust_workspace_members base facts t m = elim (Option-cases facts.rust_workspace) [
  | inl e ↦ rw (e, expand_rust_workspace_members) m
  | inr (w, e) ↦ elim (Option-cases (find is_rust_crates_io_publish base)) [
    | inl f ↦ rw (e, f, expand_rust_workspace_members) m
    | inr (r, f) ↦
        rw (e, f, expand_rust_workspace_members)
          (Memᴰ-expand_with base w r t (find_holds r base f) m)
  ]
]

derived_publishes :
    (r : PlanTarget) (p : String)
    → is_rust_crates_io_publish r ≡ true
    → is_rust_crates_io_publish (derived_target r p) ≡ true
unfolding is_rust_crates_io_publish
derived_publishes r p h = ground arith

module _ (base : List PlanTarget) (facts : Facts) (w : RustWorkspace) (r : PlanTarget)
    (hw : facts.rust_workspace ≡ some w) (hr : is_rust_crates_io_publish r ≡ true)
    (t : PlanTarget) where
  derived_Needed : Memᴰ t (derived_targets base w r) → Needed base facts t
  derived_Needed m =
      let (p, mp, e) = Memᴰ-map_from (derived_target r) t _ m in
      (
        w,
        p,
        hw,
        subst (λ u. is_rust_crates_io_publish u ≡ true) (sym e) (derived_publishes r p hr),
        (λ i. (e i).package_name),
        ((dependency_closure_order-Reach (declared base) w.members p).0 (contains-Memᴰ mp)).0,
      )

  expand_with-Needed : Memᴰ t (expand_with base w r) → Memᴰ t base ⊎ Needed base facts t
  expand_with-Needed m = elim (Bool-cases (ambiguous base w r)) [
    | inl a ↦ inl (rw (expand_ambiguous base w r a) at m)
    | inr a ↦
        elim (splice_only (derived_targets base w r) false t base
          (rw (expand_resolved base w r a) at m)) [ inl h ↦ inl h | inr h ↦ inr (derived_Needed h) ]
  ]

-- What the expansion adds to the declared targets is published to crates.io with cargo publish, and
-- reached from a declared target of that kind along the dependencies of the workspace's members.
pub expand_rust_workspace_members-Needed :
    (base : List PlanTarget) (facts : Facts) (t : PlanTarget)
    → Memᴰ t (expand_rust_workspace_members base facts)
    → Memᴰ t base ⊎ Needed base facts t
unfolding expand_rust_workspace_members
expand_rust_workspace_members-Needed base facts t m = elim (Option-cases facts.rust_workspace) [
  | inl e ↦ inl (rw (e, expand_rust_workspace_members) at m)
  | inr (w, e) ↦ elim (Option-cases (find is_rust_crates_io_publish base)) [
    | inl f ↦ inl (rw (e, f, expand_rust_workspace_members) at m)
    | inr (r, f) ↦
        expand_with-Needed base facts w r e (find_holds r base f) t
          (rw (e, f, expand_rust_workspace_members) at m)
  ]
]
