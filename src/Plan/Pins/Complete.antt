-- ===== src/Plan/Pins/Complete.antt =====
-- No exact pin is left outside the rewrites
-- (crates/shipshape-core/src/release/plan.rs, `derive_pin_rewrites`).
use mathlib.Core.List.{Memᴰ}
use ossctl.Base.{
  ◌≡◌, refl, ◌∙◌, inl, inr, true, String, Option, some, List, map, any, arith, Option-cases, eq_iff,
}
use ossctl.Base.Dict.{Dict, contains}
use ossctl.Base.SortBy.{sort_by, dedup_by, any-sort_by, any-dedup_by}
use ossctl.Plan.{PinRewrite}
use ossctl.Plan.Order.{package_of}
use ossctl.Plan.Inputs.{WorkspacePinOwner, RustWorkspace, Facts}
use ossctl.Plan.Pins.{
  Planned, planned, declined, is_exact, Place, place_rewrites, both_rewrites, owner_place,
  root_place, owner_rewrites, rewrite_le, rewrite_same, sealed_order, exact_pin, workspace_rewrites,
  derive_pin_rewrites, bool_eq,
}
use ossctl.Plan.Pins.Counted.{
  rewrites, Handled, both_cases, any-append, owner_rewrites-Handled, place_rewrites-Handled,
}

-- The manifests that the planner reads pins from.
pub data PinnedAt (w : RustWorkspace) : Place → Dict (List (Option String)) → Type 0 where
  by_owner : (o : WorkspacePinOwner) → Memᴰ o w.pin_owners → PinnedAt w (owner_place o) o.pin_reqs
  by_root : PinnedAt w root_place w.workspace_pin_reqs

rewrites_alike :
    (place : Place) (dep : String) (x y : PinRewrite)
    → rewrite_same x y ≡ true
    → rewrites place dep x ≡ rewrites place dep y
unfolding rewrite_same bool_eq
rewrites_alike place dep x y h = ground (
  arith,
  h,
  eq_iff x.in_package y.in_package,
  eq_iff x.dependency y.dependency,
  eq_iff x.in_package place.in_package,
  eq_iff y.in_package place.in_package,
  eq_iff x.dependency dep,
  eq_iff y.dependency dep,
)

sealed_cases :
    (p : Planned (List PinRewrite)) (rs : List PinRewrite)
    → sealed_order p ≡ planned rs
    → (qs : List PinRewrite) × (p ≡ planned qs)
      × (rs ≡ dedup_by rewrite_same (sort_by rewrite_le qs))
unfolding sealed_order
sealed_cases (declined e) rs h = absurd (ground (arith, h))
sealed_cases (planned qs) rs h = (qs, refl, (cc))

any-sealed :
    (place : Place) (dep : String) (qs : List PinRewrite)
    → any (rewrites place dep) (dedup_by rewrite_same (sort_by rewrite_le qs))
      ≡ any (rewrites place dep) qs
any-sealed place dep qs =
    any-dedup_by rewrite_same (rewrites place dep) (rewrites_alike place dep)
      (sort_by rewrite_le qs)
    ∙ any-sort_by rewrite_le (rewrites place dep) qs

-- A successful derivation parsed the manifests.
workspace_parsed :
    (w : RustWorkspace) (from to : String) (rs : List PinRewrite)
    → workspace_rewrites w from to ≡ planned rs
    → sealed_order (
        both_rewrites
          (owner_rewrites (map package_of w.members) (exact_pin from) (exact_pin to) w.pin_owners)
          (place_rewrites
            (map package_of w.members)
            (exact_pin from)
            (exact_pin to)
            root_place
            w.workspace_pin_reqs))
      ≡ planned rs
unfolding workspace_rewrites
workspace_parsed w from to rs h = elim (Option-cases w.pin_parse_error) [
  | inl e ↦ rw (e, workspace_rewrites) at h
  | inr (r, e) ↦ absurd (ground (arith, rw (e, workspace_rewrites) at h))
]

workspace-Handled :
    (w : RustWorkspace) (from to : String) (rs : List PinRewrite)
    → workspace_rewrites w from to ≡ planned rs
    → {place : Place} {entries : Dict (List (Option String))} → PinnedAt w place entries
    → Handled (map package_of w.members) (exact_pin from) (exact_pin to) place entries rs
workspace-Handled w from to rs h (by_owner o mo) dep r reqs m c mr x =
    let members = map package_of w.members in
    let (qs, made, sorted) = sealed_cases _ rs (workspace_parsed w from to rs h) in
    let (ps, os, first, later, split) =
      both_cases members (exact_pin from) (exact_pin to) _ _ qs made in
    let (pinned, found) =
      owner_rewrites-Handled members (exact_pin from) (exact_pin to) w.pin_owners ps first o mo dep
        r reqs m c mr x in
    (
      pinned,
      rw
          (
            sorted,
            any-sealed (owner_place o) dep qs,
            split,
            any-append members (exact_pin from) (exact_pin to) (rewrites (owner_place o) dep) ps os,
            found,
          )
          refl,
    )
workspace-Handled w from to rs h by_root dep r reqs m c mr x =
    let members = map package_of w.members in
    let (qs, made, sorted) = sealed_cases _ rs (workspace_parsed w from to rs h) in
    let (ps, os, first, later, split) =
      both_cases members (exact_pin from) (exact_pin to) _ _ qs made in
    let (pinned, found) =
      place_rewrites-Handled members (exact_pin from) (exact_pin to) root_place w.workspace_pin_reqs
        os later dep r reqs m c mr x in
    (
      pinned,
      rw
          (
            sorted,
            any-sealed root_place dep qs,
            split,
            any-append members (exact_pin from) (exact_pin to) (rewrites root_place dep) ps os,
            found,
          )
          (ground arith),
    )

-- When the pin rewrites of a bump are derived, every exact requirement on a workspace member, in a
-- manifest of a pin owner or in the root's table, is the pin on the version bumped from, and a rewrite
-- of that dependency in that manifest is in the list.
pub derive_pin_rewrites-Handled :
    (facts : Facts) (w : RustWorkspace) (from to : String) (rs : List PinRewrite)
    → facts.rust_workspace ≡ some w
    → derive_pin_rewrites facts from to ≡ planned rs
    → {place : Place} {entries : Dict (List (Option String))} → PinnedAt w place entries
    → (dep r : String) (reqs : List (Option String)) → Memᴰ (dep, reqs) entries
    → contains dep (map package_of w.members) ≡ true
    → Memᴰ (some r) reqs
    → is_exact (some r) ≡ true
    → (r ≡ exact_pin from) × (any (rewrites place dep) rs ≡ true)
unfolding derive_pin_rewrites
derive_pin_rewrites-Handled facts w from to rs e h pinned_at dep r reqs m c mr x =
    workspace-Handled w from to rs (rw (e, derive_pin_rewrites) at h) pinned_at dep r reqs m c mr x
