-- ===== src/Plan/Pins.antt =====
-- The pins that a version bump rewrites
-- (crates/shipshape-core/src/release/plan.rs, `exact_pin_count`, `derive_pin_rewrites`).
pub mod Counted
pub mod Complete
use Prim.Native.String.{compare, ◌++◌ as str_append}
use text.Mathlib.Text.{is_lt, is_le, is_eq}
use ossctl.Base.{
  ℕ, ◌==◌, Bool, true, false, ◌&&◌, ◌||◌, not, String, str_eq, Option, none, some, List, [], ◌∷◌,
  ◌++◌, map, length, any, filter, is_some, if◌then◌else◌,
}
use ossctl.Base.Dict.{Dict, contains}
use ossctl.Base.SortBy.{sort_by, dedup_by}
use ossctl.Base.Text.{trim_start, starts_with_equals}
use ossctl.Bump.{BumpReason}
use ossctl.Plan.{PinRewrite}
use ossctl.Plan.Order.{package_of}
use ossctl.Plan.Inputs.{WorkspacePinOwner, RustWorkspace, Facts}

-- `BumpError`: the refusals of `bump_version` and those of the planner, with what their texts name.
pub data BumpError : Type 0 where
  version_refused : BumpReason → BumpError
  pins_unparsed : String → BumpError
  pinned_elsewhere pins_differ : String → String → BumpError

pub data Planned (A : Type 0) : Type 0 where
  planned : A → Planned A
  declined : BumpError → Planned A

-- `req.as_deref() == Some(from_pin)`
unfoldable pub is_pin : String → Option String → Bool
is_pin pin none = false
is_pin pin (some r) = str_eq r pin

-- a requirement on one exact version
unfoldable pub is_exact : Option String → Bool
unfolding trim_start starts_with_equals
is_exact none = false
is_exact (some r) = starts_with_equals (trim_start r)

unfoldable pub exact_pin_count :
    String → String → List (Option String) → String → Planned (Option ℕ)
unfolding is_pin is_exact filter
exact_pin_count owner dependency requirements from_pin =
    let explicit = length (filter (λ (r : Option String). is_some r) requirements) in
    let matching = length (filter (is_pin from_pin) requirements) in
    if matching == 0
    then (if any is_exact requirements
        then declined (pinned_elsewhere owner dependency)
        else planned none)
    else if not (matching == explicit)
    then declined (pins_differ owner dependency)
    else planned (some matching)

-- where a pin is declared: the text for errors, the package that a rewrite names, and whether it is
-- the root manifest
pub record Place : Type 0 where
  pub owner : String
  pub in_package : String
  pub workspace_root : Bool

-- The early return of an error, a pin that is skipped, and one that is rewritten.
unfoldable pub add_rewrite :
    PinRewrite → Planned (Option ℕ) → Planned (List PinRewrite) → Planned (List PinRewrite)
add_rewrite r (declined e) rest = declined e
add_rewrite r (planned none) rest = rest
add_rewrite r (planned (some n)) (declined e) = declined e
add_rewrite r (planned (some n)) (planned rs) = planned (r ∷ rs)

abbrev pub rewrite_at : Place → String → String → String → PinRewrite
rewrite_at place from_pin to_pin dep = record {
  in_package = place.in_package;
  workspace_root = place.workspace_root;
  dependency = dep;
  from = from_pin;
  to = to_pin;
}

-- The loop over the dependencies that one place pins.
unfoldable pub place_rewrites :
    List String → String → String → Place → Dict (List (Option String)) → Planned (List PinRewrite)
unfolding exact_pin_count add_rewrite contains
place_rewrites members from_pin to_pin place [] = planned []
place_rewrites members from_pin to_pin place (entry ∷ entries) =
    let rest = place_rewrites members from_pin to_pin place entries in
    if not (contains entry.0 members)
    then rest
    else add_rewrite (rewrite_at place from_pin to_pin entry.0)
        (exact_pin_count place.owner entry.0 entry.1 from_pin) rest

-- one loop after another
unfoldable pub both_rewrites :
    Planned (List PinRewrite) → Planned (List PinRewrite) → Planned (List PinRewrite)
both_rewrites (declined e) q = declined e
both_rewrites (planned rs) (declined e) = declined e
both_rewrites (planned rs) (planned qs) = planned (rs ++ qs)

abbrev pub owner_place : WorkspacePinOwner → Place
owner_place o = record {
  owner = str_append "crate `" (str_append o.package_name "`");
  in_package = o.package_name;
  workspace_root = false;
}

abbrev pub root_place : Place
root_place = record {
  owner = "root `[workspace.dependencies]`";
  in_package = "workspace";
  workspace_root = true;
}

-- The loop over the owners.
unfoldable pub owner_rewrites :
    List String → String → String → List WorkspacePinOwner → Planned (List PinRewrite)
unfolding place_rewrites both_rewrites
owner_rewrites members from_pin to_pin [] = planned []
owner_rewrites members from_pin to_pin (o ∷ os) =
    both_rewrites (place_rewrites members from_pin to_pin (owner_place o) o.pin_reqs)
      (owner_rewrites members from_pin to_pin os)

-- `false < true`, and equal truth values
unfoldable pub bool_lt : Bool → Bool → Bool
bool_lt a b = not a && b

unfoldable pub bool_eq : Bool → Bool → Bool
bool_eq true b = b
bool_eq false b = not b

unfoldable pub rewrite_le : PinRewrite → PinRewrite → Bool
unfolding bool_lt bool_eq
rewrite_le a b =
    let p = compare a.in_package b.in_package in
    let d = compare a.dependency b.dependency in
    bool_lt a.workspace_root b.workspace_root
    || (bool_eq a.workspace_root b.workspace_root && (is_lt p || (is_eq p && is_le d)))

unfoldable pub rewrite_same : PinRewrite → PinRewrite → Bool
unfolding bool_eq
rewrite_same a b =
    bool_eq a.workspace_root b.workspace_root
    && (str_eq a.in_package b.in_package && str_eq a.dependency b.dependency)

-- The sort, of which rewrites with equal keys are equal, and the dedup.
unfoldable pub sealed_order : Planned (List PinRewrite) → Planned (List PinRewrite)
unfolding rewrite_le rewrite_same sort_by dedup_by
sealed_order (declined e) = declined e
sealed_order (planned rs) = planned (dedup_by rewrite_same (sort_by rewrite_le rs))

-- `format!("={version}")`
abbrev pub exact_pin : String → String
exact_pin version = str_append "=" version

unfoldable pub workspace_rewrites : RustWorkspace → String → String → Planned (List PinRewrite)
unfolding owner_rewrites both_rewrites place_rewrites sealed_order
workspace_rewrites workspace from_version to_version =
    let members = map package_of workspace.members in
    let from_pin = exact_pin from_version in
    let to_pin = exact_pin to_version in
    elim workspace.pin_parse_error [
      | some reason ↦ declined (pins_unparsed reason)
      | none ↦ sealed_order (
          both_rewrites (owner_rewrites members from_pin to_pin workspace.pin_owners)
            (place_rewrites members from_pin to_pin root_place workspace.workspace_pin_reqs))
    ]

unfoldable pub derive_pin_rewrites : Facts → String → String → Planned (List PinRewrite)
unfolding workspace_rewrites
derive_pin_rewrites facts from_version to_version = elim facts.rust_workspace [
  | none ↦ planned []
  | some workspace ↦ workspace_rewrites workspace from_version to_version
]
