-- ===== src/Plan/Edits.antt =====
-- The edits that a version bump seals
-- (crates/shipshape-core/src/release/plan.rs, `derive_bump_plan`).
use Prim.Native.String.{◌++◌ as str_append}
use ossctl.Base.{Bool, true, false, String, str_eq, Option, none, some, List, any, if◌then◌else◌}
use ossctl.Plan.{
  BumpLevel, ChangelogMode, curated, automated, fragment, ChangelogSource, issuectl_trailers,
  conventional_commits, manual, PinRewrite, BumpPlan,
}
use ossctl.Plan.Inputs.{Contract, Facts}
use ossctl.Plan.Pins.{Planned, planned, declined, derive_pin_rewrites}

unfoldable pub range_of : ChangelogSource → List String → String → String → Option String
range_of issuectl_trailers tags head_sha from_version =
    let expected = str_append "v" from_version in
    some (
      if any (λ t. str_eq t expected) tags
      then str_append expected (str_append ".." head_sha)
      else head_sha)
range_of conventional_commits tags head_sha from_version = none
range_of manual tags head_sha from_version = none

-- `issuectl_range`
unfoldable pub issuectl_range : Contract → Facts → String → String → Option String
unfolding range_of
issuectl_range contract facts head_sha from_version =
    range_of contract.changelog.source facts.tags head_sha from_version

unfoldable pub is_finalizable : ChangelogMode → Bool
is_finalizable curated = true
is_finalizable fragment = true
is_finalizable automated = false

-- `changelog_is_finalizable`
unfoldable pub changelog_is_finalizable : Contract → Bool
unfolding is_finalizable
changelog_is_finalizable contract = is_finalizable contract.changelog.mode

-- the `?` of a result
unfoldable pub map_planned : {A B : Type 0} → (A → B) → Planned A → Planned B
map_planned f (planned a) = planned (f a)
map_planned f (declined e) = declined e

unfoldable pub bump_plan :
    Contract → Facts → String → BumpLevel → String → String → List PinRewrite → BumpPlan
unfolding changelog_is_finalizable issuectl_range
bump_plan contract facts head_sha level from_version to_version rewrites = record {
  level = level;
  from_version = from_version;
  to_version = to_version;
  pin_rewrites = rewrites;
  changelog_finalize = changelog_is_finalizable contract;
  changelog =
      if changelog_is_finalizable contract
      then some (record {
        mode = contract.changelog.mode;
        source = contract.changelog.source;
        fragment_dir = contract.changelog.fragment_dir;
        issuectl_range = issuectl_range contract facts head_sha from_version;
      })
      else none;
  bump_hook = contract.bump_hook;
}

unfoldable pub derive_bump_plan :
    Contract → Facts → String → BumpLevel → String → String → Planned BumpPlan
unfolding bump_plan map_planned derive_pin_rewrites
derive_bump_plan contract facts head_sha level from_version to_version =
    map_planned (bump_plan contract facts head_sha level from_version to_version)
      (derive_pin_rewrites facts from_version to_version)
