-- ===== src/Plan/Build/Sealed.antt =====
-- What a plan with a version bump seals
-- (crates/shipshape-core/src/release/plan.rs, `build_with_bump`).
use mathlib.Core.List.{Memᴰ}
use ossctl.Base.{ℕ, ◌≡◌, refl, true, String, Option, none, some, List, [], map, any, arith}
use ossctl.Base.Dict.{Dict, contains}
use ossctl.Base.Text.{bytes, version_text}
use ossctl.Bump.{Bumped, good, bad, bump_version}
use ossctl.Plan.{BumpLevel, PinRewrite, BumpPlan, ReleasePlan}
use ossctl.Plan.Order.{package_of}
use ossctl.Plan.Inputs.{Contract, RustWorkspace, Facts}
use ossctl.Plan.Pins.{Planned, planned, declined, Place, is_exact, exact_pin, derive_pin_rewrites}
use ossctl.Plan.Pins.Counted.{rewrites}
use ossctl.Plan.Pins.Complete.{PinnedAt, derive_pin_rewrites-Handled}
use ossctl.Plan.Edits.{map_planned, bump_plan, derive_bump_plan}
use ossctl.Plan.Build.{SealInput, build_inner, build_bumped, build_with_bump}

map_planned_cases :
    {A B : Type 0} (f : A → B) (p : Planned A) (b : B)
    → map_planned f p ≡ planned b
    → (a : A) × (p ≡ planned a) × (b ≡ f a)
unfolding map_planned
map_planned_cases f (declined e) b h = absurd (ground (arith, h))
map_planned_cases f (planned a) b h = (a, refl, (cc))

module _ (to_vec : SealInput → List ℕ) (hex : List ℕ → String) (contract : Contract) (facts : Facts)
    (head_sha from_version : String) (level : BumpLevel) where
  -- A plan with a bump: the version that the bump gives, the rewrites that the facts give, and what
  -- is built from them.
  abbrev Bumps : ReleasePlan → List ℕ → List PinRewrite → Type 0
  Bumps p to rs =
      (bump_version level (bytes from_version) ≡ good to)
      × (derive_pin_rewrites facts from_version (version_text to) ≡ planned rs)
      × (p
          ≡ build_inner to_vec hex contract facts head_sha (version_text to)
              (some (bump_plan contract facts head_sha level from_version (version_text to) rs)))

  bumped_cases :
      (o : Bumped (List ℕ)) (p : ReleasePlan)
      → build_bumped to_vec hex contract facts head_sha from_version level o ≡ planned p
      → (to : List ℕ) × (rs : List PinRewrite) × (o ≡ good to)
        × (derive_pin_rewrites facts from_version (version_text to) ≡ planned rs)
        × (p
            ≡ build_inner to_vec hex contract facts head_sha
                (version_text to)
                (some (bump_plan contract facts head_sha level from_version (version_text to) rs)))
  unfolding build_bumped derive_bump_plan
  bumped_cases (bad r) p h = absurd (ground (arith, h))
  bumped_cases (good to) p h =
      let (b, derived, made) =
        map_planned_cases
          (λ (b : BumpPlan).
            build_inner to_vec hex contract facts head_sha (version_text to) (some b))
          (derive_bump_plan contract facts head_sha level from_version (version_text to)) p h in
      let (rs, pins, shaped) =
        map_planned_cases (bump_plan contract facts head_sha level from_version (version_text to))
          (derive_pin_rewrites facts from_version (version_text to)) b derived in
      (to, rs, refl, pins, rw shaped at made)

  pub build_with_bump-Bumps :
      (p : ReleasePlan)
      → build_with_bump to_vec hex contract facts head_sha from_version level ≡ planned p
      → (to : List ℕ) × (rs : List PinRewrite) × Bumps p to rs
  unfolding build_with_bump
  build_with_bump-Bumps p h =
      let (to, rs, bumped, pins, made) =
        bumped_cases (bump_version level (bytes from_version)) p h in
      (to, rs, (bumped, pins, made))

  -- The rewrites of a plan, none when it has no bump.
  abbrev pub sealed_rewrites : Option BumpPlan → List PinRewrite
  sealed_rewrites none = []
  sealed_rewrites (some b) = b.pin_rewrites

  rewrites_of :
      (p : ReleasePlan) (to : List ℕ) (rs : List PinRewrite)
      → Bumps p to rs
      → sealed_rewrites p.bump ≡ rs
  unfolding build_inner bump_plan
  rewrites_of p to rs (bumped, pins, made) = λ i. sealed_rewrites (made i).bump

  -- A plan with a bump is made only when every exact requirement on a workspace member, in a manifest of
  -- a pin owner or in the root's table, is the pin on the version bumped from, and then the plan seals a
  -- rewrite of that dependency in that manifest.
  pub build_with_bump-Handled :
      (w : RustWorkspace) (p : ReleasePlan)
      → facts.rust_workspace ≡ some w
      → build_with_bump to_vec hex contract facts head_sha from_version level ≡ planned p
      → {place : Place} {entries : Dict (List (Option String))} → PinnedAt w place entries
      → (dep r : String) (reqs : List (Option String)) → Memᴰ (dep, reqs) entries
      → contains dep (map package_of w.members) ≡ true
      → Memᴰ (some r) reqs
      → is_exact (some r) ≡ true
      → (r ≡ exact_pin from_version) × (any (rewrites place dep) (sealed_rewrites p.bump) ≡ true)
  build_with_bump-Handled w p e h {place = place} pinned_at dep r reqs m c mr x =
      let (to, rs, (bumped, pins, made)) = build_with_bump-Bumps p h in
      let (pinned, found) =
        derive_pin_rewrites-Handled facts w from_version (version_text to) rs e pins pinned_at dep r
          reqs m c mr x in
      (pinned, rw (rewrites_of p to rs (bumped, pins, made)) found)
