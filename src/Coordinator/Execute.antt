-- ===== src/Coordinator/Execute.antt =====
-- A cut from its plan to the advance of the branch, in a checkout of the sealed commit
-- (crates/shipshape-core/src/release/coordinator.rs, `execute`, `dist_then_verify`, `SealedCheckout`).
pub mod Refine
pub mod Verified
mod Tests
use mathlib.Core.Logic.{ite}
use ossctl.Base.{
  String, Bool, true, false, Option, none, some, List, [], ◌∷◌, any, is_some, if◌then◌else◌,
}
use ossctl.Schema.{Adapter, homebrew_tap, homebrew_core, manual}
use ossctl.Plan.{ReleasePlan, PlanPhase, PlanPhase-discrete}
use ossctl.Journal.{BumpRecord}
use ossctl.Journal.Disk.{Codec}
use ossctl.Coordinator.World.{
  TargetPlan, Cut, Env, World, Outcome, probe_commit, add_worktree, remove_worktree,
  prune_worktrees, resolve_slug, done, phase_failed, journal_failed, plan_refused, checkout_failed,
  run_pending, run_failed, panicked, andthen, act,
}
use ossctl.Coordinator.Phases.{
  dry_run_all, build_all, bump_phase, reversible_phase, publish_phase, dist_phase,
}
use ossctl.Coordinator.Tagging.{tag_phase, release_disposition, advance_branch_phase}
use ossctl.Coordinator.Verify.{completion_barrier, observe_after_dist_failure, verify_phase}
use ossctl.Coordinator.Resolve.{Checked, resolved, refused, resolve_target_plans, validate_plan}

-- `needs_github_slug`
unfoldable pub wants_slug : Adapter → Bool
wants_slug manual = true
wants_slug homebrew_tap = true
wants_slug homebrew_core = true
wants_slug _ = false

unfoldable pub needs_github_slug : List TargetPlan → Bool
unfolding wants_slug
needs_github_slug = any (λ tp. wants_slug tp.adapter)

unfoldable pub is_formula : Adapter → Bool
is_formula homebrew_tap = true
is_formula homebrew_core = true
is_formula _ = false

-- whether `homebrew_inputs` has something to give
unfoldable pub has_homebrew_inputs : List TargetPlan → Bool
unfolding is_formula
has_homebrew_inputs = any (λ tp. is_formula tp.adapter)

-- the bump commit if there is one, else the sealed commit
unfoldable pub commit_or : String → Option BumpRecord → String
commit_or sealed none = sealed
commit_or sealed (some b) = b.commit

unfoldable pub plans_advance : ReleasePlan → Bool
plans_advance plan =
    any (λ p. ite (PlanPhase-discrete p PlanPhase.advance_branch) true false) plan.phases

module _ (c : Codec) (env : Env c) where
  -- `resolve_repo_slug`
  unfoldable pub resolve_repo_slug : List TargetPlan → World c → Option String × World c
  unfolding needs_github_slug
  resolve_repo_slug tps w =
      if needs_github_slug tps
      then (
        if env.works resolve_slug w.trace then env.slug w.trace else none,
        act c env resolve_slug w,
      )
      else (none, w)

  unfoldable pub checked_out : Bool → World c → Outcome c
  checked_out true w = (done, w)
  checked_out false w = (checkout_failed, w)

  unfoldable pub probed : Bool → String → World c → Outcome c
  unfolding checked_out
  probed true commit w =
      checked_out (env.works (add_worktree commit) w.trace) (act c env (add_worktree commit) w)
  probed false commit w = (checkout_failed, w)

  -- `SealedCheckout::materialize`
  unfoldable pub materialize : String → World c → Outcome c
  unfolding probed
  materialize commit w =
      probed (env.works (probe_commit commit) w.trace) commit (act c env (probe_commit commit) w)

  -- `Drop` of `SealedCheckout`, after whatever the effects returned
  abbrev pub drop_checkout : Outcome c → Outcome c
  drop_checkout (o, w) = (o, act c env prune_worktrees (act c env remove_worktree w))

  module _ (plan : ReleasePlan) (tps : List TargetPlan) where
    -- the dist failure, unless verify failed by more than a phase
    unfoldable pub after_observation : Cut → Outcome c → Outcome c
    after_observation e (done, w) = (e, w)
    after_observation e (phase_failed p t, w) = (e, w)
    after_observation e (journal_failed f, w) = (journal_failed f, w)
    after_observation e (plan_refused f, w) = (plan_refused f, w)
    after_observation e (checkout_failed, w) = (checkout_failed, w)
    after_observation e (run_pending t, w) = (run_pending t, w)
    after_observation e (run_failed t, w) = (run_failed t, w)
    after_observation e (panicked, w) = (panicked, w)

    -- the `match dist_result`
    unfoldable pub after_dist : Outcome c → Outcome c
    unfolding after_observation verify_phase
    after_dist (done, w) = verify_phase c env plan completion_barrier tps w
    after_dist (phase_failed p t, w) =
        after_observation (phase_failed p t)
          (verify_phase c env plan observe_after_dist_failure tps w)
    after_dist (journal_failed e, w) = (journal_failed e, w)
    after_dist (plan_refused e, w) = (plan_refused e, w)
    after_dist (checkout_failed, w) = (checkout_failed, w)
    after_dist (run_pending t, w) = (run_pending t, w)
    after_dist (run_failed t, w) = (run_failed t, w)
    after_dist (panicked, w) = (panicked, w)

    -- `dist_then_verify`
    unfoldable pub dist_then_verify : Option String → World c → Outcome c
    unfolding after_dist dist_phase has_homebrew_inputs
    dist_then_verify slug w =
        after_dist (dist_phase c env (is_some slug) (has_homebrew_inputs tps) tps w)

    unfoldable pub advance_if_planned : String → World c → Outcome c
    unfolding plans_advance advance_branch_phase
    advance_if_planned commit w =
        if plans_advance plan then advance_branch_phase c env commit w else (done, w)

    -- the phases after the bump
    unfoldable pub phases_after_bump : Option String → String → World c → Outcome c
    unfolding andthen reversible_phase publish_phase tag_phase release_disposition dist_then_verify
        advance_if_planned
    phases_after_bump slug commit w = andthen c (reversible_phase c env dry_run_all tps w) λ v.
        andthen c (reversible_phase c env build_all tps v) λ x.
          andthen c (publish_phase c env tps x) λ y.
            andthen c (tag_phase c env plan.version commit (release_disposition tps) y)
              λ z. andthen c (dist_then_verify slug z) (advance_if_planned commit)

    unfoldable pub effects : Option String → World c → Outcome c
    unfolding andthen bump_phase phases_after_bump commit_or
    effects slug w =
        andthen c (bump_phase c env (is_some plan.bump) w)
          λ v. phases_after_bump slug (commit_or plan.head_sha v.journal.state.bump) v

    unfoldable pub in_checkout : Option String → World c → Outcome c
    unfolding andthen materialize effects commit_or
    in_checkout slug w =
        andthen c (materialize (commit_or plan.head_sha w.journal.state.bump) w)
          λ v. drop_checkout (effects slug v)

    unfoldable pub cut_targets : World c → Outcome c
    unfolding in_checkout resolve_repo_slug
    cut_targets w = let (slug, v) = resolve_repo_slug tps w in in_checkout slug v

  unfoldable pub with_targets : ReleasePlan → Checked (List TargetPlan) → World c → Outcome c
  unfolding cut_targets
  with_targets plan (refused e) w = (plan_refused e, w)
  with_targets plan (resolved tps) w = cut_targets plan tps w

  unfoldable pub with_valid : ReleasePlan → Checked (List TargetPlan) → World c → Outcome c
  unfolding with_targets resolve_target_plans
  with_valid plan (refused e) w = (plan_refused e, w)
  with_valid plan (resolved _) w = with_targets plan (resolve_target_plans plan) w

  -- `execute`
  unfoldable pub execute : ReleasePlan → World c → Outcome c
  unfolding with_valid validate_plan
  execute plan w = with_valid plan (validate_plan plan) w
