-- ===== src/Coordinator/Execute/Refine.antt =====
-- A whole cut is a sequence of guarded moves
-- (crates/shipshape-core/src/release/coordinator.rs, `execute`).
use ossctl.Base.{String, Bool, true, false, Option, List, Bool-cases, inl, inr, is_some}
use ossctl.Plan.{ReleasePlan}
use ossctl.Journal.Disk.{Codec}
use ossctl.Coordinator.World.{
  TargetPlan, Cut, Env, World, Outcome, probe_commit, add_worktree, remove_worktree,
  prune_worktrees, resolve_slug, done, phase_failed, journal_failed, plan_refused, checkout_failed,
  run_pending, run_failed, panicked,
}
use ossctl.Coordinator.Phases.{dry_run_all, build_all, bump_phase, reversible_phase, publish_phase}
use ossctl.Coordinator.Tagging.{tag_phase, release_disposition}
use ossctl.Coordinator.Moves.{Move, Moves, Moves-trans, single}
use ossctl.Coordinator.Moves.Refine.{
  andthen-Moves, bump_phase-Moves, reversible_phase-Moves, publish_phase-Moves, dist_phase-Moves,
}
use ossctl.Coordinator.Moves.Tagged.{tag_phase-Moves, advance_branch_phase-Moves}
use ossctl.Coordinator.Verify.{completion_barrier, observe_after_dist_failure}
use ossctl.Coordinator.Verify.Refine.{verify_phase-Moves}
use ossctl.Coordinator.Resolve.{Checked, resolved, refused, resolve_target_plans, validate_plan}
use ossctl.Coordinator.Execute.{
  needs_github_slug, has_homebrew_inputs, commit_or, plans_advance, resolve_repo_slug, checked_out,
  probed, materialize, drop_checkout, after_observation, after_dist, dist_then_verify,
  advance_if_planned, phases_after_bump, effects, in_checkout, cut_targets, with_targets,
  with_valid, execute,
}

module _ (c : Codec) (env : Env c) where
  pub resolve_repo_slug-Moves :
      (tps : List TargetPlan) (w : World c) → Moves c env w (resolve_repo_slug c env tps w).1
  unfolding resolve_repo_slug
  resolve_repo_slug-Moves tps w = elim (Bool-cases (needs_github_slug tps)) [
    | inl h ↦ rw h (single c env (Move.acts resolve_slug w tt))
    | inr h ↦ rw h Moves.stop
  ]

  checked_out-Moves : (b : Bool) (w : World c) → Moves c env w (checked_out c env b w).1
  unfolding checked_out
  checked_out-Moves true w = Moves.stop
  checked_out-Moves false w = Moves.stop

  probed-Moves :
      (b : Bool) (commit : String) (w : World c) → Moves c env w (probed c env b commit w).1
  unfolding probed
  probed-Moves true commit w =
      Moves.then (Move.acts (add_worktree commit) w tt) (checked_out-Moves _ _)
  probed-Moves false commit w = Moves.stop

  pub materialize-Moves :
      (commit : String) (w : World c) → Moves c env w (materialize c env commit w).1
  unfolding materialize
  materialize-Moves commit w =
      Moves.then (Move.acts (probe_commit commit) w tt) (probed-Moves _ commit _)

  pub drop_checkout-Moves :
      (u : World c) (o : Outcome c) → Moves c env u o.1 → Moves c env u (drop_checkout c env o).1
  drop_checkout-Moves u (o, w) m =
      Moves-trans c env m (
        Moves.then (Move.acts remove_worktree w tt) (single c env (Move.acts prune_worktrees _ tt)))

  module _ (plan : ReleasePlan) (tps : List TargetPlan) where
    after_observation-Moves :
        (u : World c) (e : Cut) (o : Outcome c)
        → Moves c env u o.1
        → Moves c env u (after_observation c env plan tps e o).1
    unfolding after_observation
    after_observation-Moves u e (done, w) m = m
    after_observation-Moves u e (phase_failed p t, w) m = m
    after_observation-Moves u e (journal_failed f, w) m = m
    after_observation-Moves u e (plan_refused f, w) m = m
    after_observation-Moves u e (checkout_failed, w) m = m
    after_observation-Moves u e (run_pending t, w) m = m
    after_observation-Moves u e (run_failed t, w) m = m
    after_observation-Moves u e (panicked, w) m = m

    after_dist-Moves :
        (u : World c) (o : Outcome c)
        → Moves c env u o.1
        → Moves c env u (after_dist c env plan tps o).1
    unfolding after_dist
    after_dist-Moves u (done, w) m =
        Moves-trans c env m (verify_phase-Moves c env plan completion_barrier tps w)
    after_dist-Moves u (phase_failed p t, w) m =
        after_observation-Moves u (phase_failed p t) _
          (Moves-trans c env m (verify_phase-Moves c env plan observe_after_dist_failure tps w))
    after_dist-Moves u (journal_failed e, w) m = m
    after_dist-Moves u (plan_refused e, w) m = m
    after_dist-Moves u (checkout_failed, w) m = m
    after_dist-Moves u (run_pending t, w) m = m
    after_dist-Moves u (run_failed t, w) m = m
    after_dist-Moves u (panicked, w) m = m

    pub dist_then_verify-Moves :
        (slug : Option String) (w : World c)
        → Moves c env w (dist_then_verify c env plan tps slug w).1
    unfolding dist_then_verify
    dist_then_verify-Moves slug w =
        after_dist-Moves w _ (dist_phase-Moves c env (is_some slug) (has_homebrew_inputs tps) tps w)

    pub advance_if_planned-Moves :
        (commit : String) (w : World c)
        → Moves c env w (advance_if_planned c env plan tps commit w).1
    unfolding advance_if_planned
    advance_if_planned-Moves commit w = elim (Bool-cases (plans_advance plan)) [
      | inl h ↦ rw h (advance_branch_phase-Moves c env commit w)
      | inr h ↦ rw h Moves.stop
    ]

    pub phases_after_bump-Moves :
        (slug : Option String) (commit : String) (w : World c)
        → Moves c env w (phases_after_bump c env plan tps slug commit w).1
    unfolding phases_after_bump
    phases_after_bump-Moves slug commit w =
        andthen-Moves c env (reversible_phase c env dry_run_all tps w) _
          (reversible_phase-Moves c env dry_run_all tps w)
          λ v e.
            andthen-Moves c env (reversible_phase c env build_all tps v) _
              (reversible_phase-Moves c env build_all tps v)
              λ x e.
                andthen-Moves c env (publish_phase c env tps x) _ (publish_phase-Moves c env tps x)
                  λ y e.
                    andthen-Moves c env
                      (tag_phase c env plan.version commit (release_disposition tps) y) _
                      (tag_phase-Moves c env plan.version commit (release_disposition tps) y)
                      λ z e.
                        andthen-Moves c env (dist_then_verify c env plan tps slug z) _
                          (dist_then_verify-Moves slug z) λ a e. advance_if_planned-Moves commit a

    pub effects-Moves :
        (slug : Option String) (w : World c) → Moves c env w (effects c env plan tps slug w).1
    unfolding effects
    effects-Moves slug w =
        andthen-Moves c env (bump_phase c env (is_some plan.bump) w) _
          (bump_phase-Moves c env (is_some plan.bump) w) λ v e. phases_after_bump-Moves slug _ v

    in_checkout-Moves :
        (slug : Option String) (w : World c) → Moves c env w (in_checkout c env plan tps slug w).1
    unfolding in_checkout
    in_checkout-Moves slug w =
        andthen-Moves c env (materialize c env (commit_or plan.head_sha w.journal.state.bump) w) _
          (materialize-Moves _ w)
          λ v e. drop_checkout-Moves v (effects c env plan tps slug v) (effects-Moves slug v)

    cut_targets-Moves : (w : World c) → Moves c env w (cut_targets c env plan tps w).1
    unfolding cut_targets
    cut_targets-Moves w = Moves-trans c env (resolve_repo_slug-Moves tps w) (in_checkout-Moves _ _)

  with_targets-Moves :
      (plan : ReleasePlan) (r : Checked (List TargetPlan)) (w : World c)
      → Moves c env w (with_targets c env plan r w).1
  unfolding with_targets
  with_targets-Moves plan (refused e) w = Moves.stop
  with_targets-Moves plan (resolved tps) w = cut_targets-Moves plan tps w

  with_valid-Moves :
      (plan : ReleasePlan) (r : Checked (List TargetPlan)) (w : World c)
      → Moves c env w (with_valid c env plan r w).1
  unfolding with_valid
  with_valid-Moves plan (refused e) w = Moves.stop
  with_valid-Moves plan (resolved tps) w = with_targets-Moves plan (resolve_target_plans plan) w

  pub execute-Moves : (plan : ReleasePlan) (w : World c) → Moves c env w (execute c env plan w).1
  unfolding execute
  execute-Moves plan w = with_valid-Moves plan (validate_plan plan) w
