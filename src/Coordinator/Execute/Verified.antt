-- ===== src/Coordinator/Execute/Verified.antt =====
-- A cut that succeeds has passed the verify barrier
-- (crates/shipshape-core/src/release/coordinator.rs, `execute`).
use mathlib.Core.Path.{subst}
use ossctl.Base.{
  String, ◌≡◌, ◌≢◌, refl, sym, ap, ◌∙◌, ◌⊎◌, inl, inr, true, Option, List, Bool-cases, All, is_some,
  ◌∷◌,
}
use ossctl.Plan.{ReleasePlan}
use ossctl.Journal.{PhaseOutcome, verify, phase_completed}
use ossctl.Journal.Disk.{Codec}
use ossctl.Coordinator.World.{
  TargetPlan, Cut, Env, World, Step, Outcome, journalled, done, phase_failed, journal_failed,
  plan_refused, checkout_failed, run_pending, run_failed, panicked, andthen, phase_completed_ok,
}
use ossctl.Coordinator.Phases.{
  dry_run_all, build_all, bump_phase, reversible_phase, publish_phase, dist_phase,
}
use ossctl.Coordinator.Tagging.{tag_phase, release_disposition}
use ossctl.Coordinator.Moves.{Moves, Moves-trans}
use ossctl.Coordinator.Moves.Refine.{bump_phase-Moves, reversible_phase-Moves, publish_phase-Moves}
use ossctl.Coordinator.Moves.Tagged.{tag_phase-Moves}
use ossctl.Coordinator.Moves.Account.{andthen-done}
use ossctl.Coordinator.Verify.{completion_barrier, verify_phase}
use ossctl.Coordinator.Verify.Shown.{Earlier, Earlier-trans, Earlier-Moves}
use ossctl.Coordinator.Verify.Evidence.{Confirmed}
use ossctl.Coordinator.Verify.Confirm.{verify_phase-Confirmed}
use ossctl.Coordinator.Resolve.{Checked, resolved, refused, resolve_target_plans, validate_plan}
use ossctl.Coordinator.Execute.{
  has_homebrew_inputs, commit_or, materialize, drop_checkout, after_observation, after_dist,
  dist_then_verify, phases_after_bump, effects, in_checkout, cut_targets, with_targets, with_valid,
  execute,
}
use ossctl.Coordinator.Execute.Refine.{
  resolve_repo_slug-Moves, materialize-Moves, drop_checkout-Moves, advance_if_planned-Moves,
}

module _ (c : Codec) (env : Env c) where
  -- From the world `u` to the world `w` the completion barrier was passed.
  pub record Passed (plan : ReleasePlan) (tps : List TargetPlan) (u w : World c) : Type 0 where
    -- the dist phase that ended well, with the world before it
    pub slug : Option String
    pub tagged : World c
    pub before : Moves c env u tagged
    pub at_barrier : World c
    pub dist :
        dist_phase c env (is_some slug) (has_homebrew_inputs tps) tps tagged ≡ (done, at_barrier)
    -- the barrier that was run next, and what it left in the history
    pub after_barrier : World c
    pub barrier : verify_phase c env plan completion_barrier tps at_barrier ≡ (done, after_barrier)
    pub passed :
        (phase_completed_ok at_barrier.journal.state verify ≡ true)
        ⊎ ((closing : List Step) × (after_barrier.trace
              ≡ journalled (phase_completed verify PhaseOutcome.ok) true ∷ closing)
            × All (Confirmed c env plan tps at_barrier closing) tps)
    -- the rest of the cut
    pub after : Moves c env after_barrier w
    pub kept : Earlier after_barrier.trace w.trace

  abbrev pub Ends : (World c → Type 0) → Outcome c → Type 0
  Ends P o = o.0 ≡ done → P o.1

  module _ (plan : ReleasePlan) (tps : List TargetPlan) where
    done_eq : (o : Outcome c) → o.0 ≡ done → o ≡ (done, o.1)
    done_eq (e, w) h = λ i. (h i, w)

    dist-Passed :
        (slug : Option String) (w v : World c)
        → dist_phase c env (is_some slug) (has_homebrew_inputs tps) tps w ≡ (done, v)
        → Ends (Passed plan tps w) (verify_phase c env plan completion_barrier tps v)
    dist-Passed slug w v e h = record {
      slug = slug;
      tagged = w;
      before = Moves.stop;
      at_barrier = v;
      dist = e;
      after_barrier = (verify_phase c env plan completion_barrier tps v).1;
      barrier = done_eq (verify_phase c env plan completion_barrier tps v) h;
      passed = elim (Bool-cases (phase_completed_ok v.journal.state verify)) [
        | inl old ↦ inl old
        | inr new ↦ inr (verify_phase-Confirmed c env plan tps v new h)
      ];
      after = Moves.stop;
      kept = Earlier.same;
    }

    Passed-before : {u v w : World c} → Moves c env u v → Passed plan tps v w → Passed plan tps u w
    Passed-before m p = record {
      slug = p.slug;
      tagged = p.tagged;
      before = Moves-trans c env m p.before;
      at_barrier = p.at_barrier;
      dist = p.dist;
      after_barrier = p.after_barrier;
      barrier = p.barrier;
      passed = p.passed;
      after = p.after;
      kept = p.kept;
    }

    Passed-after : {u v w : World c} → Passed plan tps u v → Moves c env v w → Passed plan tps u w
    Passed-after p m = record {
      slug = p.slug;
      tagged = p.tagged;
      before = p.before;
      at_barrier = p.at_barrier;
      dist = p.dist;
      after_barrier = p.after_barrier;
      barrier = p.barrier;
      passed = p.passed;
      after = Moves-trans c env p.after m;
      kept = Earlier-trans p.kept (Earlier-Moves c env m);
    }

    after_observation-ne_done :
        (e : Cut) (o : Outcome c) → e ≢ done → (after_observation c env plan tps e o).0 ≢ done
    unfolding after_observation
    after_observation-ne_done e (done, w) n h = n h
    after_observation-ne_done e (phase_failed p t, w) n h = n h
    after_observation-ne_done e (journal_failed f, w) n h = cc h
    after_observation-ne_done e (plan_refused f, w) n h = cc h
    after_observation-ne_done e (checkout_failed, w) n h = cc h
    after_observation-ne_done e (run_pending t, w) n h = cc h
    after_observation-ne_done e (run_failed t, w) n h = cc h
    after_observation-ne_done e (panicked, w) n h = cc h

    after_dist-Passed :
        (slug : Option String) (w : World c) (o : Outcome c)
        → dist_phase c env (is_some slug) (has_homebrew_inputs tps) tps w ≡ o
        → Ends (Passed plan tps w) (after_dist c env plan tps o)
    unfolding after_dist
    after_dist-Passed slug w (done, v) e h = dist-Passed slug w v e h
    after_dist-Passed slug w (phase_failed p t, v) e h =
        absurd (after_observation-ne_done (phase_failed p t) _ (λ e. cc e) h)
    after_dist-Passed slug w (journal_failed f, v) e h = absurd (cc h)
    after_dist-Passed slug w (plan_refused f, v) e h = absurd (cc h)
    after_dist-Passed slug w (checkout_failed, v) e h = absurd (cc h)
    after_dist-Passed slug w (run_pending t, v) e h = absurd (cc h)
    after_dist-Passed slug w (run_failed t, v) e h = absurd (cc h)
    after_dist-Passed slug w (panicked, v) e h = absurd (cc h)

    dist_then_verify-Passed :
        (slug : Option String) (w : World c)
        → Ends (Passed plan tps w) (dist_then_verify c env plan tps slug w)
    unfolding dist_then_verify
    dist_then_verify-Passed slug w h = after_dist-Passed slug w _ refl h

    -- A step in front of a part that passes the barrier when it ends well, and a step after it.
    then_passes :
        (u : World c) (o : Outcome c) (f : World c → Outcome c)
        → Moves c env u o.1
        → ((v : World c) → Ends (Passed plan tps v) (f v))
        → Ends (Passed plan tps u) (andthen c o f)
    then_passes u o f m g h =
        let (first, same) = andthen-done c env o f h in
        subst (λ (x : Outcome c). Passed plan tps u x.1) (sym same)
          (Passed-before m (g o.1 (sym (ap (λ (x : Outcome c). x.0) same) ∙ h)))

    passes_then :
        (u : World c) (o : Outcome c) (f : World c → Outcome c)
        → Ends (Passed plan tps u) o
        → ((v : World c) → Moves c env v (f v).1)
        → Ends (Passed plan tps u) (andthen c o f)
    passes_then u o f p g h =
        let (first, same) = andthen-done c env o f h in
        subst (λ (x : Outcome c). Passed plan tps u x.1) (sym same) (Passed-after (p first) (g o.1))

    phases_after_bump-Passed :
        (slug : Option String) (commit : String) (w : World c)
        → Ends (Passed plan tps w) (phases_after_bump c env plan tps slug commit w)
    unfolding phases_after_bump
    phases_after_bump-Passed slug commit w =
        then_passes w (reversible_phase c env dry_run_all tps w) _
          (reversible_phase-Moves c env dry_run_all tps w)
          λ v.
            then_passes v (reversible_phase c env build_all tps v) _
              (reversible_phase-Moves c env build_all tps v)
              λ x.
                then_passes x (publish_phase c env tps x) _ (publish_phase-Moves c env tps x) λ y.
                  then_passes y (tag_phase c env plan.version commit (release_disposition tps) y) _
                    (tag_phase-Moves c env plan.version commit (release_disposition tps) y)
                    λ z.
                      passes_then z (dist_then_verify c env plan tps slug z) _
                        (dist_then_verify-Passed slug z)
                        λ a. advance_if_planned-Moves c env plan tps commit a

    effects-Passed :
        (slug : Option String) (w : World c)
        → Ends (Passed plan tps w) (effects c env plan tps slug w)
    unfolding effects
    effects-Passed slug w =
        then_passes w (bump_phase c env (is_some plan.bump) w) _
          (bump_phase-Moves c env (is_some plan.bump) w) λ v. phases_after_bump-Passed slug _ v

    drop_checkout-Passed :
        (u : World c) (o : Outcome c)
        → Ends (Passed plan tps u) o
        → Ends (Passed plan tps u) (drop_checkout c env o)
    drop_checkout-Passed u (o, w) p h =
        Passed-after (p h) (drop_checkout-Moves c env w (o, w) Moves.stop)

    in_checkout-Passed :
        (slug : Option String) (w : World c)
        → Ends (Passed plan tps w) (in_checkout c env plan tps slug w)
    unfolding in_checkout
    in_checkout-Passed slug w =
        then_passes w (materialize c env (commit_or plan.head_sha w.journal.state.bump) w) _
          (materialize-Moves c env _ w)
          λ v. drop_checkout-Passed v (effects c env plan tps slug v) (effects-Passed slug v)

    cut_targets-Passed : (w : World c) → Ends (Passed plan tps w) (cut_targets c env plan tps w)
    unfolding cut_targets
    cut_targets-Passed w h =
        Passed-before (resolve_repo_slug-Moves c env tps w) (in_checkout-Passed _ _ h)

  with_targets-Passed :
      (plan : ReleasePlan) (r : Checked (List TargetPlan)) (w : World c)
      → (with_targets c env plan r w).0 ≡ done
      → (tps : List TargetPlan) × (r ≡ resolved tps)
        × Passed plan tps w (with_targets c env plan r w).1
  unfolding with_targets
  with_targets-Passed plan (refused e) w h = absurd (cc h)
  with_targets-Passed plan (resolved tps) w h = (tps, refl, cut_targets-Passed plan tps w h)

  with_valid-Passed :
      (plan : ReleasePlan) (r : Checked (List TargetPlan)) (w : World c)
      → (with_valid c env plan r w).0 ≡ done
      → (tps : List TargetPlan) × (resolve_target_plans plan ≡ resolved tps)
        × Passed plan tps w (with_valid c env plan r w).1
  unfolding with_valid
  with_valid-Passed plan (refused e) w h = absurd (cc h)
  with_valid-Passed plan (resolved tps) w h =
      with_targets-Passed plan (resolve_target_plans plan) w h

  -- A cut that returns success had a plan whose targets resolve, and its history shows the verify
  -- barrier: a dist phase that ended well, run in a world that the cut's moves reach from its start,
  -- and then `verify_phase` in the world that the dist phase left, also ending well, whose history the
  -- cut's history extends. Either verify was complete when it was run; or it closed the phase by its
  -- last step, and before that it confirmed every target: the match of the target's id was on record
  -- when it was run, or was observed and then written.
  pub execute-Passed :
      (plan : ReleasePlan) (w : World c)
      → (execute c env plan w).0 ≡ done
      → (tps : List TargetPlan) × (resolve_target_plans plan ≡ resolved tps)
        × Passed plan tps w (execute c env plan w).1
  unfolding execute
  execute-Passed plan w h = with_valid-Passed plan (validate_plan plan) w h
