-- ===== src/Coordinator/Execute/Tests.antt =====
-- A cut of two targets, from the plan to the end of verify
-- (crates/shipshape-core/src/release/coordinator.rs).
use ossctl.Base.{◌≡◌, ◌≢◌, refl, true, ◌+◌, ◌≤◌, List, ◌∷◌, [], ◌++◌, fold, All}
use ossctl.Base.Dict.{lookup, add}
use ossctl.Plan.{PlanPhase-discrete}
use ossctl.Schema.{Ecosystem-discrete, Registry-discrete, Adapter-discrete, registry_as_str}
use ossctl.Journal.{
  Phase-discrete, empty, target_published, target_delegated, verify, phase_completed, PhaseOutcome,
}
use ossctl.Journal.Reduce.{apply}
use ossctl.Journal.Sample.{plain, disk, event, receipt, start}
use mathlib.Core.Option.{or_else}
use ossctl.Coordinator.World.{TargetPlan, World, Step, journalled, done, phase_completed_ok}
use ossctl.Coordinator.Resolve.{resolved, resolve_target_plans}
use ossctl.Coordinator.Verify.{completion_barrier, observe_after_dist_failure, verify_phase}
use ossctl.Coordinator.Verify.Evidence.{Confirmed}
use ossctl.Coordinator.Verify.Confirm.{verify_phase-Confirmed}
use ossctl.Coordinator.Verify.AfterFailure.{verify_phase-ne_done}
use ossctl.Coordinator.Verify.Sleeps.{sleeps}
use ossctl.Coordinator.Verify.Bounds.{verify_phase-sleeps}
use ossctl.Coordinator.Execute.{execute}
use ossctl.Coordinator.Execute.Verified.{Passed, execute-Passed}
use ossctl.Coordinator.Tests.{env, fresh, plan, targets}

execute_test : (execute plain env plan fresh).0 ≡ done
unfolding execute Ecosystem-discrete Registry-discrete Adapter-discrete PlanPhase-discrete
    Phase-discrete registry_as_str apply add lookup or_else
execute_test = refl

execute-Passed_example :
    (tps : List TargetPlan) × (resolve_target_plans plan ≡ resolved tps)
    × Passed plain env plan tps fresh (execute plain env plan fresh).1
execute-Passed_example = execute-Passed plain env plan fresh execute_test

-- The first target was published before, and the second was left to CI.
abbrev tagged : World plain
tagged = record {
  journal = record {
    run_id = "r1";
    state = fold apply empty (
        start
        ++ event 3 (target_published "rust" receipt)
          ∷ event 4 (target_delegated "rust:cli" "cargo-publish-ci")
          ∷ []);
  };
  disk = disk;
  trace = [];
}

verify_phase-Confirmed_example :
    (closing : List Step) × ((verify_phase plain env plan completion_barrier targets tagged).1.trace
      ≡ journalled (phase_completed verify PhaseOutcome.ok) true ∷ closing)
    × All (Confirmed plain env plan targets tagged closing) targets
unfolding verify_phase Registry-discrete Adapter-discrete Phase-discrete apply add lookup or_else
    phase_completed_ok
verify_phase-Confirmed_example = verify_phase-Confirmed plain env plan targets tagged refl refl

verify_phase-ne_done_example :
    (verify_phase plain env plan observe_after_dist_failure targets tagged).0 ≢ done
unfolding phase_completed_ok apply lookup Phase-discrete
verify_phase-ne_done_example = verify_phase-ne_done plain env plan targets tagged refl

verify_phase-sleeps_example :
    sleeps (verify_phase plain env plan completion_barrier targets tagged).1.trace
    ≤ sleeps tagged.trace + 82
verify_phase-sleeps_example = verify_phase-sleeps plain env plan completion_barrier targets tagged
