-- ===== src/Coordinator/Runs.antt =====
-- Any calls of the coordinator's phases and of whole cuts, one after the other: a cut and its resumes
-- (crates/shipshape-core/src/release/coordinator.rs).
pub mod Promises
use ossctl.Base.{String, Bool, List, [], ◌∷◌}
use ossctl.Journal.Disk.{Codec}
use ossctl.Coordinator.World.{TargetPlan, Env, World, Outcome}
use ossctl.Coordinator.Phases.{Reversible, reversible_phase, publish_phase, bump_phase, dist_phase}
use ossctl.Coordinator.Tagging.{ReleaseDisposition, tag_phase, advance_branch_phase}
use ossctl.Plan.{ReleasePlan}
use ossctl.Coordinator.Verify.{VerifyMode, verify_phase}
use ossctl.Coordinator.Verify.Refine.{verify_phase-Moves}
use ossctl.Coordinator.Execute.{execute}
use ossctl.Coordinator.Execute.Refine.{execute-Moves}
use ossctl.Coordinator.Moves.{Moves, Moves-trans}
use ossctl.Coordinator.Moves.Refine.{
  reversible_phase-Moves, publish_phase-Moves, bump_phase-Moves, dist_phase-Moves,
}
use ossctl.Coordinator.Moves.Tagged.{tag_phase-Moves, advance_branch_phase-Moves}

-- The phases and the whole cut, with their arguments.
pub data Call : Type 0 where
  call_bump : (planned : Bool) → Call
  call_reversible : Reversible → List TargetPlan → Call
  call_publish : List TargetPlan → Call
  call_tag : (version commit : String) → ReleaseDisposition → Call
  call_dist : (slug formula : Bool) → List TargetPlan → Call
  call_verify : VerifyMode → ReleasePlan → List TargetPlan → Call
  call_advance : (commit : String) → Call
  call_execute : ReleasePlan → Call

module _ (c : Codec) (env : Env c) where
  unfoldable pub run_call : Call → World c → Outcome c
  unfolding bump_phase reversible_phase publish_phase tag_phase dist_phase verify_phase
      advance_branch_phase execute
  run_call (call_bump planned) = bump_phase c env planned
  run_call (call_reversible r tps) = reversible_phase c env r tps
  run_call (call_publish tps) = publish_phase c env tps
  run_call (call_tag version commit d) = tag_phase c env version commit d
  run_call (call_dist slug formula tps) = dist_phase c env slug formula tps
  run_call (call_verify mode plan tps) = verify_phase c env plan mode tps
  run_call (call_advance commit) = advance_branch_phase c env commit
  run_call (call_execute plan) = execute c env plan

  -- The calls in turn, whatever each one returns.
  unfoldable pub run_calls : List Call → World c → World c
  unfolding run_call
  run_calls [] w = w
  run_calls (x ∷ xs) w = run_calls xs (run_call x w).1

  run_call-Moves : (x : Call) (w : World c) → Moves c env w (run_call x w).1
  unfolding run_call
  run_call-Moves (call_bump planned) w = bump_phase-Moves c env planned w
  run_call-Moves (call_reversible r tps) w = reversible_phase-Moves c env r tps w
  run_call-Moves (call_publish tps) w = publish_phase-Moves c env tps w
  run_call-Moves (call_tag version commit d) w = tag_phase-Moves c env version commit d w
  run_call-Moves (call_dist slug formula tps) w = dist_phase-Moves c env slug formula tps w
  run_call-Moves (call_verify mode plan tps) w = verify_phase-Moves c env plan mode tps w
  run_call-Moves (call_advance commit) w = advance_branch_phase-Moves c env commit w
  run_call-Moves (call_execute plan) w = execute-Moves c env plan w

  -- Every sequence of calls of the phases and of whole cuts is a sequence of moves of the abstract machine, each act
  -- asked in a state that allows it and each event journalled in a state that permits it.
  pub run_calls-Moves : (xs : List Call) (w : World c) → Moves c env w (run_calls xs w)
  unfolding run_calls
  run_calls-Moves [] w = Moves.stop
  run_calls-Moves (x ∷ xs) w =
      Moves-trans c env (run_call-Moves x w) (run_calls-Moves xs (run_call x w).1)
