-- ===== src/Coordinator/Verify/Confirm.antt =====
-- A verify phase that is done has confirmed every target
-- (crates/shipshape-core/src/release/coordinator.rs, `verify_phase`).
use ossctl.Base.{ℕ, ◌≡◌, refl, sym, ap, ◌∙◌, true, false, none, some, List, ◌∷◌, All}
use ossctl.Plan.{ReleasePlan}
use ossctl.Journal.{PhaseOutcome, unknown, verify, phase_entered, phase_completed, target_verified}
use ossctl.Journal.Disk.{Codec}
use ossctl.Coordinator.World.{
  TargetPlan, Env, World, Step, Outcome, journalled, done, phase_completed_ok, record_event,
  andthen,
}
use ossctl.Coordinator.Moves.{Moves, Moves-trans}
use ossctl.Coordinator.Moves.Refine.{record_event-Moves}
use ossctl.Coordinator.Moves.Account.{andthen-done}
use ossctl.Coordinator.Verify.Window.{
  WaitResult, no_owners, runs_ready, no_pending, run_unready, wait_for_delegated_runs,
}
use ossctl.Coordinator.Verify.{
  completion_barrier, finish_verify, verify_targets, after_wait, verify_body,
  verify_delegated_destinations, verify_phase,
}
use ossctl.Coordinator.Verify.Refine.{
  Quiet, wait_for_delegated_runs-Quiet, verify_delegated_destinations-Quiet,
}
use ossctl.Coordinator.Verify.Shown.{Earlier-trans, Earlier-Moves}
use ossctl.Coordinator.Verify.Sighting.{verify_delegated_destinations-Grounds}
use ossctl.Coordinator.Verify.Evidence.{Confirmed, Grounded, Grounded-quiet, Grounded-entered}
use ossctl.Coordinator.Verify.Loop.{Closed, finish_verify-done, verify_targets-done}

module _ (c : Codec) (env : Env c) where
  module _ (plan : ReleasePlan) (tps : List TargetPlan) (u : World c) where
    -- The loop with the outcomes of the destinations.
    destinations-done :
        (start left : ℕ) (w : World c)
        → Moves c env u w
        → Grounded c env plan tps u w
        → let (outcomes, v) = verify_delegated_destinations c env plan left start tps w in
          (verify_targets c env plan completion_barrier outcomes tps none v).0 ≡ done
          → Closed c env plan tps u w tps none
              (verify_targets c env plan completion_barrier outcomes tps none v).1
    destinations-done start left w m g h =
        let (outcomes, v) = verify_delegated_destinations c env plan left start tps w in
        let q : Quiet c env w v = verify_delegated_destinations-Quiet c env plan left start tps w in
        let x =
          verify_targets-done c env plan tps u outcomes tps none v
            (record {
              reached = Moves-trans c env m q.0;
              grounded = Grounded-quiet c env plan tps u w v (Earlier-Moves c env q.0) q.1 g;
              known = λ id e.
                  verify_delegated_destinations-Grounds c env plan tps u left start w id m e;
              within = λ x l. l;
            })
            h in
        record {
          clean = x.clean;
          closing = x.closing;
          closed = x.closed;
          later = Earlier-trans (Earlier-Moves c env q.0) x.later;
          confirmed = x.confirmed;
        }

    after_wait-done :
        (start : ℕ) (r : WaitResult) (left : ℕ) (w : World c)
        → Moves c env u w
        → Grounded c env plan tps u w
        → (after_wait c env plan tps start r left w).0 ≡ done
        → Closed c env plan tps u w tps none (after_wait c env plan tps start r left w).1
    unfolding after_wait
    after_wait-done start (run_unready tp f) left w m g h =
        let recorded : Outcome c = record_event c env (target_verified tp.id unknown) w in
        let rest : World c → Outcome c =
          finish_verify c env plan completion_barrier (some (tp, f)) in
        let (written, same) = andthen-done c env recorded rest h in
        let x =
          finish_verify-done c env plan tps u (some (tp, f)) recorded.1
            (sym (ap (λ (x : Outcome c). x.0) same) ∙ h) in
        let wrong = x.clean in absurd (cc wrong)
    after_wait-done start no_pending left w m g h = absurd (cc h)
    after_wait-done start no_owners left w m g h = destinations-done start left w m g h
    after_wait-done start runs_ready left w m g h = destinations-done start left w m g h

    verify_body-done :
        (w : World c)
        → Moves c env u w
        → Grounded c env plan tps u w
        → (verify_body c env plan completion_barrier tps w).0 ≡ done
        → Closed c env plan tps u w tps none (verify_body c env plan completion_barrier tps w).1
    unfolding verify_body
    verify_body-done w m g h =
        let start = env.now w.trace in
        let (r, left, v) = wait_for_delegated_runs c env start tps w in
        let q : Quiet c env w v = wait_for_delegated_runs-Quiet c env start tps w in
        let x =
          after_wait-done start r left v (Moves-trans c env m q.0)
            (Grounded-quiet c env plan tps u w v (Earlier-Moves c env q.0) q.1 g) h in
        record {
          clean = x.clean;
          closing = x.closing;
          closed = x.closed;
          later = Earlier-trans (Earlier-Moves c env q.0) x.later;
          confirmed = x.confirmed;
        }

    -- A completion barrier that was not complete and ends well has closed the phase by its last step,
    -- and before that it confirmed every target. Either the match of the target's id was on record at
    -- the start; or, since the start, a target of the phase with that id was observed to match (a
    -- delegated one when its destination, that is the tap, the release or the index, was asked and
    -- answered so; one that is not delegated when the adapter was asked about the receipt that the
    -- journal held and answered so), and the match was written to the journal after that.
    pub verify_phase-Confirmed :
        phase_completed_ok u.journal.state verify ≡ false
        → (verify_phase c env plan completion_barrier tps u).0 ≡ done
        → (closing : List Step) × ((verify_phase c env plan completion_barrier tps u).1.trace
            ≡ journalled (phase_completed verify PhaseOutcome.ok) true ∷ closing)
          × All (Confirmed c env plan tps u closing) tps
    verify_phase-Confirmed new h =
        let entered : Outcome c = record_event c env (phase_entered verify) u in
        let body : World c → Outcome c = verify_body c env plan completion_barrier tps in
        let step : verify_phase c env plan completion_barrier tps u ≡ andthen c entered body =
          unfold verify_phase in rw new refl in
        let (written, then_body) =
          andthen-done c env entered body (sym (ap (λ (x : Outcome c). x.0) step) ∙ h) in
        let same : verify_phase c env plan completion_barrier tps u ≡ body entered.1 =
          step ∙ then_body in
        let x =
          verify_body-done entered.1 (record_event-Moves c env (phase_entered verify) u tt)
            (Grounded-entered c env plan tps u) (sym (ap (λ (x : Outcome c). x.0) same) ∙ h) in
        (x.closing, ap (λ (o : Outcome c). o.1.trace) same ∙ x.closed, x.confirmed)
