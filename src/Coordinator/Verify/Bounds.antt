-- ===== src/Coordinator/Verify/Bounds.antt =====
-- How long the verify phase may wait
-- (crates/shipshape-core/src/release/coordinator.rs, `DelegatedVerifyWindow`).
use ossctl.Base.{
  ℕ, zero, suc, ◌+◌, ◌≤◌, ◌==◌, String, refl, ◌∙◌, Bool, true, false, ◌||◌, Option, none, some,
  List, [], ◌∷◌, Bool-cases, inl, inr, is_empty, arith,
}
use ossctl.Base.Dict.{Dict, lookup, contains}
use ossctl.Plan.{ReleasePlan}
use ossctl.Journal.{
  PhaseOutcome, PublishReceipt, VerifyOutcome, unknown, verify, phase_entered, phase_completed,
  target_verified,
}
use ossctl.Journal.Disk.{Codec}
use ossctl.Coordinator.World.{
  TargetPlan, Env, World, Outcome, done, phase_failed, journal_failed, plan_refused,
  checkout_failed, run_pending, run_failed, panicked, is_match, phase_completed_ok, record_event,
  andthen,
}
use ossctl.Coordinator.Verify.Window.{
  DelegatedVerifyFailure, WaitResult, no_owners, runs_ready, no_pending, run_unready, remaining,
  sleep_once, observe_github_run, wait_for, wait_for_delegated_runs, run_owners, max_sleeps,
}
use ossctl.Coordinator.Verify.{
  VerifyMode, completion_barrier, observe_after_dist_failure, DestinationState, fresh_state,
  Destination, tap_formula, github_release, registry_index, destination_of, all_settled,
  destination_states, FirstFailure, tap_state, observe_at, observe_once, observe_open,
  sweep_destinations, destination_rounds, verify_delegated_destinations, judge_failure, run_failure,
  judge_delegated, judge_published, judge, finish_verify, verify_targets, after_wait, verify_body,
  verify_phase,
}
use ossctl.Coordinator.Verify.Sleeps.{
  sleeps, Quiet, record_event-Quiet, andthen-Quiet, fail_phase-Quiet, observe_github_run-Quiet,
  sleeps-sleep_once, wait_for-Within,
}

module _ (c : Codec) (env : Env c) where
  module _ (plan : ReleasePlan) where
    tap_state-Quiet :
        (tap : Option String) (s : DestinationState) (w : World c)
        → Quiet c env w (tap_state c env plan tap s w).1
    unfolding sleeps
    tap_state-Quiet none s w = refl
    tap_state-Quiet (some tap) s w = omega arith

    observe_at-Quiet :
        (d : Destination) (s : DestinationState) (w : World c)
        → Quiet c env w (observe_at c env plan d s w).1
    unfolding observe_at sleeps
    observe_at-Quiet tap_formula s w = tap_state-Quiet plan.homebrew_tap s w
    observe_at-Quiet github_release s w = omega arith
    observe_at-Quiet registry_index s w = omega arith

    observe_open-Quiet :
        (b : Bool) (s : DestinationState) (w : World c)
        → Quiet c env w (observe_open c env plan b s w).1
    unfolding observe_open observe_once
    observe_open-Quiet true s w = refl
    observe_open-Quiet false s w = observe_at-Quiet (destination_of s.target) s w

    sweep_destinations-Quiet :
        (ss : List DestinationState) (w : World c)
        → Quiet c env w (sweep_destinations c env plan ss w).1
    unfolding sweep_destinations
    sweep_destinations-Quiet [] w = refl
    sweep_destinations-Quiet (s ∷ ss) w =
        sweep_destinations-Quiet ss (observe_open c env plan s.settled s w).1
        ∙ observe_open-Quiet s.settled s w

    destination_rounds-sleeps :
        (left start : ℕ) (ss : List DestinationState) (w : World c)
        → sleeps (destination_rounds c env plan left start ss w).1.trace ≤ sleeps w.trace + left
    unfolding destination_rounds
    destination_rounds-sleeps zero start ss w = omega (arith, sweep_destinations-Quiet ss w)
    destination_rounds-sleeps (suc left) start ss w =
        let v : World c = (sweep_destinations c env plan ss w).1 in
        let ts : List DestinationState = (sweep_destinations c env plan ss w).0 in
        elim (all_settled ts || remaining c env start v == 0)
          as (λ b.
            sleeps
              (elim b as (λ z. List DestinationState × World c) [
                | true ↦ (ts, v)
                | false ↦ destination_rounds c env plan left start ts (sleep_once c env start v)
              ]).1.trace
            ≤ sleeps w.trace + suc left) [
              | true ↦ omega (arith, sweep_destinations-Quiet ss w)
              | false ↦ omega (
                arith,
                sweep_destinations-Quiet ss w,
                sleeps-sleep_once c env start v,
                destination_rounds-sleeps left start ts (sleep_once c env start v),
              )
            ]

    verify_delegated_destinations-sleeps :
        (left start : ℕ) (tps : List TargetPlan) (w : World c)
        → sleeps (verify_delegated_destinations c env plan left start tps w).1.trace
          ≤ sleeps w.trace + left
    unfolding verify_delegated_destinations
    verify_delegated_destinations-sleeps left start tps w =
        let ss : List DestinationState = destination_states w.journal.state tps in
        elim (Bool-cases (is_empty ss)) [
          | inl h ↦ rw h (omega arith)
          | inr h ↦ rw h (destination_rounds-sleeps left start ss w)
        ]

    judge_failure-Quiet :
        (f : Option DelegatedVerifyFailure) (tp : TargetPlan) (w : World c)
        → Quiet c env w (judge_failure c env plan f tp w).2
    unfolding judge_failure observe_once
    judge_failure-Quiet (some f) tp w = refl
    judge_failure-Quiet none tp w = observe_at-Quiet (destination_of tp) (fresh_state tp) w

    judge_delegated-Quiet :
        (mode : VerifyMode) (outcomes : Dict VerifyOutcome) (tp : TargetPlan) (w : World c)
        → Quiet c env w (judge_delegated c env plan mode outcomes tp w).2
    unfolding judge_delegated
    judge_delegated-Quiet completion_barrier outcomes tp w = refl
    judge_delegated-Quiet observe_after_dist_failure outcomes tp w =
        judge_failure-Quiet (run_failure c env plan (observe_github_run c env tp.adapter w).0) tp
          (observe_github_run c env tp.adapter w).1
        ∙ observe_github_run-Quiet c env tp.adapter w

    judge_published-Quiet :
        (r : Option PublishReceipt) (tp : TargetPlan) (w : World c)
        → Quiet c env w (judge_published c env plan r tp w).2
    unfolding sleeps
    judge_published-Quiet none tp w = refl
    judge_published-Quiet (some r) tp w = omega arith

    judge-Quiet :
        (mode : VerifyMode) (outcomes : Dict VerifyOutcome) (tp : TargetPlan) (w : World c)
        → Quiet c env w (judge c env plan mode outcomes tp w).2
    unfolding judge
    judge-Quiet mode outcomes tp w = elim (Bool-cases (contains tp.id w.journal.state.delegated)) [
      | inl h ↦ rw h (judge_delegated-Quiet mode outcomes tp w)
      | inr h ↦ rw h (judge_published-Quiet (lookup tp.id w.journal.state.published) tp w)
    ]

    finish_verify-Quiet :
        (mode : VerifyMode) (f : FirstFailure) (w : World c)
        → Quiet c env w (finish_verify c env plan mode f w).1
    unfolding finish_verify
    finish_verify-Quiet completion_barrier none w =
        record_event-Quiet c env (phase_completed verify PhaseOutcome.ok) w
    finish_verify-Quiet completion_barrier (some (tp, f)) w =
        andthen-Quiet c env w (record_event c env (phase_completed verify PhaseOutcome.failed) w) _
          (record_event-Quiet c env _ w) (λ v. refl)
    finish_verify-Quiet observe_after_dist_failure (some (tp, f)) w =
        fail_phase-Quiet c env verify (some tp.id) w
    finish_verify-Quiet observe_after_dist_failure none w = fail_phase-Quiet c env verify none w

    verify_targets-Quiet :
        (mode : VerifyMode) (outcomes : Dict VerifyOutcome) (tps : List TargetPlan)
        (f : FirstFailure) (w : World c)
        → Quiet c env w (verify_targets c env plan mode outcomes tps f w).1
    unfolding verify_targets
    verify_targets-Quiet mode outcomes [] f w = finish_verify-Quiet mode f w
    verify_targets-Quiet mode outcomes (tp ∷ tps) f w =
        elim (Bool-cases (is_match (lookup tp.id w.journal.state.verified))) [
          | inl h ↦ rw h (verify_targets-Quiet mode outcomes tps f w)
          | inr h ↦ rw h (
              let v : World c = (judge c env plan mode outcomes tp w).2 in
              andthen-Quiet c env w
                (record_event c env (target_verified tp.id (judge c env plan mode outcomes tp w).0)
                  v)
                _
                (record_event-Quiet c env
                    (target_verified tp.id (judge c env plan mode outcomes tp w).0) v
                  ∙ judge-Quiet mode outcomes tp w)
                (λ x. verify_targets-Quiet mode outcomes tps _ x))
        ]

    after_wait-sleeps :
        (tps : List TargetPlan) (start : ℕ) (r : WaitResult) (left : ℕ) (w : World c)
        → sleeps (after_wait c env plan tps start r left w).1.trace ≤ sleeps w.trace + left
    unfolding after_wait
    after_wait-sleeps tps start (run_unready tp f) left w = omega (
      arith,
      andthen-Quiet c env w (record_event c env (target_verified tp.id unknown) w)
          (finish_verify c env plan completion_barrier (some (tp, f)))
          (record_event-Quiet c env (target_verified tp.id unknown) w)
          (finish_verify-Quiet completion_barrier (some (tp, f))),
    )
    after_wait-sleeps tps start no_pending left w = omega arith
    after_wait-sleeps tps start no_owners left w = omega (
      arith,
      verify_delegated_destinations-sleeps left start tps w,
      verify_targets-Quiet completion_barrier
          (verify_delegated_destinations c env plan left start tps w).0 tps none
          (verify_delegated_destinations c env plan left start tps w).1,
    )
    after_wait-sleeps tps start runs_ready left w = omega (
      arith,
      verify_delegated_destinations-sleeps left start tps w,
      verify_targets-Quiet completion_barrier
          (verify_delegated_destinations c env plan left start tps w).0 tps none
          (verify_delegated_destinations c env plan left start tps w).1,
    )

    verify_body-sleeps :
        (mode : VerifyMode) (tps : List TargetPlan) (w : World c)
        → sleeps (verify_body c env plan mode tps w).1.trace ≤ sleeps w.trace + max_sleeps
    unfolding verify_body wait_for_delegated_runs
    verify_body-sleeps completion_barrier tps w =
        let start = env.now w.trace in
        let owners = run_owners w.journal.state.delegated [] tps in
        let (r, left, v) = wait_for c env start owners w in
        omega (arith, wait_for-Within c env start owners w, after_wait-sleeps tps start r left v)
    verify_body-sleeps observe_after_dist_failure tps w =
        omega (arith, verify_targets-Quiet observe_after_dist_failure [] tps none w)

    andthen-sleeps :
        (u : World c) (o : Outcome c) (f : World c → Outcome c)
        → Quiet c env u o.1
        → ((v : World c) → sleeps (f v).1.trace ≤ sleeps v.trace + max_sleeps)
        → sleeps (andthen c o f).1.trace ≤ sleeps u.trace + max_sleeps
    unfolding andthen
    andthen-sleeps u (done, w) f q g = omega (arith, q, g w)
    andthen-sleeps u (phase_failed p t, w) f q g = omega (arith, q)
    andthen-sleeps u (journal_failed e, w) f q g = omega (arith, q)
    andthen-sleeps u (plan_refused e, w) f q g = omega (arith, q)
    andthen-sleeps u (checkout_failed, w) f q g = omega (arith, q)
    andthen-sleeps u (run_pending t, w) f q g = omega (arith, q)
    andthen-sleeps u (run_failed t, w) f q g = omega (arith, q)
    andthen-sleeps u (panicked, w) f q g = omega (arith, q)

    -- The workflows and the destinations of one verify phase share one window: together they make it
    -- sleep at most eighty-two times, whatever the clock and the world answer.
    pub verify_phase-sleeps :
        (mode : VerifyMode) (tps : List TargetPlan) (w : World c)
        → sleeps (verify_phase c env plan mode tps w).1.trace ≤ sleeps w.trace + 82
    unfolding verify_phase
    verify_phase-sleeps mode tps w = elim (Bool-cases (phase_completed_ok w.journal.state verify)) [
      | inl h ↦ rw h (omega arith)
      | inr h ↦ rw h (
          andthen-sleeps w (record_event c env (phase_entered verify) w) _
            (record_event-Quiet c env (phase_entered verify) w) (verify_body-sleeps mode tps))
    ]
