-- ===== src/Coordinator/Verify/Refine.antt =====
-- The verify phase is a sequence of guarded moves
-- (crates/shipshape-core/src/release/coordinator.rs, `verify_phase`).
use ossctl.Base.{
  ◌≡◌, refl, ◌∙◌, ℕ, zero, suc, ◌==◌, String, Bool, true, false, ◌||◌, Option, none, some, List, [],
  ◌∷◌, Bool-cases, inl, inr, is_empty,
}
use ossctl.Base.Dict.{Dict, lookup, contains}
use ossctl.Schema.{Adapter}
use ossctl.Plan.{ReleasePlan}
use ossctl.Journal.{
  PhaseOutcome, PublishReceipt, VerifyOutcome, unknown, verify, phase_entered, phase_completed,
  target_verified,
}
use ossctl.Journal.Disk.{Codec}
use ossctl.Coordinator.World.{
  TargetPlan, Act, Env, World, act, observe_run, observe_destination, verify_receipt, sleep,
  is_match, phase_completed_ok, record_event,
}
use ossctl.Coordinator.Moves.{Allowed, Move, Moves, Moves-trans, single}
use ossctl.Coordinator.Moves.Refine.{andthen-Moves, record_event-Moves, fail_phase-Moves}
use ossctl.Coordinator.Verify.Window.{
  DelegatedVerifyFailure, Sweep, Swept, swept, ended_by, WaitResult, no_owners, runs_ready,
  no_pending, run_unready, is_watched, has_adapter, on_run, first_pending, verdict, remaining,
  sleep_once, observe_github_run, swept_on, sweep_runs, Waited, after_sweep, wait_rounds, wait_for,
  wait_for_delegated_runs, run_owners, max_sleeps,
}
use ossctl.Coordinator.Verify.{
  VerifyMode, completion_barrier, observe_after_dist_failure, DestinationState, fresh_state,
  Destination, tap_formula, github_release, registry_index, destination_of, all_settled,
  destination_states, FirstFailure, tap_state, observe_at, observe_once, observe_open,
  sweep_destinations, destination_rounds, verify_delegated_destinations, judge_failure, run_failure,
  judge_delegated, judge_published, judge, finish_verify, verify_targets, after_wait, verify_body,
  verify_phase,
}

module _ (c : Codec) (env : Env c) where
  -- Moves that journal nothing.
  abbrev pub Quiet : World c → World c → Type 0
  Quiet v w = Moves c env v w × (w.journal ≡ v.journal)

  Quiet-stop : {w : World c} → Quiet w w
  Quiet-stop = (Moves.stop, refl)

  pub Quiet-trans : {u v w : World c} → Quiet u v → Quiet v w → Quiet u w
  Quiet-trans p q = (Moves-trans c env p.0 q.0, q.1 ∙ p.1)

  Quiet-act : (a : Act) (w : World c) → Allowed a w.journal.state → Quiet w (act c env a w)
  Quiet-act a w may = (single c env (Move.acts a w may), refl)

  observe_github_run-Quiet : (a : Adapter) (w : World c) → Quiet w (observe_github_run c env a w).1
  unfolding observe_github_run
  observe_github_run-Quiet a w = elim (Bool-cases (is_watched a)) [
    | inl h ↦ rw h (Quiet-act (observe_run a) w tt)
    | inr h ↦ rw h Quiet-stop
  ]

  pub sleep_once-Quiet : (start : ℕ) (w : World c) → Quiet w (sleep_once c env start w)
  unfolding sleep_once
  sleep_once-Quiet start w = Quiet-act (sleep _) w tt

  swept_on-Quiet :
      (o : Option Sweep) (tp : TargetPlan) (w : World c) (rest : Sweep → World c → Swept × World c)
      → ((s : Sweep) → Quiet w (rest s w).1)
      → Quiet w (swept_on c env o tp w rest).1
  swept_on-Quiet none tp w rest h = Quiet-stop
  swept_on-Quiet (some s) tp w rest h = h s

  sweep_runs-Quiet :
      (tps : List TargetPlan) (s : Sweep) (w : World c) → Quiet w (sweep_runs c env tps s w).1
  unfolding sweep_runs
  sweep_runs-Quiet [] s w = Quiet-stop
  sweep_runs-Quiet (tp ∷ tps) s w = elim (Bool-cases (has_adapter tp.adapter s.ready)) [
    | inl h ↦ rw h (sweep_runs-Quiet tps s w)
    | inr h ↦ rw h (
        Quiet-trans (observe_github_run-Quiet tp.adapter w) (
          swept_on-Quiet (on_run (observe_github_run c env tp.adapter w).0 tp s) tp _
            (sweep_runs c env tps)
            (λ t. sweep_runs-Quiet tps t (observe_github_run c env tp.adapter w).1)))
  ]

  after_sweep-Quiet :
      (owners : List TargetPlan) (left : ℕ) (r : Swept × World c)
      (wait : Sweep → World c → Waited c env) (u : World c)
      → Quiet u r.1
      → ((s : Sweep) (v : World c) → Quiet v (wait s v).2)
      → Quiet u (after_sweep c env owners left r wait).2
  unfolding after_sweep
  after_sweep-Quiet owners left (ended_by tp, v) wait u m h = m
  after_sweep-Quiet owners left (swept s, v) wait u m h =
      elim (verdict owners s.first_unknown s.ready)
        as (λ o.
          Quiet u (elim o as (λ z. Waited c env) [ some r ↦ (r, left, v) | none ↦ wait s v ]).2) [
            | some r ↦ m
            | none ↦ Quiet-trans m (h s v)
          ]

  wait_rounds-Quiet :
      (left start : ℕ) (owners : List TargetPlan) (ready : List Adapter) (w : World c)
      → Quiet w (wait_rounds c env left start owners ready w).2
  unfolding wait_rounds
  wait_rounds-Quiet zero start owners ready w =
      after_sweep-Quiet owners zero (sweep_runs c env owners _ w) _ w (sweep_runs-Quiet owners _ w)
        (λ s v. Quiet-stop)
  wait_rounds-Quiet (suc left) start owners ready w =
      after_sweep-Quiet owners (suc left) (sweep_runs c env owners _ w) _ w
        (sweep_runs-Quiet owners _ w)
        (λ s v.
          elim (remaining c env start v == 0)
            as (λ b.
              Quiet v
                (elim b as (λ z. Waited c env) [
                  | true ↦ (first_pending s.waiting, suc left, v)
                  | false ↦ wait_rounds c env left start owners s.ready (sleep_once c env start v)
                ]).2) [
                  | true ↦ Quiet-stop
                  | false ↦
                      Quiet-trans (sleep_once-Quiet start v)
                        (wait_rounds-Quiet left start owners s.ready (sleep_once c env start v))
                ])

  wait_for-Quiet :
      (start : ℕ) (owners : List TargetPlan) (w : World c)
      → Quiet w (wait_for c env start owners w).2
  unfolding wait_for
  wait_for-Quiet start [] w = Quiet-stop
  wait_for-Quiet start (tp ∷ tps) w = wait_rounds-Quiet max_sleeps start (tp ∷ tps) [] w

  pub wait_for_delegated_runs-Quiet :
      (start : ℕ) (tps : List TargetPlan) (w : World c)
      → Quiet w (wait_for_delegated_runs c env start tps w).2
  unfolding wait_for_delegated_runs
  wait_for_delegated_runs-Quiet start tps w =
      wait_for-Quiet start (run_owners w.journal.state.delegated [] tps) w

  module _ (plan : ReleasePlan) where
    tap_state-Quiet :
        (tap : Option String) (s : DestinationState) (w : World c)
        → Quiet w (tap_state c env plan tap s w).1
    tap_state-Quiet none s w = Quiet-stop
    tap_state-Quiet (some tap) s w = Quiet-act (observe_destination s.target) w tt

    pub observe_at-Quiet :
        (d : Destination) (s : DestinationState) (w : World c)
        → Quiet w (observe_at c env plan d s w).1
    unfolding observe_at
    observe_at-Quiet tap_formula s w = tap_state-Quiet plan.homebrew_tap s w
    observe_at-Quiet github_release s w = Quiet-act (observe_destination s.target) w tt
    observe_at-Quiet registry_index s w = Quiet-act (observe_destination s.target) w tt

    pub observe_once-Quiet :
        (s : DestinationState) (w : World c) → Quiet w (observe_once c env plan s w).1
    unfolding observe_once
    observe_once-Quiet s w = observe_at-Quiet (destination_of s.target) s w

    pub observe_open-Quiet :
        (b : Bool) (s : DestinationState) (w : World c) → Quiet w (observe_open c env plan b s w).1
    unfolding observe_open
    observe_open-Quiet true s w = Quiet-stop
    observe_open-Quiet false s w = observe_once-Quiet s w

    pub sweep_destinations-Quiet :
        (ss : List DestinationState) (w : World c) → Quiet w (sweep_destinations c env plan ss w).1
    unfolding sweep_destinations
    sweep_destinations-Quiet [] w = Quiet-stop
    sweep_destinations-Quiet (s ∷ ss) w =
        Quiet-trans (observe_open-Quiet s.settled s w)
          (sweep_destinations-Quiet ss (observe_open c env plan s.settled s w).1)

    pub destination_rounds-Quiet :
        (left start : ℕ) (ss : List DestinationState) (w : World c)
        → Quiet w (destination_rounds c env plan left start ss w).1
    unfolding destination_rounds
    destination_rounds-Quiet zero start ss w = sweep_destinations-Quiet ss w
    destination_rounds-Quiet (suc left) start ss w =
        let v : World c = (sweep_destinations c env plan ss w).1 in
        let ts : List DestinationState = (sweep_destinations c env plan ss w).0 in
        elim (all_settled ts || remaining c env start v == 0)
          as (λ b.
            Quiet w
              (elim b as (λ z. List DestinationState × World c) [
                | true ↦ (ts, v)
                | false ↦ destination_rounds c env plan left start ts (sleep_once c env start v)
              ]).1) [
                | true ↦ sweep_destinations-Quiet ss w
                | false ↦ Quiet-trans (sweep_destinations-Quiet ss w) (
                    Quiet-trans (sleep_once-Quiet start v)
                      (destination_rounds-Quiet left start ts (sleep_once c env start v)))
              ]

    pub verify_delegated_destinations-Quiet :
        (left start : ℕ) (tps : List TargetPlan) (w : World c)
        → Quiet w (verify_delegated_destinations c env plan left start tps w).1
    unfolding verify_delegated_destinations
    verify_delegated_destinations-Quiet left start tps w =
        let ss : List DestinationState = destination_states w.journal.state tps in
        elim (Bool-cases (is_empty ss)) [
          | inl h ↦ rw h Quiet-stop
          | inr h ↦ rw h (destination_rounds-Quiet left start ss w)
        ]

    judge_failure-Moves :
        (f : Option DelegatedVerifyFailure) (tp : TargetPlan) (w : World c)
        → Moves c env w (judge_failure c env plan f tp w).2
    unfolding judge_failure
    judge_failure-Moves (some f) tp w = Moves.stop
    judge_failure-Moves none tp w = (observe_once-Quiet (fresh_state tp) w).0

    judge_delegated-Moves :
        (mode : VerifyMode) (outcomes : Dict VerifyOutcome) (tp : TargetPlan) (w : World c)
        → Moves c env w (judge_delegated c env plan mode outcomes tp w).2
    unfolding judge_delegated
    judge_delegated-Moves completion_barrier outcomes tp w = Moves.stop
    judge_delegated-Moves observe_after_dist_failure outcomes tp w =
        Moves-trans c env (observe_github_run-Quiet tp.adapter w).0 (
          judge_failure-Moves (run_failure c env plan (observe_github_run c env tp.adapter w).0) tp
            _)

    judge_published-Moves :
        (r : Option PublishReceipt) (tp : TargetPlan) (w : World c)
        → Moves c env w (judge_published c env plan r tp w).2
    judge_published-Moves none tp w = Moves.stop
    judge_published-Moves (some r) tp w = single c env (Move.acts (verify_receipt tp) w tt)

    pub judge-Moves :
        (mode : VerifyMode) (outcomes : Dict VerifyOutcome) (tp : TargetPlan) (w : World c)
        → Moves c env w (judge c env plan mode outcomes tp w).2
    unfolding judge
    judge-Moves mode outcomes tp w = elim (Bool-cases (contains tp.id w.journal.state.delegated)) [
      | inl h ↦ rw h (judge_delegated-Moves mode outcomes tp w)
      | inr h ↦ rw h (judge_published-Moves (lookup tp.id w.journal.state.published) tp w)
    ]

    pub finish_verify-Moves :
        (mode : VerifyMode) (f : FirstFailure) (w : World c)
        → Moves c env w (finish_verify c env plan mode f w).1
    unfolding finish_verify
    finish_verify-Moves completion_barrier none w =
        record_event-Moves c env (phase_completed verify PhaseOutcome.ok) w tt
    finish_verify-Moves completion_barrier (some (tp, f)) w =
        andthen-Moves c env (record_event c env (phase_completed verify PhaseOutcome.failed) w) _
          (record_event-Moves c env (phase_completed verify PhaseOutcome.failed) w tt)
          (λ v e. Moves.stop)
    finish_verify-Moves observe_after_dist_failure (some (tp, f)) w =
        fail_phase-Moves c env verify (some tp.id) w
    finish_verify-Moves observe_after_dist_failure none w = fail_phase-Moves c env verify none w

    pub verify_targets-Moves :
        (mode : VerifyMode) (outcomes : Dict VerifyOutcome) (tps : List TargetPlan)
        (f : FirstFailure) (w : World c)
        → Moves c env w (verify_targets c env plan mode outcomes tps f w).1
    unfolding verify_targets
    verify_targets-Moves mode outcomes [] f w = finish_verify-Moves mode f w
    verify_targets-Moves mode outcomes (tp ∷ tps) f w =
        elim (Bool-cases (is_match (lookup tp.id w.journal.state.verified))) [
          | inl h ↦ rw h (verify_targets-Moves mode outcomes tps f w)
          | inr h ↦ rw h (
              Moves-trans c env (judge-Moves mode outcomes tp w) (
                andthen-Moves c env (record_event c env (target_verified tp.id _) _) _
                  (record_event-Moves c env (target_verified tp.id _) _ tt)
                  (λ v e. verify_targets-Moves mode outcomes tps _ v)))
        ]

    after_wait-Moves :
        (tps : List TargetPlan) (start : ℕ) (r : WaitResult) (left : ℕ) (w : World c)
        → Moves c env w (after_wait c env plan tps start r left w).1
    unfolding after_wait
    after_wait-Moves tps start (run_unready tp f) left w =
        andthen-Moves c env (record_event c env (target_verified tp.id unknown) w) _
          (record_event-Moves c env (target_verified tp.id unknown) w tt)
          (λ v e. finish_verify-Moves completion_barrier (some (tp, f)) v)
    after_wait-Moves tps start no_pending left w = Moves.stop
    after_wait-Moves tps start no_owners left w =
        Moves-trans c env (verify_delegated_destinations-Quiet left start tps w).0
          (verify_targets-Moves completion_barrier _ tps none _)
    after_wait-Moves tps start runs_ready left w =
        Moves-trans c env (verify_delegated_destinations-Quiet left start tps w).0
          (verify_targets-Moves completion_barrier _ tps none _)

    verify_body-Moves :
        (mode : VerifyMode) (tps : List TargetPlan) (w : World c)
        → Moves c env w (verify_body c env plan mode tps w).1
    unfolding verify_body
    verify_body-Moves completion_barrier tps w =
        Moves-trans c env (wait_for_delegated_runs-Quiet (env.now w.trace) tps w).0
          (after_wait-Moves tps (env.now w.trace) _ _ _)
    verify_body-Moves observe_after_dist_failure tps w =
        verify_targets-Moves observe_after_dist_failure [] tps none w

    pub verify_phase-Moves :
        (mode : VerifyMode) (tps : List TargetPlan) (w : World c)
        → Moves c env w (verify_phase c env plan mode tps w).1
    unfolding verify_phase
    verify_phase-Moves mode tps w = elim (Bool-cases (phase_completed_ok w.journal.state verify)) [
      | inl h ↦ rw h Moves.stop
      | inr h ↦ rw h (
          andthen-Moves c env (record_event c env (phase_entered verify) w) _
            (record_event-Moves c env (phase_entered verify) w tt)
            (λ v e. verify_body-Moves mode tps v))
    ]
