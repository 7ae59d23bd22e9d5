-- ===== src/Coordinator/Verify/Sleeps.antt =====
-- How often the wait for delegated runs sleeps
-- (crates/shipshape-core/src/release/coordinator.rs, `wait_for_delegated_runs`).
use ossctl.Base.{
  ℕ, zero, suc, ◌+◌, ◌≤◌, ◌==◌, String, ◌≡◌, refl, ◌∙◌, true, false, Option, none, some, List, [],
  ◌∷◌, Bool-cases, inl, inr, arith,
}
use ossctl.Schema.{Adapter}
use ossctl.Journal.{EventKind, Phase, PhaseOutcome, phase_completed}
use ossctl.Journal.Disk.{Codec}
use ossctl.Coordinator.World.{
  TargetPlan, Step, Env, World, Outcome, done, phase_failed, journal_failed, plan_refused,
  checkout_failed, run_pending, run_failed, panicked, acted, sleep, record_event, andthen,
  fail_phase,
}
use ossctl.Coordinator.Verify.Window.{
  Sweep, Swept, swept, ended_by, is_watched, has_adapter, on_run, first_pending, verdict, remaining,
  sleep_once, observe_github_run, swept_on, sweep_runs, Waited, after_sweep, wait_rounds, wait_for,
  max_sleeps,
}

abbrev slept : Step → ℕ
slept (acted (sleep s) b) = 1
slept _ = 0

-- How often the coordinator has slept.
unfoldable pub sleeps : List Step → ℕ
sleeps [] = 0
sleeps (x ∷ xs) = slept x + sleeps xs

module _ (c : Codec) (env : Env c) where
  abbrev pub Quiet : World c → World c → Type 0
  Quiet v w = sleeps w.trace ≡ sleeps v.trace

  pub record_event-Quiet : (k : EventKind) (w : World c) → Quiet w (record_event c env k w).1
  unfolding record_event sleeps
  record_event-Quiet k w = omega arith

  pub andthen-Quiet :
      (u : World c) (o : Outcome c) (f : World c → Outcome c)
      → Quiet u o.1
      → ((v : World c) → Quiet v (f v).1)
      → Quiet u (andthen c o f).1
  unfolding andthen
  andthen-Quiet u (done, w) f q g = g w ∙ q
  andthen-Quiet u (phase_failed p t, w) f q g = q
  andthen-Quiet u (journal_failed e, w) f q g = q
  andthen-Quiet u (plan_refused e, w) f q g = q
  andthen-Quiet u (checkout_failed, w) f q g = q
  andthen-Quiet u (run_pending t, w) f q g = q
  andthen-Quiet u (run_failed t, w) f q g = q
  andthen-Quiet u (panicked, w) f q g = q

  pub fail_phase-Quiet :
      (p : Phase) (t : Option String) (w : World c) → Quiet w (fail_phase c env p t w).1
  unfolding fail_phase
  fail_phase-Quiet p t w =
      andthen-Quiet w (record_event c env (phase_completed p PhaseOutcome.failed) w) _
        (record_event-Quiet _ w) (λ v. refl)

  pub observe_github_run-Quiet :
      (a : Adapter) (w : World c) → Quiet w (observe_github_run c env a w).1
  unfolding observe_github_run sleeps
  observe_github_run-Quiet a w = elim (Bool-cases (is_watched a)) [
    | inl h ↦ rw h (omega arith)
    | inr h ↦ rw h refl
  ]

  swept_on-Quiet :
      (o : Option Sweep) (tp : TargetPlan) (w : World c) (rest : Sweep → World c → Swept × World c)
      → ((s : Sweep) → Quiet w (rest s w).1)
      → Quiet w (swept_on c env o tp w rest).1
  swept_on-Quiet none tp w rest h = refl
  swept_on-Quiet (some s) tp w rest h = h s

  sweep_runs-Quiet :
      (tps : List TargetPlan) (s : Sweep) (w : World c) → Quiet w (sweep_runs c env tps s w).1
  unfolding sweep_runs
  sweep_runs-Quiet [] s w = refl
  sweep_runs-Quiet (tp ∷ tps) s w = elim (Bool-cases (has_adapter tp.adapter s.ready)) [
    | inl h ↦ rw h (sweep_runs-Quiet tps s w)
    | inr h ↦ rw h (
        swept_on-Quiet (on_run (observe_github_run c env tp.adapter w).0 tp s) tp
          (observe_github_run c env tp.adapter w).1 (sweep_runs c env tps)
          (λ t. sweep_runs-Quiet tps t _)
        ∙ observe_github_run-Quiet tp.adapter w)
  ]

  -- The sleeps made and the sleeps left, against a bound.
  abbrev pub Within : ℕ → Waited c env → Type 0
  Within n r = sleeps r.2.trace + r.1 ≤ n

  after_sweep-Within :
      (n : ℕ) (owners : List TargetPlan) (left : ℕ) (r : Swept × World c)
      (wait : Sweep → World c → Waited c env)
      → sleeps r.1.trace + left ≤ n
      → ((s : Sweep) → Within n (wait s r.1))
      → Within n (after_sweep c env owners left r wait)
  unfolding after_sweep
  after_sweep-Within n owners left (ended_by tp, v) wait m h = m
  after_sweep-Within n owners left (swept s, v) wait m h =
      elim (verdict owners s.first_unknown s.ready)
        as (λ o.
          Within n (elim o as (λ z. Waited c env) [ some r ↦ (r, left, v) | none ↦ wait s v ])) [
            | some r ↦ m
            | none ↦ h s
          ]

  pub sleeps-sleep_once :
      (start : ℕ) (w : World c) → sleeps (sleep_once c env start w).trace ≡ sleeps w.trace + 1
  unfolding sleep_once sleeps
  sleeps-sleep_once start w = omega arith

  wait_rounds-Within :
      (left start : ℕ) (owners : List TargetPlan) (ready : List Adapter) (w : World c)
      → Within (sleeps w.trace + left) (wait_rounds c env left start owners ready w)
  unfolding wait_rounds
  wait_rounds-Within zero start owners ready w =
      after_sweep-Within (sleeps w.trace + 0) owners zero (sweep_runs c env owners _ w) _
        (omega (
          arith,
          sweep_runs-Quiet owners (record { ready = ready; waiting = []; first_unknown = none }) w,
        ))
        (λ s. omega (
          arith,
          sweep_runs-Quiet owners (record { ready = ready; waiting = []; first_unknown = none }) w,
        ))
  wait_rounds-Within (suc left) start owners ready w =
      let quiet =
        sweep_runs-Quiet owners (record { ready = ready; waiting = []; first_unknown = none }) w in
      let v : World c =
        (sweep_runs c env owners (record { ready = ready; waiting = []; first_unknown = none })
          w).1 in
      after_sweep-Within (sleeps w.trace + suc left) owners (suc left) (sweep_runs c env owners _ w)
        _ (omega (arith, quiet))
        (λ s.
          elim (remaining c env start v == 0)
            as (λ b. Within (sleeps w.trace + suc left) (elim b as (λ z. Waited c env) [
              | true ↦ (first_pending s.waiting, suc left, v)
              | false ↦ wait_rounds c env left start owners s.ready (sleep_once c env start v)
            ])) [
              | true ↦ omega (arith, quiet)
              | false ↦ omega (
                arith,
                quiet,
                sleeps-sleep_once start v,
                wait_rounds-Within left start owners s.ready (sleep_once c env start v),
              )
            ])

  pub wait_for-Within :
      (start : ℕ) (owners : List TargetPlan) (w : World c)
      → Within (sleeps w.trace + max_sleeps) (wait_for c env start owners w)
  unfolding wait_for
  wait_for-Within start [] w = omega arith
  wait_for-Within start (tp ∷ tps) w = wait_rounds-Within max_sleeps start (tp ∷ tps) [] w
