-- ===== src/Coordinator/Verify.antt =====
-- The verify phase: every destination is observed before the run completes
-- (crates/shipshape-core/src/release/coordinator.rs, `verify_phase`).
pub mod Window
pub mod Refine
pub mod Shown
pub mod Sighting
pub mod Evidence
mod Loop
pub mod Confirm
pub mod AfterFailure
pub mod Sleeps
pub mod Bounds
use mathlib.Core.Logic.{ite}
use mathlib.Core.Option.{get_or, or_else}
use ossctl.Base.{
  ℕ, zero, suc, ◌==◌, String, str_eq, Bool, true, false, ◌&&◌, ◌||◌, not, Option, none, some, List,
  [], ◌∷◌, any, all, is_empty, is_some, fold, if◌then◌else◌,
}
use ossctl.Base.Dict.{Dict, lookup, insert, contains}
use ossctl.Schema.{
  Adapter, Registry, Registry-discrete, cargo_dist, cargo_publish_ci, npm, pypi, test_pypi,
  gh_releases, homebrew,
}
use ossctl.Plan.{ReleasePlan}
use ossctl.Journal.{
  PhaseOutcome, PublishReceipt, RunState, VerifyOutcome, matches, conflicts, missing, unknown,
  verify, phase_entered, phase_completed, target_verified,
}
use ossctl.Journal.Disk.{Codec}
use ossctl.Adapters.{AdapterReceipt}
use ossctl.Coordinator.World.{
  TargetPlan, Cut, DelegatedRunStatus, Env, World, Outcome, observe_destination, verify_receipt,
  done, phase_failed, run_pending, run_failed, panicked, is_match, phase_completed_ok, andthen,
  record_event, act, fail_phase,
}
use ossctl.Coordinator.Verify.Window.{
  DelegatedVerifyFailure, WaitResult, no_owners, runs_ready, no_pending, run_unready,
  delegated_failure, observe_github_run, remaining, sleep_once, wait_for_delegated_runs,
}

-- `VerifyMode`
pub data VerifyMode : Type 0 where
  completion_barrier observe_after_dist_failure : VerifyMode

-- `DelegatedDestinationState`
pub record DestinationState : Type 0 where
  pub target : TargetPlan
  pub outcome : VerifyOutcome
  pub ever_reachable : Bool
  pub settled : Bool

abbrev pub fresh_state : TargetPlan → DestinationState
fresh_state tp = record { target = tp; outcome = unknown; ever_reachable = false; settled = false }

-- Where a delegated target is observed.
pub data Destination : Type 0 where
  tap_formula github_release registry_index : Destination

unfoldable pub of_registry : Registry → Destination
of_registry homebrew = tap_formula
of_registry npm = registry_index
of_registry pypi = registry_index
of_registry test_pypi = registry_index
of_registry _ = github_release

unfoldable pub of_adapter : Adapter → Registry → Destination
unfolding of_registry
of_adapter cargo_dist r = github_release
of_adapter cargo_publish_ci r = registry_index
of_adapter _ r = of_registry r

-- the arms of the `match` of `observe_delegated_destination_once`
unfoldable pub destination_of : TargetPlan → Destination
unfolding of_adapter
destination_of tp =
    ite (Registry-discrete tp.registry homebrew) tap_formula (of_adapter tp.adapter tp.registry)

-- the `matches!` of a settled state
unfoldable pub is_settled : Registry → VerifyOutcome → Bool
is_settled r matches = true
is_settled r conflicts = ite (Registry-discrete r gh_releases) true false
is_settled r missing = false
is_settled r unknown = false

abbrev pub settle_state : DestinationState → VerifyOutcome → Bool → DestinationState
unfolding is_settled
settle_state s o reachable = record {
  target = s.target;
  outcome = o;
  ever_reachable = reachable;
  settled = is_settled s.target.registry o;
}

-- the versions that a registry lists, read as an outcome
unfoldable pub index_state : DestinationState → Option (List String) → DestinationState
unfolding settle_state
index_state s (some versions) =
    settle_state s (if any (λ v. str_eq v s.target.version) versions then matches else missing) true
index_state s none = settle_state s (if s.ever_reachable then missing else unknown) s.ever_reachable

abbrev pub all_settled : List DestinationState → Bool
all_settled = all (λ s. s.settled)

-- the delegated targets that are not verified yet
unfoldable pub destination_states : RunState → List TargetPlan → List DestinationState
unfolding contains
destination_states s [] = []
destination_states s (tp ∷ tps) =
    let rest = destination_states s tps in
    if contains tp.id s.delegated && not (is_match (lookup tp.id s.verified))
    then fresh_state tp ∷ rest
    else rest

abbrev pub put_outcome : Dict VerifyOutcome → DestinationState → Dict VerifyOutcome
put_outcome d s = insert s.target.id s.outcome d

-- the outcome of a target as a failure
unfoldable pub failure_of : VerifyOutcome → Option DelegatedVerifyFailure
failure_of matches = none
failure_of conflicts = some DelegatedVerifyFailure.unknown
failure_of missing = some DelegatedVerifyFailure.unknown
failure_of unknown = some DelegatedVerifyFailure.unknown

-- the error that `verify_phase` returns for a target's failure
unfoldable pub cut_for : TargetPlan → DelegatedVerifyFailure → Cut
cut_for tp DelegatedVerifyFailure.pending = run_pending tp.id
cut_for tp DelegatedVerifyFailure.failed = run_failed tp.id
cut_for tp DelegatedVerifyFailure.unknown = phase_failed verify (some tp.id)

-- the receipt that an adapter's verify is given: the target with the recorded version and digest
abbrev pub recorded_receipt : TargetPlan → PublishReceipt → AdapterReceipt
recorded_receipt tp r = record {
  adapter = tp.adapter;
  ecosystem = tp.ecosystem;
  package_name = tp.package_name;
  version = r.version;
  digest = r.digest;
  remote_url = r.registry_url;
}

-- the first target that failed, with its failure
abbrev pub FirstFailure : Type 0
FirstFailure = Option (TargetPlan × DelegatedVerifyFailure)

unfoldable pub first_failure :
    FirstFailure → TargetPlan → Option DelegatedVerifyFailure → FirstFailure
first_failure (some f) tp g = some f
first_failure none tp none = none
first_failure none tp (some g) = some (tp, g)

module _ (c : Codec) (env : Env c) (plan : ReleasePlan) where
  abbrev pub tap_state : Option String → DestinationState → World c → DestinationState × World c
  tap_state none s w = (record s { outcome = unknown; settled = true }, w)
  tap_state (some tap) s w = (
    settle_state s (env.tap_formula tap s.target w.trace) s.ever_reachable,
    act c env (observe_destination s.target) w,
  )

  abbrev pub observe_at : Destination → DestinationState → World c → DestinationState × World c
  unfolding index_state
  observe_at tap_formula s w = tap_state plan.homebrew_tap s w
  observe_at github_release s w = (
    settle_state s (env.release_assets s.target w.trace) s.ever_reachable,
    act c env (observe_destination s.target) w,
  )
  observe_at registry_index s w = (
    index_state s (env.published_versions s.target w.trace),
    act c env (observe_destination s.target) w,
  )

  -- `observe_delegated_destination_once`
  unfoldable pub observe_once : DestinationState → World c → DestinationState × World c
  unfolding observe_at destination_of
  observe_once s w = observe_at (destination_of s.target) s w

  unfoldable pub observe_open :
      (is_closed : Bool) → DestinationState → World c → DestinationState × World c
  unfolding observe_once
  observe_open true s w = (s, w)
  observe_open false s w = observe_once s w

  -- one round over the states that are not settled
  unfoldable pub sweep_destinations :
      List DestinationState → World c → List DestinationState × World c
  unfolding observe_open
  sweep_destinations [] w = ([], w)
  sweep_destinations (s ∷ ss) w =
      let (t, v) = observe_open s.settled s w in
      let (ts, x) = sweep_destinations ss v in (t ∷ ts, x)

  -- the `loop` of `verify_delegated_destinations`, by the sleeps that are left
  unfoldable pub destination_rounds :
      ℕ → ℕ → List DestinationState → World c → List DestinationState × World c
  unfolding sweep_destinations sleep_once remaining
  destination_rounds zero start ss w = sweep_destinations ss w
  destination_rounds (suc left) start ss w =
      let (ts, v) = sweep_destinations ss w in
      elim (all_settled ts || remaining c env start v == 0) [
        | true ↦ (ts, v)
        | false ↦ destination_rounds left start ts (sleep_once c env start v)
      ]

  abbrev pub collect : List DestinationState × World c → Dict VerifyOutcome × World c
  collect (ss, w) = (fold put_outcome [] ss, w)

  -- `verify_delegated_destinations`
  unfoldable pub verify_delegated_destinations :
      ℕ → ℕ → List TargetPlan → World c → Dict VerifyOutcome × World c
  unfolding destination_rounds destination_states insert
  verify_delegated_destinations left start tps w =
      let ss = destination_states w.journal.state tps in
      if is_empty ss then ([], w) else collect (destination_rounds left start ss w)

  -- The outcome of a target, the failure of its workflow, and the world after it was observed.
  abbrev pub Judged : Type 0
  Judged = VerifyOutcome × Option DelegatedVerifyFailure × World c

  abbrev pub judge_destination : DestinationState × World c → Judged
  judge_destination (s, w) = (s.outcome, none, w)

  abbrev pub judge_failure : Option DelegatedVerifyFailure → TargetPlan → World c → Judged
  unfolding observe_once
  judge_failure (some f) tp w = (unknown, some f, w)
  judge_failure none tp w = judge_destination (observe_once (fresh_state tp) w)

  abbrev pub run_failure : Option DelegatedRunStatus → Option DelegatedVerifyFailure
  unfolding delegated_failure
  run_failure none = none
  run_failure (some s) = delegated_failure s

  abbrev pub judge_delegated : VerifyMode → Dict VerifyOutcome → TargetPlan → World c → Judged
  unfolding observe_github_run
  judge_delegated completion_barrier outcomes tp w =
      (get_or (lookup tp.id outcomes) unknown, none, w)
  judge_delegated observe_after_dist_failure outcomes tp w =
      let (run, v) = observe_github_run c env tp.adapter w in judge_failure (run_failure run) tp v

  abbrev pub judge_published : Option PublishReceipt → TargetPlan → World c → Judged
  judge_published none tp w = (missing, none, w)
  judge_published (some r) tp w = (
    get_or (env.receipt_outcome tp (recorded_receipt tp r) w.trace) unknown,
    none,
    act c env (verify_receipt tp) w,
  )

  -- the outcome of one target in the loop of `verify_phase`
  unfoldable pub judge : VerifyMode → Dict VerifyOutcome → TargetPlan → World c → Judged
  unfolding judge_delegated
  judge mode outcomes tp w =
      if contains tp.id w.journal.state.delegated
      then judge_delegated mode outcomes tp w
      else judge_published (lookup tp.id w.journal.state.published) tp w

  -- the last `match` of `verify_phase`
  unfoldable pub finish_verify : VerifyMode → FirstFailure → World c → Outcome c
  unfolding record_event fail_phase andthen cut_for
  finish_verify completion_barrier none w =
      record_event c env (phase_completed verify PhaseOutcome.ok) w
  finish_verify completion_barrier (some (tp, f)) w =
      andthen c (record_event c env (phase_completed verify PhaseOutcome.failed) w)
        (λ v. (cut_for tp f, v))
  finish_verify observe_after_dist_failure (some (tp, f)) w = fail_phase c env verify (some tp.id) w
  finish_verify observe_after_dist_failure none w = fail_phase c env verify none w

  -- the loop over the targets
  unfoldable pub verify_targets :
      VerifyMode → Dict VerifyOutcome → List TargetPlan → FirstFailure → World c → Outcome c
  unfolding finish_verify judge first_failure failure_of record_event andthen
  verify_targets mode outcomes [] first w = finish_verify mode first w
  verify_targets mode outcomes (tp ∷ tps) first w =
      let (o, f, v) = judge mode outcomes tp w in
      let skipped = verify_targets mode outcomes tps first w in
      if is_match (lookup tp.id w.journal.state.verified)
      then skipped
      else andthen c (record_event c env (target_verified tp.id o) v)
          (verify_targets mode outcomes tps (first_failure first tp (or_else f (failure_of o))))

  -- the rest of the completion barrier, by what the wait for the workflows returned
  unfoldable pub after_wait : List TargetPlan → ℕ → WaitResult → ℕ → World c → Outcome c
  unfolding verify_targets verify_delegated_destinations finish_verify
  after_wait tps start (run_unready tp f) left w =
      andthen c (record_event c env (target_verified tp.id unknown) w)
        (finish_verify completion_barrier (some (tp, f)))
  after_wait tps start no_pending left w = (panicked, w)
  after_wait tps start no_owners left w =
      let (outcomes, v) = verify_delegated_destinations left start tps w in
      verify_targets completion_barrier outcomes tps none v
  after_wait tps start runs_ready left w =
      let (outcomes, v) = verify_delegated_destinations left start tps w in
      verify_targets completion_barrier outcomes tps none v

  unfoldable pub verify_body : VerifyMode → List TargetPlan → World c → Outcome c
  unfolding after_wait wait_for_delegated_runs verify_targets
  verify_body completion_barrier tps w =
      let start = env.now w.trace in
      let (r, left, v) = wait_for_delegated_runs c env start tps w in after_wait tps start r left v
  verify_body observe_after_dist_failure tps w =
      verify_targets observe_after_dist_failure [] tps none w

  -- `verify_phase`
  unfoldable pub verify_phase : VerifyMode → List TargetPlan → World c → Outcome c
  unfolding verify_body phase_completed_ok record_event andthen
  verify_phase mode tps w =
      if phase_completed_ok w.journal.state verify
      then (done, w)
      else andthen c (record_event c env (phase_entered verify) w) (verify_body mode tps)
