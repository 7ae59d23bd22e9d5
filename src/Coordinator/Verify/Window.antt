-- ===== src/Coordinator/Verify/Window.antt =====
-- The window that the observations of the verify phase share, and the workflow runs that it waits for
-- (crates/shipshape-core/src/release/coordinator.rs, `DelegatedVerifyWindow`,
-- `wait_for_delegated_runs`).
use mathlib.Core.Logic.{ite}
use mathlib.Core.Option.{or_else}
use ossctl.Base.{
  ℕ, zero, suc, ◌+◌, ◌-◌, ◌/◌, ◌==◌, leb, String, Bool, true, false, ◌&&◌, Option, none, some, List,
  [], ◌∷◌, ◌++◌, any, length, if◌then◌else◌,
}
use ossctl.Base.Dict.{contains}
use ossctl.Schema.{Adapter, Adapter-discrete, cargo_dist, cargo_publish_ci}
use ossctl.Journal.Disk.{Codec}
use ossctl.Coordinator.World.{TargetPlan, DelegatedRunStatus, Env, World, observe_run, sleep, act}

-- `DELEGATED_RELEASE_VERIFY_TIMEOUT_SECS`
abbrev pub timeout_secs : ℕ
timeout_secs = 1200

-- `DELEGATED_RELEASE_VERIFY_POLL_INTERVAL`
abbrev pub poll_secs : ℕ
poll_secs = 15

-- `DELEGATED_RELEASE_VERIFY_MAX_SLEEPS`
abbrev pub max_sleeps : ℕ
max_sleeps = timeout_secs / poll_secs + 2

-- `DelegatedVerifyFailure`
pub data DelegatedVerifyFailure : Type 0 where
  pending failed unknown : DelegatedVerifyFailure

-- `delegated_failure`
unfoldable pub delegated_failure : DelegatedRunStatus → Option DelegatedVerifyFailure
delegated_failure DelegatedRunStatus.success = none
delegated_failure DelegatedRunStatus.pending = some pending
delegated_failure DelegatedRunStatus.failed = some failed
delegated_failure DelegatedRunStatus.unknown = some unknown

-- The adapters whose workflow `observe_github_run` knows.
unfoldable pub is_watched : Adapter → Bool
is_watched cargo_dist = true
is_watched cargo_publish_ci = true
is_watched _ = false

abbrev pub has_adapter : Adapter → List Adapter → Bool
has_adapter a = any (λ b. ite (Adapter-discrete b a) true false)

-- the `owners`: the delegated targets with a watched workflow, the first one of each adapter
unfoldable pub run_owners : List String → List Adapter → List TargetPlan → List TargetPlan
unfolding contains is_watched
run_owners delegated seen [] = []
run_owners delegated seen (tp ∷ tps) =
    let skipped = run_owners delegated seen tps in
    let owner = tp ∷ run_owners delegated (tp.adapter ∷ seen) tps in
    if contains tp.id delegated && is_watched tp.adapter
    then (if has_adapter tp.adapter seen then skipped else owner)
    else skipped

-- The variables of one round of `wait_for_delegated_runs`.
pub record Sweep : Type 0 where
  pub ready : List Adapter
  pub waiting : List TargetPlan
  pub first_unknown : Option TargetPlan

-- the `match` on an observed run; none is the early return of a failure
unfoldable pub on_run : Option DelegatedRunStatus → TargetPlan → Sweep → Option Sweep
on_run none tp s = some s
on_run (some DelegatedRunStatus.success) tp s = some (record s { ready = tp.adapter ∷ s.ready })
on_run (some DelegatedRunStatus.failed) tp s = none
on_run (some DelegatedRunStatus.unknown) tp s =
    some (record s { first_unknown = or_else s.first_unknown (some tp) })
on_run (some DelegatedRunStatus.pending) tp s = some (record s { waiting = s.waiting ++ tp ∷ [] })

pub data Swept : Type 0 where
  swept : Sweep → Swept
  ended_by : TargetPlan → Swept

-- What `wait_for_delegated_runs` returns; `no_pending` is the panic of its `expect`.
pub data WaitResult : Type 0 where
  no_owners runs_ready no_pending : WaitResult
  run_unready : TargetPlan → DelegatedVerifyFailure → WaitResult

unfoldable pub first_pending : List TargetPlan → WaitResult
first_pending [] = no_pending
first_pending (tp ∷ tps) = run_unready tp pending

-- the two returns after a round
unfoldable pub verdict : List TargetPlan → Option TargetPlan → List Adapter → Option WaitResult
verdict owners (some tp) ready = some (run_unready tp unknown)
verdict owners none ready = if length ready == length owners then some runs_ready else none

abbrev min : ℕ → ℕ → ℕ
min a b = if leb a b then a else b

module _ (c : Codec) (env : Env c) where
  -- `DelegatedVerifyWindow::snapshot`: the seconds that the window has left
  unfoldable pub remaining : ℕ → World c → ℕ
  remaining start w = timeout_secs - (env.now w.trace - start)

  -- the sleep of `DelegatedVerifyWindow::sleep`, where it may
  unfoldable pub sleep_once : ℕ → World c → World c
  unfolding remaining
  sleep_once start w = act c env (sleep (min (remaining start w) poll_secs)) w

  -- `observe_github_run`
  unfoldable pub observe_github_run : Adapter → World c → Option DelegatedRunStatus × World c
  unfolding is_watched
  observe_github_run a w =
      if is_watched a
      then (some (env.run_status a w.trace), act c env (observe_run a) w)
      else (none, w)

  abbrev pub swept_on :
      Option Sweep → TargetPlan → World c → (Sweep → World c → Swept × World c) → Swept × World c
  swept_on none tp w rest = (ended_by tp, w)
  swept_on (some s) tp w rest = rest s w

  -- one round: each owner that is not ready is observed
  unfoldable pub sweep_runs : List TargetPlan → Sweep → World c → Swept × World c
  unfolding on_run observe_github_run
  sweep_runs [] s w = (swept s, w)
  sweep_runs (tp ∷ tps) s w =
      let (run, v) = observe_github_run tp.adapter w in
      let skipped = sweep_runs tps s w in
      if has_adapter tp.adapter s.ready
      then skipped
      else swept_on (on_run run tp s) tp v (sweep_runs tps)

  abbrev pub Waited : Type 0
  Waited = WaitResult × ℕ × World c

  -- the end of a round, with the sleeps that are left and what to do if it has to wait
  unfoldable pub after_sweep :
      List TargetPlan → ℕ → Swept × World c → (Sweep → World c → Waited) → Waited
  unfolding verdict
  after_sweep owners left (ended_by tp, v) wait = (run_unready tp failed, left, v)
  after_sweep owners left (swept s, v) wait = elim (verdict owners s.first_unknown s.ready) [
    | some r ↦ (r, left, v)
    | none ↦ wait s v
  ]

  -- the `loop` of `wait_for_delegated_runs`, by the sleeps that are left
  unfoldable pub wait_rounds : ℕ → ℕ → List TargetPlan → List Adapter → World c → Waited
  unfolding after_sweep sweep_runs first_pending sleep_once remaining
  wait_rounds zero start owners ready w =
      after_sweep owners zero
        (sweep_runs owners (record { ready = ready; waiting = []; first_unknown = none }) w)
        (λ s v. (first_pending s.waiting, zero, v))
  wait_rounds (suc left) start owners ready w =
      after_sweep owners (suc left)
        (sweep_runs owners (record { ready = ready; waiting = []; first_unknown = none }) w)
        (λ s v. elim (remaining start v == 0) [
          | true ↦ (first_pending s.waiting, suc left, v)
          | false ↦ wait_rounds left start owners s.ready (sleep_once start v)
        ])

  unfoldable pub wait_for : ℕ → List TargetPlan → World c → Waited
  unfolding wait_rounds
  wait_for start [] w = (no_owners, max_sleeps, w)
  wait_for start (tp ∷ tps) w = wait_rounds max_sleeps start (tp ∷ tps) [] w

  -- `wait_for_delegated_runs`
  unfoldable pub wait_for_delegated_runs : ℕ → List TargetPlan → World c → Waited
  unfolding wait_for run_owners
  wait_for_delegated_runs start tps w =
      wait_for start (run_owners w.journal.state.delegated [] tps) w
