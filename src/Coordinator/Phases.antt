-- ===== src/Coordinator/Phases.antt =====
-- The bump, dry-run, build, publish and dist phases
-- (crates/shipshape-core/src/release/coordinator.rs).
use ossctl.Base.{
  ℕ, zero, suc, String, Bool, true, false, ◌&&◌, not, none, some, List, [], ◌∷◌, if◌then◌else◌,
  is_empty, is_some,
}
use ossctl.Base.Dict.{contains, contains_key}
use ossctl.Schema.{adapter_as_str}
use ossctl.Journal.{
  Phase, EventKind, bump, dry_run, build, publish, dist, phase_entered, phase_completed,
  target_dry_run, target_built, target_published, target_delegated, bump_applied, ok,
}
use ossctl.Journal.Disk.{Codec}
use ossctl.Adapters.{is_ci_delegated}
use ossctl.Coordinator.World.{
  TargetPlan, Act, Env, World, Outcome, adapter_dry_run, adapter_build, adapter_publish, apply_bump,
  hash_tarball, fetch_assets, done, phase_completed_ok, target_cleared, to_journal_receipt,
  needs_post_tag, andthen, record_event, act, fail_phase,
}

-- The two phases that `reversible_phase` runs.
pub data Reversible : Type 0 where
  dry_run_all build_all : Reversible

abbrev pub phase_of : Reversible → Phase
phase_of dry_run_all = dry_run
phase_of build_all = build

abbrev pub act_of : Reversible → TargetPlan → Act
act_of dry_run_all tp = adapter_dry_run tp
act_of build_all tp = adapter_build tp

abbrev pub event_of : Reversible → String → EventKind
event_of dry_run_all t = target_dry_run t
event_of build_all t = target_built t

-- `DIST_PUBLISH_ATTEMPTS`, less the first
abbrev pub dist_retries : ℕ
dist_retries = 2

-- the targets that are published after the tag
unfoldable pub post_tag : List TargetPlan → List TargetPlan
unfolding needs_post_tag
post_tag [] = []
post_tag (tp ∷ tps) =
    let rest = post_tag tps in if needs_post_tag tp.adapter then tp ∷ rest else rest

module _ (c : Codec) (env : Env c) where
  -- a loop over the targets, ended by the first error
  unfoldable pub for_each :
      (TargetPlan → World c → Outcome c) → List TargetPlan → World c → Outcome c
  unfolding andthen
  for_each f [] w = (done, w)
  for_each f (tp ∷ tps) w = andthen c (f tp w) (for_each f tps)

  unfoldable pub phase_body : Phase → (World c → Outcome c) → World c → Outcome c
  unfolding andthen record_event
  phase_body p body w =
      andthen c (record_event c env (phase_entered p) w)
        (λ v. andthen c (body v) (record_event c env (phase_completed p ok)))

  -- The frame of every phase: skipped when completed ok, else entered, run and completed.
  unfoldable pub run_phase : Phase → (World c → Outcome c) → World c → Outcome c
  unfolding phase_body phase_completed_ok
  run_phase p body w =
      if phase_completed_ok w.journal.state p then (done, w) else phase_body p body w

  -- the outcome of an act on a target, journalled
  unfoldable pub settle : Phase → TargetPlan → EventKind → Bool → World c → Outcome c
  unfolding record_event fail_phase
  settle p tp k true w = record_event c env k w
  settle p tp k false w = fail_phase c env p (some tp.id) w

  unfoldable pub reversible_target : Reversible → TargetPlan → World c → Outcome c
  unfolding settle target_cleared
  reversible_target r tp w =
      if target_cleared w.journal.state (phase_of r) tp.id
      then (done, w)
      else settle (phase_of r) tp (event_of r tp.id) (env.works (act_of r tp) w.trace)
          (act c env (act_of r tp) w)

  -- `reversible_phase`
  unfoldable pub reversible_phase : Reversible → List TargetPlan → World c → Outcome c
  unfolding for_each run_phase reversible_target
  reversible_phase r tps = run_phase (phase_of r) (for_each (reversible_target r) tps)

  -- the adapter's publish, and its receipt
  unfoldable pub published : TargetPlan → World c → Outcome c
  unfolding settle to_journal_receipt
  published tp w =
      settle publish tp (target_published tp.id (to_journal_receipt (env.receipt tp w.trace)))
        (env.works (adapter_publish tp) w.trace) (act c env (adapter_publish tp) w)

  -- the body of the loop of `publish_phase`
  unfoldable pub publish_target : TargetPlan → World c → Outcome c
  unfolding published needs_post_tag is_ci_delegated adapter_as_str record_event
  publish_target tp w =
      if contains_key tp.id w.journal.state.published
      then (done, w)
      else if needs_post_tag tp.adapter
      then (done, w)
      else if contains tp.id w.journal.state.delegated
      then (done, w)
      else if is_ci_delegated tp.adapter
      then record_event c env (target_delegated tp.id (adapter_as_str tp.adapter)) w
      else published tp w

  -- `publish_phase`
  unfoldable pub publish_phase : List TargetPlan → World c → Outcome c
  unfolding for_each run_phase publish_target
  publish_phase tps = run_phase publish (for_each publish_target tps)

  unfoldable pub bumped : Bool → World c → Outcome c
  unfolding record_event fail_phase
  bumped true w =
      let (commit, date) = env.bumped w.trace in record_event c env (bump_applied commit date) w
  bumped false w = fail_phase c env bump none w

  unfoldable pub bump_body : World c → Outcome c
  unfolding bumped
  bump_body w =
      if is_some w.journal.state.bump
      then (done, w)
      else bumped (env.works apply_bump w.trace) (act c env apply_bump w)

  -- `bump_phase`, where the plan has a bump
  unfoldable pub bump_phase : Bool → World c → Outcome c
  unfolding run_phase bump_body
  bump_phase planned w = if planned then run_phase bump bump_body w else (done, w)

  -- `publish_dist_with_retry`, with the attempts that are left after this one
  unfoldable pub publish_with_retry : ℕ → TargetPlan → World c → Outcome c
  unfolding settle to_journal_receipt
  publish_with_retry zero tp w =
      settle dist tp (target_published tp.id (to_journal_receipt (env.receipt tp w.trace)))
        (env.works (adapter_publish tp) w.trace) (act c env (adapter_publish tp) w)
  publish_with_retry (suc n) tp w =
      let rest = publish_with_retry n tp (act c env (adapter_publish tp) w) in
      if not (env.works (adapter_publish tp) w.trace) && env.retryable w.trace
      then rest
      else settle dist tp (target_published tp.id (to_journal_receipt (env.receipt tp w.trace)))
          (env.works (adapter_publish tp) w.trace) (act c env (adapter_publish tp) w)

  -- the body of the loop of `dist_phase`
  unfoldable pub dist_target : TargetPlan → World c → Outcome c
  unfolding publish_with_retry
  dist_target tp w =
      if contains_key tp.id w.journal.state.published
      then (done, w)
      else publish_with_retry dist_retries tp w

  unfoldable pub fetched : Bool → List TargetPlan → World c → Outcome c
  unfolding for_each dist_target fail_phase
  fetched true tps w = for_each dist_target tps w
  fetched false tps w = fail_phase c env dist none w

  unfoldable pub fetch_step : Bool → List TargetPlan → World c → Outcome c
  unfolding fetched
  fetch_step true tps w = fetched (env.works fetch_assets w.trace) tps (act c env fetch_assets w)
  fetch_step false tps w = for_each dist_target tps w

  unfoldable pub hashed : Bool → Bool → List TargetPlan → World c → Outcome c
  unfolding fetch_step fail_phase
  hashed true formula tps w = fetch_step formula tps w
  hashed false formula tps w = fail_phase c env dist none w

  unfoldable pub hash_step : (slug formula : Bool) → List TargetPlan → World c → Outcome c
  unfolding hashed
  hash_step true formula tps w =
      hashed (env.works hash_tarball w.trace) formula tps (act c env hash_tarball w)
  hash_step false formula tps w = for_each dist_target tps w

  unfoldable pub dist_body : (slug formula : Bool) → List TargetPlan → World c → Outcome c
  unfolding hash_step
  dist_body slug formula tps w = if is_empty tps then (done, w) else hash_step slug formula tps w

  -- `dist_phase`, with or without a repository slug and the inputs of a formula
  unfoldable pub dist_phase : (slug formula : Bool) → List TargetPlan → World c → Outcome c
  unfolding run_phase dist_body post_tag
  dist_phase slug formula tps = run_phase dist (dist_body slug formula (post_tag tps))
