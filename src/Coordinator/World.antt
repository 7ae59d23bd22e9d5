-- ===== src/Coordinator/World.antt =====
-- What the coordinator's phases act on: the journal, and the world outside it
-- (crates/shipshape-core/src/release/coordinator.rs, `record`, `fail_phase` and the state's tests).
use mathlib.Core.Logic.{ite}
use ossctl.Base.{ℕ, String, Bool, true, false, Option, none, some, List, ◌∷◌, any}
use ossctl.Base.Dict.{lookup, contains, contains_key}
use ossctl.Schema.{Ecosystem, Registry, Adapter, ecosystem_as_str, homebrew_tap, homebrew_core}
use ossctl.Journal.{
  Phase, PhaseRecord, PublishReceipt, TagState, RunState, EventKind, VerifyOutcome, Phase-discrete,
  PhaseOutcome, ok, bump, dry_run, build, publish, tag, dist, verify, advance_branch,
  phase_completed, matches, conflicts, missing,
}
use ossctl.Journal.Reduce.{is_ok}
use ossctl.Journal.Disk.{IoError, Io, Codec, Disk, ok, err}
use ossctl.Journal.Handle.{Journal, Weather, append}
use ossctl.Adapters.{AdapterReceipt}

-- One publish unit of the plan: `TargetPlan`, with the coordinates of its `input`.
pub record TargetPlan : Type 0 where
  pub id : String
  pub ecosystem : Ecosystem
  pub package_name : String
  pub registry : Registry
  pub adapter : Adapter
  pub version : String

-- What a phase asks of the world: an adapter, the tagger, or the bump.
pub data Act : Type 0 where
  adapter_dry_run adapter_build adapter_publish : TargetPlan → Act
  apply_bump resolve_branch hash_tarball fetch_assets : Act
  create_tag : (tag_name commit : String) → Act
  push_tag create_release : (tag_name : String) → Act
  move_branch : (branch commit : String) → Act
  observe_run : Adapter → Act
  observe_destination verify_receipt : TargetPlan → Act
  sleep : (seconds : ℕ) → Act
  probe_commit add_worktree : (commit : String) → Act
  remove_worktree prune_worktrees resolve_slug : Act

-- `DelegatedRunStatus` of protocol/reconcile.rs: where a CI workflow stands
pub data DelegatedRunStatus : Type 0 where
  success pending failed unknown : DelegatedRunStatus

-- The reasons of `CutError::Plan`
pub data PlanError : Type 0 where
  no_package : Ecosystem → PlanError
  duplicate_id : String → PlanError
  no_platform : PlanError
  ambiguous_platforms : PlanError

-- The history of a run: the acts with their success, and the events given to
-- the journal, with whether they were written.
pub data Step : Type 0 where
  acted : Act → Bool → Step
  journalled : EventKind → Bool → Step

-- `CutError`, success, and the panic of an `expect`
pub data Cut : Type 0 where
  done : Cut
  phase_failed : Phase → Option String → Cut
  journal_failed : IoError → Cut
  plan_refused : PlanError → Cut
  checkout_failed : Cut
  run_pending run_failed : (target : String) → Cut
  panicked : Cut

-- `PhaseCompleted` with outcome ok
abbrev pub completed_ok : Phase → PhaseRecord → Bool
completed_ok p r = ite (Phase-discrete r.phase p) (is_ok r.outcome) false

-- `phase_completed_ok`
unfoldable pub phase_completed_ok : RunState → Phase → Bool
phase_completed_ok s p = any (completed_ok p) s.phases

abbrev pub is_match : Option VerifyOutcome → Bool
is_match none = false
is_match (some matches) = true
is_match (some conflicts) = false
is_match (some missing) = false
is_match (some VerifyOutcome.unknown) = false

-- `target_cleared`
unfoldable pub target_cleared : RunState → Phase → String → Bool
target_cleared s dry_run t = contains t s.dry_run
target_cleared s build t = contains t s.built
target_cleared s publish t = contains_key t s.published
target_cleared s dist t = contains_key t s.published
target_cleared s verify t = is_match (lookup t s.verified)
target_cleared s bump t = false
target_cleared s tag t = false
target_cleared s advance_branch t = false

abbrev pub picked : (TagState → Bool) → Option TagState → Bool
picked pick none = false
picked pick (some x) = pick x

-- `tag_step_done`
unfoldable pub tag_step_done : RunState → String → (TagState → Bool) → Bool
tag_step_done s t pick = picked pick (lookup t s.tags)

-- `to_journal_receipt`
unfoldable pub to_journal_receipt : AdapterReceipt → PublishReceipt
unfolding ecosystem_as_str
to_journal_receipt r = record {
  ecosystem = ecosystem_as_str r.ecosystem;
  package_name = some r.package_name;
  version = r.version;
  registry_url = r.remote_url;
  digest = r.digest;
}

-- `needs_post_tag`
unfoldable pub needs_post_tag : Adapter → Bool
needs_post_tag homebrew_tap = true
needs_post_tag homebrew_core = true
needs_post_tag _ = false

module _ (c : Codec) where
  -- What the world answers, given the history up to the question, latest step first.
  pub record Env : Type 0 where
    pub weather : List Step → Weather c
    pub works : Act → List Step → Bool
    pub receipt : TargetPlan → List Step → AdapterReceipt
    -- whether a failed publish of the dist phase may be tried again
    pub retryable : List Step → Bool
    pub bumped : List Step → String × String
    pub release_url : List Step → Option String
    pub branch_name : List Step → String
    pub run_status : Adapter → List Step → DelegatedRunStatus
    pub release_assets : TargetPlan → List Step → VerifyOutcome
    pub tap_formula : (tap : String) → TargetPlan → List Step → VerifyOutcome
    pub published_versions : TargetPlan → List Step → Option (List String)
    pub receipt_outcome : TargetPlan → AdapterReceipt → List Step → Option VerifyOutcome
    pub now : List Step → ℕ
    pub slug : List Step → Option String

  pub record World : Type 0 where
    pub journal : Journal c
    pub disk : Disk c
    pub trace : List Step

  abbrev pub Outcome : Type 0
  Outcome = Cut × World

  -- the `?` of a result
  unfoldable pub andthen : Outcome → (World → Outcome) → Outcome
  andthen (done, w) f = f w
  andthen (phase_failed p t, w) f = (phase_failed p t, w)
  andthen (journal_failed e, w) f = (journal_failed e, w)
  andthen (plan_refused e, w) f = (plan_refused e, w)
  andthen (checkout_failed, w) f = (checkout_failed, w)
  andthen (run_pending t, w) f = (run_pending t, w)
  andthen (run_failed t, w) f = (run_failed t, w)
  andthen (panicked, w) f = (panicked, w)

  cut_of : Io RunState → Cut
  cut_of (ok s) = done
  cut_of (err e) = journal_failed e

  module _ (env : Env) where
    -- `record`: the event appended to the journal
    unfoldable pub record_event : EventKind → World → Outcome
    unfolding cut_of append
    record_event k w =
        let (r, j, d) = append c (env.weather w.trace) k w.journal w.disk in
        (
          cut_of r,
          record {
            journal = j;
            disk = d;
            trace = journalled k (env.weather w.trace).append_ok ∷ w.trace;
          },
        )

    -- one question to the world, noted with its answer
    abbrev pub act : Act → World → World
    act a w = record w { trace = acted a (env.works a w.trace) ∷ w.trace }

    -- `fail_phase`
    unfoldable pub fail_phase : Phase → Option String → World → Outcome
    unfolding record_event andthen
    fail_phase p t w =
        andthen (record_event (phase_completed p PhaseOutcome.failed) w)
          (λ v. (phase_failed p t, v))
