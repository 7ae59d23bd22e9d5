-- ===== src/Coordinator/Tagging.antt =====
-- The tag phase and the advance of the default branch
-- (crates/shipshape-core/src/release/coordinator.rs).
use Prim.Native.String.{◌++◌ as str_append}
use ossctl.Base.{
  String, Bool, true, false, ◌&&◌, ◌||◌, Option, none, some, List, [], ◌∷◌, if◌then◌else◌, str_eq,
}
use ossctl.Schema.{adapter_as_str}
use ossctl.Journal.{
  EventKind, RunState, TagState, DefaultBranchState, tag, advance_branch, tag_created_local,
  tag_pushed_remote, default_branch_selected, default_branch_advanced, github_release_created,
  github_release_delegated,
}
use ossctl.Journal.Disk.{Codec}
use ossctl.Adapters.{ci_owns_github_release}
use ossctl.Coordinator.World.{
  TargetPlan, Env, World, Outcome, create_tag, push_tag, create_release, resolve_branch,
  move_branch, done, tag_step_done, andthen, record_event, act, fail_phase,
}
use ossctl.Coordinator.Phases.{run_phase}

-- `ReleaseDisposition`: who creates the release of the tag
pub data ReleaseDisposition : Type 0 where
  engine : ReleaseDisposition
  delegated_to_ci : (adapter_name : String) → ReleaseDisposition
  tag_only : ReleaseDisposition

-- the first target whose CI owns the release
unfoldable pub release_owner : List TargetPlan → ReleaseDisposition
unfolding ci_owns_github_release adapter_as_str
release_owner [] = engine
release_owner (tp ∷ tps) =
    let rest = release_owner tps in
    if ci_owns_github_release tp.adapter then delegated_to_ci (adapter_as_str tp.adapter) else rest

-- `release_disposition`
unfoldable pub release_disposition : List TargetPlan → ReleaseDisposition
unfolding release_owner
release_disposition [] = tag_only
release_disposition (tp ∷ tps) = release_owner (tp ∷ tps)

abbrev pub has_local : TagState → Bool
has_local x = x.created_local

abbrev pub has_remote : TagState → Bool
has_remote x = x.pushed_remote

abbrev pub has_release : TagState → Bool
has_release x = x.github_release

abbrev pub has_delegated : TagState → Bool
has_delegated x = x.github_release_delegated

abbrev pub has_any_release : TagState → Bool
has_any_release x = x.github_release || x.github_release_delegated

-- Whether another disposition is on record already.
unfoldable pub contradiction : RunState → String → ReleaseDisposition → Bool
unfolding tag_step_done
contradiction s t (delegated_to_ci a) = tag_step_done s t has_release
contradiction s t engine = tag_step_done s t has_delegated
contradiction s t tag_only = tag_step_done s t has_any_release

abbrev pub same_branch : String → String → DefaultBranchState → Bool
same_branch b commit e = str_eq e.branch b && str_eq e.commit commit

module _ (c : Codec) (env : Env c) where
  -- a step of the tag, journalled where it succeeded
  unfoldable pub landed : EventKind → Bool → World c → Outcome c
  unfolding record_event fail_phase
  landed k true w = record_event c env k w
  landed k false w = fail_phase c env tag none w

  unfoldable pub create_tag_step : (tag_name commit : String) → World c → Outcome c
  unfolding landed tag_step_done
  create_tag_step t commit w =
      if tag_step_done w.journal.state t has_local
      then (done, w)
      else landed (tag_created_local t) (env.works (create_tag t commit) w.trace)
          (act c env (create_tag t commit) w)

  unfoldable pub push_tag_step : String → World c → Outcome c
  unfolding landed tag_step_done
  push_tag_step t w =
      if tag_step_done w.journal.state t has_remote
      then (done, w)
      else landed (tag_pushed_remote t) (env.works (push_tag t) w.trace) (act c env (push_tag t) w)

  -- `github_release_step`
  unfoldable pub github_release_step : ReleaseDisposition → String → World c → Outcome c
  unfolding landed tag_step_done record_event
  github_release_step (delegated_to_ci a) t w =
      if tag_step_done w.journal.state t has_delegated
      then (done, w)
      else record_event c env (github_release_delegated t a) w
  github_release_step engine t w =
      if tag_step_done w.journal.state t has_release
      then (done, w)
      else landed (github_release_created t (env.release_url w.trace))
          (env.works (create_release t) w.trace) (act c env (create_release t) w)
  github_release_step tag_only t w = (done, w)

  unfoldable pub release_step : ReleaseDisposition → String → World c → Outcome c
  unfolding contradiction github_release_step fail_phase
  release_step d t w =
      if contradiction w.journal.state t d
      then fail_phase c env tag none w
      else github_release_step d t w

  abbrev pub tag_of : String → String
  tag_of version = str_append "v" version

  unfoldable pub tag_body : (version commit : String) → ReleaseDisposition → World c → Outcome c
  unfolding andthen create_tag_step push_tag_step release_step
  tag_body version commit d w =
      andthen c (create_tag_step (tag_of version) commit w)
        (λ v. andthen c (push_tag_step (tag_of version) v) (release_step d (tag_of version)))

  -- `tag_phase`
  unfoldable pub tag_phase : (version commit : String) → ReleaseDisposition → World c → Outcome c
  unfolding run_phase tag_body
  tag_phase version commit d = run_phase c env tag (tag_body version commit d)

  unfoldable pub advanced : (branch commit : String) → Bool → World c → Outcome c
  unfolding record_event fail_phase
  advanced b commit true w = record_event c env (default_branch_advanced b commit) w
  advanced b commit false w = fail_phase c env advance_branch none w

  -- the match on the recorded evidence
  unfoldable pub evidence_step :
      (branch commit : String) → Option DefaultBranchState → World c → Outcome c
  unfolding advanced fail_phase
  evidence_step b commit none w =
      advanced b commit (env.works (move_branch b commit) w.trace)
        (act c env (move_branch b commit) w)
  evidence_step b commit (some e) w =
      if same_branch b commit e then (done, w) else fail_phase c env advance_branch none w

  unfoldable pub move_step : (branch commit : String) → World c → Outcome c
  unfolding evidence_step
  move_step b commit w = evidence_step b commit w.journal.state.default_branch w

  unfoldable pub resolved : (commit : String) → Bool → World c → Outcome c
  unfolding andthen record_event move_step fail_phase
  resolved commit true w =
      andthen c (record_event c env (default_branch_selected (env.branch_name w.trace)) w)
        (move_step (env.branch_name w.trace) commit)
  resolved commit false w = fail_phase c env advance_branch none w

  unfoldable pub select_step : (commit : String) → Option String → World c → Outcome c
  unfolding resolved move_step
  select_step commit (some b) w = move_step b commit w
  select_step commit none w =
      resolved commit (env.works resolve_branch w.trace) (act c env resolve_branch w)

  unfoldable pub advance_body : (commit : String) → World c → Outcome c
  unfolding select_step
  advance_body commit w = select_step commit w.journal.state.selected_default_branch w

  -- `advance_branch_phase`
  unfoldable pub advance_branch_phase : (commit : String) → World c → Outcome c
  unfolding run_phase advance_body
  advance_branch_phase commit = run_phase c env advance_branch (advance_body commit)
