-- ===== src/Coordinator/Tests.antt =====
-- The publish phase on two targets
-- (crates/shipshape-core/src/release/coordinator.rs).
use ossctl.Base.{◌≡◌, refl, true, false, none, some, List, [], ◌∷◌, ◌++◌, fold, inl, All, map}
use ossctl.Base.Dict.{lookup, insert, contains}
use ossctl.Schema.{rust, crates_io, cargo_publish, cargo_publish_ci}
use ossctl.Journal.{empty, target_published, matches}
use ossctl.Journal.Reduce.{apply, apply_kind}
use ossctl.Journal.Handle.{append}
use ossctl.Journal.Sample.{plain, disk, handle, event, receipt, start, handle-IsSynced}
use ossctl.Coordinator.World.{
  TargetPlan, DelegatedRunStatus, Env, World, phase_completed_ok, tag_step_done, record_event,
  andthen,
}
use ossctl.Coordinator.Phases.{publish_phase, run_phase, for_each, publish_target}
use ossctl.Coordinator.Tagging.{delegated_to_ci}
use ossctl.Coordinator.Moves.Account.{Accounted, publish_phase-Accounted}
use ossctl.Coordinator.Moves.Safety.{publishes, Exclusive}
use ossctl.Coordinator.Moves.{Moves}
use ossctl.Plan.{PlanTarget, ReleasePlan}
use ossctl.Plan.TargetIds.{journal_target_ids, all_new}
use ossctl.Plan.TargetIds.Pairs.{Pairwise}
use ossctl.Plan.TargetIds.Unique.{Differ}
use ossctl.Coordinator.Resolve.{resolved, resolve_target_plans}
use ossctl.Coordinator.Resolve.Ids.{
  plan_id_of, resolve_target_plans-resolved, resolve_target_plans_total,
}
use ossctl.Coordinator.Runs.{Call, call_publish, call_tag, run_calls, run_calls-Moves}
use ossctl.Coordinator.Runs.Promises.{
  publish_once, receipt_kept, one_disposition, run_calls-Durable,
}
use ossctl.Coordinator.Moves.Durable.{Durable}

abbrev pub env : Env plain
env = record {
  weather = λ t. record { now = 7; append_ok = true; manifest_ok = false };
  works = λ a t. true;
  receipt = λ tp t. record {
    adapter = tp.adapter;
    ecosystem = tp.ecosystem;
    package_name = tp.package_name;
    version = tp.version;
    digest = none;
    remote_url = none;
  };
  retryable = λ t. false;
  bumped = λ t. ("def", "2026-01-01");
  release_url = λ t. none;
  branch_name = λ t. "main";
  run_status = λ a t. DelegatedRunStatus.success;
  release_assets = λ tp t. matches;
  tap_formula = λ tap tp t. matches;
  published_versions = λ tp t. some ("1.2.0" ∷ []);
  receipt_outcome = λ tp r t. some matches;
  now = λ t. 7;
  slug = λ t. none;
}

abbrev core : TargetPlan
core = record {
  id = "rust";
  ecosystem = rust;
  package_name = "ship";
  registry = crates_io;
  adapter = cargo_publish;
  version = "1.2.0";
}

abbrev cli : TargetPlan
cli = record core { id = "rust:cli"; adapter = cargo_publish_ci }

abbrev pub targets : List TargetPlan
targets = core ∷ cli ∷ []

abbrev pub fresh : World plain
fresh = record { journal = handle; disk = disk; trace = [] }

-- The first target was published before.
abbrev resumed : World plain
resumed = record {
  journal = record {
    run_id = "r1";
    state = fold apply empty (start ++ event 3 (target_published "rust" receipt) ∷ []);
  };
  disk = disk;
  trace = [];
}

-- A publish phase, a failed resume and a second one.
abbrev calls : List Call
calls =
    call_publish targets
    ∷ call_tag "1.2.0" "abc" (delegated_to_ci "cargo-dist")
    ∷ call_publish targets
    ∷ []

run_calls-Moves_example : Moves plain env fresh (run_calls plain env calls fresh)
run_calls-Moves_example = run_calls-Moves plain env calls fresh

publish_once_example :
    publishes "rust" (run_calls plain env calls resumed).trace ≡ publishes "rust" resumed.trace
unfolding apply apply_kind insert lookup
publish_once_example = publish_once plain env "rust" calls resumed refl

receipt_kept_example :
    lookup "rust" (run_calls plain env calls resumed).journal.state.published ≡ some receipt
unfolding apply apply_kind insert lookup
receipt_kept_example = receipt_kept plain env "rust" receipt calls resumed refl

fresh-Exclusive : Exclusive fresh.journal.state
unfolding tag_step_done apply apply_kind lookup
fresh-Exclusive t = refl

one_disposition_example : Exclusive (run_calls plain env calls fresh).journal.state
one_disposition_example = one_disposition plain env calls fresh fresh-Exclusive

run_calls-Durable_example : Durable plain env (run_calls plain env calls fresh)
run_calls-Durable_example = run_calls-Durable plain env calls fresh (inl handle-IsSynced)

publish_phase-Accounted_example :
    All (λ tp. Accounted plain env tp (publish_phase plain env targets fresh).1) targets
unfolding publish_phase run_phase for_each publish_target record_event append phase_completed_ok
    andthen apply apply_kind lookup contains insert
publish_phase-Accounted_example = publish_phase-Accounted plain env targets fresh refl refl

abbrev plan_target : PlanTarget
plan_target = record {
  ecosystem = rust;
  package_name = some "ship";
  registry = crates_io;
  adapter = cargo_publish;
}

abbrev pub plan : ReleasePlan
plan = record {
  plan_id = "plan";
  contract_schema_version = 2;
  head_sha = "abc";
  version = "1.2.0";
  targets = plan_target ∷ record plan_target { adapter = cargo_publish_ci } ∷ [];
  phases = [];
  bump = none;
  homebrew_tap = none;
  license = none;
  description = none;
  homebrew_platforms = [];
}

plan-Differ : Pairwise Differ plan.targets
plan-Differ = (((λ e p r a. cc), tt), (tt, tt))

resolve_target_plans_total_example :
    (tps : List TargetPlan) × (resolve_target_plans plan ≡ resolved tps)
resolve_target_plans_total_example = resolve_target_plans_total plan plan-Differ (refl, (refl, tt))

plan-resolved : (tps : List TargetPlan) × (resolve_target_plans plan ≡ resolved tps)
plan-resolved = resolve_target_plans_total plan plan-Differ (refl, (refl, tt))

resolve_target_plans-resolved_example :
    (map plan_id_of plan-resolved.0 ≡ journal_target_ids plan.targets)
    × (all_new (map plan_id_of plan-resolved.0) ≡ true)
resolve_target_plans-resolved_example = resolve_target_plans-resolved plan plan-resolved.1
