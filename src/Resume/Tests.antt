-- ===== src/Resume/Tests.antt =====
-- A resume of a small plan
-- (crates/shipshape-core/src/release/resume.rs).
use mathlib.Core.List.{Memᴰ}
use ossctl.Base.{◌≡◌, ◌↔◌, refl, false, none, some, [], ◌∷◌, arith, fold}
use ossctl.Base.Dict.{lookup, contains, insert}
use ossctl.Schema.{Ecosystem-discrete, ecosystem_as_str, rust, crates_io, cargo_publish}
use ossctl.Journal.{
  VerifyOutcome, missing, unknown, matches, JournalEvent, empty, target_published, RunState,
}
use ossctl.Journal.Reduce.{apply, apply_kind}
use ossctl.Plan.{PlanTarget, ReleasePlan}
use ossctl.Plan.TargetIds.{journal_target_ids, group_of, id_in, minimal_level}
use ossctl.Adapters.{AdapterReceipt, verify_via_registry, is_ci_delegated}
use ossctl.Resume.{
  TargetDecision, not_recorded, skip, resume_publish, unverifiable, classify, decide,
  reconcile_for_resume, synthetic_receipt, plan_targets, verify_not_recorded, publish_phase_reached,
}
use ossctl.Resume.Doubt.{Denied, verify_via_registry_lem, doubt_blocks}
use ossctl.Resume.Safety.{MayPublish, reconcile_for_resume-MayPublish}
use ossctl.Resume.Adoption.{adopt_then_skip}

abbrev target : PlanTarget
target = record {
  ecosystem = rust;
  package_name = some "ship";
  registry = crates_io;
  adapter = cargo_publish;
}

abbrev plan : ReleasePlan
plan = record {
  plan_id = "plan";
  contract_schema_version = 1;
  head_sha = "abc";
  version = "1.2.0";
  targets = target ∷ [];
  phases = [];
  bump = none;
  homebrew_tap = none;
  license = none;
  description = none;
  homebrew_platforms = [];
}

abbrev says : VerifyOutcome → AdapterReceipt → VerifyOutcome
says o r = o

abbrev chosen : TargetDecision
chosen = record {
  target = "rust";
  ecosystem = rust;
  journal_state = not_recorded;
  outcome = missing;
  action = resume_publish;
  adopted_receipt = none;
}

reconcile_for_resume-MayPublish_example : MayPublish (says missing) empty plan false chosen
unfolding reconcile_for_resume decide classify lookup plan_targets journal_target_ids
    Ecosystem-discrete group_of id_in minimal_level ecosystem_as_str contains verify_not_recorded
    publish_phase_reached insert is_ci_delegated
reconcile_for_resume-MayPublish_example =
    reconcile_for_resume-MayPublish (says missing) empty plan false chosen (Memᴰ.head refl) refl

abbrev adoption_event : JournalEvent
adoption_event = record {
  schema_version = 6;
  seq = 1;
  ts = 0;
  idempotency_key = "published:rust";
  kind = target_published "rust" (synthetic_receipt (says matches) target "1.2.0");
}

adopt_then_skip_example :
    (decide (says matches) (apply empty adoption_event) plan false target "rust").action ≡ skip
unfolding decide classify lookup plan_targets journal_target_ids Ecosystem-discrete group_of id_in
    minimal_level ecosystem_as_str contains verify_not_recorded publish_phase_reached insert
    is_ci_delegated
adopt_then_skip_example =
    adopt_then_skip (says matches) empty plan false target "rust" adoption_event refl (omega arith)
      refl refl refl

abbrev asked : AdapterReceipt
asked = record {
  adapter = cargo_publish;
  ecosystem = rust;
  package_name = "ship";
  version = "1.2.0";
  digest = none;
  remote_url = none;
}

verify_via_registry_lem_example :
    (verify_via_registry (λ r. some ("1.1.0" ∷ [])) asked ≡ missing)
    ↔ Denied (some ("1.1.0" ∷ [])) asked
verify_via_registry_lem_example = verify_via_registry_lem (λ r. some ("1.1.0" ∷ [])) asked

-- Another target of the run was published.
abbrev begun : RunState
begun = apply empty (record adoption_event {
  kind = target_published "node" (synthetic_receipt (says matches) target "1.2.0");
})

doubt_blocks_example :
    (decide (says unknown) (fold apply begun []) plan false target "rust").action ≡ unverifiable
unfolding apply apply_kind insert lookup contains verify_not_recorded is_ci_delegated
doubt_blocks_example =
    doubt_blocks (says unknown) plan target "rust" "node" begun [] refl refl refl refl refl
