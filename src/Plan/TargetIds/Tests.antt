-- ===== src/Plan/TargetIds/Tests.antt =====
-- The ids of a small plan
-- (crates/shipshape-core/src/release/target_id.rs).
use ossctl.Base.{◌≡◌, true, some, [], ◌∷◌}
use ossctl.Schema.{rust, crates_io, gh_releases, cargo_publish, cargo_dist}
use ossctl.Plan.{PlanTarget}
use ossctl.Plan.TargetIds.{all_new, journal_target_ids}
use ossctl.Plan.TargetIds.Pairs.{Pairwise}
use ossctl.Plan.TargetIds.Unique.{Differ, journal_target_ids_lem}

abbrev core : PlanTarget
core = record {
  ecosystem = rust;
  package_name = some "ship";
  registry = crates_io;
  adapter = cargo_publish;
}

abbrev dist : PlanTarget
dist = record core { registry = gh_releases; adapter = cargo_dist }

core-Differ : Pairwise Differ (core ∷ dist ∷ [])
core-Differ = (((λ e p r a. cc), tt), (tt, tt))

journal_target_ids_lem_example : all_new (journal_target_ids (core ∷ dist ∷ [])) ≡ true
journal_target_ids_lem_example = journal_target_ids_lem (core ∷ dist ∷ []) core-Differ
