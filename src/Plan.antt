-- ===== src/Plan.antt =====
-- The sealed release plan (crates/shipshape-core/src/protocol/plan.rs).
pub mod TargetIds
pub mod Order
pub mod Inputs
pub mod Targets
pub mod Versions
pub mod Pins
pub mod Edits
pub mod Build
pub mod Conflicts
mod Tests
use ossctl.Base.{ℕ, String, Bool, Option, List, [], ◌∷◌}
use ossctl.Schema.{Ecosystem, Registry, Adapter}

pub record PlanTarget : Type 0 where
  pub ecosystem : Ecosystem
  pub package_name : Option String
  pub registry : Registry
  pub adapter : Adapter

pub data BumpLevel : Type 0 where
  major minor patch : BumpLevel

pub data ChangelogMode : Type 0 where
  curated automated fragment : ChangelogMode

pub data ChangelogSource : Type 0 where
  issuectl_trailers conventional_commits manual : ChangelogSource

pub record ChangelogFinalizePlan : Type 0 where
  pub mode : ChangelogMode
  pub source : ChangelogSource
  pub fragment_dir : String
  pub issuectl_range : Option String

pub record PinRewrite : Type 0 where
  pub in_package : String
  pub workspace_root : Bool
  pub dependency : String
  pub from : String
  pub to : String

pub record BumpPlan : Type 0 where
  pub level : BumpLevel
  pub from_version : String
  pub to_version : String
  pub pin_rewrites : List PinRewrite
  pub changelog_finalize : Bool
  pub changelog : Option ChangelogFinalizePlan
  pub bump_hook : Option String

pub data PlanPhase : Type 0 where
  bump dry_run_all build_all publish_all tag dist verify advance_branch : PlanPhase

unfoldable pub PlanPhase-discrete : Discrete PlanPhase
PlanPhase-discrete = hlevel

pub record ReleasePlan : Type 0 where
  pub plan_id : String
  pub contract_schema_version : ℕ
  pub head_sha : String
  pub version : String
  pub targets : List PlanTarget
  pub phases : List PlanPhase
  pub bump : Option BumpPlan
  pub homebrew_tap : Option String
  pub license : Option String
  pub description : Option String
  pub homebrew_platforms : List String
