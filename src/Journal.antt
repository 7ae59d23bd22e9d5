-- ===== src/Journal.antt =====
-- The durable journal of a release run: its events and the state that they are reduced to
-- (crates/shipshape-core/src/protocol/journal.rs).
pub mod Reduce
pub mod Key
pub mod Disk
pub mod Handle
pub mod Sample
mod Tests
use ossctl.Base.{ℕ, String, Bool, true, false, Option, none, some, List, []}
use ossctl.Base.Dict.{Dict}

-- The coordinator phases, in barrier order.
pub data Phase : Type 0 where
  bump dry_run build publish tag dist verify advance_branch : Phase

unfoldable pub Phase-discrete : Discrete Phase
Phase-discrete = hlevel

-- The derived `Ord` of `Phase`: the declaration order.
abbrev pub phase_index : Phase → ℕ
phase_index bump = 0
phase_index dry_run = 1
phase_index build = 2
phase_index publish = 3
phase_index tag = 4
phase_index dist = 5
phase_index verify = 6
phase_index advance_branch = 7

-- `Phase::as_str`
unfoldable pub phase_as_str : Phase → String
phase_as_str bump = "bump"
phase_as_str dry_run = "dry_run"
phase_as_str build = "build"
phase_as_str publish = "publish"
phase_as_str tag = "tag"
phase_as_str dist = "dist"
phase_as_str verify = "verify"
phase_as_str advance_branch = "advance_branch"

-- `Phase::is_publish_or_later`
unfoldable pub is_publish_or_later : Phase → Bool
is_publish_or_later bump = false
is_publish_or_later dry_run = false
is_publish_or_later build = false
is_publish_or_later publish = true
is_publish_or_later tag = true
is_publish_or_later dist = true
is_publish_or_later verify = true
is_publish_or_later advance_branch = true

pub data PhaseOutcome : Type 0 where
  ok failed : PhaseOutcome

pub data RunStatus : Type 0 where
  in_progress completed abandoned : RunStatus

-- `VerifyOutcome` of protocol/release.rs
pub data VerifyOutcome : Type 0 where
  matches conflicts missing unknown : VerifyOutcome

pub VerifyOutcome-discrete : Discrete VerifyOutcome
VerifyOutcome-discrete = hlevel

pub record PublishReceipt : Type 0 where
  pub ecosystem : String
  pub package_name : Option String
  pub version : String
  pub registry_url : Option String
  pub digest : Option String

pub record TagState : Type 0 where
  pub created_local : Bool
  pub pushed_remote : Bool
  pub github_release : Bool
  pub github_release_url : Option String
  pub github_release_delegated : Bool

-- `TagState::default`
abbrev pub default_tag : TagState
default_tag = record {
  created_local = false;
  pushed_remote = false;
  github_release = false;
  github_release_url = none;
  github_release_delegated = false;
}

pub record DefaultBranchState : Type 0 where
  pub branch : String
  pub commit : String

pub record BumpInputs : Type 0 where
  pub level : String
  pub from_version : String

pub record BumpRecord : Type 0 where
  pub commit : String
  pub effective_date : String

pub record PhaseRecord : Type 0 where
  pub phase : Phase
  pub outcome : PhaseOutcome

pub record RunCreated : Type 0 where
  pub run_id : String
  pub plan_id : String
  pub version : String
  pub targets : List String
  pub head_sha : Option String
  pub bump : Option BumpInputs

pub data EventKind : Type 0 where
  run_created : RunCreated → EventKind
  bump_applied : (commit effective_date : String) → EventKind
  phase_entered : Phase → EventKind
  phase_completed : Phase → PhaseOutcome → EventKind
  target_dry_run : (target : String) → EventKind
  target_built : (target : String) → EventKind
  target_published : (target : String) → PublishReceipt → EventKind
  target_cancelled : (target reason : String) → EventKind
  target_delegated : (target adapter : String) → EventKind
  target_verified : (target : String) → VerifyOutcome → EventKind
  tag_created_local : (tag_name : String) → EventKind
  tag_pushed_remote : (tag_name : String) → EventKind
  default_branch_selected : (branch : String) → EventKind
  default_branch_advanced : (branch commit : String) → EventKind
  github_release_created : (tag_name : String) (url : Option String) → EventKind
  github_release_delegated : (tag_name delegated_to : String) → EventKind
  run_abandoned : (reason : String) → EventKind

abbrev pub journal_schema_version : ℕ
journal_schema_version = 6

pub record JournalEvent : Type 0 where
  pub schema_version : ℕ
  pub seq : ℕ
  pub ts : ℕ
  pub idempotency_key : String
  pub kind : EventKind

pub record RunState : Type 0 where
  pub schema_version : ℕ
  pub run_id : String
  pub plan_id : String
  pub version : String
  pub targets : List String
  pub head_sha : Option String
  pub bump_inputs : Option BumpInputs
  pub bump : Option BumpRecord
  pub applied_seq : ℕ
  pub status : RunStatus
  pub current_phase : Option Phase
  pub phases : List PhaseRecord
  pub dry_run : List String
  pub built : List String
  pub published : Dict PublishReceipt
  pub cancelled : Dict String
  pub delegated : List String
  pub delegated_adapters : Dict String
  pub verified : Dict VerifyOutcome
  pub tags : Dict TagState
  pub terminal_phase : Option Phase
  pub selected_default_branch : Option String
  pub default_branch : Option DefaultBranchState
  pub abandon_reason : Option String
  pub created_ts : ℕ
  pub updated_ts : ℕ

-- `RunState::empty`
abbrev pub empty : RunState
empty = record {
  schema_version = journal_schema_version;
  run_id = "";
  plan_id = "";
  version = "";
  targets = [];
  head_sha = none;
  bump_inputs = none;
  bump = none;
  applied_seq = 0;
  status = in_progress;
  current_phase = none;
  phases = [];
  dry_run = [];
  built = [];
  published = [];
  cancelled = [];
  delegated = [];
  delegated_adapters = [];
  verified = [];
  tags = [];
  terminal_phase = none;
  selected_default_branch = none;
  default_branch = none;
  abandon_reason = none;
  created_ts = 0;
  updated_ts = 0;
}
