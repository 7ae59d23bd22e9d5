-- ===== src/Plan/Inputs.antt =====
-- What the planner reads: the fields of `Contract`
-- (crates/shipshape-core/src/contract/schema.rs) and of `Facts`
-- (crates/shipshape-core/src/protocol/facts.rs).
use ossctl.Base.{ℕ, Bool, true, false, String, Option, List}
use ossctl.Base.Dict.{Dict}
use ossctl.Schema.{Ecosystem, Ecosystem-discrete, Registry, Adapter}
use ossctl.Plan.{ChangelogMode, ChangelogSource}
use ossctl.Plan.Order.{WorkspaceMember}
use mathlib.Core.Logic.{ite}

pub record Target : Type 0 where
  pub ecosystem : Ecosystem
  pub package_name : Option String
  pub registry : Registry
  pub adapter : Adapter

-- `homebrew_tap` and `platforms`; the other fields count as `others` of the contract.
pub record Distribution : Type 0 where
  pub homebrew_tap : Option String
  pub platforms : List String

pub record Changelog : Type 0 where
  pub mode : ChangelogMode
  pub source : ChangelogSource
  pub fragment_dir : String

-- `release.bump_hook` stands as `bump_hook`; `others` is the JSON of the fields that the planner
-- does not read but seals.
pub record Contract : Type 0 where
  pub schema_version : ℕ
  pub ecosystems : List Ecosystem
  pub targets : List Target
  pub distributions : List Distribution
  pub changelog : Changelog
  pub bump_hook : Option String
  pub license : String
  pub others : String

pub record Package : Type 0 where
  pub ecosystem : Ecosystem
  pub manifest : String
  pub package_name : Option String
  pub version : Option String

pub record WorkspacePinOwner : Type 0 where
  pub package_name : String
  pub pin_reqs : Dict (List (Option String))

pub record RustWorkspace : Type 0 where
  pub members : List WorkspaceMember
  pub pin_owners : List WorkspacePinOwner
  pub workspace_pin_reqs : Dict (List (Option String))
  pub pin_parse_error : Option String

pub record Facts : Type 0 where
  pub packages : List Package
  pub tags : List String
  pub description : Option String
  pub rust_workspace : Option RustWorkspace

-- `a == b` on ecosystems
abbrev pub ecosystem_eq : Ecosystem → Ecosystem → Bool
ecosystem_eq a b = ite (Ecosystem-discrete a b) true false
