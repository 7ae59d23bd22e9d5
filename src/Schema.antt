-- ===== src/Schema.antt =====
-- The closed enums of the release contract that the release engine reads, with their wire strings
-- (crates/shipshape-core/src/contract/schema.rs, the `wire_enum!` declarations).
pub mod Wire
mod Tests
use ossctl.Base.{String, Option, none, some, str_eq, if◌then◌else◌}

-- a packaging ecosystem
pub data Ecosystem : Type 0 where
  rust node python go binary : Ecosystem

-- the repository's release layout
pub data ReleaseLayout : Type 0 where
  single monorepo : ReleaseLayout

-- a publish destination
pub data Registry : Type 0 where
  crates_io npm pypi test_pypi gh_releases proxy_golang_org homebrew : Registry

-- the release tool pinned for a target
pub data Adapter : Type 0 where
  cargo_publish cargo_publish_ci cargo_dist release_please changesets gh_action_pypi_publish twine
        goreleaser homebrew_tap homebrew_core npm_publish manual :
      Adapter

unfoldable pub Ecosystem-discrete : Discrete Ecosystem
Ecosystem-discrete = hlevel

unfoldable pub ReleaseLayout-discrete : Discrete ReleaseLayout
ReleaseLayout-discrete = hlevel

unfoldable pub Registry-discrete : Discrete Registry
Registry-discrete = hlevel

unfoldable pub Adapter-discrete : Discrete Adapter
Adapter-discrete = hlevel

-- `Ecosystem::as_str`
unfoldable pub ecosystem_as_str : Ecosystem → String
ecosystem_as_str rust = "rust"
ecosystem_as_str node = "node"
ecosystem_as_str python = "python"
ecosystem_as_str go = "go"
ecosystem_as_str binary = "binary"

-- `ReleaseLayout::as_str`
unfoldable pub layout_as_str : ReleaseLayout → String
layout_as_str single = "single"
layout_as_str monorepo = "monorepo"

-- `Registry::as_str`
unfoldable pub registry_as_str : Registry → String
registry_as_str crates_io = "crates.io"
registry_as_str npm = "npm"
registry_as_str pypi = "pypi"
registry_as_str test_pypi = "testpypi"
registry_as_str gh_releases = "gh-releases"
registry_as_str proxy_golang_org = "proxy.golang.org"
registry_as_str homebrew = "homebrew"

-- `Adapter::as_str`
unfoldable pub adapter_as_str : Adapter → String
adapter_as_str cargo_publish = "cargo-publish"
adapter_as_str cargo_publish_ci = "cargo-publish-ci"
adapter_as_str cargo_dist = "cargo-dist"
adapter_as_str release_please = "release-please"
adapter_as_str changesets = "changesets"
adapter_as_str gh_action_pypi_publish = "gh-action-pypi-publish"
adapter_as_str twine = "twine"
adapter_as_str goreleaser = "goreleaser"
adapter_as_str homebrew_tap = "homebrew-tap"
adapter_as_str homebrew_core = "homebrew-core"
adapter_as_str npm_publish = "npm-publish"
adapter_as_str manual = "manual"

-- `Ecosystem::parse`
unfoldable pub parse_ecosystem : String → Option Ecosystem
parse_ecosystem s =
    if str_eq s "rust"
    then some rust
    else if str_eq s "node"
    then some node
    else if str_eq s "python"
    then some python
    else if str_eq s "go"
    then some go
    else if str_eq s "binary"
    then some binary
    else none

-- `ReleaseLayout::parse`
unfoldable pub parse_layout : String → Option ReleaseLayout
parse_layout s =
    if str_eq s "single" then some single else if str_eq s "monorepo" then some monorepo else none

-- `Registry::parse`
unfoldable pub parse_registry : String → Option Registry
parse_registry s =
    if str_eq s "crates.io"
    then some crates_io
    else if str_eq s "npm"
    then some npm
    else if str_eq s "pypi"
    then some pypi
    else if str_eq s "testpypi"
    then some test_pypi
    else if str_eq s "gh-releases"
    then some gh_releases
    else if str_eq s "proxy.golang.org"
    then some proxy_golang_org
    else if str_eq s "homebrew"
    then some homebrew
    else none

-- `Adapter::parse`
unfoldable pub parse_adapter : String → Option Adapter
parse_adapter s =
    if str_eq s "cargo-publish"
    then some cargo_publish
    else if str_eq s "cargo-publish-ci"
    then some cargo_publish_ci
    else if str_eq s "cargo-dist"
    then some cargo_dist
    else if str_eq s "release-please"
    then some release_please
    else if str_eq s "changesets"
    then some changesets
    else if str_eq s "gh-action-pypi-publish"
    then some gh_action_pypi_publish
    else if str_eq s "twine"
    then some twine
    else if str_eq s "goreleaser"
    then some goreleaser
    else if str_eq s "homebrew-tap"
    then some homebrew_tap
    else if str_eq s "homebrew-core"
    then some homebrew_core
    else if str_eq s "npm-publish"
    then some npm_publish
    else if str_eq s "manual"
    then some manual
    else none

-- `Ecosystem::default_registry`
unfoldable pub default_registry : Ecosystem → Registry
default_registry rust = crates_io
default_registry node = npm
default_registry python = pypi
default_registry go = proxy_golang_org
default_registry binary = gh_releases

-- `Ecosystem::default_adapter`
unfoldable pub default_adapter : Ecosystem → ReleaseLayout → Adapter
default_adapter rust layout = cargo_publish
default_adapter node monorepo = changesets
default_adapter node single = release_please
default_adapter python layout = gh_action_pypi_publish
default_adapter go layout = goreleaser
default_adapter binary layout = manual
