-- ===== src/Adapters.antt =====
-- What the compiled-in adapters declare of themselves, and how a receipt is checked against a
-- registry (crates/shipshape-core/src/release/adapters/mod.rs, cargo.rs, node.rs, python.rs).
use ossctl.Base.{
  String, Bool, true, false, not, Option, none, some, List, str_eq, any, if◌then◌else◌,
}
use ossctl.Schema.{
  Ecosystem, Adapter, cargo_publish, cargo_publish_ci, cargo_dist, release_please, changesets,
  gh_action_pypi_publish, twine, goreleaser, homebrew_tap, homebrew_core, npm_publish, manual,
}
use ossctl.Journal.{VerifyOutcome, matches, conflicts, missing, unknown}

-- `resolve(adapter).is_ci_delegated()`
unfoldable pub is_ci_delegated : Adapter → Bool
is_ci_delegated cargo_publish = false
is_ci_delegated cargo_publish_ci = true
is_ci_delegated cargo_dist = true
is_ci_delegated release_please = true
is_ci_delegated changesets = false
is_ci_delegated gh_action_pypi_publish = true
is_ci_delegated twine = false
is_ci_delegated goreleaser = false
is_ci_delegated homebrew_tap = false
is_ci_delegated homebrew_core = false
is_ci_delegated npm_publish = false
is_ci_delegated manual = false

-- `resolve(adapter).ci_owns_github_release()`
unfoldable pub ci_owns_github_release : Adapter → Bool
ci_owns_github_release cargo_dist = true
ci_owns_github_release _ = false

-- `PublishReceipt` of protocol/release.rs, without its reference text and its time
pub record AdapterReceipt : Type 0 where
  pub adapter : Adapter
  pub ecosystem : Ecosystem
  pub package_name : String
  pub version : String
  pub digest : Option String
  pub remote_url : Option String

pub record RemoteObservation : Type 0 where
  pub published_versions : List String
  pub remote_digest : Option String

-- `(Some(local), Some(remote)) if local != remote`
abbrev pub digests_differ : Option String → Option String → Bool
digests_differ none r = false
digests_differ (some l) none = false
digests_differ (some l) (some r) = not (str_eq l r)

unfoldable pub classify_receipt : AdapterReceipt → Option RemoteObservation → VerifyOutcome
classify_receipt r none = unknown
classify_receipt r (some o) =
    if not (any (λ v. str_eq v r.version) o.published_versions)
    then missing
    else if digests_differ r.digest o.remote_digest
    then conflicts
    else matches

unfoldable pub observed : Option (List String) → Option RemoteObservation
observed none = none
observed (some vs) = some (record { published_versions = vs; remote_digest = none })

-- The default `verify`: the versions that the registry lists, none where the look-up failed.
unfoldable pub verify_via_registry :
    (AdapterReceipt → Option (List String)) → AdapterReceipt → VerifyOutcome
unfolding classify_receipt observed
verify_via_registry versions r = classify_receipt r (observed (versions r))
