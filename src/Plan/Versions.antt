-- ===== src/Plan/Versions.antt =====
-- The release version, which is that of the manifests
-- (crates/shipshape-core/src/release/plan.rs, `resolve_release_version`).
pub mod Rows
pub mod Classified
pub mod Agreement
use mathlib.Core.Logic.{ite}
use text.Mathlib.Text.{is_lt, is_le, is_eq, find?}
use Prim.Native.String.{compare}
use ossctl.Base.{
  Bool, true, false, ◌&&◌, ◌||◌, not, String, str_eq, Option, none, some, List, [], ◌∷◌, is_empty,
  any, find, filter, is_some, if◌then◌else◌,
}
use ossctl.Base.Dict.{add}
use ossctl.Base.SortBy.{sort_by, dedup_by}
use ossctl.Schema.{Ecosystem, Registry, ecosystem_as_str, rust, node, python, go, binary}
use ossctl.Plan.{PlanTarget}
use ossctl.Plan.Inputs.{Package, Contract, Facts, ecosystem_eq}
use ossctl.Plan.Targets.{resolve_targets}

pub data VersionSource : Type 0 where
  manifest distribution : VersionSource

-- `VersionSource::of`
unfoldable pub version_source : Ecosystem → VersionSource
version_source rust = manifest
version_source node = manifest
version_source python = manifest
version_source go = distribution
version_source binary = distribution

-- `VersionSource::of(e) == VersionSource::Manifest`
unfoldable pub reads_manifest : Ecosystem → Bool
unfolding version_source
reads_manifest e = elim (version_source e) [ manifest ↦ true | distribution ↦ false ]

pub record VersionMismatch : Type 0 where
  pub package_name : String
  pub ecosystem : Ecosystem
  pub manifest_version : String

pub record UnversionedTarget : Type 0 where
  pub package_name : String
  pub ecosystem : Ecosystem
  pub registry : Registry

pub record ClassifiedVersions : Type 0 where
  pub checkable : List VersionMismatch
  pub missing : List UnversionedTarget

-- the order of pairs of an ecosystem's text and a package
unfoldable pub key_le : Ecosystem → String → Ecosystem → String → Bool
unfolding ecosystem_as_str
key_le e p f q =
    let o = compare (ecosystem_as_str e) (ecosystem_as_str f) in
    is_lt o || (is_eq o && is_le (compare p q))

-- the closures of the two sorts and of the two dedups
unfoldable pub row_le : VersionMismatch → VersionMismatch → Bool
unfolding key_le
row_le a b = key_le a.ecosystem a.package_name b.ecosystem b.package_name

unfoldable pub row_same : VersionMismatch → VersionMismatch → Bool
row_same a b = str_eq a.package_name b.package_name && ecosystem_eq a.ecosystem b.ecosystem

unfoldable pub unread_le : UnversionedTarget → UnversionedTarget → Bool
unfolding key_le
unread_le a b = key_le a.ecosystem a.package_name b.ecosystem b.package_name

unfoldable pub unread_same : UnversionedTarget → UnversionedTarget → Bool
unread_same a b = str_eq a.package_name b.package_name && ecosystem_eq a.ecosystem b.ecosystem

unfoldable pub sorted_rows : List VersionMismatch → List VersionMismatch
unfolding row_le row_same sort_by dedup_by
sorted_rows rows = dedup_by row_same (sort_by row_le rows)

unfoldable pub sorted_unread : List UnversionedTarget → List UnversionedTarget
unfolding unread_le unread_same sort_by dedup_by
sorted_unread rows = dedup_by unread_same (sort_by unread_le rows)

-- A package of the publish-none branch that may speak for the version.
unfoldable pub is_candidate : Contract → Package → Bool
unfolding reads_manifest
is_candidate contract p =
    any (λ e. ecosystem_eq e p.ecosystem) contract.ecosystems
    && (reads_manifest p.ecosystem && (is_some p.package_name && is_some p.version))

-- `!p.manifest.contains('/')`
unfoldable pub at_root : Package → Bool
at_root p = not (is_some (find? p.manifest "/"))

-- The rows of packages that have a name and a version.
unfoldable pub package_rows : List Package → List VersionMismatch
package_rows [] = []
package_rows (p ∷ ps) = elim p.package_name [
  | none ↦ package_rows ps
  | some name ↦ elim p.version [
    | none ↦ package_rows ps
    | some version ↦
        record { package_name = name; ecosystem = p.ecosystem; manifest_version = version }
        ∷ package_rows ps
  ]
]

-- Root manifests when there are any, else all candidates.
unfoldable pub scoped : Contract → Facts → List Package
unfolding is_candidate at_root filter
scoped contract facts =
    let candidates = filter (is_candidate contract) facts.packages in
    let roots = filter at_root candidates in if is_empty roots then candidates else roots

-- The version that the facts have of a package: of the first with its ecosystem and name.
unfoldable pub version_of : Facts → Ecosystem → String → Option String
unfolding find
version_of facts e name =
    elim (find (λ (p : Package). ecosystem_eq p.ecosystem e && names p) facts.packages) [
      | none ↦ none
      | some p ↦ p.version
    ]
  where
    names : Package → Bool
    names p = elim p.package_name [ none ↦ false | some n ↦ str_eq n name ]

-- a row for a target whose package is known, in one of the two lists
unfoldable pub add_row :
    PlanTarget → String → Option String → ClassifiedVersions → ClassifiedVersions
add_row t name (some version) rows = record {
  checkable =
      record { package_name = name; ecosystem = t.ecosystem; manifest_version = version }
      ∷ rows.checkable;
  missing = rows.missing;
}
add_row t name none rows = record {
  checkable = rows.checkable;
  missing =
      record { package_name = name; ecosystem = t.ecosystem; registry = t.registry } ∷ rows.missing;
}

-- The loop over the targets.
unfoldable pub classify_targets : Facts → List PlanTarget → ClassifiedVersions
unfolding reads_manifest add_row version_of
classify_targets facts [] = record { checkable = []; missing = [] }
classify_targets facts (t ∷ ts) =
    let rest = classify_targets facts ts in
    if not (reads_manifest t.ecosystem) then rest else elim t.package_name [
      | none ↦ rest
      | some name ↦ add_row t name (version_of facts t.ecosystem name) rest
    ]

-- `classify_target_versions`
unfoldable pub classify_target_versions : Contract → Facts → ClassifiedVersions
unfolding scoped package_rows sorted_rows sorted_unread classify_targets resolve_targets
classify_target_versions contract facts =
    if is_empty contract.targets
    then record { checkable = sorted_rows (package_rows (scoped contract facts)); missing = [] }
    else (let rows = classify_targets facts (resolve_targets contract facts) in
        record { checkable = sorted_rows rows.checkable; missing = sorted_unread rows.missing })

pub data VersionResolved : Type 0 where
  determined : String → VersionResolved
  missing_manifest_version : List UnversionedTarget → VersionResolved
  inconsistent_tree : List VersionMismatch → VersionResolved
  undeterminable : VersionResolved

-- The set of the versions.
unfoldable pub distinct : List VersionMismatch → List String
unfolding add
distinct [] = []
distinct (r ∷ rs) = add r.manifest_version (distinct rs)

-- The match on the number of versions; rows with a version are not empty.
unfoldable pub by_count : List String → List VersionMismatch → VersionResolved
by_count [] rows = undeterminable
by_count (v ∷ []) [] = undeterminable
by_count (v ∷ []) (r ∷ rs) = determined r.manifest_version
by_count (v ∷ w ∷ vs) rows = inconsistent_tree rows

unfoldable pub resolve_classified : ClassifiedVersions → VersionResolved
unfolding distinct by_count
resolve_classified c =
    if is_empty c.missing
    then by_count (distinct c.checkable) c.checkable
    else missing_manifest_version c.missing

-- `resolve_release_version`
unfoldable pub resolve_release_version : Contract → Facts → VersionResolved
unfolding classify_target_versions resolve_classified
resolve_release_version contract facts =
    resolve_classified (classify_target_versions contract facts)
