-- ===== src/Plan/Versions/Agreement.antt =====
-- The release version is determined exactly when the manifests agree on it
-- (crates/shipshape-core/src/release/plan.rs, `resolve_release_version`).
use mathlib.Core.List.{Memᴰ}
use ossctl.Base.{◌≡◌, refl, ◌↔◌, inl, inr, true, false, String, is_empty, arith, Bool-cases}
use ossctl.Plan.{PlanTarget}
use ossctl.Plan.Inputs.{Contract, Facts}
use ossctl.Plan.Targets.{resolve_targets}
use ossctl.Plan.Versions.{
  ClassifiedVersions, sorted_rows, sorted_unread, classify_targets, classify_target_versions,
  determined, distinct, by_count, resolve_classified, resolve_release_version,
}
use ossctl.Plan.Versions.Rows.{
  by_count-Share, by_count_shared, is_empty-sorted_rows, is_empty-sorted_unread, any-sorted_rows,
  All-sorted_rows,
}
use ossctl.Plan.Versions.Classified.{
  Checked, Agreed, Read, classify_targets-Read, covered, row_version, Agreed-Share, some_row,
  row_target,
}

module _ (contract : Contract) (facts : Facts) where
  abbrev rows : ClassifiedVersions
  rows = classify_targets facts (resolve_targets contract facts)

  with_targets :
      is_empty contract.targets ≡ false
      → classify_target_versions contract facts
        ≡ record { checkable = sorted_rows rows.checkable; missing = sorted_unread rows.missing }
  unfolding classify_target_versions
  with_targets e = rw e refl

  -- Without missing rows the verdict is that of the rows; with some there is none.
  verdict :
      is_empty contract.targets ≡ false
      → resolve_release_version contract facts
        ≡ resolve_classified (record {
          checkable = sorted_rows rows.checkable;
          missing = sorted_unread rows.missing;
        })
  unfolding resolve_release_version
  verdict e = rw (with_targets e) refl

resolve_classified_to :
    (v : String) (c : ClassifiedVersions)
    → resolve_classified c ≡ determined v
    → (is_empty c.missing ≡ true) × (by_count (distinct c.checkable) c.checkable ≡ determined v)
unfolding resolve_classified
resolve_classified_to v c h = elim (Bool-cases (is_empty c.missing)) [
  | inl e ↦ (e, rw e at h)
  | inr e ↦ absurd (ground (arith, rw e at h))
]

resolve_classified_from :
    (v : String) (c : ClassifiedVersions)
    → is_empty c.missing ≡ true
    → by_count (distinct c.checkable) c.checkable ≡ determined v
    → resolve_classified c ≡ determined v
unfolding resolve_classified
resolve_classified_from v c e h = rw e h

-- When the contract declares targets, a version is determined exactly when the facts show that very
-- version for each resolved target whose ecosystem has manifests and whose package is known, and there
-- is at least one such target.
pub resolve_release_version-Agreed :
    (contract : Contract) (facts : Facts) (v : String)
    → is_empty contract.targets ≡ false
    → (resolve_release_version contract facts ≡ determined v) ↔ (
        Agreed facts v (resolve_targets contract facts)
        × ((t : PlanTarget) × (name : String) × Memᴰ t (resolve_targets contract facts)
            × Checked facts t name))
resolve_release_version-Agreed contract facts v e = (
  (λ h.
      let (read, one) = resolve_classified_to v _ (rw (verdict contract facts e) at h) in
      let (share, some_left) = by_count-Share v (sorted_rows (rows contract facts).checkable) one in
      let none_missing : is_empty (rows contract facts).missing ≡ true =
        rw is_empty-sorted_unread at read in
      (
        (λ t name m c.
            row_version facts t.ecosystem name v (sorted_rows (rows contract facts).checkable)
              (rw any-sorted_rows (covered facts name m c none_missing))
              (All-sorted_rows (Read facts) _
                (classify_targets-Read facts (resolve_targets contract facts)))
              share),
        row_target facts (resolve_targets contract facts) (rw is_empty-sorted_rows at some_left),
      )),
  (λ (agreed, (t, name, m, c)).
      let (read, share) = Agreed-Share facts v (resolve_targets contract facts) agreed in
      let row : is_empty (rows contract facts).checkable ≡ false =
        some_row facts t.ecosystem name _ (covered facts name m c read) in
      rw (verdict contract facts e) (
        resolve_classified_from v _ (rw is_empty-sorted_unread read)
          (by_count_shared v _ (All-sorted_rows _ _ share) (rw is_empty-sorted_rows row)))),
)
