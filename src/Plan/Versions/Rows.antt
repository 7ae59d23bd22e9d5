-- ===== src/Plan/Versions/Rows.antt =====
-- The rows of versions: counted, sorted, and one for each package
-- (crates/shipshape-core/src/release/plan.rs, `resolve_release_version`).
use mathlib.Core.Path.{subst}
use ossctl.Base.{
  ◌≡◌, refl, sym, ◌∙◌, inl, inr, Bool, true, false, ◌&&◌, not, String, str_eq, List, [], ◌∷◌,
  is_empty, any, All, arith, Bool-cases, eq_iff, eq_refl,
}
use ossctl.Base.Dict.{add, contains}
use ossctl.Base.SortBy.{sort_by, dedup_by, any-sort_by, any-dedup_by, All-sort_by, All-dedup_by}
use ossctl.Schema.{Ecosystem}
use ossctl.Plan.Inputs.{ecosystem_eq}
use ossctl.Plan.Versions.{
  VersionMismatch, UnversionedTarget, row_le, row_same, unread_le, unread_same, sorted_rows,
  sorted_unread, determined, distinct, by_count,
}

abbrev has_version : String → VersionMismatch → Bool
has_version v r = str_eq r.manifest_version v

-- Whether a row is about a package.
abbrev pub about : Ecosystem → String → VersionMismatch → Bool
about e name r = str_eq r.package_name name && ecosystem_eq r.ecosystem e

-- The set has one version just when all rows have it.
distinct-Single :
    (v : String) (r : VersionMismatch) (rs : List VersionMismatch)
    → All (λ (q : VersionMismatch). q.manifest_version ≡ v) (r ∷ rs)
    → distinct (r ∷ rs) ≡ v ∷ []
unfolding distinct add contains
distinct-Single v r [] h = rw h.0 refl
distinct-Single v r (q ∷ rs) h =
    rw (distinct-Single v q rs h.1, h.0) (unfold contains in rw (eq_refl v) refl)

add-ne-nil : (u : String) (vs : List String) → add u vs ≡ [] → ⊥
unfolding add contains
add-ne-nil u [] h = cc
add-ne-nil u (v ∷ vs) h = ground (arith, h)

head_eq :
    {u v : String} {vs : List String}
    → ◌≡◌ {A = List String} (u ∷ vs) (v ∷ [])
    → (u ≡ v) × (vs ≡ [])
head_eq e = (cc, cc)

-- A set of one version has the version of every row.
versions_of-distinct :
    (u : String) (rows : List VersionMismatch)
    → distinct rows ≡ u ∷ []
    → All (λ (q : VersionMismatch). q.manifest_version ≡ u) rows
unfolding distinct
versions_of-distinct u [] h = tt
versions_of-distinct u (r ∷ rs) h = elim (Bool-cases (contains r.manifest_version (distinct rs))) [
  | inl e ↦
      let same : add r.manifest_version (distinct rs) ≡ distinct rs = unfold add in rw e refl in
      let rest : distinct rs ≡ u ∷ [] = sym same ∙ h in
      let known : contains r.manifest_version (u ∷ []) ≡ true = rw rest at e in
      (
        unfold contains in ground (arith, known, eq_iff u r.manifest_version),
        versions_of-distinct u rs rest,
      )
  | inr e ↦
      let new : add r.manifest_version (distinct rs) ≡ r.manifest_version ∷ distinct rs =
        unfold add in rw e refl in
      let (here, none_left) = head_eq (sym new ∙ h) in (here, all_of_none u rs none_left)
]
  where
    all_of_none :
        (w : String) (qs : List VersionMismatch)
        → distinct qs ≡ []
        → All (λ (q : VersionMismatch). q.manifest_version ≡ w) qs
    all_of_none w [] e = tt
    all_of_none w (q ∷ qs) e = absurd (add-ne-nil q.manifest_version (distinct qs) e)

-- A verdict was given by one version and a first row.
single_version :
    (v : String) (vs : List String) (rows : List VersionMismatch)
    → by_count vs rows ≡ determined v
    → (u : String) × (r : VersionMismatch) × (rs : List VersionMismatch) × (vs ≡ u ∷ [])
      × (rows ≡ r ∷ rs)
      × (r.manifest_version ≡ v)
unfolding by_count
single_version v [] rows h = absurd (ground (arith, h))
single_version v (u ∷ []) [] h = absurd (ground (arith, h))
single_version v (u ∷ []) (r ∷ rs) h = (u, r, rs, refl, refl, (cc))
single_version v (u ∷ w ∷ vs) rows h = absurd (ground (arith, h))

abbrev pub Share : String → List VersionMismatch → Type 0
Share v rows = All (λ (q : VersionMismatch). q.manifest_version ≡ v) rows

pub by_count-Share :
    (v : String) (rows : List VersionMismatch)
    → by_count (distinct rows) rows ≡ determined v
    → Share v rows × (is_empty rows ≡ false)
by_count-Share v rows h =
    let (u, r, rs, one, split, first) = single_version v (distinct rows) rows h in
    let all_u : Share u rows = versions_of-distinct u rows one in
    let head_u : r.manifest_version ≡ u = (subst (Share u) split all_u).0 in
    (
      subst (λ w. Share w rows) (sym head_u ∙ first) all_u,
      subst (λ (xs : List VersionMismatch). is_empty xs ≡ false) (sym split) refl,
    )

pub by_count_shared :
    (v : String) (rows : List VersionMismatch)
    → Share v rows
    → is_empty rows ≡ false
    → by_count (distinct rows) rows ≡ determined v
unfolding by_count
by_count_shared v [] h e = absurd (ground (arith, e))
by_count_shared v (r ∷ rs) h e = rw (distinct-Single v r rs h, h.0) refl

-- Sorting and dropping repeated keys.
is_empty-any : {A : Type 0} (xs : List A) → is_empty xs ≡ not (any (λ (x : A). true) xs)
is_empty-any [] = refl
is_empty-any (x ∷ xs) = refl

pub is_empty-sorted_rows :
    (rows : List VersionMismatch) → is_empty (sorted_rows rows) ≡ is_empty rows
unfolding sorted_rows
is_empty-sorted_rows rows =
    rw
      (
        is_empty-any (dedup_by row_same (sort_by row_le rows)),
        is_empty-any rows,
        any-dedup_by row_same (λ (r : VersionMismatch). true) (λ x y h. refl) (sort_by row_le rows),
        any-sort_by row_le (λ (r : VersionMismatch). true) rows,
      )
      refl

pub is_empty-sorted_unread :
    (rows : List UnversionedTarget) → is_empty (sorted_unread rows) ≡ is_empty rows
unfolding sorted_unread
is_empty-sorted_unread rows =
    rw
      (
        is_empty-any (dedup_by unread_same (sort_by unread_le rows)),
        is_empty-any rows,
        any-dedup_by unread_same (λ (r : UnversionedTarget). true) (λ x y h. refl)
            (sort_by unread_le rows),
        any-sort_by unread_le (λ (r : UnversionedTarget). true) rows,
      )
      refl

about_alike :
    (e : Ecosystem) (name : String) (x y : VersionMismatch)
    → row_same x y ≡ true
    → about e name x ≡ about e name y
unfolding row_same
about_alike e name x y h = ground (
  arith,
  h,
  eq_iff x.package_name y.package_name,
  eq_iff x.package_name name,
  eq_iff y.package_name name,
)

pub any-sorted_rows :
    (e : Ecosystem) (name : String) (rows : List VersionMismatch)
    → any (about e name) (sorted_rows rows) ≡ any (about e name) rows
unfolding sorted_rows
any-sorted_rows e name rows =
    any-dedup_by row_same (about e name) (about_alike e name) (sort_by row_le rows)
    ∙ any-sort_by row_le (about e name) rows

pub All-sorted_rows {κ} :
    (P : VersionMismatch → Type κ) (rows : List VersionMismatch)
    → All P rows
    → All P (sorted_rows rows)
unfolding sorted_rows
All-sorted_rows P rows h =
    All-dedup_by row_same P (sort_by row_le rows) (All-sort_by row_le P rows h)
