-- ===== src/Plan/Conflicts/Found.antt =====
-- The conflicts found are all there are
-- (crates/shipshape-core/src/release/plan.rs, `delegated_dependency_conflicts`).
use ossctl.Base.{
  ◌+◌, ◌≡◌, refl, sym, ◌∙◌, ◌↔◌, inl, inr, Bool, true, false, ◌&&◌, ◌||◌, String, str_eq, some,
  List, [], ◌∷◌, ◌++◌, any, length, filter, is_empty, arith, Bool-cases, eq_iff,
}
use ossctl.Base.Dict.{contains}
use ossctl.Base.SortBy.{sort_by, any-sort_by, any-dedup_by}
use ossctl.Plan.{PlanTarget, ReleasePlan}
use ossctl.Plan.Order.{WorkspaceMember}
use ossctl.Plan.Inputs.{RustWorkspace, Facts}
use ossctl.Plan.Targets.{is_rust_crates_io_publish, deps_of, count_edges, named}
use ossctl.Plan.Targets.Closure.{Reach, Walks, walk_iff}
use ossctl.Plan.Targets.PublishSet.{contains-push, length-push}
use ossctl.Plan.Conflicts.{
  DelegatedDependencyConflict, delegated_packages, extend_stack, walk_deps, conflicts_among,
  reached_from, engine_conflicts, conflict_le, conflict_same, workspace_conflicts,
  delegated_dependency_conflicts,
}

abbrev extend : List String → List String → List String → List String
extend seen ds stack = extend_stack ds stack

walk_deps-Walks : (members : List WorkspaceMember) → Walks members (walk_deps members) extend
unfolding walk_deps extend_stack
walk_deps-Walks members = record {
  out_of_rounds = λ seen stack. refl;
  done = λ left seen. refl;
  again = λ left p seen stack e. rw (e, walk_deps) refl;
  new = λ left p seen stack e. rw (e, walk_deps) refl;
  length-push = λ seen ds stack. omega (arith, length-push stack ds);
  pushed_from = λ x seen ds stack h. rw contains-push at h;
  pushed = λ x seen ds stack h. rw (contains-push x stack ds) (ground (arith, h));
}

-- Whether a conflict is between these two packages.
abbrev pub between : String → String → DelegatedDependencyConflict → Bool
between engine delegated c = str_eq c.engine_package engine && str_eq c.delegated_package delegated

any-append :
    (f : DelegatedDependencyConflict → Bool) (ps qs : List DelegatedDependencyConflict)
    → any f (ps ++ qs) ≡ (any f ps || any f qs)
any-append f [] qs = refl
any-append f (p ∷ ps) qs = rw (any-append f ps qs) (ground arith)

any-conflicts_among :
    (delegated : List String) (root e d : String) (seen : List String)
    → any (between e d) (conflicts_among delegated root seen)
      ≡ (str_eq root e && (contains d seen && contains d delegated))
unfolding conflicts_among contains
any-conflicts_among delegated root e d [] = ground arith
any-conflicts_among delegated root e d (p ∷ seen) =
    ground (arith, any-conflicts_among delegated root e d seen, eq_iff p d)

any-engine_conflicts :
    (delegated : List String) (members : List WorkspaceMember) (e d : String) (roots : List String)
    → any (between e d) (engine_conflicts delegated members roots)
      ≡ (contains e roots && (contains d (reached_from members e) && contains d delegated))
unfolding engine_conflicts contains
any-engine_conflicts delegated members e d [] = refl
any-engine_conflicts delegated members e d (r ∷ roots) =
    rw
      (
        any-append (between e d) (conflicts_among delegated r (reached_from members r))
            (engine_conflicts delegated members roots),
        any-conflicts_among delegated r e d (reached_from members r),
        any-engine_conflicts delegated members e d roots,
      )
      (elim (Bool-cases (str_eq r e)) [
        | inl same ↦ ground (arith, same, eq_iff r e)
        | inr other ↦ ground (arith, other)
      ])

reached_from_iff :
    (members : List WorkspaceMember) (e d : String)
    → (contains d (reached_from members e) ≡ true) ↔ Reach (deps_of members e) members d
unfolding reached_from extend_stack
reached_from_iff members e =
    walk_iff (deps_of members e) members (walk_deps members) extend (walk_deps-Walks members)
      (length (deps_of members e) + count_edges members) (extend_stack (deps_of members e) [])
      (λ x. unfold contains in contains-push x [] (deps_of members e))
      (omega (arith, length-push [] (deps_of members e)))

between_alike :
    (e d : String) (x y : DelegatedDependencyConflict)
    → conflict_same x y ≡ true
    → between e d x ≡ between e d y
unfolding conflict_same
between_alike e d x y h = ground (
  arith,
  h,
  eq_iff x.engine_package y.engine_package,
  eq_iff x.delegated_package y.delegated_package,
  eq_iff x.engine_package e,
  eq_iff y.engine_package e,
  eq_iff x.delegated_package d,
  eq_iff y.delegated_package d,
)

nothing_delegated : (d : String) (ds : List String) → is_empty ds ≡ true → contains d ds ≡ false
unfolding contains
nothing_delegated d [] h = refl
nothing_delegated d (x ∷ ds) h = absurd (ground (arith, h))

any-workspace_conflicts :
    (targets : List PlanTarget) (w : RustWorkspace) (e d : String)
    → any (between e d) (workspace_conflicts targets w) ≡ (
        contains e (named (filter is_rust_crates_io_publish targets))
        && (contains d (reached_from w.members e) && contains d (delegated_packages targets)))
unfolding workspace_conflicts
any-workspace_conflicts targets w e d =
    let delegated = delegated_packages targets in
    let engines = named (filter is_rust_crates_io_publish targets) in
    let found = engine_conflicts delegated w.members engines in
    elim (Bool-cases (is_empty delegated)) [
      | inl none_there ↦ rw (none_there, nothing_delegated d delegated none_there) (ground arith)
      | inr some_there ↦ rw some_there (
          any-dedup_by conflict_same (between e d) (between_alike e d) (sort_by conflict_le found)
          ∙ any-sort_by conflict_le (between e d) found
          ∙ any-engine_conflicts delegated w.members e d engines)
    ]

-- In a repository with a Rust workspace, a conflict between two packages is reported exactly when the
-- plan has the engine publish the first to crates.io, leaves the second to CI, and the first depends on
-- the second, directly or through members of the workspace.
pub delegated_dependency_conflicts-Reach :
    (plan : ReleasePlan) (facts : Facts) (w : RustWorkspace) (e d : String)
    → facts.rust_workspace ≡ some w
    → (any (between e d) (delegated_dependency_conflicts plan facts) ≡ true) ↔ (
        (contains e (named (filter is_rust_crates_io_publish plan.targets)) ≡ true)
        × (contains d (delegated_packages plan.targets) ≡ true)
        × Reach (deps_of w.members e) w.members d)
unfolding delegated_dependency_conflicts
delegated_dependency_conflicts-Reach plan facts w e d h =
    let value : any (between e d) (delegated_dependency_conflicts plan facts) ≡ (
        contains e (named (filter is_rust_crates_io_publish plan.targets))
        && (contains d (reached_from w.members e)
            && contains d (delegated_packages plan.targets))) =
      rw (h, delegated_dependency_conflicts) (any-workspace_conflicts plan.targets w e d) in
    (
      (λ c.
          let all = sym value ∙ c in
          (
            ground (arith, all),
            ground (arith, all),
            (reached_from_iff w.members e d).0 (ground (arith, all)),
          )),
      (λ (engine, ci, r).
          let near = (reached_from_iff w.members e d).1 r in value ∙ rw (engine, ci, near) refl),
    )
