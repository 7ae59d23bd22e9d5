-- ===== src/Journal/Reduce/Kept.antt =====
-- Facts are monotone: no event takes a receipt, a cleared step, a delegation or a tag step away
-- (crates/shipshape-core/src/release/journal.rs, `apply`).
use mathlib.Core.Option.{get_or}
use ossctl.Base.{
  String, ◌≡◌, refl, true, List, [], ◌∷◌, fold, arith, if◌then◌else◌, eq_iff, str_eq, Bool-cases,
  inl, inr,
}
use ossctl.Base.Dict.{
  Dict, lookup, contains, add, contains_key, lookup-insert, contains_key-insert, contains-add,
}
use ossctl.Journal.{
  JournalEvent, EventKind, RunState, TagState, default_tag, target_published, target_delegated,
  target_dry_run, target_built, target_cancelled, tag_created_local, tag_pushed_remote,
  github_release_created, github_release_delegated,
}
use ossctl.Journal.Reduce.{
  apply_kind, apply, on_tag, set_created_local, set_pushed_remote, set_github_release,
  set_github_release_delegated,
}
use ossctl.Journal.Reduce.Step.{folded, apply-property}

-- The landing steps of a tag, all off for a tag that is not there.
abbrev pub tag_state : String → RunState → TagState
tag_state t s = get_or (lookup t s.tags) default_tag

pub record TagKept (a b : TagState) : Type 0 where
  pub created_local : a.created_local ≡ true → b.created_local ≡ true
  pub pushed_remote : a.pushed_remote ≡ true → b.pushed_remote ≡ true
  pub github_release : a.github_release ≡ true → b.github_release ≡ true
  pub github_release_delegated :
      a.github_release_delegated ≡ true → b.github_release_delegated ≡ true

-- All that the first state records, the second one does too.
pub record Kept (s s' : RunState) : Type 0 where
  pub dry_run : (t : String) → contains t s.dry_run ≡ true → contains t s'.dry_run ≡ true
  pub built : (t : String) → contains t s.built ≡ true → contains t s'.built ≡ true
  pub published :
      (t : String) → contains_key t s.published ≡ true → contains_key t s'.published ≡ true
  pub cancelled :
      (t : String) → contains_key t s.cancelled ≡ true → contains_key t s'.cancelled ≡ true
  pub delegated : (t : String) → contains t s.delegated ≡ true → contains t s'.delegated ≡ true
  pub tags : (t : String) → TagKept (tag_state t s) (tag_state t s')

TagKept-refl : (a : TagState) → TagKept a a
TagKept-refl a = record {
  created_local = λ h. h;
  pushed_remote = λ h. h;
  github_release = λ h. h;
  github_release_delegated = λ h. h;
}

lookup-on_tag :
    (t u : String) (f : TagState → TagState) (tags : Dict TagState)
    → get_or (lookup u (on_tag t f tags)) default_tag ≡ (
        if str_eq t u
        then f (get_or (lookup t tags) default_tag)
        else get_or (lookup u tags) default_tag)
unfolding on_tag
lookup-on_tag t u f tags = rw lookup-insert (ground arith)

TagKept-on_tag :
    (t u : String) (f : TagState → TagState) (tags : Dict TagState)
    → ((a : TagState) → TagKept a (f a))
    → TagKept (get_or (lookup u tags) default_tag) (get_or (lookup u (on_tag t f tags)) default_tag)
TagKept-on_tag t u f tags h = elim (Bool-cases (str_eq t u)) [
  | inl same ↦
      rw (lookup-on_tag, same, (eq_iff t u).0 same) (h (get_or (lookup u tags) default_tag))
  | inr other ↦ rw (lookup-on_tag, other) (TagKept-refl _)
]

contains-add_kept :
    (t u : String) (s : List String) → contains u s ≡ true → contains u (add t s) ≡ true
contains-add_kept t u s h = rw contains-add (ground arith)

pub Kept-refl : (s : RunState) → Kept s s
Kept-refl s = record {
  dry_run = λ t h. h;
  built = λ t h. h;
  published = λ t h. h;
  cancelled = λ t h. h;
  delegated = λ t h. h;
  tags = λ t. TagKept-refl (tag_state t s);
}

pub Kept-trans : {a b c : RunState} → Kept a b → Kept b c → Kept a c
Kept-trans p q = record {
  dry_run = λ t h. q.dry_run t (p.dry_run t h);
  built = λ t h. q.built t (p.built t h);
  published = λ t h. q.published t (p.published t h);
  cancelled = λ t h. q.cancelled t (p.cancelled t h);
  delegated = λ t h. q.delegated t (p.delegated t h);
  tags = λ t. record {
    created_local = λ h. (q.tags t).created_local ((p.tags t).created_local h);
    pushed_remote = λ h. (q.tags t).pushed_remote ((p.tags t).pushed_remote h);
    github_release = λ h. (q.tags t).github_release ((p.tags t).github_release h);
    github_release_delegated =
        λ h. (q.tags t).github_release_delegated ((p.tags t).github_release_delegated h);
  };
}

module _ (s : RunState) (e : JournalEvent) where
  dry_run-apply_kind :
      (k : EventKind) (t : String)
      → contains t s.dry_run ≡ true
      → contains t (apply_kind s e k).dry_run ≡ true
  unfolding apply_kind
  dry_run-apply_kind (target_dry_run u) t = contains-add_kept u t s.dry_run
  dry_run-apply_kind _ t = λ h. h

  built-apply_kind :
      (k : EventKind) (t : String)
      → contains t s.built ≡ true
      → contains t (apply_kind s e k).built ≡ true
  unfolding apply_kind
  built-apply_kind (target_built u) t = contains-add_kept u t s.built
  built-apply_kind _ t = λ h. h

  published-apply_kind :
      (k : EventKind) (t : String)
      → contains_key t s.published ≡ true
      → contains_key t (apply_kind s e k).published ≡ true
  unfolding apply_kind
  published-apply_kind (target_published u r) t = contains_key-insert u t r s.published
  published-apply_kind _ t = λ h. h

  cancelled-apply_kind :
      (k : EventKind) (t : String)
      → contains_key t s.cancelled ≡ true
      → contains_key t (apply_kind s e k).cancelled ≡ true
  unfolding apply_kind
  cancelled-apply_kind (target_cancelled u r) t = contains_key-insert u t r s.cancelled
  cancelled-apply_kind _ t = λ h. h

  delegated-apply_kind :
      (k : EventKind) (t : String)
      → contains t s.delegated ≡ true
      → contains t (apply_kind s e k).delegated ≡ true
  unfolding apply_kind
  delegated-apply_kind (target_delegated u a) t = contains-add_kept u t s.delegated
  delegated-apply_kind _ t = λ h. h

  tags-apply_kind :
      (k : EventKind) (t : String) → TagKept (tag_state t s) (tag_state t (apply_kind s e k))
  unfolding apply_kind
  tags-apply_kind (tag_created_local u) t = TagKept-on_tag u t set_created_local s.tags (λ a.
      record {
        created_local = λ h. refl;
        pushed_remote = λ h. h;
        github_release = λ h. h;
        github_release_delegated = λ h. h;
      })
  tags-apply_kind (tag_pushed_remote u) t = TagKept-on_tag u t set_pushed_remote s.tags (λ a.
      record {
        created_local = λ h. h;
        pushed_remote = λ h. refl;
        github_release = λ h. h;
        github_release_delegated = λ h. h;
      })
  tags-apply_kind (github_release_created u l) t =
      TagKept-on_tag u t (set_github_release l) s.tags (λ a. record {
        created_local = λ h. h;
        pushed_remote = λ h. h;
        github_release = λ h. refl;
        github_release_delegated = λ h. h;
      })
  tags-apply_kind (github_release_delegated u a) t =
      TagKept-on_tag u t set_github_release_delegated s.tags (λ a. record {
        created_local = λ h. h;
        pushed_remote = λ h. h;
        github_release = λ h. h;
        github_release_delegated = λ h. refl;
      })
  tags-apply_kind _ t = TagKept-refl (tag_state t s)

  folded-Kept : Kept s (folded s e)
  folded-Kept = record {
    dry_run = dry_run-apply_kind e.kind;
    built = built-apply_kind e.kind;
    published = published-apply_kind e.kind;
    cancelled = cancelled-apply_kind e.kind;
    delegated = delegated-apply_kind e.kind;
    tags = tags-apply_kind e.kind;
  }

  moved-Kept : Kept s (record s { applied_seq = e.seq })
  moved-Kept = record {
    dry_run = λ t h. h;
    built = λ t h. h;
    published = λ t h. h;
    cancelled = λ t h. h;
    delegated = λ t h. h;
    tags = λ t. TagKept-refl (tag_state t s);
  }

  pub apply-Kept : Kept s (apply s e)
  apply-Kept = apply-property (Kept s) s e (Kept-refl s) moved-Kept (λ live. folded-Kept)

-- Whatever events follow, each target that cleared its dry run or its build, was published,
-- cancelled or delegated stays so recorded, and no landing step of a tag is unset.
pub fold-Kept : (s : RunState) (es : List JournalEvent) → Kept s (fold apply s es)
fold-Kept s [] = Kept-refl s
fold-Kept s (e ∷ es) = Kept-trans (apply-Kept s e) (fold-Kept (apply s e) es)
