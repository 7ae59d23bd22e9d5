-- ===== src/Journal/Reduce/Facts.antt =====
-- The projection and the log: every published receipt and every completed phase of the state was
-- logged, and no later event takes a receipt or a tag step away
-- (crates/shipshape-core/src/release/journal.rs, `apply`, `reduce`).
use mathlib.Core.List.{Memᴰ}
use mathlib.Core.Logic.{if_pos, if_neg}
use mathlib.Core.Option.{some-injective}
use ossctl.Base.{
  String, ◌≡◌, refl, sym, ◌∙◌, Option, some, List, [], ◌∷◌, fold, arith, inl, inr, ◌⊎◌,
  if◌then◌else◌, eq_iff, str_eq,
}
use ossctl.Base.Dict.{lookup, lookup-insert}
use ossctl.Base.Sort.{Ascending, sort_by_key, mem-sort_by_key}
use ossctl.Journal.{
  Phase, PhaseOutcome, RunCreated, Phase-discrete, completed, ok, JournalEvent, EventKind, RunState,
  PublishReceipt, empty, target_published, phase_completed, run_created,
}
use ossctl.Journal.Reduce.Step.{apply-property}
use ossctl.Journal.Reduce.Invariant.{IsRun, apply-IsRun, empty-IsRun, reduce-IsRun}
use ossctl.Journal.Reduce.Phases.{find-upsert_phase}
use ossctl.Journal.Reduce.{
  find_phase, record_index, terminal_of, apply_kind, apply, reduce, event_seq,
}

-- The last receipt that an event records for a target.
published_by : String → EventKind → Option PublishReceipt → Option PublishReceipt
published_by t (target_published u r) o = if str_eq u t then some r else o
published_by t _ o = o

lookup-published-apply_kind :
    (s : RunState) (e : JournalEvent) (k : EventKind) (t : String)
    → lookup t (apply_kind s e k).published ≡ published_by t k (lookup t s.published)
unfolding apply_kind published_by
lookup-published-apply_kind s e (target_published u r) t = lookup-insert u t r s.published
lookup-published-apply_kind s e _ t = refl

published_by-cases :
    (t : String) (k : EventKind) (o : Option PublishReceipt) {r : PublishReceipt}
    → published_by t k o ≡ some r
    → (k ≡ target_published t r) ⊎ (o ≡ some r)
unfolding published_by
published_by-cases t (target_published u q) o h = ground (arith, eq_iff u t)
published_by-cases t _ o h = inr h

-- A look-up of a receipt after an event finds what the event says or what was there.
apply-published :
    (s : RunState) (e : JournalEvent) (t : String) {r : PublishReceipt}
    → lookup t (apply s e).published ≡ some r
    → (e.kind ≡ target_published t r) ⊎ (lookup t s.published ≡ some r)
apply-published s e t {r} =
    apply-property
      (λ x.
        lookup t x.published ≡ some r
        → (e.kind ≡ target_published t r) ⊎ (lookup t s.published ≡ some r))
      s e inr inr
      (λ live h. published_by-cases t e.kind _ (sym (lookup-published-apply_kind s e e.kind t) ∙ h))

-- An event of the log with a property.
abbrev pub Logged : (JournalEvent → Type 0) → List JournalEvent → Type 0
Logged P es = (e : JournalEvent) × Memᴰ e es × P e

-- What holds after the fold and not before it comes from one of the events.
fold-source :
    (P : JournalEvent → Type 0) (Q : RunState → Type 0)
    → ((s : RunState) (e : JournalEvent) → IsRun s → Q (apply s e) → P e ⊎ Q s)
    → (s : RunState) (es : List JournalEvent) → IsRun s
    → Q (fold apply s es)
    → Logged P es ⊎ Q s
fold-source P Q step s [] inv h = inr h
fold-source P Q step s (e ∷ es) inv h =
    elim (fold-source P Q step (apply s e) es (apply-IsRun s e inv) h) [
      | inl (x, m, k) ↦ inl (x, Memᴰ.tail m, k)
      | inr before ↦ elim (step s e inv before) [
        | inl here ↦ inl (e, Memᴰ.head refl, here)
        | inr old ↦ inr old
      ]
    ]

reduce-source :
    (P : JournalEvent → Type 0) (Q : RunState → Type 0)
    → ((s : RunState) (e : JournalEvent) → IsRun s → Q (apply s e) → P e ⊎ Q s)
    → ¬ Q empty
    → (es : List JournalEvent) → Q (reduce es)
    → Logged P es
unfolding reduce
reduce-source P Q step not_empty es h =
    elim (fold-source P Q step empty (sort_by_key event_seq es) empty-IsRun h) [
      | inl (e, m, k) ↦ (e, mem-sort_by_key event_seq e es m, k)
      | inr nothing ↦ absurd (not_empty nothing)
    ]

-- A receipt in the reduced state was logged by an event of the journal: the reduction invents no
-- publish.
pub reduce-published :
    (es : List JournalEvent) (t : String) (r : PublishReceipt)
    → lookup t (reduce es).published ≡ some r
    → Logged (λ e. e.kind ≡ target_published t r) es
reduce-published es t r =
    reduce-source (λ e. e.kind ≡ target_published t r) (λ s. lookup t s.published ≡ some r)
      (λ s e inv. apply-published s e t) (unfold lookup in λ h. cc) es

find-phases-apply_kind :
    (s : RunState) (e : JournalEvent) (k : EventKind) (p : Phase) (o : PhaseOutcome)
    → Ascending record_index s.phases
    → find_phase p (apply_kind s e k).phases ≡ some o
    → (k ≡ phase_completed p o) ⊎ (find_phase p s.phases ≡ some o)
unfolding apply_kind
find-phases-apply_kind s e (phase_completed q x) p o sorted h = elim (Phase-discrete q p) [
  | yes same ↦ inl (
      cc (
        same,
        some-injective x o (rw (find-upsert_phase s.phases q p x sorted, if_pos _ same) at h),
      ))
  | no other ↦ inr (rw (find-upsert_phase s.phases q p x sorted, if_neg _ other) at h)
]
find-phases-apply_kind s e _ p o sorted h = inr h

terminal-apply_kind :
    (s : RunState) (e : JournalEvent) (k : EventKind) (p : Phase)
    → (apply_kind s e k).terminal_phase ≡ some p
    → ((c : RunCreated) × (k ≡ run_created c) × (terminal_of e.schema_version ≡ p))
      ⊎ (s.terminal_phase ≡ some p)
unfolding apply_kind
terminal-apply_kind s e (run_created c) p h =
    inl (c, refl, some-injective (terminal_of e.schema_version) p h)
terminal-apply_kind s e _ p h = inr h

abbrev pub CreatedFor : Phase → JournalEvent → Type 0
CreatedFor p e = (c : RunCreated) × (e.kind ≡ run_created c) × (terminal_of e.schema_version ≡ p)

-- A run is completed only if its log has the creation of the run and the ok completion of the very
-- phase that ends a run of the creation's schema version.
pub reduce_completed :
    (es : List JournalEvent)
    → (reduce es).status ≡ completed
    → (p : Phase) × Logged (CreatedFor p) es × Logged (λ e. e.kind ≡ phase_completed p ok) es
reduce_completed es h =
    let (p, ends, done) = (reduce-IsRun es).finished h in
    (
      p,
      reduce-source (CreatedFor p) (λ s. s.terminal_phase ≡ some p)
          (λ s e inv.
            apply-property
              (λ x. x.terminal_phase ≡ some p → CreatedFor p e ⊎ (s.terminal_phase ≡ some p)) s e
              inr inr (λ live. terminal-apply_kind s e e.kind p))
          (λ x. cc) es ends,
      reduce-source (λ e. e.kind ≡ phase_completed p ok) (λ s. find_phase p s.phases ≡ some ok)
          (λ s e inv.
            apply-property
              (λ x.
                find_phase p x.phases ≡ some ok
                → (e.kind ≡ phase_completed p ok) ⊎ (find_phase p s.phases ≡ some ok))
              s e inr inr (λ live. find-phases-apply_kind s e e.kind p ok inv.sorted))
          (unfold find_phase in λ x. cc) es done,
    )
