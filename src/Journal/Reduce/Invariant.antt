-- ===== src/Journal/Reduce/Invariant.antt =====
-- What holds of every reduced state
-- (crates/shipshape-core/src/release/journal.rs, `apply`, `reduce`).
use mathlib.Core.Logic.{if_pos}
use ossctl.Base.{String, ◌≡◌, refl, true, false, Option, some, List, [], ◌∷◌, fold, arith}
use ossctl.Base.Dict.{lookup, contains, contains_key, contains-add, lookup-insert}
use ossctl.Base.Sort.{Ascending, sort_by_key}
use ossctl.Journal.{
  Phase, EventKind, JournalEvent, RunState, empty, completed, abandoned, ok, run_created,
  phase_completed, run_abandoned, target_delegated,
}
use ossctl.Journal.Reduce.{
  find_phase, record_index, is_phase, is_terminal, apply_kind, apply, reduce, event_seq,
}
use ossctl.Journal.Reduce.Step.{apply-property}
use ossctl.Journal.Reduce.Phases.{upsert_phase-Ascending, find-upsert_phase}

-- A run that is completed had its terminal phase completed ok.
abbrev pub CompletedBy : RunState → Type 0
CompletedBy s =
    s.status ≡ completed
    → (p : Phase) × (s.terminal_phase ≡ some p) × (find_phase p s.phases ≡ some ok)

pub record IsRun (s : RunState) : Type 0 where
  -- the phases are in barrier order, one record to a phase
  pub sorted : Ascending record_index s.phases
  pub finished : CompletedBy s
  pub reasoned : s.status ≡ abandoned → (r : String) × (s.abandon_reason ≡ some r)
  -- each delegated target has the adapter that it was delegated to
  pub adapters : (t : String) → contains t s.delegated ≡ contains_key t s.delegated_adapters

sorted-apply_kind :
    (s : RunState) (e : JournalEvent) (k : EventKind)
    → Ascending record_index s.phases
    → Ascending record_index (apply_kind s e k).phases
unfolding apply_kind
sorted-apply_kind s e (phase_completed p o) h = upsert_phase-Ascending s.phases p o h
sorted-apply_kind s e _ h = h

is_phase_iff : (p : Phase) (o : Option Phase) → is_phase p o ≡ true → o ≡ some p
is_phase_iff p o h = ground arith

finished-apply_kind :
    (s : RunState) (e : JournalEvent) (k : EventKind)
    → Ascending record_index s.phases
    → is_terminal s.status ≡ false
    → CompletedBy (apply_kind s e k)
unfolding apply_kind
finished-apply_kind s e (phase_completed p o) h live done = (
  p,
  ground (arith, is_phase_iff p s.terminal_phase),
  rw (find-upsert_phase s.phases p p o h, if_pos _ refl) (ground arith),
)
finished-apply_kind s e (run_created c) h live done = ground arith
finished-apply_kind s e _ h live done = ground arith

reasoned-apply_kind :
    (s : RunState) (e : JournalEvent) (k : EventKind)
    → is_terminal s.status ≡ false
    → (apply_kind s e k).status ≡ abandoned
    → (r : String) × ((apply_kind s e k).abandon_reason ≡ some r)
unfolding apply_kind
reasoned-apply_kind s e (run_abandoned r) live h = (r, refl)
reasoned-apply_kind s e _ live h = ground arith

adapters-apply_kind :
    (s : RunState) (e : JournalEvent) (k : EventKind)
    → ((t : String) → contains t s.delegated ≡ contains_key t s.delegated_adapters)
    → (t : String)
    → contains t (apply_kind s e k).delegated ≡ contains_key t (apply_kind s e k).delegated_adapters
unfolding apply_kind
adapters-apply_kind s e (target_delegated d a) h t =
    rw (contains-add, lookup-insert) (ground (arith, h t))
adapters-apply_kind s e _ h t = h t

apply_kind-IsRun :
    (s : RunState) (e : JournalEvent) (k : EventKind)
    → is_terminal s.status ≡ false
    → IsRun s
    → IsRun (record (apply_kind s e k) { applied_seq = e.seq; updated_ts = e.ts })
apply_kind-IsRun s e k live h = record {
  sorted = sorted-apply_kind s e k h.sorted;
  finished = finished-apply_kind s e k h.sorted live;
  reasoned = reasoned-apply_kind s e k live;
  adapters = adapters-apply_kind s e k h.adapters;
}

-- One event, whatever it says, keeps the invariant.
pub apply-IsRun : (s : RunState) (e : JournalEvent) → IsRun s → IsRun (apply s e)
apply-IsRun s e h =
    apply-property IsRun s e h
      (record {
        sorted = h.sorted;
        finished = h.finished;
        reasoned = h.reasoned;
        adapters = h.adapters;
      })
      (λ live. apply_kind-IsRun s e e.kind live h)

pub empty-IsRun : IsRun empty
unfolding contains
empty-IsRun = record {
  sorted = tt;
  finished = λ h. cc;
  reasoned = λ h. cc;
  adapters = λ t. unfold lookup in refl;
}

pub fold-IsRun : (s : RunState) (events : List JournalEvent) → IsRun s → IsRun (fold apply s events)
fold-IsRun s [] h = h
fold-IsRun s (e ∷ events) h = fold-IsRun (apply s e) events (apply-IsRun s e h)

-- The state reduced from any list of events, in any order and however corrupt, is well formed: its
-- phase records stand in barrier order with one record to a phase, a completed run has its terminal
-- phase recorded ok, an abandoned run has a reason, and exactly the delegated targets have an
-- adapter recorded.
pub reduce-IsRun : (events : List JournalEvent) → IsRun (reduce events)
unfolding reduce
reduce-IsRun events = fold-IsRun empty (sort_by_key event_seq events) empty-IsRun
