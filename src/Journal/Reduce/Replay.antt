-- ===== src/Journal/Reduce/Replay.antt =====
-- Replays: what was seen is not applied again, and a run that is over stays as it is
-- (crates/shipshape-core/src/release/journal.rs, `apply`, `reduce`).
use mathlib.Core.List.{Permᴰ}
use mathlib.Core.Path.{subst}
use ossctl.Base.{
  ℕ, ◌≡◌, ◌≤◌, ◌<◌, refl, sym, ap, ◌∙◌, true, List, [], ◌∷◌, ◌++◌, leb, fold, arith, All,
  Bool-cases, inl, inr, le→leb, lt→leb, leb→le, leb→lt, fold-append,
}
use ossctl.Base.Sort.{Ascending, Distinct, sort_by_key-perm, sort_by_key_of_Ascending}
use ossctl.Journal.{JournalEvent, RunState, empty}
use ossctl.Journal.Reduce.{is_terminal, apply, reduce, event_seq}

apply_seen : (s : RunState) (e : JournalEvent) → e.seq ≤ s.applied_seq → apply s e ≡ s
unfolding apply
apply_seen s e h = rw (le→leb _ _ h)

applied_seq-apply :
    (s : RunState) (e : JournalEvent) → s.applied_seq < e.seq → (apply s e).applied_seq ≡ e.seq
unfolding apply
applied_seq-apply s e h = rw (lt→leb _ _ h) (ground arith)

-- The watermark never falls.
pub applied_seq-le-apply :
    (s : RunState) (e : JournalEvent) → s.applied_seq ≤ (apply s e).applied_seq
unfolding apply
applied_seq-le-apply s e = ground arith

seq-le-apply : (s : RunState) (e : JournalEvent) → e.seq ≤ (apply s e).applied_seq
unfolding apply
seq-le-apply s e = ground arith

pub applied_seq-le-fold :
    (s : RunState) (es : List JournalEvent) → s.applied_seq ≤ (fold apply s es).applied_seq
applied_seq-le-fold s [] = omega arith
applied_seq-le-fold s (e ∷ es) =
    omega (arith, applied_seq-le-fold (apply s e) es, applied_seq-le-apply s e)

-- Every event that was folded in is at or below the watermark.
pub seen-fold :
    (s : RunState) (es : List JournalEvent)
    → All (λ e. event_seq e ≤ (fold apply s es).applied_seq) es
seen-fold s [] = tt
seen-fold s (e ∷ es) =
    (omega (arith, applied_seq-le-fold (apply s e) es, seq-le-apply s e), seen-fold (apply s e) es)

fold_seen :
    (s : RunState) (es : List JournalEvent)
    → All (λ e. event_seq e ≤ s.applied_seq) es
    → fold apply s es ≡ s
fold_seen s [] h = refl
fold_seen s (e ∷ es) h = rw (apply_seen s e h.0) (fold_seen s es h.1)

-- A whole log replayed over a state that already holds any prefix of it, such as a manifest that
-- lags the log after a crash, gives the state of the log.
pub replay_over_prefix :
    (s : RunState) (seen rest : List JournalEvent)
    → fold apply (fold apply s seen) (seen ++ rest) ≡ fold apply s (seen ++ rest)
replay_over_prefix s seen rest =
    fold-append apply (fold apply s seen) seen rest
    ∙ ap (λ x. fold apply x rest) (fold_seen (fold apply s seen) seen (seen-fold s seen))
    ∙ sym (fold-append apply s seen rest)

-- The reduction does not depend on the order in which the lines are read, if no two events of the
-- log have the same sequence number.
pub reduce-perm :
    {xs ys : List JournalEvent} → Permᴰ xs ys → Distinct event_seq xs → reduce xs ≡ reduce ys
unfolding reduce
reduce-perm p d = ap (fold apply empty) (sort_by_key-perm event_seq p d)

pub reduce_of_Ascending :
    (es : List JournalEvent) → Ascending event_seq es → reduce es ≡ fold apply empty es
unfolding reduce
reduce_of_Ascending es a = ap (fold apply empty) (sort_by_key_of_Ascending event_seq es a)

apply_over :
    (s : RunState) (e : JournalEvent)
    → is_terminal s.status ≡ true
    → s.applied_seq < e.seq
    → apply s e ≡ record s { applied_seq = e.seq }
unfolding apply
apply_over s e over new = rw (lt→leb _ _ new, over)

abbrev pub at_seq : RunState → ℕ → RunState
at_seq s n = record s { applied_seq = n }

-- Once the run is completed or abandoned, no further events change anything but the watermark.
pub fold_over :
    (s : RunState) (es : List JournalEvent)
    → is_terminal s.status ≡ true
    → fold apply s es ≡ at_seq s (fold apply s es).applied_seq
fold_over s [] over = refl
fold_over s (e ∷ es) over = elim (Bool-cases (leb e.seq s.applied_seq)) [
  | inl seen ↦
      subst (λ x. fold apply x es ≡ at_seq s (fold apply x es).applied_seq)
        (sym (apply_seen s e (leb→le _ _ seen))) (fold_over s es over)
  | inr new ↦
      subst (λ x. fold apply x es ≡ at_seq s (fold apply x es).applied_seq)
        (sym (apply_over s e over (leb→lt _ _ new))) (fold_over (at_seq s e.seq) es over)
]
