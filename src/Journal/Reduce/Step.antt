-- ===== src/Journal/Reduce/Step.antt =====
-- The three ways in which an event is applied: seen already, after the end, or folded in
-- (crates/shipshape-core/src/release/journal.rs, `apply`).
use ossctl.Base.{◌≡◌, false, leb, Bool-cases, inl, inr}
use ossctl.Journal.{JournalEvent, RunState}
use ossctl.Journal.Reduce.{is_terminal, apply_kind, apply}

abbrev pub folded : RunState → JournalEvent → RunState
folded s e = record (apply_kind s e e.kind) { applied_seq = e.seq; updated_ts = e.ts }

-- To prove a property of `apply s e`: of `s`, of `s` with the watermark moved, and of the fold.
pub apply-property {κ} :
    (P : RunState → Type κ) (s : RunState) (e : JournalEvent)
    → P s
    → P (record s { applied_seq = e.seq })
    → (is_terminal s.status ≡ false → P (folded s e))
    → P (apply s e)
unfolding apply
apply-property P s e p q r = elim (Bool-cases (leb e.seq s.applied_seq)) [
  | inl seen ↦ rw seen p
  | inr new ↦ rw new elim (Bool-cases (is_terminal s.status)) [
    | inl over ↦ rw over q
    | inr live ↦ rw live (r live)
  ]
]
