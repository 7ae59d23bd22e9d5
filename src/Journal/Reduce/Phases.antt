-- ===== src/Journal/Reduce/Phases.antt =====
-- The completed phases stay sorted in barrier order, one record to a phase
-- (crates/shipshape-core/src/release/journal.rs, `upsert_phase`).
use mathlib.Core.Logic.{ite, if_pos, if_neg}
use ossctl.Base.{
  ℕ, ◌<◌, Option-cases, ◌≡◌, ◌≢◌, refl, sym, none, some, List, [], ◌∷◌, All, arith, inl, inr,
}
use ossctl.Base.Sort.{insert_by, Ascending, Ascending-insert_by, sort_by_key-snoc}
use ossctl.Journal.{Phase, PhaseOutcome, PhaseRecord, Phase-discrete, phase_index}
use ossctl.Journal.Reduce.{find_phase, write_phase, record_index, upsert_phase}

phase_index_inj : (p q : Phase) → phase_index p ≡ phase_index q → p ≡ q
phase_index_inj p q h = ground arith

absent-All :
    (p : Phase) (rs : List PhaseRecord)
    → find_phase p rs ≡ none
    → All (λ r. record_index r ≢ phase_index p) rs
unfolding find_phase
absent-All p [] h = tt
absent-All p (r ∷ rs) h = elim (Phase-discrete r.phase p) [
  | yes e ↦ cc (rw (if_pos _ e) at h)
  | no d ↦ ((λ e. d (phase_index_inj r.phase p e)), absent-All p rs (rw (if_neg _ d) at h))
]

All-write_phase :
    (k : ℕ) (p : Phase) (o : PhaseOutcome) (rs : List PhaseRecord)
    → All (λ r. k < record_index r) rs
    → All (λ r. k < record_index r) (write_phase p o rs)
unfolding write_phase
All-write_phase k p o [] h = tt
All-write_phase k p o (r ∷ rs) h = elim (Phase-discrete r.phase p) [
  | yes e ↦ rw (if_pos _ e) h
  | no d ↦ rw (if_neg _ d) (h.0, All-write_phase k p o rs h.1)
]

write_phase-Ascending :
    (p : Phase) (o : PhaseOutcome) (rs : List PhaseRecord)
    → Ascending record_index rs
    → Ascending record_index (write_phase p o rs)
unfolding write_phase
write_phase-Ascending p o [] h = tt
write_phase-Ascending p o (r ∷ rs) h = elim (Phase-discrete r.phase p) [
  | yes e ↦ rw (if_pos _ e) h
  | no d ↦
      rw (if_neg _ d)
        (All-write_phase (record_index r) p o rs h.0, write_phase-Ascending p o rs h.1)
]

find-write_phase :
    (p : Phase) (o x : PhaseOutcome) (rs : List PhaseRecord)
    → find_phase p rs ≡ some x
    → find_phase p (write_phase p o rs) ≡ some o
unfolding find_phase write_phase
find-write_phase p o x [] h = cc
find-write_phase p o x (r ∷ rs) h = elim (Phase-discrete r.phase p) [
  | yes e ↦ rw (if_pos _ e) (rw (if_pos _ e))
  | no d ↦ rw (if_neg _ d) (rw (if_neg _ d) (find-write_phase p o x rs (rw (if_neg _ d) at h)))
]

find-write_phase_ne :
    (p q : Phase) (o : PhaseOutcome) (rs : List PhaseRecord)
    → p ≢ q
    → find_phase q (write_phase p o rs) ≡ find_phase q rs
unfolding find_phase write_phase
find-write_phase_ne p q o [] d = refl
find-write_phase_ne p q o (r ∷ rs) d = ground (arith, find-write_phase_ne p q o rs d)

find-insert_by :
    (q : Phase) (r : PhaseRecord) (rs : List PhaseRecord)
    → find_phase r.phase rs ≡ none
    → find_phase q (insert_by record_index r rs)
      ≡ ite (Phase-discrete r.phase q) (some r.outcome) (find_phase q rs)
unfolding find_phase insert_by
find-insert_by q r [] h = refl
find-insert_by q r (x ∷ rs) h = ground (arith, find-insert_by q r rs)

All-sym_ne :
    (p : Phase) (rs : List PhaseRecord)
    → All (λ r. record_index r ≢ phase_index p) rs
    → All (λ r. phase_index p ≢ record_index r) rs
All-sym_ne p [] h = tt
All-sym_ne p (r ∷ rs) h = ((λ e. h.0 (sym e)), All-sym_ne p rs h.1)

upsert_phase_absent :
    (rs : List PhaseRecord) (p : Phase) (o : PhaseOutcome)
    → Ascending record_index rs
    → find_phase p rs ≡ none
    → upsert_phase rs p o ≡ insert_by record_index (record { phase = p; outcome = o }) rs
unfolding upsert_phase
upsert_phase_absent rs p o h absent =
    rw absent (sort_by_key-snoc record_index rs _ h (absent-All p rs absent))

upsert_phase_present :
    (rs : List PhaseRecord) (p : Phase) (o : PhaseOutcome) {x : PhaseOutcome}
    → find_phase p rs ≡ some x
    → upsert_phase rs p o ≡ write_phase p o rs
unfolding upsert_phase
upsert_phase_present rs p o there = rw there

pub upsert_phase-Ascending :
    (rs : List PhaseRecord) (p : Phase) (o : PhaseOutcome)
    → Ascending record_index rs
    → Ascending record_index (upsert_phase rs p o)
upsert_phase-Ascending rs p o h = elim (Option-cases (find_phase p rs)) [
  | inl absent ↦
      rw (upsert_phase_absent rs p o h absent)
        (Ascending-insert_by record_index _ rs (All-sym_ne p rs (absent-All p rs absent)) h)
  | inr (_, there) ↦ rw (upsert_phase_present rs p o there) (write_phase-Ascending p o rs h)
]

-- After the write, a look-up of the phase finds the new outcome, and of any other the old one.
pub find-upsert_phase :
    (rs : List PhaseRecord) (p q : Phase) (o : PhaseOutcome)
    → Ascending record_index rs
    → find_phase q (upsert_phase rs p o) ≡ ite (Phase-discrete p q) (some o) (find_phase q rs)
find-upsert_phase rs p q o h = elim (Option-cases (find_phase p rs)) [
  | inl absent ↦
      rw (upsert_phase_absent rs p o h absent)
        (find-insert_by q (record { phase = p; outcome = o }) rs absent)
  | inr (x, there) ↦ rw (upsert_phase_present rs p o there) elim (Phase-discrete p q) [
    | yes e ↦ rw (if_pos _ e, ← e) (find-write_phase p o x rs there)
    | no d ↦ rw (if_neg _ d) (find-write_phase_ne p q o rs d)
  ]
]
