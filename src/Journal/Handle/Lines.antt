-- ===== src/Journal/Handle/Lines.antt =====
-- Reading the lines of a log back
-- (crates/shipshape-core/src/release/journal.rs, `read_events`).
use ossctl.Base.{
  ◌≡◌, ◌≤◌, refl, ap, ◌∙◌, true, false, Option, none, some, List, [], ◌∷◌, ◌++◌, arith, Bool-cases,
  inl, inr,
}
use mathlib.Core.List.{Memᴰ}
use ossctl.Journal.{JournalEvent, journal_schema_version}
use ossctl.Journal.Disk.{Io, ok, err, invalid_data, Codec}
use ossctl.Journal.Handle.{too_new, push_event, parse_lines}

module _ (c : Codec) where
  open c use {
    Line, encode, is_blank, envelope, decode, is_blank-encode, envelope-encode, decode-encode,
  }

  push_event-eq_ok :
      (o : Option JournalEvent) (r : Io (List JournalEvent)) {es : List JournalEvent}
      → push_event c o r ≡ ok es
      → (e : JournalEvent) × (rest : List JournalEvent) × (o ≡ some e)
        × (r ≡ ok rest)
        × (es ≡ e ∷ rest)
  unfolding push_event
  push_event-eq_ok none r h = cc
  push_event-eq_ok (some e) (ok rest) h = (e, rest, refl, refl, ground arith)
  push_event-eq_ok (some e) (err x) h = cc

  too_new-encode :
      (e : JournalEvent) → e.schema_version ≤ journal_schema_version → too_new c (encode e) ≡ false
  unfolding too_new
  too_new-encode e h = rw envelope-encode (ground arith)

  parse_one :
      (e : JournalEvent)
      → e.schema_version ≤ journal_schema_version
      → parse_lines c (encode e ∷ []) ≡ ok (e ∷ [])
  unfolding parse_lines push_event
  parse_one e h = rw (is_blank-encode e, too_new-encode e h, decode-encode e)

  nothing : (es : List JournalEvent) → Path (Io (List JournalEvent)) (ok []) (ok es) → [] ≡ es
  nothing [] h = refl
  nothing (e ∷ es) h = cc

  -- One more encoded line is one more event.
  pub parse_lines-append :
      (ls : List Line) (e : JournalEvent) (es : List JournalEvent)
      → e.schema_version ≤ journal_schema_version
      → parse_lines c ls ≡ ok es
      → parse_lines c (ls ++ encode e ∷ []) ≡ ok (es ++ e ∷ [])
  unfolding parse_lines
  parse_lines-append [] e es v h = parse_one e v ∙ ap (λ x. ok (x ++ e ∷ [])) (nothing es h)
  parse_lines-append (l ∷ ls) e es v h = elim (Bool-cases (is_blank l)) [
    | inl blank ↦ rw blank (parse_lines-append ls e es v (rw blank at h))
    | inr there ↦ elim (Bool-cases (too_new c l)) [
      | inl newer ↦ cc (rw (there, newer) at h)
      | inr known ↦
          let (x, rest, decoded, parsed, split) =
            push_event-eq_ok (decode l) (parse_lines c ls) (rw (there, known) at h) in
          rw (there, known, decoded, parse_lines-append ls e rest v parsed, split)
            (unfold push_event in refl)
    ]
  ]

  push_event_err : (o : Option JournalEvent) → push_event c o (err invalid_data) ≡ err invalid_data
  unfolding push_event
  push_event_err none = refl
  push_event_err (some e) = refl

  -- One line of a newer schema, wherever it stands, refuses the whole log.
  pub parse_lines_newer :
      (ls : List Line) (l : Line)
      → Memᴰ l ls
      → is_blank l ≡ false
      → too_new c l ≡ true
      → parse_lines c ls ≡ err invalid_data
  unfolding parse_lines
  parse_lines_newer [] l m there newer = elim m [ ]
  parse_lines_newer (x ∷ ls) l (Memᴰ.head p) there newer = rw (← p, there, newer)
  parse_lines_newer (x ∷ ls) l (Memᴰ.tail m) there newer =
      rw (parse_lines_newer ls l m there newer) (ground (arith, push_event_err (decode x)))
