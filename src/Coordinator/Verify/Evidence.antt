-- ===== src/Coordinator/Verify/Evidence.antt =====
-- What confirms a target: it was observed to match, and that was written
-- (crates/shipshape-core/src/release/coordinator.rs, `verify_phase`).
use mathlib.Core.List.{Memᴰ}
use mathlib.Core.Option.{get_or}
use ossctl.Base.{
  String, ◌≡◌, refl, ap, ◌⊎◌, inl, inr, true, false, Option, none, some, List, ◌∷◌, Bool-cases,
  str_eq, eq_iff,
}
use ossctl.Base.Dict.{Dict, lookup, lookup-insert, contains}
use ossctl.Plan.{ReleasePlan}
use ossctl.Journal.{
  EventKind, PublishReceipt, JournalEvent, RunState, VerifyOutcome, matches, conflicts, missing,
  unknown, verify, phase_entered, target_verified,
}
use ossctl.Journal.Reduce.{apply, apply_kind}
use ossctl.Journal.Reduce.Step.{apply-property}
use ossctl.Journal.Disk.{Codec}
use ossctl.Journal.Handle.{append, next_event}
use ossctl.Coordinator.World.{
  TargetPlan, Env, World, Step, journalled, acted, verify_receipt, done, is_match, record_event,
}
use ossctl.Coordinator.Moves.{Moves}
use ossctl.Coordinator.Verify.{completion_barrier, recorded_receipt, judge_published, judge}
use ossctl.Coordinator.Verify.Shown.{Earlier, Earlier-trans, Earlier-record}
use ossctl.Coordinator.Verify.Sighting.{Grounds}

matched-apply_kind :
    (t : String) (s : RunState) (e : JournalEvent) (k : EventKind)
    → is_match (lookup t (apply_kind s e k).verified) ≡ true
    → (is_match (lookup t s.verified) ≡ true) ⊎ (k ≡ target_verified t matches)
unfolding apply_kind
matched-apply_kind t s e (target_verified u matches) h = elim (Bool-cases (str_eq u t)) [
  | inl same ↦ inr (ap (λ x. target_verified x matches) ((eq_iff u t).0 same))
  | inr other ↦ inl (rw (lookup-insert, other) at h)
]
matched-apply_kind t s e (target_verified u o) h = elim (Bool-cases (str_eq u t)) [
  | inl same ↦ cc (rw (lookup-insert, same) at h)
  | inr other ↦ inl (rw (lookup-insert, other) at h)
]
matched-apply_kind t s e _ h = inl h

-- A match in the state after an event was there before, or the event says it.
matched-apply :
    (t : String) (s : RunState) (e : JournalEvent)
    → is_match (lookup t (apply s e).verified) ≡ true
    → (is_match (lookup t s.verified) ≡ true) ⊎ (e.kind ≡ target_verified t matches)
matched-apply t s e =
    apply-property
      (λ x.
        is_match (lookup t x.verified) ≡ true
        → (is_match (lookup t s.verified) ≡ true) ⊎ (e.kind ≡ target_verified t matches))
      s e inl inl (λ live. matched-apply_kind t s e e.kind)

module _ (c : Codec) (env : Env c) where
  matched-record_event :
      (t : String) (k : EventKind) (w : World c)
      → is_match (lookup t (record_event c env k w).1.journal.state.verified) ≡ true
      → (is_match (lookup t w.journal.state.verified) ≡ true)
        ⊎ ((k ≡ target_verified t matches)
            × ((record_event c env k w).1.trace ≡ journalled k true ∷ w.trace))
  unfolding record_event append next_event
  matched-record_event t k w h = elim (Bool-cases (env.weather w.trace).append_ok) [
    | inl wrote ↦
        elim (matched-apply t w.journal.state (next_event c w.journal (env.weather w.trace).now k)
          (rw wrote at h)) [ inl before ↦ inl before | inr says ↦ inr (says, rw wrote refl) ]
    | inr lost ↦ inl (rw lost at h)
  ]

  -- An event that was given to the journal without an error has been written.
  pub record_event-trace :
      (k : EventKind) (w : World c)
      → (record_event c env k w).0 ≡ done
      → (record_event c env k w).1.trace ≡ journalled k true ∷ w.trace
  unfolding record_event append
  record_event-trace k w h = elim (Bool-cases (env.weather w.trace).append_ok) [
    | inl wrote ↦ rw wrote refl
    | inr lost ↦ cc (rw lost at h)
  ]

  module _ (plan : ReleasePlan) (tps : List TargetPlan) (u : World c) where
    -- Since the world `u`, the adapter was asked about a published target's recorded receipt, and has
    -- answered that it matches.
    pub record Receipted (id : String) (t : List Step) : Type 0 where
      pub target : TargetPlan
      pub listed : Memᴰ target tps
      pub same_id : target.id ≡ id
      pub seen : World c
      pub since : Moves c env u seen
      pub until :
          Earlier
            (acted (verify_receipt target) (env.works (verify_receipt target) seen.trace)
              ∷ seen.trace)
            t
      pub not_delegated : contains target.id seen.journal.state.delegated ≡ false
      pub receipt : PublishReceipt
      pub recorded : lookup target.id seen.journal.state.published ≡ some receipt
      pub answered :
          env.receipt_outcome target (recorded_receipt target receipt) seen.trace ≡ some matches

    -- A target was observed to match: a delegated one at its destination, another one by its receipt.
    pub data Observed (id : String) (t : List Step) : Type 0 where
      at_destination : Grounds c env plan tps u id t → Observed id t
      by_receipt : Receipted id t → Observed id t

    -- The match of a target was written after it was observed.
    pub record Verified (id : String) (t : List Step) : Type 0 where
      pub told : List Step
      pub observed : Observed id told
      pub written : Earlier (journalled (target_verified id matches) true ∷ told) t

    -- A target is confirmed: its match was on record at the start, or was observed and then written.
    abbrev pub Confirmed : List Step → TargetPlan → Type 0
    Confirmed t tp = (is_match (lookup tp.id u.journal.state.verified) ≡ true) ⊎ Verified tp.id t

    -- Every match on record was on record at the start, or was observed and then written.
    abbrev pub Grounded : World c → Type 0
    Grounded w =
        (id : String)
        → is_match (lookup id w.journal.state.verified) ≡ true
        → (is_match (lookup id u.journal.state.verified) ≡ true) ⊎ Verified id w.trace

    abbrev pub Known : Dict VerifyOutcome → World c → Type 0
    Known outcomes w =
        (id : String) → lookup id outcomes ≡ some matches → Grounds c env plan tps u id w.trace

    pub Verified-later :
        (id : String) {v w : List Step} → Earlier v w → Verified id v → Verified id w
    Verified-later id l v = record {
      told = v.told;
      observed = v.observed;
      written = Earlier-trans v.written l;
    }

    pub Grounded-quiet :
        (v w : World c) → Earlier v.trace w.trace → w.journal ≡ v.journal → Grounded v → Grounded w
    Grounded-quiet v w l e g id h = elim (g id (rw e at h)) [
      | inl before ↦ inl before
      | inr then ↦ inr (Verified-later id l then)
    ]

    pub Grounded-verified :
        (w : World c) (id : String) (o : VerifyOutcome)
        → (o ≡ matches → Observed id w.trace)
        → Grounded w
        → Grounded (record_event c env (target_verified id o) w).1
    Grounded-verified w id o seen g t h = elim (matched-record_event t (target_verified id o) w h) [
      | inl before ↦ elim (g t before) [
        | inl first ↦ inl first
        | inr then ↦ inr (Verified-later t (Earlier-record c env (target_verified id o) w) then)
      ]
      | inr (says, trace) ↦
          let alike : id ≡ t = cc in
          let good : o ≡ matches = cc in
          inr (record {
            told = w.trace;
            observed = rw (← alike) (seen good);
            written = rw (trace, says) Earlier.same;
          })
    ]

    pub Grounded-entered : Grounded (record_event c env (phase_entered verify) u).1
    Grounded-entered t h = elim (matched-record_event t (phase_entered verify) u h) [
      | inl before ↦ inl before
      | inr (says, trace) ↦ cc
    ]

    get_or_matches : (o : Option VerifyOutcome) → get_or o unknown ≡ matches → o ≡ some matches
    get_or_matches none h = cc h
    get_or_matches (some matches) h = refl
    get_or_matches (some conflicts) h = cc h
    get_or_matches (some missing) h = cc h
    get_or_matches (some unknown) h = cc h

    judge_published-Receipted :
        (o : Option PublishReceipt) (tp : TargetPlan) (w : World c)
        → Memᴰ tp tps
        → Moves c env u w
        → contains tp.id w.journal.state.delegated ≡ false
        → lookup tp.id w.journal.state.published ≡ o
        → (judge_published c env plan o tp w).0 ≡ matches
        → Receipted tp.id (judge_published c env plan o tp w).2.trace
    judge_published-Receipted none tp w l m d e h = cc h
    judge_published-Receipted (some r) tp w l m d e h = record {
      target = tp;
      listed = l;
      same_id = refl;
      seen = w;
      since = m;
      until = Earlier.same;
      not_delegated = d;
      receipt = r;
      recorded = e;
      answered = get_or_matches _ h;
    }

    pub judge-Observed :
        (outcomes : Dict VerifyOutcome) (tp : TargetPlan) (w : World c)
        → Memᴰ tp tps
        → Moves c env u w
        → Known outcomes w
        → (judge c env plan completion_barrier outcomes tp w).0 ≡ matches
        → Observed tp.id (judge c env plan completion_barrier outcomes tp w).2.trace
    unfolding judge
    judge-Observed outcomes tp w l m known h =
        elim (Bool-cases (contains tp.id w.journal.state.delegated)) [
          | inl d ↦ rw d (
              Observed.at_destination
                (known tp.id (get_or_matches (lookup tp.id outcomes) (rw d at h))))
          | inr d ↦ rw d (
              Observed.by_receipt (
                judge_published-Receipted (lookup tp.id w.journal.state.published) tp w l m d refl
                  (rw d at h)))
        ]

    judge_published-journal :
        (o : Option PublishReceipt) (tp : TargetPlan) (w : World c)
        → (judge_published c env plan o tp w).2.journal ≡ w.journal
    judge_published-journal none tp w = refl
    judge_published-journal (some r) tp w = refl

    pub judge-journal :
        (outcomes : Dict VerifyOutcome) (tp : TargetPlan) (w : World c)
        → (judge c env plan completion_barrier outcomes tp w).2.journal ≡ w.journal
    unfolding judge
    judge-journal outcomes tp w = elim (Bool-cases (contains tp.id w.journal.state.delegated)) [
      | inl d ↦ rw d refl
      | inr d ↦ rw d (judge_published-journal (lookup tp.id w.journal.state.published) tp w)
    ]
