-- ===== src/Coordinator/Verify/Loop.antt =====
-- The loop over the targets, when it ends well
-- (crates/shipshape-core/src/release/coordinator.rs, `verify_phase`).
use mathlib.Core.List.{Memᴰ}
use mathlib.Core.Option.{or_else}
use mathlib.Core.Path.{subst}
use ossctl.Base.{
  ◌≡◌, refl, sym, ap, ◌∙◌, inl, inr, true, false, Option, none, some, List, [], ◌∷◌, Bool-cases,
  All,
}
use ossctl.Base.Dict.{Dict, lookup}
use ossctl.Plan.{ReleasePlan}
use ossctl.Journal.{
  PhaseOutcome, VerifyOutcome, matches, conflicts, missing, unknown, verify, phase_completed,
  target_verified,
}
use ossctl.Journal.Disk.{Codec}
use ossctl.Coordinator.World.{
  TargetPlan, Env, World, Step, Outcome, journalled, done, is_match, record_event, andthen,
}
use ossctl.Coordinator.Moves.{Moves, Moves-trans}
use ossctl.Coordinator.Moves.Refine.{record_event-Moves}
use ossctl.Coordinator.Moves.Account.{andthen-done}
use ossctl.Coordinator.Verify.Window.{DelegatedVerifyFailure}
use ossctl.Coordinator.Verify.{
  completion_barrier, FirstFailure, first_failure, failure_of, cut_for, judge, finish_verify,
  verify_targets,
}
use ossctl.Coordinator.Verify.Refine.{judge-Moves}
use ossctl.Coordinator.Verify.Shown.{Earlier, Earlier-trans, Earlier-record, Earlier-Moves}
use ossctl.Coordinator.Verify.Sighting.{Grounds-later}
use ossctl.Coordinator.Verify.Evidence.{
  Confirmed, Grounded, Known, Verified-later, Grounded-quiet, Grounded-verified, judge-Observed,
  judge-journal, record_event-trace,
}

cut_for-ne_done : (tp : TargetPlan) (f : DelegatedVerifyFailure) → cut_for tp f ≡ done → ⊥
unfolding cut_for
cut_for-ne_done tp DelegatedVerifyFailure.pending h = cc
cut_for-ne_done tp DelegatedVerifyFailure.failed h = cc
cut_for-ne_done tp DelegatedVerifyFailure.unknown h = cc

no_failure :
    (first : FirstFailure) (tp : TargetPlan) (f : Option DelegatedVerifyFailure) (o : VerifyOutcome)
    → first_failure first tp (or_else f (failure_of o)) ≡ none
    → (first ≡ none) × (o ≡ matches)
unfolding first_failure failure_of or_else
no_failure (some x) tp f o h = cc
no_failure none tp (some g) o h = cc
no_failure none tp none matches h = (refl, refl)
no_failure none tp none conflicts h = cc
no_failure none tp none missing h = cc
no_failure none tp none unknown h = cc

module _ (c : Codec) (env : Env c) where
  module _ (plan : ReleasePlan) (tps : List TargetPlan) (u : World c) where
    -- What a loop that ends well has done: nothing failed, the phase was closed by the last step, and
    -- before that every target was confirmed.
    pub record Closed (w : World c) (ts : List TargetPlan) (f : FirstFailure) (o : World c)
        : Type 0 where
      pub clean : f ≡ none
      pub closing : List Step
      pub closed : o.trace ≡ journalled (phase_completed verify PhaseOutcome.ok) true ∷ closing
      pub later : Earlier w.trace closing
      pub confirmed : All (Confirmed c env plan tps u closing) ts

    pub finish_verify-done :
        (f : FirstFailure) (w : World c)
        → (finish_verify c env plan completion_barrier f w).0 ≡ done
        → Closed w [] f (finish_verify c env plan completion_barrier f w).1
    unfolding finish_verify
    finish_verify-done none w h = record {
      clean = refl;
      closing = w.trace;
      closed = record_event-trace c env (phase_completed verify PhaseOutcome.ok) w h;
      later = Earlier.same;
      confirmed = tt;
    }
    finish_verify-done (some (tp, f)) w h =
        let (written, same) =
          andthen-done c env (record_event c env (phase_completed verify PhaseOutcome.failed) w)
            (λ v. (cut_for tp f, v)) h in
        absurd (cut_for-ne_done tp f (sym (ap (λ (o : Outcome c). o.0) same) ∙ h))

    -- The loop's step for a target whose match is not on record.
    abbrev judged :
        Dict VerifyOutcome → TargetPlan → List TargetPlan → FirstFailure → World c → Outcome c
    judged outcomes tp ts f w =
        let (o, g, v) = judge c env plan completion_barrier outcomes tp w in
        andthen c (record_event c env (target_verified tp.id o) v) (
          verify_targets c env plan completion_barrier outcomes ts
            (first_failure f tp (or_else g (failure_of o))))

    -- The two ways through the loop's body.
    verify_targets_old :
        (outcomes : Dict VerifyOutcome) (tp : TargetPlan) (ts : List TargetPlan) (f : FirstFailure)
        (w : World c)
        → is_match (lookup tp.id w.journal.state.verified) ≡ true
        → verify_targets c env plan completion_barrier outcomes (tp ∷ ts) f w
          ≡ verify_targets c env plan completion_barrier outcomes ts f w
    unfolding verify_targets
    verify_targets_old outcomes tp ts f w h = rw h refl

    verify_targets_new :
        (outcomes : Dict VerifyOutcome) (tp : TargetPlan) (ts : List TargetPlan) (f : FirstFailure)
        (w : World c)
        → is_match (lookup tp.id w.journal.state.verified) ≡ false
        → verify_targets c env plan completion_barrier outcomes (tp ∷ ts) f w
          ≡ judged outcomes tp ts f w
    unfolding verify_targets
    verify_targets_new outcomes tp ts f w h = rw h refl

    -- What the loop needs of a world and the targets that are left.
    pub record Ready (outcomes : Dict VerifyOutcome) (ts : List TargetPlan) (w : World c)
        : Type 0 where
      pub reached : Moves c env u w
      pub grounded : Grounded c env plan tps u w
      pub known : Known c env plan tps u outcomes w
      pub within : (tp : TargetPlan) → Memᴰ tp ts → Memᴰ tp tps

    Ready-old :
        (outcomes : Dict VerifyOutcome) (tp : TargetPlan) (ts : List TargetPlan) (w : World c)
        → Ready outcomes (tp ∷ ts) w
        → Ready outcomes ts w
    Ready-old outcomes tp ts w r = record {
      reached = r.reached;
      grounded = r.grounded;
      known = r.known;
      within = λ x m. r.within x (Memᴰ.tail m);
    }

    Ready-new :
        (outcomes : Dict VerifyOutcome) (tp : TargetPlan) (ts : List TargetPlan) (w : World c)
        → Ready outcomes (tp ∷ ts) w
        → let (o, g, v) = judge c env plan completion_barrier outcomes tp w in
          Ready outcomes ts (record_event c env (target_verified tp.id o) v).1
    Ready-new outcomes tp ts w r =
        let (o, g, v) = judge c env plan completion_barrier outcomes tp w in
        let asked : Moves c env w v = judge-Moves c env plan completion_barrier outcomes tp w in
        let m : Moves c env w (record_event c env (target_verified tp.id o) v).1 =
          Moves-trans c env asked (record_event-Moves c env (target_verified tp.id o) v tt) in
        record {
          reached = Moves-trans c env r.reached m;
          grounded =
              Grounded-verified c env plan tps u v tp.id o
                (judge-Observed c env plan tps u outcomes tp w (r.within tp (Memᴰ.head refl))
                  r.reached r.known)
                (Grounded-quiet c env plan tps u w v (Earlier-Moves c env asked)
                  (judge-journal c env plan tps u outcomes tp w) r.grounded);
          known = λ id h. Grounds-later c env plan tps u id (Earlier-Moves c env m) (r.known id h);
          within = λ x l. r.within x (Memᴰ.tail l);
        }

    -- A target that was judged to match, and the rest of the loop.
    Closed-new :
        (outcomes : Dict VerifyOutcome) (tp : TargetPlan) (ts : List TargetPlan)
        (f next : FirstFailure) (w z : World c)
        → Ready outcomes (tp ∷ ts) w
        → f ≡ none
        → let (o, g, v) = judge c env plan completion_barrier outcomes tp w in
          (record_event c env (target_verified tp.id o) v).0 ≡ done
          → o ≡ matches
          → Closed (record_event c env (target_verified tp.id o) v).1 ts next z
          → Closed w (tp ∷ ts) f z
    Closed-new outcomes tp ts f next w z r clean written good x =
        let (o, g, v) = judge c env plan completion_barrier outcomes tp w in
        let trace : (record_event c env (target_verified tp.id o) v).1.trace
            ≡ journalled (target_verified tp.id matches) true ∷ v.trace =
          record_event-trace c env (target_verified tp.id o) v written
          ∙ ap (λ a. journalled (target_verified tp.id a) true ∷ v.trace) good in
        record {
          clean = clean;
          closing = x.closing;
          closed = x.closed;
          later =
              Earlier-trans
                (Earlier-trans
                  (Earlier-Moves c env (judge-Moves c env plan completion_barrier outcomes tp w))
                  (Earlier-record c env (target_verified tp.id o) v))
                x.later;
          confirmed = (
            inr (record {
              told = v.trace;
              observed =
                  judge-Observed c env plan tps u outcomes tp w (r.within tp (Memᴰ.head refl))
                    r.reached r.known good;
              written = rw (← trace) x.later;
            }),
            x.confirmed,
          );
        }

    pub verify_targets-done :
        (outcomes : Dict VerifyOutcome) (ts : List TargetPlan) (f : FirstFailure) (w : World c)
        → Ready outcomes ts w
        → (verify_targets c env plan completion_barrier outcomes ts f w).0 ≡ done
        → Closed w ts f (verify_targets c env plan completion_barrier outcomes ts f w).1
    verify_targets-done outcomes [] f w r h = unfold verify_targets in finish_verify-done f w h
    verify_targets-done outcomes (tp ∷ ts) f w r h =
        elim (Bool-cases (is_match (lookup tp.id w.journal.state.verified))) [
          | inl old ↦
              let same = verify_targets_old outcomes tp ts f w old in
              let x =
                verify_targets-done outcomes ts f w (Ready-old outcomes tp ts w r)
                  (sym (ap (λ (x : Outcome c). x.0) same) ∙ h) in
              let here : Confirmed c env plan tps u x.closing tp = elim (r.grounded tp.id old) [
                | inl before ↦ inl before
                | inr then ↦ inr (Verified-later c env plan tps u tp.id x.later then)
              ] in
              subst (λ (o : Outcome c). Closed w (tp ∷ ts) f o.1) (sym same)
                (record {
                  clean = x.clean;
                  closing = x.closing;
                  closed = x.closed;
                  later = x.later;
                  confirmed = (here, x.confirmed);
                })
          | inr new ↦
              let (o, g, v) = judge c env plan completion_barrier outcomes tp w in
              let recorded : Outcome c = record_event c env (target_verified tp.id o) v in
              let next : FirstFailure = first_failure f tp (or_else g (failure_of o)) in
              let rest : World c → Outcome c =
                verify_targets c env plan completion_barrier outcomes ts next in
              let step : verify_targets c env plan completion_barrier outcomes (tp ∷ ts) f w
                  ≡ andthen c recorded rest =
                verify_targets_new outcomes tp ts f w new in
              let (written, then_rest) =
                andthen-done c env recorded rest (sym (ap (λ (x : Outcome c). x.0) step) ∙ h) in
              let same : verify_targets c env plan completion_barrier outcomes (tp ∷ ts) f w
                  ≡ rest recorded.1 =
                step ∙ then_rest in
              let x =
                verify_targets-done outcomes ts next recorded.1 (Ready-new outcomes tp ts w r)
                  (sym (ap (λ (x : Outcome c). x.0) same) ∙ h) in
              let (first, good) = no_failure f tp g o x.clean in
              subst (λ (x : Outcome c). Closed w (tp ∷ ts) f x.1) (sym same)
                (Closed-new outcomes tp ts f next w _ r first written good x)
        ]
