-- ===== src/Coordinator/Verify/AfterFailure.antt =====
-- The observation after a failed dist phase never ends well
-- (crates/shipshape-core/src/release/coordinator.rs, `verify_phase`).
use mathlib.Core.Option.{or_else}
use ossctl.Base.{◌≡◌, ◌≢◌, sym, ap, ◌∙◌, inl, inr, false, none, some, List, [], ◌∷◌, Bool-cases}
use ossctl.Base.Dict.{Dict, lookup}
use ossctl.Plan.{ReleasePlan}
use ossctl.Journal.{VerifyOutcome, verify, phase_entered, target_verified}
use ossctl.Journal.Disk.{Codec}
use ossctl.Coordinator.World.{
  TargetPlan, Env, World, Outcome, done, is_match, phase_completed_ok, record_event,
}
use ossctl.Coordinator.Moves.Account.{andthen-done, fail_phase-ne_done}
use ossctl.Coordinator.Verify.{
  observe_after_dist_failure, FirstFailure, first_failure, failure_of, judge, finish_verify,
  verify_targets, verify_body, verify_phase,
}

module _ (c : Codec) (env : Env c) where
  module _ (plan : ReleasePlan) where
    observe-ne_done :
        (tps : List TargetPlan) (f : FirstFailure) (outcomes : Dict VerifyOutcome) (w : World c)
        → (verify_targets c env plan observe_after_dist_failure outcomes tps f w).0 ≡ done
        → ⊥
    unfolding verify_targets finish_verify
    observe-ne_done [] none outcomes w h = fail_phase-ne_done c env verify none w h
    observe-ne_done [] (some (tp, f)) outcomes w h =
        fail_phase-ne_done c env verify (some tp.id) w h
    observe-ne_done (tp ∷ tps) f outcomes w h =
        elim (Bool-cases (is_match (lookup tp.id w.journal.state.verified))) [
          | inl old ↦ observe-ne_done tps f outcomes w (rw old at h)
          | inr new ↦
              let (o, g, v) = judge c env plan observe_after_dist_failure outcomes tp w in
              let rest : World c → Outcome c =
                verify_targets c env plan observe_after_dist_failure outcomes tps
                  (first_failure f tp (or_else g (failure_of o))) in
              let (written, same) =
                andthen-done c env (record_event c env (target_verified tp.id o) v) rest
                  (rw new at h) in
              observe-ne_done tps _ outcomes _
                (sym (ap (λ (x : Outcome c). x.0) same) ∙ (rw new at h))
        ]

    -- The observation after a failed dist phase never returns success, unless the phase was complete.
    pub verify_phase-ne_done :
        (tps : List TargetPlan) (w : World c)
        → phase_completed_ok w.journal.state verify ≡ false
        → (verify_phase c env plan observe_after_dist_failure tps w).0 ≢ done
    unfolding verify_phase verify_body
    verify_phase-ne_done tps w new h =
        let (written, same) =
          andthen-done c env (record_event c env (phase_entered verify) w)
            (verify_body c env plan observe_after_dist_failure tps) (rw new at h) in
        observe-ne_done tps none [] _ (sym (ap (λ (x : Outcome c). x.0) same) ∙ (rw new at h))
