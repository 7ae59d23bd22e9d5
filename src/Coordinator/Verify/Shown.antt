-- ===== src/Coordinator/Verify/Shown.antt =====
-- A destination's answer, and the histories of a run
-- (crates/shipshape-core/src/release/coordinator.rs, `observe_delegated_destination_once`).
use mathlib.Core.List.{Memᴰ}
use ossctl.Base.{
  String, ◌≡◌, refl, sym, inl, inr, true, Option, none, some, List, [], ◌∷◌, Bool-cases, any,
  str_eq, eq_iff, arith,
}
use ossctl.Plan.{ReleasePlan}
use ossctl.Journal.{EventKind, matches}
use ossctl.Journal.Disk.{Codec}
use ossctl.Coordinator.World.{
  TargetPlan, acted, observe_destination, Env, World, Step, record_event,
}
use ossctl.Coordinator.Moves.{Move, Moves}
use ossctl.Coordinator.Verify.{
  DestinationState, Destination, tap_formula, github_release, registry_index, index_state,
  settle_state, tap_state, observe_at,
}

-- A history is an earlier part of another.
pub data Earlier (t : List Step) : List Step → Type 0 where
  same : Earlier t t
  then : {u : List Step} (x : Step) → Earlier t u → Earlier t (x ∷ u)

pub Earlier-trans : {t u v : List Step} → Earlier t u → Earlier u v → Earlier t v
Earlier-trans p Earlier.same = p
Earlier-trans p (Earlier.then x q) = Earlier.then x (Earlier-trans p q)

is_listed : (v : String) (vs : List String) → any (λ x. str_eq x v) vs ≡ true → Memᴰ v vs
is_listed v [] h = cc
is_listed v (x ∷ vs) h = elim (Bool-cases (str_eq x v)) [
  | inl e ↦ Memᴰ.head (sym ((eq_iff x v).0 e))
  | inr n ↦ Memᴰ.tail (is_listed v vs (ground arith))
]

module _ (c : Codec) (env : Env c) where
  pub Earlier-record :
      (k : EventKind) (w : World c) → Earlier w.trace (record_event c env k w).1.trace
  unfolding record_event
  Earlier-record k w = Earlier.then _ Earlier.same

  pub Earlier-Moves : {v w : World c} → Moves c env v w → Earlier v.trace w.trace
  Earlier-Moves Moves.stop = Earlier.same
  Earlier-Moves (Moves.then (Move.acts a v may) m) =
      Earlier-trans (Earlier.then _ Earlier.same) (Earlier-Moves m)
  Earlier-Moves (Moves.then (Move.journals k v may) m) =
      Earlier-trans (Earlier-record k v) (Earlier-Moves m)

  module _ (plan : ReleasePlan) where
    -- The destination of a target answered, after the history `t`, that the target is there.
    abbrev pub Shown : Destination → TargetPlan → List Step → Type 0
    Shown tap_formula tp t =
        (tap : String) × (plan.homebrew_tap ≡ some tap) × (env.tap_formula tap tp t ≡ matches)
    Shown github_release tp t = env.release_assets tp t ≡ matches
    Shown registry_index tp t =
        (vs : List String) × (env.published_versions tp t ≡ some vs) × Memᴰ tp.version vs

    -- The history right after the destination of a target was asked, when it was `t` before.
    abbrev pub asked_at : TargetPlan → List Step → List Step
    asked_at tp t = acted (observe_destination tp) (env.works (observe_destination tp) t) ∷ t

    tap_state-asked :
        (tap : Option String) (s : DestinationState) (w : World c)
        → (tap_state c env plan tap s w).0.outcome ≡ matches
        → Earlier (asked_at s.target w.trace) (tap_state c env plan tap s w).1.trace
    tap_state-asked none s w h = cc h
    tap_state-asked (some t) s w h = Earlier.same

    -- A destination that shows a target was asked.
    pub observe_at-asked :
        (d : Destination) (s : DestinationState) (w : World c)
        → (observe_at c env plan d s w).0.outcome ≡ matches
        → Earlier (asked_at s.target w.trace) (observe_at c env plan d s w).1.trace
    unfolding observe_at
    observe_at-asked tap_formula s w h = tap_state-asked plan.homebrew_tap s w h
    observe_at-asked github_release s w h = Earlier.same
    observe_at-asked registry_index s w h = Earlier.same

    tap_state-Shown :
        (tap : Option String) (s : DestinationState) (w : World c)
        → (tap_state c env plan tap s w).0.outcome ≡ matches
        → (t : String) × (tap ≡ some t) × (env.tap_formula t s.target w.trace ≡ matches)
    unfolding settle_state
    tap_state-Shown none s w h = cc h
    tap_state-Shown (some t) s w h = (t, refl, h)

    index_state-Shown :
        (s : DestinationState) (o : Option (List String))
        → (index_state s o).outcome ≡ matches
        → (vs : List String) × (o ≡ some vs) × Memᴰ s.target.version vs
    unfolding index_state
    index_state-Shown s none h = elim (Bool-cases s.ever_reachable) [
      | inl e ↦ cc (rw e at h)
      | inr e ↦ cc (rw e at h)
    ]
    index_state-Shown s (some vs) h = elim (Bool-cases (any (λ v. str_eq v s.target.version) vs)) [
      | inl e ↦ (vs, refl, is_listed s.target.version vs e)
      | inr e ↦ cc (rw e at h)
    ]

    pub observe_at-Shown :
        (d : Destination) (s : DestinationState) (w : World c)
        → (observe_at c env plan d s w).0.outcome ≡ matches
        → Shown d s.target w.trace
    unfolding observe_at
    observe_at-Shown tap_formula s w h = tap_state-Shown plan.homebrew_tap s w h
    observe_at-Shown github_release s w h = h
    observe_at-Shown registry_index s w h = index_state-Shown s _ h

    index_state-target :
        (s : DestinationState) (o : Option (List String)) → (index_state s o).target ≡ s.target
    unfolding index_state
    index_state-target s none = refl
    index_state-target s (some vs) = refl

    pub observe_at-target :
        (d : Destination) (s : DestinationState) (w : World c)
        → (observe_at c env plan d s w).0.target ≡ s.target
    unfolding observe_at
    observe_at-target tap_formula s w =
        elim plan.homebrew_tap as (λ o. (tap_state c env plan o s w).0.target ≡ s.target) [
          | none ↦ refl
          | some t ↦ refl
        ]
    observe_at-target github_release s w = refl
    observe_at-target registry_index s w = index_state-target s _
