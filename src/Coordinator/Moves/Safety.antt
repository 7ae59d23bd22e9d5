-- ===== src/Coordinator/Moves/Safety.antt =====
-- What no run of the coordinator does
-- (crates/shipshape-core/src/release/coordinator.rs).
use mathlib.Core.Path.{subst}
use ossctl.Base.{
  ℕ, ◌+◌, String, ◌≡◌, refl, sym, ◌∙◌, Bool, true, false, ◌&&◌, Option, none, some, List, [], ◌∷◌,
  Bool-cases, inl, inr, arith, str_eq, eq_iff, if◌then◌else◌,
}
use mathlib.Core.Option.{get_or}
use ossctl.Base.Dict.{Dict, lookup, contains_key, lookup-insert}
use ossctl.Journal.{
  EventKind, JournalEvent, RunState, PublishReceipt, TagState, default_tag, target_published,
  github_release_created, github_release_delegated, tag_created_local, tag_pushed_remote,
}
use ossctl.Journal.Reduce.{
  apply, apply_kind, on_tag, set_created_local, set_pushed_remote, set_github_release,
  set_github_release_delegated,
}
use ossctl.Journal.Reduce.Step.{apply-property}
use ossctl.Journal.Reduce.Kept.{apply-Kept}
use ossctl.Journal.Disk.{Codec}
use ossctl.Journal.Handle.{append, next_event}
use ossctl.Coordinator.World.{
  Act, Step, Env, World, acted, adapter_publish, picked, tag_step_done, record_event,
}
use ossctl.Coordinator.Tagging.{has_release, has_delegated}
use ossctl.Coordinator.Moves.{Allowed, Permitted, Move, Moves}

-- How often a target was given to its adapter to publish.
abbrev pub asked : String → Step → ℕ
asked id (acted (adapter_publish tp) b) = if str_eq tp.id id then 1 else 0
asked id _ = 0

unfoldable pub publishes : String → List Step → ℕ
publishes id [] = 0
publishes id (x ∷ xs) = asked id x + publishes id xs

asked-Allowed :
    (id : String) (a : Act) (b : Bool) (s : RunState)
    → contains_key id s.published ≡ true
    → Allowed a s
    → asked id (acted a b) ≡ 0
asked-Allowed id (adapter_publish tp) b s h may = elim (Bool-cases (str_eq tp.id id)) [
  | inl same ↦ cc (h, may.0, (eq_iff tp.id id).0 same)
  | inr other ↦ rw other
]
asked-Allowed id _ b s h may = refl

clear-get_or :
    (o : Option TagState)
    → (picked has_release o && picked has_delegated o) ≡ false
    → ((get_or o default_tag).github_release && (get_or o default_tag).github_release_delegated)
      ≡ false
clear-get_or none h = refl
clear-get_or (some x) h = h

get_or-has_release :
    (o : Option TagState)
    → picked has_release o ≡ false
    → (get_or o default_tag).github_release ≡ false
get_or-has_release none h = refl
get_or-has_release (some x) h = h

get_or-has_delegated :
    (o : Option TagState)
    → picked has_delegated o ≡ false
    → (get_or o default_tag).github_release_delegated ≡ false
get_or-has_delegated none h = refl
get_or-has_delegated (some x) h = h

clear-on_tag :
    (t : String) (f : TagState → TagState) (tags : Dict TagState)
    → let x : TagState = f (get_or (lookup t tags) default_tag) in
      (x.github_release && x.github_release_delegated) ≡ false
      → ((u : String)
          → (picked has_release (lookup u tags) && picked has_delegated (lookup u tags)) ≡ false)
      → (u : String)
      → (picked has_release (lookup u (on_tag t f tags))
          && picked has_delegated (lookup u (on_tag t f tags)))
        ≡ false
unfolding on_tag
clear-on_tag t f tags here h u =
    rw (lookup-insert t u)
      elim (Bool-cases (str_eq t u)) [ inl same ↦ rw same here | inr other ↦ rw other (h u) ]

-- No tag has both a release of the engine's and one that is left to CI.
abbrev pub Exclusive : RunState → Type 0
Exclusive s =
    (t : String) → (tag_step_done s t has_release && tag_step_done s t has_delegated) ≡ false

module _ (c : Codec) (env : Env c) where
  -- To prove a property of the state after an event: of the state before, and of the event applied.
  pub record_event-property {κ} :
      (P : RunState → Type κ) (k : EventKind) (w : World c)
      → P w.journal.state
      → ((e : JournalEvent) → e.kind ≡ k → P (apply w.journal.state e))
      → P (record_event c env k w).1.journal.state
  unfolding record_event append next_event
  record_event-property P k w p q = elim (Bool-cases (env.weather w.trace).append_ok) [
    | inl wrote ↦ rw wrote (q _ refl)
    | inr lost ↦ rw lost p
  ]

  -- A property that every permitted event keeps holds after any moves.
  pub Moves-property {κ} :
      (P : RunState → Type κ)
      → ((s : RunState) (e : JournalEvent) → Permitted e.kind s → P s → P (apply s e))
      → {v w : World c} → Moves c env v w
      → P v.journal.state
      → P w.journal.state
  Moves-property P keep Moves.stop p = p
  Moves-property P keep (Moves.then (Move.acts a v h) m) p = Moves-property P keep m p
  Moves-property P keep (Moves.then (Move.journals k v h) m) p = Moves-property P keep m (
      record_event-property P k v p (λ e same.
        keep v.journal.state e (subst (λ x. Permitted x v.journal.state) (sym same) h) p))

  trace-record_event :
      (id : String) (k : EventKind) (w : World c)
      → publishes id (record_event c env k w).1.trace ≡ publishes id w.trace
  unfolding record_event publishes
  trace-record_event id k w = omega arith

  -- No moves give a target whose receipt is in the journal to its adapter again.
  pub Moves-publishes :
      (id : String) {v w : World c}
      → contains_key id v.journal.state.published ≡ true
      → Moves c env v w
      → publishes id w.trace ≡ publishes id v.trace
  unfolding publishes
  Moves-publishes id h Moves.stop = refl
  Moves-publishes id h (Moves.then (Move.acts a v may) m) = omega (
    arith,
    Moves-publishes id h m,
    asked-Allowed id a (env.works a v.trace) v.journal.state h may,
  )
  Moves-publishes id h (Moves.then (Move.journals k v may) m) =
      Moves-publishes id
        (record_event-property (λ s. contains_key id s.published ≡ true) k v h
          (λ e same. (apply-Kept v.journal.state e).published id h))
        m
      ∙ trace-record_event id k v

  receipt-apply_kind :
      (id : String) (r : PublishReceipt) (s : RunState) (e : JournalEvent) (k : EventKind)
      → Permitted k s
      → lookup id s.published ≡ some r
      → lookup id (apply_kind s e k).published ≡ some r
  unfolding apply_kind
  receipt-apply_kind id r s e (target_published t q) may h =
      rw lookup-insert elim (Bool-cases (str_eq t id)) [
        | inl same ↦ cc (rw ((eq_iff t id).0 same, h) at may)
        | inr other ↦ rw other h
      ]
  receipt-apply_kind id r s e _ may h = h

  -- No moves replace a receipt.
  pub Moves-published :
      (id : String) (r : PublishReceipt) {v w : World c}
      → lookup id v.journal.state.published ≡ some r
      → Moves c env v w
      → lookup id w.journal.state.published ≡ some r
  Moves-published id r h m =
      Moves-property (λ s. lookup id s.published ≡ some r)
        (λ s e may p.
          apply-property (λ x. lookup id x.published ≡ some r) s e p p
            (λ live. receipt-apply_kind id r s e e.kind may p))
        m h

  Exclusive-apply_kind :
      (s : RunState) (e : JournalEvent) (k : EventKind)
      → Permitted k s
      → Exclusive s
      → Exclusive (apply_kind s e k)
  unfolding apply_kind tag_step_done
  Exclusive-apply_kind s e (tag_created_local t) may h =
      clear-on_tag t set_created_local s.tags (clear-get_or (lookup t s.tags) (h t)) h
  Exclusive-apply_kind s e (tag_pushed_remote t) may h =
      clear-on_tag t set_pushed_remote s.tags (clear-get_or (lookup t s.tags) (h t)) h
  Exclusive-apply_kind s e (github_release_created t l) may h =
      clear-on_tag t (set_github_release l) s.tags (get_or-has_delegated (lookup t s.tags) may) h
  Exclusive-apply_kind s e (github_release_delegated t l) may h =
      clear-on_tag t set_github_release_delegated s.tags
        (ground (arith, get_or-has_release (lookup t s.tags) may)) h
  Exclusive-apply_kind s e _ may h = h

  -- No moves bring a tag to have both dispositions.
  pub Moves-Exclusive :
      {v w : World c} → Exclusive v.journal.state → Moves c env v w → Exclusive w.journal.state
  unfolding tag_step_done
  Moves-Exclusive h m =
      Moves-property Exclusive
        (λ s e may p.
          apply-property Exclusive s e p p (λ live. Exclusive-apply_kind s e e.kind may p))
        m h
