-- ===== src/Events/Emission.antt =====
-- Whose handlers an emission (utils/events.go) invokes.
use rackspace_monitoring_pol.Base.{
  ◌≡◌, refl, ap, Option, none, some, List, [], ◌∷◌, ◌++◌, ◌⊎◌, inl, inr, Option-cases,
}
use rackspace_monitoring_pol.Events.{Emitted, emit_event}

module _ {ℓ} {C S E : Type ℓ} (handle_event : C → S → S × Option E) where
  -- The state after some handlers, none of which failed.
  pub data Handled : List C → S → S → Type ℓ where
    done : (s : S) → Handled [] s s
    step :
        (c : C) (cs : List C) (s s' : S)
        → (handle_event c s).1 ≡ none
        → Handled cs (handle_event c s).0 s'
        → Handled (c ∷ cs) s s'

  -- All handlers were invoked in order and none failed; or those before some consumer were, its
  -- handler was the first to fail, and no later one was invoked.
  abbrev pub Outcome : List C → S → Emitted C S E → Type ℓ
  Outcome cs s r =
      ((r.failure ≡ none) × (r.invoked ≡ cs) × Handled cs s r.state)
      ⊎ ((before : List C) × (c : C) × (after : List C) × (mid : S) × (cs ≡ before ++ c ∷ after)
          × Handled before s mid
          × (r.invoked ≡ before ++ c ∷ [])
          × ((e : E) × ((handle_event c mid).1 ≡ some e) × (r.failure ≡ some e))
          × (r.state ≡ (handle_event c mid).0))

  Outcome-cons :
      (c : C) (cs : List C) (s : S)
      → (handle_event c s).1 ≡ none
      → (r : Emitted C S E) → Outcome cs (handle_event c s).0 r
      → Outcome
          (c ∷ cs)
          s
          (record { invoked = c ∷ r.invoked; state = r.state; failure = r.failure })
  Outcome-cons c cs s e r (inl h) =
      inl (h.0, ap (λ (l : List C). c ∷ l) h.1, step c cs s r.state e h.2)
  Outcome-cons c cs s e r (inr (before, d, after, mid, h0, h1, h2, h3, h4)) = inr (
    c ∷ before,
    d,
    after,
    mid,
    ap (λ (l : List C). c ∷ l) h0,
    step c before s mid e h1,
    ap (λ (l : List C). c ∷ l) h2,
    h3,
    h4,
  )

  -- The handlers are invoked in the order of registration, each on the state that the one before
  -- left, until one fails; its error is that of the emission.
  pub emit_event-Outcome : (cs : List C) (s : S) → Outcome cs s (emit_event handle_event cs s)
  unfolding emit_event
  emit_event-Outcome [] s = inl (refl, refl, done s)
  emit_event-Outcome (c ∷ cs) s = elim (Option-cases (handle_event c s).1) [
    | inl e ↦
        rw (emit_event, e) (Outcome-cons c cs s e _ (emit_event-Outcome cs (handle_event c s).0))
    | inr (x, e) ↦ rw (emit_event, e) (inr ([], c, cs, s, refl, done s, refl, (x, e, refl), refl))
  ]
