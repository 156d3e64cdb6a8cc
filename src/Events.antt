-- ===== src/Events.antt =====
-- utils/events.go: a registry of event consumers. Consumers are told apart by `==`; what a handler
-- does to the world is a state, and its error, if any, ends the emission. A handler does not change
-- the registry.
pub mod Registered
pub mod Emission
use rackspace_monitoring_pol.Base.{
  Bool, true, false, Option, none, some, List, [], ◌∷◌, ◌++◌, if◌then◌else◌,
}
use rackspace_monitoring_pol.Base.Dict.{Key, ◌==◌}

module _ {ℓ} {C : Type ℓ} ⦃key : Key C⦄ where
  -- contains
  unfoldable pub has_consumer : C → List C → Bool
  has_consumer c [] = false
  has_consumer c (x ∷ xs) = if x == c then true else has_consumer c xs

  -- RegisterEventConsumer
  unfoldable pub register_consumer : C → List C → List C
  unfolding has_consumer
  register_consumer c cs = if has_consumer c cs then cs else cs ++ c ∷ []

  -- The loop of DeregisterEventConsumer.
  unfoldable pub trim : C → List C → List C
  trim c [] = []
  trim c (x ∷ xs) = let rest = trim c xs in if x == c then rest else x ∷ rest

  -- DeregisterEventConsumer
  unfoldable pub deregister_consumer : C → List C → List C
  unfolding has_consumer trim
  deregister_consumer c cs = if has_consumer c cs then trim c cs else cs

-- EmitEvent: the consumers whose handlers were invoked, the state they left, and the error.
pub record Emitted {ℓ} (C S E : Type ℓ) : Type ℓ where
  pub invoked : List C
  pub state : S
  pub failure : Option E

module _ {ℓ} {C S E : Type ℓ} (handle_event : C → S → S × Option E) where
  unfoldable pub emit_event : List C → S → Emitted C S E
  emit_event [] s = record { invoked = []; state = s; failure = none }
  emit_event (c ∷ cs) s =
      let rest = emit_event cs (handle_event c s).0 in
      elim (handle_event c s).1 [
        | some e ↦ record { invoked = c ∷ []; state = (handle_event c s).0; failure = some e }
        | none ↦ record { invoked = c ∷ rest.invoked; state = rest.state; failure = rest.failure }
      ]
