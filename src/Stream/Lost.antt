-- ===== src/Stream/Lost.antt =====
-- What deregisterConnection (poller/connection_stream.go) does, and how a preparation is validated by
-- all the schedulers.
use rackspace_monitoring_pol.Base.{
  String, ◌≡◌, ◌≢◌, ◌↔◌, refl, none, List, [], ◌∷◌, ◌++◌, map, arith, All, Option-cases, inl, inr,
  ◌⊎◌,
}
use rackspace_monitoring_pol.Base.Dict.{lookup, delete, string_eq}
use rackspace_monitoring_pol.Preparation.{ChecksPreparation, get_actionable_checks}
use rackspace_monitoring_pol.Scheduler.{validate_checks}
use rackspace_monitoring_pol.Scheduler.Validate.{IsPossible, validate_all-IsPossible}
use rackspace_monitoring_pol.Stream.Inbox.{Mailbox, request_reset}
use rackspace_monitoring_pol.Stream.{
  Connection, Stream, deregistered, all_connections_lost, deregister_connection,
  validate_schedulers,
}

-- What a deregistration leads to.
abbrev pub Deregistration {ℓ} :
    {R : Type ℓ} → String → String → Connection → Stream R → Stream R → Type ℓ
Deregistration new_guid qry conn s s' =
    ((lookup qry s.conns ≡ none) × (s' ≡ s))
    ⊎ ((lookup qry s.conns ≢ none)
        × (s'.conns ≡ delete qry s.conns)
        × (s'.posts ≡ s.posts)
        × (((s'.conns ≢ [])
              × (s'.schedulers ≡ s.schedulers)
              × (s'.guid ≡ s.guid)
              × (s'.events ≡ s.events ++ deregistered conn ∷ []))
            ⊎ ((s'.conns ≡ [])
                × (s'.schedulers ≡ map request_reset s.schedulers)
                × (s'.guid ≡ new_guid)
                × (s'.events ≡ s.events ++ deregistered conn ∷ [] ++ all_connections_lost ∷ []))))

-- A deregistration of an address without a connection changes nothing. Otherwise its connection is
-- removed, with an event; and exactly when it was the last one, every scheduler is asked for a reset,
-- the guid is the new one, and a second event says that all connections are lost.
pub deregister_connection-Deregistration {ℓ} :
    {R : Type ℓ} (new_guid qry : String) (conn : Connection) (s : Stream R)
    → Deregistration new_guid qry conn s (deregister_connection new_guid qry conn s)
unfolding deregister_connection
deregister_connection-Deregistration new_guid qry conn s = ground arith

-- The stream lets a preparation pass exactly when each of its schedulers has all the checks that are
-- to be restarted or continued.
pub validate_schedulers-IsPossible :
    (cp : ChecksPreparation) (ms : List Mailbox)
    → (validate_schedulers cp ms ≡ none)
      ↔ All (λ m. All (IsPossible m.scheduler) (get_actionable_checks cp)) ms
unfolding validate_schedulers
validate_schedulers-IsPossible cp [] = (λ h. tt, λ h. refl)
validate_schedulers-IsPossible cp (m ∷ ms) =
    let one = validate_all-IsPossible (get_actionable_checks cp) m.scheduler in
    let rest = validate_schedulers-IsPossible cp ms in
    elim (Option-cases (validate_checks cp m.scheduler)) [
      | inl e ↦ rw (e, validate_schedulers) (λ h. (one.0 e, rest.0 h), λ h. rest.1 h.1)
      | inr (x, e) ↦ rw (e, validate_schedulers) (λ h. cc, λ h. cc (e, one.1 h.0))
    ]
