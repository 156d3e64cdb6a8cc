-- ===== src/Preparation/Entries.antt =====
-- The entries that NewChecksPreparation (poller/checks_preparation.go) makes, by the lines of its
-- manifest.
use rackspace_monitoring_pol.Base.{
  String, ◌≡◌, refl, ◌⊎◌, inl, inr, true, false, Bool-cases, eq_iff, Option, none, some, List, [],
  ◌∷◌, All, str_eq, if◌then◌else◌,
}
use rackspace_monitoring_pol.Base.Int.{ℤ}
use rackspace_monitoring_pol.Base.Dict.{lookup, string_eq}
use rackspace_monitoring_pol.Base.Dict.Unique.{Unique}
use rackspace_monitoring_pol.Protocol.Messages.{PollerPrepareManifest}
use rackspace_monitoring_pol.Preparation.{
  start, restart, continue, ActionableCheck, ChecksPreparation, prepared, map_to_action_type,
  needs_populating, actionable_of, new_checks_preparation,
}
use rackspace_monitoring_pol.Preparation.Manifest.{
  IsSupported, entry_of, or_else, declared, new_checks_preparation-declared,
}

-- The last manifest line for a check.
abbrev pub last_line : String → List PollerPrepareManifest → Option PollerPrepareManifest
last_line k [] = none
last_line k (m ∷ ms) = or_else (last_line k ms) (if str_eq m.id k then some m else none)

-- What a manifest line calls for: an entry with the line's id, type, entity and zone and nothing else
-- of the check, that is to be started or restarted once it is defined, or that is to be continued as
-- it is.
abbrev pub CallsFor : PollerPrepareManifest → ActionableCheck → Type 0
CallsFor m ac =
    (ac.check_in ≡ record {
      id = m.id;
      check_type = m.check_type;
      period = 0;
      timeout = 0;
      entity_id = m.entity_id;
      zone_id = m.zone_id;
      disabled = false;
      ip_addresses = [];
      target_alias = none;
      target_hostname = none;
      target_resolver = "";
      raw_details = none;
    })
    × (((m.action ≡ "start") × (ac.action ≡ start) × (ac.populated ≡ false))
        ⊎ ((m.action ≡ "restart") × (ac.action ≡ restart) × (ac.populated ≡ false))
        ⊎ ((m.action ≡ "continue") × (ac.action ≡ continue) × (ac.populated ≡ true)))

-- The entry of a check, by the last line for it.
abbrev pub EntryOf : Option PollerPrepareManifest → Option ActionableCheck → Type 0
EntryOf none o = o ≡ none
EntryOf (some m) o = (ac : ActionableCheck) × (o ≡ some ac) × CallsFor m ac

entry_of-CallsFor : (m : PollerPrepareManifest) → IsSupported m → CallsFor m (entry_of m)
unfolding map_to_action_type actionable_of needs_populating
entry_of-CallsFor m s = elim (Bool-cases (str_eq m.action "start")) [
  | inl a ↦ rw ((eq_iff m.action "start").0 a) (refl, inl (refl, refl, refl))
  | inr a ↦ elim (Bool-cases (str_eq m.action "restart")) [
    | inl b ↦ rw ((eq_iff m.action "restart").0 b) (refl, inr (inl (refl, refl, refl)))
    | inr b ↦ elim (Bool-cases (str_eq m.action "continue")) [
      | inl c ↦ rw ((eq_iff m.action "continue").0 c) (refl, inr (inr (refl, refl, refl)))
      | inr c ↦ absurd (s (rw (a, b, c) refl))
    ]
  ]
]

action_known :
    (m : PollerPrepareManifest)
    → IsSupported m
    → (m.action ≡ "start") ⊎ (m.action ≡ "restart") ⊎ (m.action ≡ "continue")
action_known m s = elim (entry_of-CallsFor m s).1 [
  | inl h ↦ inl h.0
  | inr (inl h) ↦ inr (inl h.0)
  | inr (inr h) ↦ inr (inr h.0)
]

All-map :
    (P Q : PollerPrepareManifest → Type 0) (ms : List PollerPrepareManifest)
    → ((m : PollerPrepareManifest) → P m → Q m)
    → All P ms
    → All Q ms
All-map P Q [] f h = tt
All-map P Q (m ∷ ms) f h = (f m h.0, All-map P Q ms f h.1)

declared-EntryOf :
    (k : String) (ms : List PollerPrepareManifest)
    → All IsSupported ms
    → EntryOf (last_line k ms) (declared k ms)
declared-EntryOf k [] s = refl
declared-EntryOf k (m ∷ ms) s = newer (last_line k ms) (declared k ms) (declared-EntryOf k ms s.1)
  where
    newer :
        (l : Option PollerPrepareManifest) (o : Option ActionableCheck)
        → EntryOf l o
        → EntryOf
            (or_else l (if str_eq m.id k then some m else none))
            (or_else o (if str_eq m.id k then some (entry_of m) else none))
    newer (some n) o h = (h.0, rw h.1 refl, h.2)
    newer none o h = elim (Bool-cases (str_eq m.id k)) [
      | inl same ↦ rw (h, same) (entry_of m, refl, entry_of-CallsFor m s.0)
      | inr other ↦ rw (h, other) refl
    ]

-- If NewChecksPreparation accepts a manifest, then the preparation has the given zone and version,
-- its keys are distinct, and a check has an entry exactly if a line is about it: what the last such line
-- calls for. Every line has one of the actions start, restart and continue.
pub new_checks_preparation-CallsFor :
    (zone : String) (v : ℤ) (ms : List PollerPrepareManifest) {cp : ChecksPreparation}
    → new_checks_preparation zone v ms ≡ prepared cp
    → (cp.zone_id ≡ zone)
      × (cp.version ≡ v)
      × Unique cp.actions
      × ((k : String) → EntryOf (last_line k ms) (lookup k cp.actions))
      × All (λ m. (m.action ≡ "start") ⊎ (m.action ≡ "restart") ⊎ (m.action ≡ "continue")) ms
new_checks_preparation-CallsFor zone v ms h =
    let (s, z, version, u, entries) = new_checks_preparation-declared zone v ms h in
    (
      z,
      version,
      u,
      λ k. rw (entries k) (declared-EntryOf k ms s),
      All-map IsSupported _ ms action_known s,
    )
