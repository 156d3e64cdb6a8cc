-- ===== src/Preparation/Manifest.antt =====
-- What NewChecksPreparation (poller/checks_preparation.go) makes of a manifest.
use mathlib.Core.Path.{subst}
use rackspace_monitoring_pol.Base.{
  String, ◌≡◌, ◌≢◌, refl, sym, ap, ◌⊎◌, inl, inr, Option, none, some, List, [], ◌∷◌, ◌++◌, arith,
  All, str_eq, if◌then◌else◌,
}
use rackspace_monitoring_pol.Base.Int.{ℤ}
use rackspace_monitoring_pol.Base.Dict.{lookup, insert, lookup-insert, string_eq}
use rackspace_monitoring_pol.Base.Dict.Unique.{Unique, insert-Unique}
use rackspace_monitoring_pol.Protocol.Messages.{PollerPrepareManifest}
use rackspace_monitoring_pol.Preparation.{
  ActionType, unknown, start, restart, continue, ActionableCheck, ChecksPreparation, prepared,
  refused, PrepError, unsupported_action, map_to_action_type, actionable_of, add_known,
  add_manifest, new_checks_preparation,
}

abbrev pub IsSupported : PollerPrepareManifest → Type 0
IsSupported m = map_to_action_type m.action ≢ unknown

abbrev pub entry_of : PollerPrepareManifest → ActionableCheck
entry_of m = actionable_of (map_to_action_type m.action) m

abbrev pub or_else {ℓ} : {A : Type ℓ} → Option A → Option A → Option A
or_else none o = o
or_else (some a) o = some a

-- The entry that the last manifest line for a check calls for.
abbrev pub declared : String → List PollerPrepareManifest → Option ActionableCheck
declared k [] = none
declared k (m ∷ ms) = or_else (declared k ms) (if str_eq m.id k then some (entry_of m) else none)

add_known-cases :
    (t : ActionType) (m : PollerPrepareManifest) (cp : ChecksPreparation)
    → ((t ≡ unknown) × (add_known t m cp ≡ none))
      ⊎ ((t ≢ unknown)
          × (add_known t m cp
              ≡ some (record cp { actions = insert m.id (actionable_of t m) cp.actions })))
add_known-cases unknown m cp = inl (refl, refl)
add_known-cases start m cp = inr (λ e. cc, refl)
add_known-cases restart m cp = inr (λ e. cc, refl)
add_known-cases continue m cp = inr (λ e. cc, refl)

-- How one preparation grew into another.
record Grown (ms : List PollerPrepareManifest) (cp cp' : ChecksPreparation) : Type 0 where
  zone : cp'.zone_id ≡ cp.zone_id
  version : cp'.version ≡ cp.version
  unique : Unique cp.actions → Unique cp'.actions
  entries : (k : String) → lookup k cp'.actions ≡ or_else (declared k ms) (lookup k cp.actions)
  supported : All IsSupported ms

Grown-cons :
    (m : PollerPrepareManifest) (ms : List PollerPrepareManifest) (cp cp' : ChecksPreparation)
    → IsSupported m
    → Grown ms (record cp { actions = insert m.id (entry_of m) cp.actions }) cp'
    → Grown (m ∷ ms) cp cp'
Grown-cons m ms cp cp' s g = record {
  zone = g.zone;
  version = g.version;
  unique = λ u. g.unique (insert-Unique m.id (entry_of m) cp.actions u);
  entries = λ k. ground (arith, g.entries k, lookup-insert m.id k (entry_of m) cp.actions);
  supported = (s, g.supported);
}

prepared_inj : {a b : ChecksPreparation} → prepared a ≡ prepared b → a ≡ b
prepared_inj h = cc

add_manifest-Grown :
    (ms : List PollerPrepareManifest) (cp : ChecksPreparation) {cp' : ChecksPreparation}
    → add_manifest cp ms ≡ prepared cp'
    → Grown ms cp cp'
unfolding add_manifest
add_manifest-Grown [] cp h =
    subst (Grown [] cp) (prepared_inj h)
      (record { zone = refl; version = refl; unique = λ u. u; entries = λ k. refl; supported = tt })
add_manifest-Grown (m ∷ ms) cp {cp'} h = elim (add_known-cases (map_to_action_type m.action) m cp) [
  | inl (bad, e) ↦ cc (rw (e, add_manifest) at h)
  | inr (good, e) ↦
      Grown-cons m ms cp cp' good (add_manifest-Grown ms _ (rw (e, add_manifest) at h))
]

pub new_checks_preparation-declared :
    (zone : String) (v : ℤ) (ms : List PollerPrepareManifest) {cp : ChecksPreparation}
    → new_checks_preparation zone v ms ≡ prepared cp
    → All IsSupported ms
      × (cp.zone_id ≡ zone)
      × (cp.version ≡ v)
      × Unique cp.actions
      × ((k : String) → lookup k cp.actions ≡ declared k ms)
unfolding new_checks_preparation lookup
new_checks_preparation-declared zone v ms h =
    let g = add_manifest-Grown ms _ h in
    (g.supported, g.zone, g.version, g.unique tt, λ k. ground (arith, g.entries k))

add_manifest-supported :
    (ms : List PollerPrepareManifest) (cp : ChecksPreparation)
    → All IsSupported ms
    → (cp' : ChecksPreparation) × (add_manifest cp ms ≡ prepared cp')
unfolding add_manifest
add_manifest-supported [] cp h = (cp, refl)
add_manifest-supported (m ∷ ms) cp h = elim (add_known-cases (map_to_action_type m.action) m cp) [
  | inl (bad, e) ↦ absurd (h.0 bad)
  | inr (good, e) ↦ rw (e, add_manifest) (add_manifest-supported ms _ h.1)
]

-- NewChecksPreparation accepts every manifest whose actions are all supported.
pub new_checks_preparation-supported :
    (zone : String) (v : ℤ) (ms : List PollerPrepareManifest)
    → All IsSupported ms
    → (cp : ChecksPreparation) × (new_checks_preparation zone v ms ≡ prepared cp)
unfolding new_checks_preparation
new_checks_preparation-supported zone v ms h = add_manifest-supported ms _ h

refused_inj : {a b : PrepError} → refused a ≡ refused b → a ≡ b
refused_inj h = cc

-- The first line of a manifest that has no supported action.
abbrev pub FirstUnsupported : List PollerPrepareManifest → PollerPrepareManifest → Type 0
FirstUnsupported ms m =
    (before : List PollerPrepareManifest) × (after : List PollerPrepareManifest) × (ms
      ≡ before ++ m ∷ after)
    × All IsSupported before
    × (map_to_action_type m.action ≡ unknown)

FirstUnsupported-cons :
    (x m : PollerPrepareManifest) (ms : List PollerPrepareManifest)
    → IsSupported x
    → FirstUnsupported ms m
    → FirstUnsupported (x ∷ ms) m
FirstUnsupported-cons x m ms s f =
    (x ∷ f.0, f.1, ap {B = List PollerPrepareManifest} (λ l. x ∷ l) f.2, (s, f.3), f.4)

add_manifest-refused :
    (ms : List PollerPrepareManifest) (cp : ChecksPreparation) {e : PrepError}
    → add_manifest cp ms ≡ refused e
    → (m : PollerPrepareManifest) × (e ≡ unsupported_action m) × FirstUnsupported ms m
unfolding add_manifest
add_manifest-refused [] cp h = cc
add_manifest-refused (m ∷ ms) cp h = elim (add_known-cases (map_to_action_type m.action) m cp) [
  | inl (bad, e) ↦ (m, sym (refused_inj (rw (e, add_manifest) at h)), ([], ms, refl, tt, bad))
  | inr (good, e) ↦
      let r = add_manifest-refused ms _ (rw (e, add_manifest) at h) in
      (r.0, r.1, FirstUnsupported-cons m r.0 ms good r.2)
]

-- If NewChecksPreparation refuses a manifest, then its error names the first line whose action is
-- not supported.
pub new_checks_preparation-refused :
    (zone : String) (v : ℤ) (ms : List PollerPrepareManifest) {e : PrepError}
    → new_checks_preparation zone v ms ≡ refused e
    → (m : PollerPrepareManifest) × (e ≡ unsupported_action m) × FirstUnsupported ms m
unfolding new_checks_preparation
new_checks_preparation-refused zone v ms h = add_manifest-refused ms _ h
