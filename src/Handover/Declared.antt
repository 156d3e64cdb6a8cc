-- ===== src/Handover/Declared.antt =====
-- The manifest that endpoint/agent.go writes declares the checks that its blocks define.
use rackspace_monitoring_pol.Base.{
  String, ◌≡◌, ◌≢◌, refl, Bool, true, false, ◌||◌, Option, none, some, List, [], ◌∷◌, ◌++◌, map,
  arith, All, All-append, str_eq, if◌then◌else◌,
}
use rackspace_monitoring_pol.Protocol.Checks.{CheckIn}
use rackspace_monitoring_pol.Protocol.Messages.{PollerPrepareManifest}
use rackspace_monitoring_pol.Protocol.Methods.{prepare_action_start, prepare_action_restart}
use rackspace_monitoring_pol.Preparation.{
  ActionableCheck, unknown, actionable_of, map_to_action_type,
}
use rackspace_monitoring_pol.Preparation.Manifest.{IsSupported, entry_of, declared, or_else}
use rackspace_monitoring_pol.Preparation.Definitions.{defines, IsSettled}
use rackspace_monitoring_pol.Agent.{new_manifest, manifest_of}

-- An entry is declared with a supported action exactly when its check is defined.
abbrev pub Matches : Option ActionableCheck → Bool → Type 0
Matches none d = d ≡ false
Matches (some ac) d = (ac.action ≢ unknown) × (d ≡ true)

Matches-or_else :
    (newer older : Option ActionableCheck) (d e : Bool)
    → Matches older d
    → Matches newer e
    → Matches (or_else newer older) (d || e)
Matches-or_else none none d e h g = ground arith
Matches-or_else none (some ac) d e h g = ground arith
Matches-or_else (some bc) none d e h g = ground arith
Matches-or_else (some bc) (some ac) d e h g = ground arith

Matches-IsSettled : (o : Option ActionableCheck) (d : Bool) → Matches o d → IsSettled o d
Matches-IsSettled none d h = h
Matches-IsSettled (some ac) d h = ground arith

pub or_else-none {ℓ} : {A : Type ℓ} (o : Option A) → o ≡ or_else o none
or_else-none none = refl
or_else-none (some a) = refl

pub or_else_assoc {ℓ} :
    {A : Type ℓ} (a b c : Option A) → or_else (or_else a b) c ≡ or_else a (or_else b c)
or_else_assoc none b c = refl
or_else_assoc (some x) b c = refl

pub declared-append :
    (k : String) (ms ns : List PollerPrepareManifest)
    → declared k (ms ++ ns) ≡ or_else (declared k ns) (declared k ms)
declared-append k [] ns = or_else-none (declared k ns)
declared-append k (m ∷ ms) ns =
    rw (declared-append k ms ns) (or_else_assoc (declared k ns) (declared k ms) _)

Matches-line :
    (ac : ActionableCheck) (same : Bool)
    → ac.action ≢ unknown
    → Matches (if same then some ac else none) same
Matches-line ac true h = (h, refl)
Matches-line ac false h = refl

defines-append :
    (k : String) (xs ys : List CheckIn) → defines k (xs ++ ys) ≡ (defines k xs || defines k ys)
defines-append k [] ys = refl
defines-append k (x ∷ xs) ys = ground (arith, defines-append k xs ys)

module _ (action : String) (supported : map_to_action_type action ≢ unknown) where
  IsSupported-All : (chs : List CheckIn) → All IsSupported (map (new_manifest action) chs)
  unfolding new_manifest
  IsSupported-All [] = tt
  IsSupported-All (ch ∷ chs) = (supported, IsSupported-All chs)

  Matches-map :
      (k : String) (chs : List CheckIn)
      → Matches (declared k (map (new_manifest action) chs)) (defines k chs)
  unfolding new_manifest actionable_of map_to_action_type
  Matches-map k [] = refl
  Matches-map k (ch ∷ chs) =
      let line = new_manifest action ch in
      Matches-or_else (declared k (map (new_manifest action) chs))
        (if str_eq ch.id k then some (entry_of line) else none) (str_eq ch.id k) (defines k chs)
        (Matches-line (entry_of line) (str_eq ch.id k) supported) (Matches-map k chs)

start_supported : map_to_action_type prepare_action_start ≢ unknown
unfolding map_to_action_type
start_supported e = cc

restart_supported : map_to_action_type prepare_action_restart ≢ unknown
unfolding map_to_action_type
restart_supported e = cc

pub manifest_of-IsSupported :
    (to_start to_restart : List CheckIn) → All IsSupported (manifest_of to_start to_restart)
manifest_of-IsSupported to_start to_restart =
    All-append IsSupported _ _ (IsSupported-All prepare_action_start start_supported to_start)
      (IsSupported-All prepare_action_restart restart_supported to_restart)

pub manifest_of-IsSettled :
    (k : String) (to_start to_restart : List CheckIn)
    → IsSettled (declared k (manifest_of to_start to_restart)) (defines k (to_start ++ to_restart))
manifest_of-IsSettled k to_start to_restart =
    let starts = map (new_manifest prepare_action_start) to_start in
    let restarts = map (new_manifest prepare_action_restart) to_restart in
    rw (declared-append k starts restarts, defines-append k to_start to_restart)
      (Matches-IsSettled _ _ (
        Matches-or_else (declared k restarts) (declared k starts) (defines k to_start)
          (defines k to_restart) (Matches-map prepare_action_start start_supported k to_start)
          (Matches-map prepare_action_restart restart_supported k to_restart)))
