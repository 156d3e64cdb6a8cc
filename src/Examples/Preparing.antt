-- ===== src/Examples/Preparing.antt =====
-- The theorems on poller/checks_preparation.go, at concrete manifests and blocks.
use rackspace_monitoring_pol.Base.{◌⊎◌, String, ◌≡◌, ◌↔◌, refl, none, some, List, [], ◌∷◌, map, All}
use rackspace_monitoring_pol.Base.Int.{pos}
use rackspace_monitoring_pol.Base.Dict.{lookup, string_eq}
use rackspace_monitoring_pol.Base.Dict.Unique.{Unique}
use rackspace_monitoring_pol.Base.Outcome.{ok}
use rackspace_monitoring_pol.Protocol.Messages.{PollerPrepareManifest}
use rackspace_monitoring_pol.Preparation.{
  ChecksPreparation, new_checks_preparation, add_definitions, validate,
}
use rackspace_monitoring_pol.Preparation.Manifest.{entry_of}
use rackspace_monitoring_pol.Preparation.Entries.{
  EntryOf, last_line, new_checks_preparation-CallsFor,
}
use rackspace_monitoring_pol.Preparation.Definitions.{defines, IsSettled, validate-add_definitions}
use rackspace_monitoring_pol.Examples.Data.{tcp_check, one_check}

abbrev line : String → String → PollerPrepareManifest
line action id = record {
  action = action;
  id = id;
  check_type = "remote.tcp";
  entity_id = "";
  zone_id = "";
}

abbrev good : List PollerPrepareManifest
good = line "start" "ch1" ∷ line "restart" "ch2" ∷ []

abbrev bad : List PollerPrepareManifest
bad = line "start" "ch1" ∷ line "stop" "ch2" ∷ []

abbrev declared_one : ChecksPreparation
declared_one = record {
  zone_id = "z";
  version = pos 1;
  actions = ("ch1", entry_of (line "start" "ch1")) ∷ [];
}

new_checks_preparation-CallsFor_example :
    (declared_one.zone_id ≡ "z")
    × (declared_one.version ≡ pos 1)
    × Unique declared_one.actions
    × ((k : String)
        → EntryOf (last_line k (line "start" "ch1" ∷ [])) (lookup k declared_one.actions))
    × All
        (λ m. (m.action ≡ "start") ⊎ (m.action ≡ "restart") ⊎ (m.action ≡ "continue"))
        (line "start" "ch1" ∷ [])
unfolding new_checks_preparation
new_checks_preparation-CallsFor_example =
    new_checks_preparation-CallsFor "z" (pos 1) (line "start" "ch1" ∷ []) {cp = declared_one} refl

validate-add_definitions_example :
    (cp' : ChecksPreparation) × (add_definitions one_check (map some (tcp_check ∷ [])) ≡ ok cp')
    × ((validate cp' (pos 3) ≡ none)
        ↔ ((k : String) → IsSettled (lookup k one_check.actions) (defines k (tcp_check ∷ []))))
unfolding lookup
validate-add_definitions_example = validate-add_definitions one_check (tcp_check ∷ []) (refl, tt)
