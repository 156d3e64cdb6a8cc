-- ===== src/Preparation.antt =====
-- poller/checks_preparation.go: the checks that a server announces by a manifest, then defines in
-- blocks, and that the poller validates before it commits to them.
-- `Actions` is a map of pointers; a write through a pointer is a write to the map's entry.
pub mod Manifest
pub mod Entries
pub mod Definitions
use rackspace_monitoring_pol.Base.{
  String, Bool, true, false, not, ◌&&◌, Option, none, some, List, [], ◌∷◌, str_eq, if◌then◌else◌,
}
use rackspace_monitoring_pol.Base.Int.{ℤ, ltb_ℤ}
use rackspace_monitoring_pol.Base.Dict.{Dict, values, lookup, insert, string_eq}
use rackspace_monitoring_pol.Base.Outcome.{Outcome, ok, panic, ◌>>=◌}
use rackspace_monitoring_pol.Protocol.Checks.{CheckIn, empty_check_in}
use rackspace_monitoring_pol.Protocol.Messages.{PollerPrepareManifest}
use rackspace_monitoring_pol.Protocol.Methods.{
  prepare_action_start, prepare_action_restart, prepare_action_continue,
}

pub data ActionType : Type 0 where
  unknown start restart continue : ActionType

pub record ActionableCheck : Type 0 where
  pub check_in : CheckIn
  pub action : ActionType
  pub populated : Bool

-- `&ActionableCheck{}`
abbrev pub undeclared : ActionableCheck
undeclared = record { check_in = empty_check_in; action = unknown; populated = false }

pub record ChecksPreparation : Type 0 where
  pub zone_id : String
  pub version : ℤ
  pub actions : Dict String ActionableCheck

pub data PrepError : Type 0 where
  unsupported_action : PollerPrepareManifest → PrepError
  wrong_version : PrepError
  not_declared : String → PrepError
  not_defined : String → PrepError

unfoldable pub map_to_action_type : String → ActionType
map_to_action_type s =
    if str_eq s prepare_action_start
    then start
    else if str_eq s prepare_action_restart
    then restart
    else if str_eq s prepare_action_continue
    then continue
    else unknown

unfoldable pub needs_populating : String → Bool
needs_populating s = not (str_eq s prepare_action_continue)

-- The entry that a manifest line makes.
unfoldable pub actionable_of : ActionType → PollerPrepareManifest → ActionableCheck
unfolding needs_populating
actionable_of t m = record {
  check_in = record empty_check_in {
    id = m.id;
    check_type = m.check_type;
    entity_id = m.entity_id;
    zone_id = m.zone_id;
  };
  action = t;
  populated = not (needs_populating m.action);
}

pub data Prepared : Type 0 where
  prepared : ChecksPreparation → Prepared
  refused : PrepError → Prepared

abbrev add_known : ActionType → PollerPrepareManifest → ChecksPreparation → Option ChecksPreparation
add_known unknown m cp = none
add_known t m cp = some (record cp { actions = insert m.id (actionable_of t m) cp.actions })

-- The loop of NewChecksPreparation over the manifest.
unfoldable pub add_manifest : ChecksPreparation → List PollerPrepareManifest → Prepared
unfolding map_to_action_type actionable_of insert
add_manifest cp [] = prepared cp
add_manifest cp (m ∷ ms) = elim (add_known (map_to_action_type m.action) m cp) [
  | none ↦ refused (unsupported_action m)
  | some cp' ↦ add_manifest cp' ms
]

unfoldable pub new_checks_preparation : String → ℤ → List PollerPrepareManifest → Prepared
unfolding add_manifest
new_checks_preparation zone version manifest =
    add_manifest (record { zone_id = zone; version = version; actions = [] }) manifest

abbrev pub get_actionable_checks : ChecksPreparation → List ActionableCheck
get_actionable_checks cp = values cp.actions

abbrev pub eq_ℤ : ℤ → ℤ → Bool
eq_ℤ a b = not (ltb_ℤ a b) && not (ltb_ℤ b a)

-- The receiver of these three may be nil.
abbrev pub version_applies : Option ChecksPreparation → ℤ → Bool
version_applies none v = false
version_applies (some cp) v = eq_ℤ cp.version v

abbrev pub is_newer : Option ChecksPreparation → ℤ → Bool
is_newer none v = true
is_newer (some cp) v = ltb_ℤ cp.version v

abbrev pub is_older : Option ChecksPreparation → ℤ → Bool
is_older none v = false
is_older (some cp) v = ltb_ℤ v cp.version

-- One definition of a block: it fills in the entry that the manifest declared, and leaves a mark
-- for `validate` where none was declared.
unfoldable pub define : CheckIn → Dict String ActionableCheck → Dict String ActionableCheck
unfolding lookup insert
define ch actions = elim (lookup ch.id actions) [
  | none ↦ insert ch.id undeclared actions
  | some actionable ↦ insert ch.id (record actionable { populated = true; check_in = ch }) actions
]

unfoldable pub define_all :
    List (Option CheckIn) → Dict String ActionableCheck → Outcome (Dict String ActionableCheck)
unfolding define
define_all [] actions = ok actions
define_all (none ∷ block) actions = panic
define_all (some ch ∷ block) actions = define_all block (define ch actions)

unfoldable pub add_definitions :
    ChecksPreparation → List (Option CheckIn) → Outcome ChecksPreparation
unfolding define_all
add_definitions cp block = do
  actions ← define_all block cp.actions
  ok (record cp { actions = actions })

abbrev pub check_action : String → ActionableCheck → Option PrepError
check_action id ac = elim ac.action [
  | unknown ↦ some (not_declared ac.check_in.id)
  | _ ↦ if ac.populated then none else some (not_defined id)
]

-- The loop of Validate: the first entry that is not declared, or not defined.
unfoldable pub validate_actions : Dict String ActionableCheck → Option PrepError
validate_actions [] = none
validate_actions ((id, ac) ∷ m) = elim (check_action id ac) [
  | none ↦ validate_actions m
  | some e ↦ some e
]

unfoldable pub validate : ChecksPreparation → ℤ → Option PrepError
unfolding validate_actions
validate cp version =
    if version_applies (some cp) version then validate_actions cp.actions else some wrong_version
