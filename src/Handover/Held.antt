-- ===== src/Handover/Held.antt =====
-- The preparation that the messages of endpoint/agent.go make in a session.
use mathlib.Core.Path.{subst}
use rackspace_monitoring_pol.Base.{String, ◌≡◌, refl, sym, ◌∙◌, none, some, List, ◌++◌, map}
use rackspace_monitoring_pol.Base.Int.{ℤ}
use rackspace_monitoring_pol.Base.Dict.{lookup, string_eq}
use rackspace_monitoring_pol.Base.Outcome.{ok, ok_inj}
use rackspace_monitoring_pol.Protocol.Checks.{CheckIn}
use rackspace_monitoring_pol.Preparation.{
  ChecksPreparation, prepared, new_checks_preparation, add_definitions, validate,
}
use rackspace_monitoring_pol.Preparation.Manifest.{new_checks_preparation-declared}
use rackspace_monitoring_pol.Preparation.Definitions.{validate-add_definitions, defines, IsSettled}
use rackspace_monitoring_pol.Agent.{manifest_of}
use rackspace_monitoring_pol.Handover.Declared.{manifest_of-IsSettled}
use rackspace_monitoring_pol.Handover.Entered.{last_check, Entered, define_list-Entered}
use rackspace_monitoring_pol.Handover.Blocks.{with_definitions, define_all-some}

-- The preparation `cp` has the version, passes its validation, and has entries for the checks and for
-- no others: each holds the last check of its id, populated, and is to be restarted if a check of
-- that id is to be restarted, otherwise to be started.
abbrev pub Holds : ℤ → List CheckIn → List CheckIn → ChecksPreparation → Type 0
Holds v to_start to_restart cp =
    (cp.version ≡ v)
    × (validate cp v ≡ none)
    × ((k : String)
        → Entered (last_check k to_start) (last_check k to_restart) (lookup k cp.actions))

add_definitions-some :
    (cp : ChecksPreparation) (chs : List CheckIn)
    → add_definitions cp (map some chs) ≡ ok (with_definitions chs cp)
unfolding add_definitions
add_definitions-some cp chs = rw (define_all-some chs cp.actions) refl

pub with_definitions-Holds :
    (v : ℤ) (to_start to_restart : List CheckIn) (cp : ChecksPreparation)
    → new_checks_preparation "" v (manifest_of to_start to_restart) ≡ prepared cp
    → Holds v to_start to_restart (with_definitions (to_start ++ to_restart) cp)
with_definitions-Holds v to_start to_restart cp e =
    let chs = to_start ++ to_restart in
    let d = new_checks_preparation-declared "" v (manifest_of to_start to_restart) e in
    let valid = validate-add_definitions cp chs d.3 in
    let settled : (k : String) → IsSettled (lookup k cp.actions) (defines k chs) =
      λ k. rw (d.4 k) (manifest_of-IsSettled k to_start to_restart) in
    let made : valid.0 ≡ with_definitions chs cp =
      ok_inj (sym valid.1 ∙ add_definitions-some cp chs) in
    (
      d.2,
      subst (λ c. validate c v ≡ none) made
          (subst (λ w. validate valid.0 w ≡ none) d.2 (valid.2.1 settled)),
      λ k. define_list-Entered k to_start to_restart cp.actions (d.4 k),
    )
