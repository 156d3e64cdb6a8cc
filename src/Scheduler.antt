-- ===== src/Scheduler.antt =====
-- poller/scheduler.go: the checks of one zone, and their reconciliation with a preparation.
-- A check that was made is told from every other by a serial number, which stands for its pointer;
-- `loops` are the checks whose timer loop was started and `cancelled` the serials of those whose
-- context was cancelled. The scheduler and the executor are the defaults.
pub mod Validate
pub mod Steps
pub mod Reconcile
pub mod Owned
pub mod Orphans
pub mod Reset
use rackspace_monitoring_pol.Base.{
  ℕ, ◌+◌, String, Bool, true, false, Option, none, some, List, [], ◌∷◌, ◌++◌, str_eq, if◌then◌else◌,
}
use rackspace_monitoring_pol.Base.Int.{ℤ, pos, negsuc, ◌+ℤ◌}
use rackspace_monitoring_pol.Base.Dict.{Dict, keys, values, lookup, insert, delete, string_eq}
use rackspace_monitoring_pol.Base.Keys.{contains, without}
use rackspace_monitoring_pol.Base.Outcome.{Outcome, ok, panic, ◌>>=◌}
use rackspace_monitoring_pol.Check.Create.{Check, new_check_parsed}
use rackspace_monitoring_pol.Preparation.{
  ActionType, unknown, start, restart, continue, ActionableCheck, ChecksPreparation,
  get_actionable_checks,
}

pub record Running : Type 0 where
  pub serial : ℕ
  pub check : Check

pub record Scheduler : Type 0 where
  pub zone_id : String
  pub checks : Dict String Running
  pub next_serial : ℕ
  pub loops : List Running
  pub cancelled : List ℕ
  -- the gauge scheduled_checks, by the type of check
  pub gauge : Dict String ℤ

-- NewScheduler
unfoldable pub new_scheduler : String → Scheduler
new_scheduler zone = record {
  zone_id = zone;
  checks = [];
  next_serial = 0;
  loops = [];
  cancelled = [];
  gauge = [];
}

abbrev pub get_scheduled_checks : Scheduler → List Running
get_scheduled_checks s = values s.checks

abbrev pub gauge_of : Option ℤ → ℤ
gauge_of none = pos 0
gauge_of (some z) = z

-- gauge.Inc and gauge.Dec; the labels are those that the gauge was made with, so it is always found.
unfoldable pub bump : String → ℤ → Scheduler → Scheduler
unfolding lookup insert
bump check_type d s = record s {
  gauge = insert check_type (gauge_of (lookup check_type s.gauge) +ℤ d) s.gauge;
}

-- CancelCheck
abbrev pub cancel_check : Running → Scheduler → Scheduler
cancel_check r s = record s { cancelled = s.cancelled ++ r.serial ∷ [] }

-- Schedule: the timer loop of a disabled check is not started.
abbrev pub schedule : Running → Scheduler → Scheduler
schedule r s = if r.check.check_in.disabled then s else record s { loops = s.loops ++ r ∷ [] }

abbrev pub register_check : Check → Scheduler → Scheduler
register_check ch s =
    let r : Running = record { serial = s.next_serial; check = ch } in
    schedule r
      (record s { checks = insert ch.check_in.id r s.checks; next_serial = s.next_serial + 1 })

-- The error of initiateCheck is reported with the details of the check, which are a pointer.
unfoldable pub report_failure : ActionableCheck → Scheduler → Outcome Scheduler
report_failure ac s = elim ac.check_in.raw_details [ none ↦ panic | some raw ↦ ok s ]

-- initiateCheck, with the report of its error
unfoldable pub initiate_check : ActionableCheck → Scheduler → Outcome Scheduler
unfolding new_check_parsed insert report_failure
initiate_check ac s = do
  made ← new_check_parsed ac.check_in
  elim made [ none ↦ report_failure ac s | some ch ↦ ok (register_check ch s) ]

abbrev pub cancel_existing : Option Running → Scheduler → Scheduler
cancel_existing none s = s
cancel_existing (some r) s = cancel_check r s

unfoldable pub start_check : ActionableCheck → Scheduler → Outcome Scheduler
unfolding lookup bump initiate_check
start_check ac s = elim (lookup ac.check_in.id s.checks) [
  | some r ↦ initiate_check ac (cancel_check r s)
  | none ↦ initiate_check ac (bump ac.check_in.check_type (pos 1) s)
]

unfoldable pub restart_check : ActionableCheck → Scheduler → Outcome Scheduler
unfolding lookup initiate_check
restart_check ac s = initiate_check ac (cancel_existing (lookup ac.check_in.id s.checks) s)

-- One round of the loop of reconcile over the actionable checks.
unfoldable pub reconcile_check : ActionType → ActionableCheck → Scheduler → Outcome Scheduler
unfolding start_check restart_check
reconcile_check unknown ac s = ok s
reconcile_check start ac s = start_check ac s
reconcile_check restart ac s = restart_check ac s
reconcile_check continue ac s = ok s

unfoldable pub reconcile_all :
    List ActionableCheck → List String → Scheduler → Outcome (List String × Scheduler)
unfolding reconcile_check
reconcile_all [] remainder s = ok (remainder, s)
reconcile_all (ac ∷ acs) remainder s = do
  s' ← reconcile_check ac.action ac s
  reconcile_all acs (without ac.check_in.id remainder) s'

-- One check of the remainder is removed; there would be no check behind a key that is missing.
unfoldable pub remove_check : String → Scheduler → Outcome Scheduler
unfolding lookup delete bump
remove_check id s = elim (lookup id s.checks) [
  | none ↦ panic
  | some r ↦ ok (
      bump r.check.check_in.check_type (negsuc 0)
        (cancel_check r (record s { checks = delete id s.checks })))
]

unfoldable pub remove_all : List String → Scheduler → Outcome Scheduler
unfolding remove_check
remove_all [] s = ok s
remove_all (id ∷ ids) s = do s' ← remove_check id s; remove_all ids s'

-- reconcile, for the actionable checks in the order of the iteration over them
unfoldable pub reconcile_checks : List ActionableCheck → Scheduler → Outcome Scheduler
unfolding reconcile_all remove_all
reconcile_checks acs s = do r ← reconcile_all acs (keys s.checks) s; remove_all r.0 r.1

abbrev pub reconcile : ChecksPreparation → Scheduler → Outcome Scheduler
reconcile cp s = reconcile_checks (get_actionable_checks cp) s

-- The loop of reset over the checks: each is removed and cancelled; the gauge stays.
unfoldable pub reset_checks : Dict String Running → Scheduler → Scheduler
unfolding delete
reset_checks [] s = s
reset_checks ((id, r) ∷ m) s =
    reset_checks m (cancel_check r (record s { checks = delete id s.checks }))

unfoldable pub reset : Scheduler → Scheduler
unfolding reset_checks
reset s = reset_checks s.checks s

pub data ValidationError : Type 0 where
  restart_missing : String → ValidationError
  continue_missing : String → ValidationError

unfoldable pub validate_check : ActionableCheck → Scheduler → Option ValidationError
unfolding lookup
validate_check ac s = elim ac.action [
  | unknown ↦ none
  | start ↦ none
  | restart ↦ elim (lookup ac.check_in.id s.checks) [
    | none ↦ some (restart_missing ac.check_in.id)
    | some r ↦ none
  ]
  | continue ↦ elim (lookup ac.check_in.id s.checks) [
    | none ↦ some (continue_missing ac.check_in.id)
    | some r ↦ none
  ]
]

-- ValidateChecks, for the actionable checks in the order of the iteration over them
unfoldable pub validate_all : List ActionableCheck → Scheduler → Option ValidationError
unfolding validate_check
validate_all [] s = none
validate_all (ac ∷ acs) s = elim (validate_check ac s) [
  | none ↦ validate_all acs s
  | some e ↦ some e
]

abbrev pub validate_checks : ChecksPreparation → Scheduler → Option ValidationError
validate_checks cp s = validate_all (get_actionable_checks cp) s
