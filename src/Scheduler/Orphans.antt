-- ===== src/Scheduler/Orphans.antt =====
-- No check of poller/scheduler.go runs on after a reconcile has replaced or dropped it.
use mathlib.Core.Path.{subst}
use mathlib.Core.Option.{some_inj}
use rackspace_monitoring_pol.Base.{
  String, ◌≡◌, refl, sym, ap, ◌∙◌, ◌⊎◌, inl, inr, Option, none, some, List, [], ◌∷◌, ◌++◌, str_eq,
  eq_iff, Bool-cases, Option-cases,
}
use rackspace_monitoring_pol.Base.Dict.{keys, lookup, delete, string_eq, lookup-delete}
use rackspace_monitoring_pol.Base.Dict.Unique.{delete-Unique}
use rackspace_monitoring_pol.Base.Keys.{without}
use rackspace_monitoring_pol.Base.Outcome.{ok, >>=-eq-ok, ok_inj}
use rackspace_monitoring_pol.Check.Create.{Check, new_check_parsed}
use rackspace_monitoring_pol.Protocol.Checks.{CheckIn}
use rackspace_monitoring_pol.Base.Int.{ℤ, pos}
use rackspace_monitoring_pol.Scheduler.Steps.{Keeps, new_check_parsed-Keeps}
use rackspace_monitoring_pol.Preparation.{
  ActionType, unknown, start, restart, continue, ActionableCheck,
}
use rackspace_monitoring_pol.Scheduler.{
  Scheduler, Running, reconcile_check, reconcile_all, remove_check, remove_all, reconcile_checks,
  register_check, cancel_check, bump, initiate_check, report_failure, start_check, restart_check,
  cancel_existing,
}
use rackspace_monitoring_pol.Scheduler.Owned.{
  IsCancelled, IsOwned, WellFormed, IsCancelled-before, IsCancelled-now, All-weaken,
  register_check-WellFormed, Ready, Replaceable, cancel_check-IsOwned,
}

made-WellFormed :
    (ac : ActionableCheck) (s : Scheduler) (o : Option Check)
    → Ready ac.check_in.id s
    → Keeps ac.check_in o
    → {s' : Scheduler}
    → (elim o [ none ↦ report_failure ac s | some ch ↦ ok (register_check ch s) ]) ≡ ok s'
    → WellFormed s'
unfolding report_failure
made-WellFormed ac s none ready kept h = elim (Option-cases ac.check_in.raw_details) [
  | inl e ↦ cc (rw (report_failure, e) at h)
  | inr (raw, e) ↦ subst WellFormed (ok_inj (rw (report_failure, e) at h)) ready.0
]
made-WellFormed ac s (some ch) ready kept h = subst WellFormed (ok_inj h) (
    register_check-WellFormed ch s ready.0
      (subst (λ (c : CheckIn). Replaceable c.id s) (sym kept) ready.1))

initiate_check-WellFormed :
    (ac : ActionableCheck) (s : Scheduler)
    → Ready ac.check_in.id s
    → {s' : Scheduler} → initiate_check ac s ≡ ok s'
    → WellFormed s'
unfolding initiate_check
initiate_check-WellFormed ac s ready h =
    let made = >>=-eq-ok (new_check_parsed ac.check_in) _ h in
    made-WellFormed ac s made.0 ready (new_check_parsed-Keeps ac.check_in made.0 made.1) made.2

cancel_check-Ready :
    (id : String) (r : Running) (s : Scheduler)
    → lookup id s.checks ≡ some r
    → WellFormed s
    → Ready id (cancel_check r s)
cancel_check-Ready id r s e w = (
  (
    w.0,
    All-weaken (IsOwned s) (IsOwned (cancel_check r s)) s.loops
        (λ x owned. cancel_check-IsOwned r x s owned) w.1,
  ),
  λ x f.
      subst (λ y. IsCancelled (s.cancelled ++ r.serial ∷ []) y.serial) (some_inj.0 (sym e ∙ f))
        (IsCancelled-now s.cancelled r.serial),
)

free-Ready : (id : String) (s : Scheduler) → lookup id s.checks ≡ none → WellFormed s → Ready id s
free-Ready id s e w = (w, λ x f. cc (sym e ∙ f))

bump-Ready :
    (id check_type : String) (d : ℤ) (s : Scheduler) → Ready id s → Ready id (bump check_type d s)
unfolding bump
bump-Ready id check_type d s ready = ready

start_check-WellFormed :
    (ac : ActionableCheck) (s : Scheduler)
    → WellFormed s
    → {s' : Scheduler} → start_check ac s ≡ ok s'
    → WellFormed s'
unfolding start_check
start_check-WellFormed ac s w h = elim (Option-cases (lookup ac.check_in.id s.checks)) [
  | inl e ↦
      initiate_check-WellFormed ac _
        (bump-Ready ac.check_in.id ac.check_in.check_type (pos 1) s
          (free-Ready ac.check_in.id s e w))
        (rw (start_check, e) at h)
  | inr (r, e) ↦
      initiate_check-WellFormed ac (cancel_check r s) (cancel_check-Ready ac.check_in.id r s e w)
        (rw (start_check, e) at h)
]

cancel_existing-Ready :
    (id : String) (o : Option Running) (s : Scheduler)
    → lookup id s.checks ≡ o
    → WellFormed s
    → Ready id (cancel_existing o s)
cancel_existing-Ready id none s e w = free-Ready id s e w
cancel_existing-Ready id (some r) s e w = cancel_check-Ready id r s e w

restart_check-WellFormed :
    (ac : ActionableCheck) (s : Scheduler)
    → WellFormed s
    → {s' : Scheduler} → restart_check ac s ≡ ok s'
    → WellFormed s'
unfolding restart_check
restart_check-WellFormed ac s w h =
    let o = lookup ac.check_in.id s.checks in
    initiate_check-WellFormed ac (cancel_existing o s)
      (cancel_existing-Ready ac.check_in.id o s refl w) h

reconcile_check-WellFormed :
    (t : ActionType) (ac : ActionableCheck) (s : Scheduler)
    → WellFormed s
    → {s' : Scheduler} → reconcile_check t ac s ≡ ok s'
    → WellFormed s'
unfolding reconcile_check
reconcile_check-WellFormed unknown ac s w h = subst WellFormed (ok_inj h) w
reconcile_check-WellFormed start ac s w h = start_check-WellFormed ac s w h
reconcile_check-WellFormed restart ac s w h = restart_check-WellFormed ac s w h
reconcile_check-WellFormed continue ac s w h = subst WellFormed (ok_inj h) w

reconcile_all-WellFormed :
    (acs : List ActionableCheck) (remainder : List String) (s : Scheduler)
    → WellFormed s
    → {r : List String × Scheduler} → reconcile_all acs remainder s ≡ ok r
    → WellFormed r.1
unfolding reconcile_all
reconcile_all-WellFormed [] remainder s w h =
    subst (λ (r : List String × Scheduler). WellFormed r.1) (ok_inj h) w
reconcile_all-WellFormed (ac ∷ acs) remainder s w h =
    let first = >>=-eq-ok (reconcile_check ac.action ac s) _ h in
    reconcile_all-WellFormed acs (without ac.check_in.id remainder) first.0
      (reconcile_check-WellFormed ac.action ac s w first.1) first.2

-- Nothing owns the loop of a check that was removed, but it was cancelled.
removed-IsOwned :
    (id : String) (r x : Running) (s : Scheduler)
    → lookup id s.checks ≡ some r
    → IsOwned s x
    → (lookup x.check.check_in.id (delete id s.checks) ≡ some x)
      ⊎ IsCancelled (s.cancelled ++ r.serial ∷ []) x.serial
removed-IsOwned id r x s e (inr c) = inr (IsCancelled-before s.cancelled (r.serial ∷ []) x.serial c)
removed-IsOwned id r x s e (inl f) = elim (Bool-cases (str_eq id x.check.check_in.id)) [
  | inl same ↦
      let at_id = ap (λ i. lookup i s.checks) ((eq_iff id x.check.check_in.id).0 same) in
      inr (
        subst (λ y. IsCancelled (s.cancelled ++ r.serial ∷ []) y.serial)
          (some_inj.0 (sym e ∙ at_id ∙ f)) (IsCancelled-now s.cancelled r.serial))
  | inr other ↦ inl (lookup-delete id x.check.check_in.id s.checks ∙ rw other f)
]

remove_check-WellFormed :
    (id : String) (s : Scheduler)
    → WellFormed s
    → {s' : Scheduler} → remove_check id s ≡ ok s'
    → WellFormed s'
unfolding remove_check
remove_check-WellFormed id s w h = elim (Option-cases (lookup id s.checks)) [
  | inl e ↦ cc (rw (remove_check, e) at h)
  | inr (r, e) ↦ subst WellFormed (ok_inj (rw (remove_check, e) at h)) (
    delete-Unique id s.checks w.0,
    All-weaken (IsOwned s) _ s.loops (λ x owned. removed-IsOwned id r x s e owned) w.1,
  )
]

remove_all-WellFormed :
    (ids : List String) (s : Scheduler)
    → WellFormed s
    → {s' : Scheduler} → remove_all ids s ≡ ok s'
    → WellFormed s'
unfolding remove_all
remove_all-WellFormed [] s w h = subst WellFormed (ok_inj h) w
remove_all-WellFormed (id ∷ ids) s w h =
    let first = >>=-eq-ok (remove_check id s) _ h in
    remove_all-WellFormed ids first.0 (remove_check-WellFormed id s w first.1) first.2

-- If the checks have distinct ids, and every timer loop that was started belongs to the check that is
-- scheduled under its id or was cancelled, then the same holds after any reconcile that goes
-- through: no check that was replaced or dropped runs on.
pub reconcile_checks-WellFormed :
    (acs : List ActionableCheck) (s s' : Scheduler)
    → WellFormed s
    → reconcile_checks acs s ≡ ok s'
    → WellFormed s'
unfolding reconcile_checks
reconcile_checks-WellFormed acs s s' w h =
    let r = >>=-eq-ok (reconcile_all acs (keys s.checks) s) _ h in
    remove_all-WellFormed r.0.0 r.0.1 (reconcile_all-WellFormed acs (keys s.checks) s w r.1) r.2
