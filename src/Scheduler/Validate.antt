-- ===== src/Scheduler/Validate.antt =====
-- When ValidateChecks (poller/scheduler.go) lets a preparation pass.
use rackspace_monitoring_pol.Base.{
  ◌≡◌, ◌≢◌, ◌↔◌, refl, none, List, [], ◌∷◌, arith, All, Option-cases, inl, inr,
}
use rackspace_monitoring_pol.Base.Dict.{lookup, string_eq}
use rackspace_monitoring_pol.Preparation.{restart, continue, ActionableCheck}
use rackspace_monitoring_pol.Scheduler.{Scheduler, validate_check, validate_all}

-- A check that is to be restarted or continued exists.
abbrev pub IsPossible : Scheduler → ActionableCheck → Type 0
IsPossible s ac =
    (ac.action ≡ restart → lookup ac.check_in.id s.checks ≢ none)
    × (ac.action ≡ continue → lookup ac.check_in.id s.checks ≢ none)

validate_check-IsPossible :
    (ac : ActionableCheck) (s : Scheduler) → (validate_check ac s ≡ none) ↔ IsPossible s ac
unfolding validate_check
validate_check-IsPossible ac s = ground arith

-- ValidateChecks passes exactly when every check that is to be restarted or continued exists.
pub validate_all-IsPossible :
    (acs : List ActionableCheck) (s : Scheduler)
    → (validate_all acs s ≡ none) ↔ All (IsPossible s) acs
unfolding validate_all
validate_all-IsPossible [] s = (λ h. tt, λ h. refl)
validate_all-IsPossible (ac ∷ acs) s = elim (Option-cases (validate_check ac s)) [
  | inl e ↦
      rw (e, validate_all)
        (
          λ h. ((validate_check-IsPossible ac s).0 e, (validate_all-IsPossible acs s).0 h),
          λ h. (validate_all-IsPossible acs s).1 h.1,
        )
  | inr (x, e) ↦ rw (e, validate_all) (λ h. cc, λ h. cc (e, (validate_check-IsPossible ac s).1 h.0))
]
