-- ===== src/Scheduler/Reset.antt =====
-- What reset of poller/scheduler.go leaves.
use mathlib.Core.Path.{subst}
use mathlib.Core.Option.{some_inj}
use rackspace_monitoring_pol.Base.{
  ℕ, String, ◌≡◌, refl, ◌⊎◌, inl, inr, none, some, List, [], ◌∷◌, ◌++◌, arith, All, str_eq,
  Bool-cases,
}
use rackspace_monitoring_pol.Base.Dict.{Dict, lookup, delete, string_eq, lookup-delete}
use rackspace_monitoring_pol.Scheduler.{Scheduler, Running, reset, reset_checks, cancel_check}
use rackspace_monitoring_pol.Scheduler.Owned.{
  IsCancelled, WellFormed, IsCancelled-before, IsCancelled-now, All-weaken,
}

-- Owned, as seen by a reset that has still to drop the checks of `m`.
abbrev LeftTo : Dict String Running → List ℕ → Running → Type 0
LeftTo m cancelled r = (lookup r.check.check_in.id m ≡ some r) ⊎ IsCancelled cancelled r.serial

LeftTo-step :
    (id : String) (r x : Running) (m : Dict String Running) (cancelled : List ℕ)
    → LeftTo ((id, r) ∷ m) cancelled x
    → LeftTo m (cancelled ++ r.serial ∷ []) x
unfolding lookup
LeftTo-step id r x m cancelled (inr c) =
    inr (IsCancelled-before cancelled (r.serial ∷ []) x.serial c)
LeftTo-step id r x m cancelled (inl f) = elim (Bool-cases (str_eq id x.check.check_in.id)) [
  | inl same ↦ inr (
      subst (λ y. IsCancelled (cancelled ++ r.serial ∷ []) y.serial) (some_inj.0 (rw same at f))
        (IsCancelled-now cancelled r.serial))
  | inr other ↦ inl (rw other at f)
]

LeftTo-nil :
    (cancelled : List ℕ) (x : Running) → LeftTo [] cancelled x → IsCancelled cancelled x.serial
unfolding lookup
LeftTo-nil cancelled x (inl f) = cc
LeftTo-nil cancelled x (inr c) = c

reset_checks-cancels :
    (m : Dict String Running) (s : Scheduler)
    → All (LeftTo m s.cancelled) s.loops
    → let s' = reset_checks m s in All (λ r. IsCancelled s'.cancelled r.serial) s'.loops
unfolding reset_checks
reset_checks-cancels [] s h = All-weaken _ _ s.loops (LeftTo-nil s.cancelled) h
reset_checks-cancels ((id, r) ∷ m) s h =
    reset_checks-cancels m (cancel_check r (record s { checks = delete id s.checks }))
      (All-weaken _ _ s.loops (λ x. LeftTo-step id r x m s.cancelled) h)

reset_checks-lookup :
    (m : Dict String Running) (s : Scheduler) (k : String)
    → lookup k (reset_checks m s).checks
      ≡ (elim (lookup k m) [ none ↦ lookup k s.checks | some r ↦ none ])
unfolding reset_checks lookup
reset_checks-lookup [] s k = refl
reset_checks-lookup ((id, r) ∷ m) s k =
    let s' : Scheduler = cancel_check r (record s { checks = delete id s.checks }) in
    ground (arith, reset_checks-lookup m s' k, lookup-delete id k s.checks)

-- After a reset of a scheduler as above, no check is scheduled, and every timer loop that was ever
-- started is cancelled.
pub reset-cancels :
    (s : Scheduler)
    → WellFormed s
    → ((k : String) → lookup k (reset s).checks ≡ none)
      × All (λ r. IsCancelled (reset s).cancelled r.serial) (reset s).loops
unfolding reset
reset-cancels s w =
    (λ k. ground (arith, reset_checks-lookup s.checks s k), reset_checks-cancels s.checks s w.1)
