-- ===== src/Scheduler/Owned.antt =====
-- When a timer loop of poller/scheduler.go is accounted for, and what a new check changes about it.
use rackspace_monitoring_pol.Base.{
  ℕ, ◌+◌, String, ◌≡◌, refl, ap, ◌∙◌, ◌⊎◌, inl, inr, Bool, true, false, some, List, [], ◌∷◌, ◌++◌,
  All, All-append, str_eq, eq_iff, if◌then◌else◌, Bool-cases,
}
use rackspace_monitoring_pol.Base.Dict.{lookup, insert, string_eq, lookup-insert, ==_refl}
use rackspace_monitoring_pol.Base.Dict.Unique.{Unique, insert-Unique}
use rackspace_monitoring_pol.Check.Create.{Check}
use rackspace_monitoring_pol.Scheduler.{Scheduler, Running, register_check, cancel_check}

-- A serial was cancelled.
abbrev pub IsCancelled : List ℕ → ℕ → Type 0
IsCancelled [] n = ⊥
IsCancelled (m ∷ ms) n = (m ≡ n) ⊎ IsCancelled ms n

-- Every timer loop is that of the check which is scheduled under its id, or it was cancelled.
abbrev pub IsOwned : Scheduler → Running → Type 0
IsOwned s r = (lookup r.check.check_in.id s.checks ≡ some r) ⊎ IsCancelled s.cancelled r.serial

abbrev pub NoOrphans : Scheduler → Type 0
NoOrphans s = All (IsOwned s) s.loops

-- The checks have distinct ids.
abbrev pub WellFormed : Scheduler → Type 0
WellFormed s = Unique s.checks × NoOrphans s

pub IsCancelled-before : (ms ns : List ℕ) (n : ℕ) → IsCancelled ms n → IsCancelled (ms ++ ns) n
IsCancelled-before [] ns n h = absurd h
IsCancelled-before (m ∷ ms) ns n (inl e) = inl e
IsCancelled-before (m ∷ ms) ns n (inr h) = inr (IsCancelled-before ms ns n h)

pub IsCancelled-now : (ms : List ℕ) (n : ℕ) → IsCancelled (ms ++ n ∷ []) n
IsCancelled-now [] n = inl refl
IsCancelled-now (m ∷ ms) n = inr (IsCancelled-now ms n)

pub All-weaken {ℓ} :
    {A : Type ℓ} (P Q : A → Type 0) (xs : List A) → ((x : A) → P x → Q x) → All P xs → All Q xs
All-weaken P Q [] f h = tt
All-weaken P Q (x ∷ xs) f h = (f x h.0, All-weaken P Q xs f h.1)

pub cancel_check-IsOwned :
    (r x : Running) (s : Scheduler) → IsOwned s x → IsOwned (cancel_check r s) x
cancel_check-IsOwned r x s (inl e) = inl e
cancel_check-IsOwned r x s (inr c) = inr (IsCancelled-before s.cancelled (r.serial ∷ []) x.serial c)

-- The check that a new one would replace was cancelled.
abbrev pub Replaceable : String → Scheduler → Type 0
Replaceable id s = (r : Running) → lookup id s.checks ≡ some r → IsCancelled s.cancelled r.serial

register_check-IsOwned :
    (ch : Check) (x : Running) (s : Scheduler)
    → Replaceable ch.check_in.id s
    → IsOwned s x
    → (lookup x.check.check_in.id
          (insert ch.check_in.id (record { serial = s.next_serial; check = ch }) s.checks)
        ≡ some x)
      ⊎ IsCancelled s.cancelled x.serial
register_check-IsOwned ch x s free (inr c) = inr c
register_check-IsOwned ch x s free (inl e) =
    let new : Running = record { serial = s.next_serial; check = ch } in
    elim (Bool-cases (str_eq ch.check_in.id x.check.check_in.id)) [
      | inl same ↦ inr (free x (ap (λ i. lookup i s.checks) ((eq_iff _ _).0 same) ∙ e))
      | inr other ↦ inl (lookup-insert ch.check_in.id x.check.check_in.id new s.checks ∙ rw other e)
    ]

schedule-WellFormed :
    (disabled : Bool) (r : Running) (s : Scheduler)
    → WellFormed s
    → lookup r.check.check_in.id s.checks ≡ some r
    → WellFormed (if disabled then s else record s { loops = s.loops ++ r ∷ [] })
schedule-WellFormed true r s w e = w
schedule-WellFormed false r s w e = (w.0, All-append (IsOwned s) s.loops (r ∷ []) w.1 (inl e, tt))

pub register_check-WellFormed :
    (ch : Check) (s : Scheduler)
    → WellFormed s
    → Replaceable ch.check_in.id s
    → WellFormed (register_check ch s)
register_check-WellFormed ch s w free =
    let r : Running = record { serial = s.next_serial; check = ch } in
    let s' : Scheduler = record s {
      checks = insert ch.check_in.id r s.checks;
      next_serial = s.next_serial + 1;
    } in
    schedule-WellFormed ch.check_in.disabled r s'
      (
        insert-Unique ch.check_in.id r s.checks w.0,
        All-weaken (IsOwned s) (IsOwned s') s.loops
            (λ x owned. register_check-IsOwned ch x s free owned) w.1,
      )
      (lookup-insert ch.check_in.id ch.check_in.id r s.checks ∙ rw (==_refl ch.check_in.id) refl)

-- Before the check of an id is made.
abbrev pub Ready : String → Scheduler → Type 0
Ready id s = WellFormed s × Replaceable id s
