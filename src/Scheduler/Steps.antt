-- ===== src/Scheduler/Steps.antt =====
-- What one round of reconcile (poller/scheduler.go) does to the check of each id.
use mathlib.Core.Path.{subst}
use rackspace_monitoring_pol.Base.{
  String, ◌≡◌, ◌≢◌, refl, sym, ap, ◌∙◌, Bool, true, false, Option, none, some, arith, str_eq,
  if◌then◌else◌, Bool-cases, Option-cases, inl, inr,
}
use rackspace_monitoring_pol.Base.Dict.{Dict, lookup, string_eq, lookup-insert, ==_refl}
use rackspace_monitoring_pol.Base.Int.{pos}
use rackspace_monitoring_pol.Base.Outcome.{Outcome, ok, Returns, Returns-value, Returns-ok}
use rackspace_monitoring_pol.Preparation.{
  ActionType, unknown, start, restart, continue, ActionableCheck,
}
use rackspace_monitoring_pol.Json.{Value}
use rackspace_monitoring_pol.Protocol.Checks.{CheckIn}
use rackspace_monitoring_pol.Check.Details.{
  Details, tcp, http, ping, plugin, decode_tcp, decode_http, decode_ping, decode_plugin,
}
use rackspace_monitoring_pol.Check.Create.{Check, new_check_parsed, with_details}
use rackspace_monitoring_pol.Scheduler.{
  Scheduler, Running, initiate_check, reconcile_check, report_failure, register_check,
  restart_check, start_check, cancel_check, cancel_existing, bump,
}

abbrev pub is_started : ActionType → Bool
is_started unknown = false
is_started start = true
is_started restart = true
is_started continue = false

-- How the check of an id changes when its check is made, or cannot be made.
abbrev pub Made : Option Check → Option Running → Option Running → Type 0
Made none old new = new ≡ old
Made (some ch) old new = (r : Running) × (new ≡ some r) × (r.check ≡ ch)

-- What was made is the check that was sent.
abbrev pub Keeps : CheckIn → Option Check → Type 0
Keeps c none = Unit
Keeps c (some ch) = ch.check_in ≡ c

with_details-Returns {ℓ} :
    {D : Type ℓ} (decode : Value → Option D) (make : D → Details) (c : CheckIn)
    → c.raw_details ≢ none
    → Returns (with_details decode make c) (Keeps c)
unfolding with_details
with_details-Returns decode make c h = ground arith

new_check_parsed-Returns :
    (c : CheckIn) → c.raw_details ≢ none → Returns (new_check_parsed c) (Keeps c)
unfolding new_check_parsed
new_check_parsed-Returns c h = ground (
  arith,
  with_details-Returns decode_tcp tcp c h,
  with_details-Returns decode_http http c h,
  with_details-Returns decode_ping ping c h,
  with_details-Returns decode_plugin plugin c h,
)

with_details-Keeps {ℓ} :
    {D : Type ℓ} (decode : Value → Option D) (make : D → Details) (c : CheckIn) (o : Option Check)
    → with_details decode make c ≡ ok o
    → Keeps c o
unfolding with_details
with_details-Keeps decode make c none h = tt
with_details-Keeps decode make c (some ch) h = ground arith

either_ok {ℓ} :
    {A : Type ℓ} (b : Bool) (m n : Outcome A) (a : A) {P : Type 0}
    → (m ≡ ok a → P)
    → (n ≡ ok a → P)
    → (if b then m else n) ≡ ok a
    → P
either_ok true m n a f g h = f h
either_ok false m n a f g h = g h

pub new_check_parsed-Keeps :
    (c : CheckIn) (o : Option Check) → new_check_parsed c ≡ ok o → Keeps c o
unfolding new_check_parsed
new_check_parsed-Keeps c none h = tt
new_check_parsed-Keeps c (some ch) h =
    either_ok (str_eq c.check_type "remote.tcp") (with_details decode_tcp tcp c) _ (some ch)
      (with_details-Keeps decode_tcp tcp c (some ch))
      (either_ok (str_eq c.check_type "remote.http") (with_details decode_http http c) _ (some ch)
        (with_details-Keeps decode_http http c (some ch))
        (either_ok (str_eq c.check_type "remote.ping") (with_details decode_ping ping c) _ (some ch)
          (with_details-Keeps decode_ping ping c (some ch))
          (either_ok (str_eq c.check_type "agent.plugin") (with_details decode_plugin plugin c)
            (ok none) (some ch) (with_details-Keeps decode_plugin plugin c (some ch)) (λ e. cc))))
      h

-- The effect of a round on the check of its id.
abbrev pub EffectOf : Bool → ActionableCheck → Option Running → Option Running → Type 0
EffectOf false ac old new = new ≡ old
EffectOf true ac old new =
    (o : Option Check) × (new_check_parsed ac.check_in ≡ ok o) × Made o old new

abbrev pub Effect : ActionableCheck → Option Running → Option Running → Type 0
Effect ac = EffectOf (is_started ac.action) ac

-- The effect of a round: only the check of its id changes.
abbrev pub Round : ActionableCheck → Scheduler → Scheduler → Type 0
Round ac s s' =
    Effect ac (lookup ac.check_in.id s.checks) (lookup ac.check_in.id s'.checks)
    × ((k : String) → str_eq ac.check_in.id k ≡ false → lookup k s'.checks ≡ lookup k s.checks)

abbrev InitiatedIn : ActionableCheck → Dict String Running → Scheduler → Type 0
InitiatedIn ac checks s' =
    EffectOf true ac (lookup ac.check_in.id checks) (lookup ac.check_in.id s'.checks)
    × ((k : String) → str_eq ac.check_in.id k ≡ false → lookup k s'.checks ≡ lookup k checks)

abbrev Initiated : ActionableCheck → Scheduler → Scheduler → Type 0
Initiated ac s = InitiatedIn ac s.checks

register_check-lookup :
    (ch : Check) (s : Scheduler) (k : String)
    → lookup k (register_check ch s).checks ≡ (
        if str_eq ch.check_in.id k
        then some (record { serial = s.next_serial; check = ch })
        else lookup k s.checks)
register_check-lookup ch s k = elim (Bool-cases ch.check_in.disabled) [
  | inl e ↦ rw e (lookup-insert ch.check_in.id k _ s.checks)
  | inr e ↦ rw e (lookup-insert ch.check_in.id k _ s.checks)
]

register_check-Initiated :
    (ac : ActionableCheck) (ch : Check) (s : Scheduler)
    → new_check_parsed ac.check_in ≡ ok (some ch)
    → ch.check_in ≡ ac.check_in
    → Initiated ac s (register_check ch s)
register_check-Initiated ac ch s made same =
    let id = ap (λ (c : CheckIn). c.id) same in
    (
      (
        some ch,
        made,
        (
          record { serial = s.next_serial; check = ch },
          register_check-lookup ch s ac.check_in.id ∙ rw (id, ==_refl ac.check_in.id) refl,
          refl,
        ),
      ),
      λ k other. register_check-lookup ch s k ∙ rw (id, other) refl,
    )

Initiated-from :
    (ac : ActionableCheck) (s : Scheduler) (o : Option Check) (raw : Value)
    → ac.check_in.raw_details ≡ some raw
    → new_check_parsed ac.check_in ≡ ok o
    → Keeps ac.check_in o
    → Returns (initiate_check ac s) (Initiated ac s)
unfolding initiate_check
Initiated-from ac s none raw h e kept =
    Returns-ok (Initiated ac s) s (rw (initiate_check, e, report_failure, h) refl)
      ((none, e, refl), λ k other. refl)
Initiated-from ac s (some ch) raw h e kept =
    Returns-ok (Initiated ac s) (register_check ch s) (rw (initiate_check, e) refl)
      (register_check-Initiated ac ch s e kept)

initiate_check-Initiated :
    (ac : ActionableCheck) (s : Scheduler)
    → ac.check_in.raw_details ≢ none
    → Returns (initiate_check ac s) (Initiated ac s)
initiate_check-Initiated ac s h =
    let made = Returns-value (Keeps ac.check_in) _ (new_check_parsed-Returns ac.check_in h) in
    elim (Option-cases ac.check_in.raw_details) [
      | inl e ↦ absurd (h e)
      | inr (raw, e) ↦ Initiated-from ac s made.0 raw e made.1 made.2
    ]

-- Every check that is to be made has details.
abbrev pub HasDetails : ActionableCheck → Type 0
HasDetails ac = is_started ac.action ≡ true → ac.check_in.raw_details ≢ none

-- A start and a restart make the check after a change that leaves the checks alone.
abbrev Prepared : ActionableCheck → Scheduler → Outcome Scheduler → Type 0
Prepared ac s m = (s' : Scheduler) × (m ≡ initiate_check ac s') × (s'.checks ≡ s.checks)

cancel_existing-checks :
    (o : Option Running) (s : Scheduler) → (cancel_existing o s).checks ≡ s.checks
cancel_existing-checks none s = refl
cancel_existing-checks (some r) s = refl

restart_check-Prepared : (ac : ActionableCheck) (s : Scheduler) → Prepared ac s (restart_check ac s)
unfolding restart_check
restart_check-Prepared ac s =
    let o = lookup ac.check_in.id s.checks in
    (cancel_existing o s, refl, cancel_existing-checks o s)

start_check-Prepared : (ac : ActionableCheck) (s : Scheduler) → Prepared ac s (start_check ac s)
unfolding start_check
start_check-Prepared ac s = elim (Option-cases (lookup ac.check_in.id s.checks)) [
  | inl e ↦ (bump ac.check_in.check_type (pos 1) s, rw (start_check, e) refl, refl)
  | inr (r, e) ↦ (cancel_check r s, rw (start_check, e) refl, refl)
]

round_of :
    (t : ActionType) (ac : ActionableCheck) (s : Scheduler)
    → (is_started t ≡ true → ac.check_in.raw_details ≢ none)
    → Returns (reconcile_check t ac s) (λ s'.
      EffectOf (is_started t) ac (lookup ac.check_in.id s.checks) (lookup ac.check_in.id s'.checks)
      × ((k : String) → str_eq ac.check_in.id k ≡ false → lookup k s'.checks ≡ lookup k s.checks))
unfolding reconcile_check
round_of unknown ac s h = (refl, λ k other. refl)
round_of continue ac s h = (refl, λ k other. refl)
round_of restart ac s h =
    let r = restart_check-Prepared ac s in
    subst (λ m. Returns m (Initiated ac s)) (sym r.1)
      (subst (λ c. Returns (initiate_check ac r.0) (InitiatedIn ac c)) r.2
        (initiate_check-Initiated ac r.0 (h refl)))
round_of start ac s h =
    let r = start_check-Prepared ac s in
    subst (λ m. Returns m (Initiated ac s)) (sym r.1)
      (subst (λ c. Returns (initiate_check ac r.0) (InitiatedIn ac c)) r.2
        (initiate_check-Initiated ac r.0 (h refl)))

-- A round goes through if its check has details, and then changes the check of its id as its action
-- says, and no other.
pub reconcile_check-Round :
    (ac : ActionableCheck) (s : Scheduler)
    → HasDetails ac
    → Returns (reconcile_check ac.action ac s) (Round ac s)
reconcile_check-Round ac s h = round_of ac.action ac s h
