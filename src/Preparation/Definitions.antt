-- ===== src/Preparation/Definitions.antt =====
-- What the definitions of a block make of the declared checks, and when Validate passes
-- (poller/checks_preparation.go).
use mathlib.Core.Option.{some_inj}
use rackspace_monitoring_pol.Base.{
  String, ◌≡◌, ◌≢◌, ◌↔◌, refl, sym, ap, ◌∙◌, Bool, true, false, ◌||◌, Option, none, some, List, [],
  ◌∷◌, map, arith, str_eq, eq_iff, if◌then◌else◌, Bool-cases, Option-cases, inl, inr,
}
use rackspace_monitoring_pol.Base.Int.{ℤ}
use rackspace_monitoring_pol.Base.Dict.{Dict, lookup, lookup-insert, string_eq}
use rackspace_monitoring_pol.Base.Dict.Unique.{
  Unique, insert-Unique, Entries, Entries-lookup, lookup-Entries,
}
use rackspace_monitoring_pol.Base.Outcome.{ok}
use rackspace_monitoring_pol.Protocol.Checks.{CheckIn}
use rackspace_monitoring_pol.Preparation.{
  unknown, ActionableCheck, ChecksPreparation, undeclared, define, define_all, add_definitions,
  check_action, validate_actions, validate, version_applies,
}

-- Whether a block defines a check.
abbrev pub defines : String → List CheckIn → Bool
defines k [] = false
defines k (ch ∷ chs) = str_eq ch.id k || defines k chs

abbrev pub defined : CheckIn → Option ActionableCheck → ActionableCheck
defined ch none = undeclared
defined ch (some ac) = record ac { populated = true; check_in = ch }

pub lookup-define :
    (ch : CheckIn) (k : String) (m : Dict String ActionableCheck)
    → lookup k (define ch m)
      ≡ (if str_eq ch.id k then some (defined ch (lookup ch.id m)) else lookup k m)
unfolding define
lookup-define ch k m = elim (Option-cases (lookup ch.id m)) [
  | inl e ↦ rw (e, define) (lookup-insert ch.id k undeclared m)
  | inr (ac, e) ↦ rw (e, define) (lookup-insert ch.id k (defined ch (some ac)) m)
]

-- How an entry looks before and after a block that defines its check, or does not.
abbrev pub Tracks : Option ActionableCheck → Bool → Option ActionableCheck → Type 0
Tracks none false o = o ≡ none
Tracks none true o = (ac : ActionableCheck) × (o ≡ some ac) × (ac.action ≡ unknown)
Tracks (some b) d o =
    (ac : ActionableCheck) × (o ≡ some ac)
    × (ac.action ≡ b.action)
    × (ac.populated ≡ (b.populated || d))

-- An entry that Validate lets pass.
abbrev pub IsReady : String → ActionableCheck → Type 0
IsReady k ac = (ac.action ≢ unknown) × (ac.populated ≡ true)

check_action-IsReady :
    (k : String) (ac : ActionableCheck) → (check_action k ac ≡ none) ↔ IsReady k ac
check_action-IsReady k ac = (λ h. ground arith, λ h. ground arith)

validate_actions-IsReady :
    (m : Dict String ActionableCheck) → (validate_actions m ≡ none) ↔ Entries IsReady m
unfolding validate_actions
validate_actions-IsReady [] = (λ h. tt, λ h. refl)
validate_actions-IsReady ((k, ac) ∷ m) = elim (Option-cases (check_action k ac)) [
  | inl e ↦
      rw (e, validate_actions)
        (
          λ h. ((check_action-IsReady k ac).0 e, (validate_actions-IsReady m).0 h),
          λ h. (validate_actions-IsReady m).1 h.1,
        )
  | inr (x, e) ↦ rw (e, validate_actions) (λ h. cc, λ h. cc (e, (check_action-IsReady k ac).1 h.0))
]

-- Validate passes exactly when the version is the preparation's, and every entry was declared by
-- the manifest and is populated.
pub validate-IsReady :
    (cp : ChecksPreparation) (v : ℤ)
    → (validate cp v ≡ none) ↔ ((version_applies (some cp) v ≡ true) × Entries IsReady cp.actions)
unfolding validate
validate-IsReady cp v = elim (Bool-cases (version_applies (some cp) v)) [
  | inl e ↦ rw e (
    λ h. (refl, (validate_actions-IsReady cp.actions).0 h),
    λ h. (validate_actions-IsReady cp.actions).1 h.1,
  )
  | inr e ↦ rw e (λ h. cc, λ h. cc h.0)
]

Tracks-defined :
    (ch : CheckIn) (b : Option ActionableCheck) (d : Bool) (o : Option ActionableCheck)
    → Tracks (some (defined ch b)) d o
    → Tracks b true o
Tracks-defined ch none d o t = (t.0, t.1, t.2)
Tracks-defined ch (some ac) d o t = (t.0, t.1, t.2, ground (arith, t.3))

Tracks-same : (b : Option ActionableCheck) → Tracks b false b
Tracks-same none = refl
Tracks-same (some ac) = (ac, refl, refl, ground arith)

-- What tracked the state after one definition tracks the state before it.
Tracks-define :
    (ch : CheckIn) (k : String) (d : Bool) (m : Dict String ActionableCheck)
    (o : Option ActionableCheck)
    → Tracks (lookup k (define ch m)) d o
    → Tracks (lookup k m) (str_eq ch.id k || d) o
Tracks-define ch k d m o t = elim (Bool-cases (str_eq ch.id k)) [
  | inl same ↦ rw same (
      Tracks-defined ch (lookup k m) d o
        (rw (lookup-define ch k m, same, ap (λ i. lookup i m) ((eq_iff ch.id k).0 same)) at t))
  | inr other ↦ rw other (rw (lookup-define ch k m, other) at t)
]

define-Unique : (ch : CheckIn) (m : Dict String ActionableCheck) → Unique m → Unique (define ch m)
unfolding define
define-Unique ch m u = elim (Option-cases (lookup ch.id m)) [
  | inl e ↦ rw (e, define) (insert-Unique ch.id undeclared m u)
  | inr (ac, e) ↦ rw (e, define) (insert-Unique ch.id (defined ch (some ac)) m u)
]

-- A block without null entries: it never panics, and every entry is tracked.
pub define_all-Tracks :
    (chs : List CheckIn) (m : Dict String ActionableCheck)
    → Unique m
    → (m' : Dict String ActionableCheck) × (define_all (map some chs) m ≡ ok m')
      × Unique m'
      × ((k : String) → Tracks (lookup k m) (defines k chs) (lookup k m'))
unfolding define_all
define_all-Tracks [] m u = (m, refl, u, λ k. Tracks-same (lookup k m))
define_all-Tracks (ch ∷ chs) m u =
    let r = define_all-Tracks chs (define ch m) (define-Unique ch m u) in
    (r.0, r.1, r.2, λ k. Tracks-define ch k (defines k chs) m (lookup k r.0) (r.3 k))

-- A check is settled if its entry will be ready once the block has been added.
abbrev pub IsSettled : Option ActionableCheck → Bool → Type 0
IsSettled none d = d ≡ false
IsSettled (some ac) d = (ac.action ≢ unknown) × ((ac.populated || d) ≡ true)

settled-IsReady :
    (k : String) (b : Option ActionableCheck) (d : Bool) (o : Option ActionableCheck)
    → Tracks b d o
    → IsSettled b d
    → (ac : ActionableCheck) → o ≡ some ac
    → IsReady k ac
settled-IsReady k none false o t s ac e = cc
settled-IsReady k none true o t s ac e = cc
settled-IsReady k (some b) d o t s ac e =
    let same : t.0 ≡ ac = some_inj.0 (sym t.1 ∙ e) in
    (
      λ u. s.0 (sym t.2 ∙ ap (λ (a : ActionableCheck). a.action) same ∙ u),
      sym (ap (λ (a : ActionableCheck). a.populated) same) ∙ t.3 ∙ s.1,
    )

ready-IsSettled :
    (k : String) (b : Option ActionableCheck) (d : Bool) (o : Option ActionableCheck)
    → Tracks b d o
    → ((ac : ActionableCheck) → o ≡ some ac → IsReady k ac)
    → IsSettled b d
ready-IsSettled k none false o t r = refl
ready-IsSettled k none true o t r = absurd ((r t.0 t.1).0 t.2)
ready-IsSettled k (some b) d o t r =
    let ready = r t.0 t.1 in (λ u. ready.0 (t.2 ∙ u), sym t.3 ∙ ready.1)

-- After a block has been added, Validate at the preparation's own version passes exactly when every
-- check is settled: a check with an entry was declared by the manifest and is populated already or
-- defined by the block, and a check with no entry is not defined by the block.
pub validate-add_definitions :
    (cp : ChecksPreparation) (chs : List CheckIn)
    → Unique cp.actions
    → (cp' : ChecksPreparation) × (add_definitions cp (map some chs) ≡ ok cp')
      × ((validate cp' cp.version ≡ none)
          ↔ ((k : String) → IsSettled (lookup k cp.actions) (defines k chs)))
unfolding add_definitions
validate-add_definitions cp chs u =
    let r = define_all-Tracks chs cp.actions u in
    let cp' : ChecksPreparation = record cp { actions = r.0 } in
    (
      cp',
      rw (r.1),
      (
        λ v k.
            ready-IsSettled k (lookup k cp.actions) (defines k chs) (lookup k r.0) (r.3 k)
              (Entries-lookup IsReady r.0 ((validate-IsReady cp' cp.version).0 v).1 k),
        λ s. (validate-IsReady cp' cp.version).1 (
          ground arith,
          lookup-Entries IsReady r.0 r.2 (λ k.
              settled-IsReady k (lookup k cp.actions) (defines k chs) (lookup k r.0) (r.3 k) (s k)),
        ),
      ),
    )
