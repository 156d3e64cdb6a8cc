-- ===== src/Handover/Entered.antt =====
-- The entries that the agent's manifest and blocks (endpoint/agent.go) make in a preparation
-- (poller/checks_preparation.go).
use rackspace_monitoring_pol.Base.{
  String, ◌≡◌, refl, sym, ap, ◌∙◌, Bool, Bool-cases, inl, inr, true, false, Option, none, some,
  List, [], ◌∷◌, ◌++◌, map, str_eq, eq_iff, if◌then◌else◌,
}
use rackspace_monitoring_pol.Base.Dict.{Dict, lookup, string_eq}
use rackspace_monitoring_pol.Protocol.Checks.{CheckIn}
use rackspace_monitoring_pol.Protocol.Methods.{prepare_action_start, prepare_action_restart}
use rackspace_monitoring_pol.Preparation.{
  ActionableCheck, start, restart, define, map_to_action_type, actionable_of,
}
use rackspace_monitoring_pol.Preparation.Manifest.{declared, entry_of, or_else}
use rackspace_monitoring_pol.Preparation.Definitions.{lookup-define}
use rackspace_monitoring_pol.Agent.{new_manifest, manifest_of}
use rackspace_monitoring_pol.Handover.Declared.{declared-append, or_else-none, or_else_assoc}
use rackspace_monitoring_pol.Handover.Blocks.{define_list}

-- The last check with an id.
abbrev pub last_check : String → List CheckIn → Option CheckIn
last_check k [] = none
last_check k (ch ∷ chs) = or_else (last_check k chs) (if str_eq ch.id k then some ch else none)

last_check-append :
    (k : String) (xs ys : List CheckIn)
    → last_check k (xs ++ ys) ≡ or_else (last_check k ys) (last_check k xs)
last_check-append k [] ys = or_else-none (last_check k ys)
last_check-append k (x ∷ xs) ys =
    rw (last_check-append k xs ys) (or_else_assoc (last_check k ys) (last_check k xs) _)

-- An entry that its last definition fills in.
abbrev filled : ActionableCheck → Option CheckIn → ActionableCheck
filled ac none = ac
filled ac (some ch) = record ac { populated = true; check_in = ch }

filled-again :
    (ac : ActionableCheck) (ch : CheckIn) (o : Option CheckIn)
    → filled (filled ac (some ch)) o ≡ filled ac (or_else o (some ch))
filled-again ac ch none = refl
filled-again ac ch (some new) = refl

some_not_none : {ch : CheckIn} → some ch ≡ none → ⊥
some_not_none h = cc

both_none : (x y : Option CheckIn) → or_else x y ≡ none → (x ≡ none) × (y ≡ none)
both_none none y h = (refl, h)
both_none (some x) y h = cc

-- A check that is declared is defined by the last definition for it; one that is neither declared
-- nor defined has no entry.
lookup-define_list :
    (k : String) (chs : List CheckIn) (m : Dict String ActionableCheck) (ac : ActionableCheck)
    → lookup k m ≡ some ac
    → lookup k (define_list chs m) ≡ some (filled ac (last_check k chs))
lookup-define_list k [] m ac h = h
lookup-define_list k (ch ∷ chs) m ac h = elim (Bool-cases (str_eq ch.id k)) [
  | inl same ↦
      rw (same, sym (filled-again ac ch (last_check k chs)))
        (lookup-define_list k chs (define ch m) (filled ac (some ch))
          (rw (lookup-define ch k m, same, (eq_iff ch.id k).0 same, h) refl))
  | inr other ↦
      rw (other, sym (or_else-none (last_check k chs)))
        (lookup-define_list k chs (define ch m) ac (rw (lookup-define ch k m, other) h))
]

lookup-define_list-none :
    (k : String) (chs : List CheckIn) (m : Dict String ActionableCheck)
    → lookup k m ≡ none
    → last_check k chs ≡ none
    → lookup k (define_list chs m) ≡ none
lookup-define_list-none k [] m h l = h
lookup-define_list-none k (ch ∷ chs) m h l =
    let (rest, here) = both_none (last_check k chs) (if str_eq ch.id k then some ch else none) l in
    elim (Bool-cases (str_eq ch.id k)) [
      | inl same ↦ absurd (some_not_none (rw same at here))
      | inr other ↦
          lookup-define_list-none k chs (define ch m) (rw (lookup-define ch k m, other) h) rest
    ]

-- The entry that a line of the agent makes for its check.
abbrev line_entry : String → Option CheckIn → Option ActionableCheck
line_entry action none = none
line_entry action (some ch) = some (entry_of (new_manifest action ch))

or_else-line :
    (action : String) (ch : CheckIn) (o : Option CheckIn) (b : Bool)
    → or_else (line_entry action o) (if b then some (entry_of (new_manifest action ch)) else none)
      ≡ line_entry action (or_else o (if b then some ch else none))
or_else-line action ch none true = refl
or_else-line action ch none false = refl
or_else-line action ch (some new) b = refl

declared-lines :
    (action k : String) (chs : List CheckIn)
    → declared k (map (new_manifest action) chs) ≡ line_entry action (last_check k chs)
unfolding new_manifest
declared-lines action k [] = refl
declared-lines action k (ch ∷ chs) =
    rw (declared-lines action k chs) (or_else-line action ch (last_check k chs) (str_eq ch.id k))

-- The entry of a check, by the last check of its id to start and the last one to restart: it holds
-- that check, populated, to be restarted if there is one to restart.
abbrev pub Entered : Option CheckIn → Option CheckIn → Option ActionableCheck → Type 0
Entered none none o = o ≡ none
Entered (some ch) none o =
    (ac : ActionableCheck) × (o ≡ some ac)
    × (ac.check_in ≡ ch)
    × (ac.action ≡ start)
    × (ac.populated ≡ true)
Entered s (some ch) o =
    (ac : ActionableCheck) × (o ≡ some ac)
    × (ac.check_in ≡ ch)
    × (ac.action ≡ restart)
    × (ac.populated ≡ true)

pub define_list-Entered :
    (k : String) (to_start to_restart : List CheckIn) (m : Dict String ActionableCheck)
    → lookup k m ≡ declared k (manifest_of to_start to_restart)
    → Entered
        (last_check k to_start)
        (last_check k to_restart)
        (lookup k (define_list (to_start ++ to_restart) m))
unfolding map_to_action_type actionable_of new_manifest
define_list-Entered k to_start to_restart m h =
    entered (last_check k to_start) (last_check k to_restart) refl refl
  where
    chs : List CheckIn
    chs = to_start ++ to_restart

    known :
        (s r : Option CheckIn)
        → last_check k to_start ≡ s
        → last_check k to_restart ≡ r
        → (lookup k m
            ≡ or_else (line_entry prepare_action_restart r) (line_entry prepare_action_start s))
          × (last_check k chs ≡ or_else r s)
    known s r e f = (
      h
          ∙ declared-append k (map (new_manifest prepare_action_start) to_start)
              (map (new_manifest prepare_action_restart) to_restart)
          ∙ rw
              (
                declared-lines prepare_action_restart k to_restart,
                declared-lines prepare_action_start k to_start,
                e,
                f,
              )
              refl,
      last_check-append k to_start to_restart ∙ rw (e, f) refl,
    )

    entered :
        (s r : Option CheckIn)
        → last_check k to_start ≡ s
        → last_check k to_restart ≡ r
        → Entered s r (lookup k (define_list chs m))
    entered none none e f = let (a, b) = known none none e f in lookup-define_list-none k chs m a b
    entered (some ch) none e f =
        let (a, b) = known (some ch) none e f in
        (
          _,
          lookup-define_list k chs m (entry_of (new_manifest prepare_action_start ch)) a
              ∙ ap (λ o. some (filled (entry_of (new_manifest prepare_action_start ch)) o)) b,
          refl,
          refl,
          refl,
        )
    entered none (some ch) e f =
        let (a, b) = known none (some ch) e f in
        (
          _,
          lookup-define_list k chs m (entry_of (new_manifest prepare_action_restart ch)) a
              ∙ ap (λ o. some (filled (entry_of (new_manifest prepare_action_restart ch)) o)) b,
          refl,
          refl,
          refl,
        )
    entered (some old) (some ch) e f =
        let (a, b) = known (some old) (some ch) e f in
        (
          _,
          lookup-define_list k chs m (entry_of (new_manifest prepare_action_restart ch)) a
              ∙ ap (λ o. some (filled (entry_of (new_manifest prepare_action_restart ch)) o)) b,
          refl,
          refl,
          refl,
        )
