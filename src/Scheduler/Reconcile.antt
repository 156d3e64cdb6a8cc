-- ===== src/Scheduler/Reconcile.antt =====
-- The checks after reconcile (poller/scheduler.go).
use mathlib.Core.Path.{subst}
use rackspace_monitoring_pol.Base.{
  String, ◌≡◌, ◌≢◌, refl, sym, ◌∙◌, true, false, not, ◌&&◌, Option, none, some, List, [], ◌∷◌, map,
  arith, All, str_eq, eq_iff, if◌then◌else◌, Bool-cases, Option-cases, inl, inr,
}
use rackspace_monitoring_pol.Base.Dict.{keys, lookup, delete, string_eq, lookup-delete, ==_refl}
use rackspace_monitoring_pol.Base.Dict.Unique.{Unique}
use rackspace_monitoring_pol.Base.Keys.{
  contains, without, Distinct, contains-without, without-Distinct, contains-keys, keys-Distinct,
}
use rackspace_monitoring_pol.Base.Int.{negsuc}
use rackspace_monitoring_pol.Base.Outcome.{Returns, Returns-bind, Returns-map}
use rackspace_monitoring_pol.Preparation.{ActionableCheck}
use rackspace_monitoring_pol.Scheduler.{
  Scheduler, Running, reconcile_all, remove_check, remove_all, reconcile_checks, cancel_check, bump,
}
use rackspace_monitoring_pol.Scheduler.Steps.{Effect, Round, HasDetails, reconcile_check-Round}

abbrev pub ids_of : List ActionableCheck → List String
ids_of = map λ ac. ac.check_in.id

-- The check of a preparation with a given id.
abbrev pub mention : String → List ActionableCheck → Option ActionableCheck
mention k [] = none
mention k (ac ∷ acs) = let rest = mention k acs in if str_eq ac.check_in.id k then some ac else rest

abbrev pub Changed : Option ActionableCheck → Option Running → Option Running → Type 0
Changed none old new = new ≡ old
Changed (some ac) old new = Effect ac old new

-- What the loop over the checks leaves: the checks changed as each action says, and the remainder
-- without the ids of the preparation.
abbrev Looped : List ActionableCheck → List String → Scheduler → List String × Scheduler → Type 0
Looped acs remainder s r =
    ((k : String) → Changed (mention k acs) (lookup k s.checks) (lookup k r.1.checks))
    × ((k : String) → contains r.0 k ≡ (contains remainder k && not (contains (ids_of acs) k)))
    × Distinct r.0

mention-none :
    (k : String) (acs : List ActionableCheck)
    → contains (ids_of acs) k ≡ false
    → mention k acs ≡ none
mention-none k [] h = refl
mention-none k (ac ∷ acs) h = elim (Bool-cases (str_eq ac.check_in.id k)) [
  | inl e ↦ cc (rw e at h)
  | inr e ↦ rw e (mention-none k acs (rw e at h))
]

Looped-cons :
    (ac : ActionableCheck) (acs : List ActionableCheck) (remainder : List String) (s s' : Scheduler)
    (r : List String × Scheduler)
    → contains (ids_of acs) ac.check_in.id ≡ false
    → Round ac s s'
    → Looped acs (without ac.check_in.id remainder) s' r
    → Looped (ac ∷ acs) remainder s r
Looped-cons ac acs remainder s s' r fresh round looped =
    let id = ac.check_in.id in
    let untouched : lookup id r.1.checks ≡ lookup id s'.checks =
      subst (λ o. Changed o (lookup id s'.checks) (lookup id r.1.checks))
        (mention-none id acs fresh) (looped.0 id) in
    (
      λ k. elim (Bool-cases (str_eq id k)) [
        | inl e ↦
            subst (λ j. Changed (mention j (ac ∷ acs)) (lookup j s.checks) (lookup j r.1.checks))
              ((eq_iff id k).0 e)
              (rw (==_refl id)
                (subst (λ o. Effect ac (lookup id s.checks) o) (sym untouched) round.0))
        | inr other ↦ rw other (
            subst (λ o. Changed (mention k acs) o (lookup k r.1.checks)) (round.1 k other)
              (looped.0 k))
      ],
      λ k. ground (arith, looped.1 k, contains-without id k remainder),
      looped.2,
    )

reconcile_all-Looped :
    (acs : List ActionableCheck) (remainder : List String) (s : Scheduler)
    → Distinct (ids_of acs)
    → All HasDetails acs
    → Distinct remainder
    → Returns (reconcile_all acs remainder s) (Looped acs remainder s)
unfolding reconcile_all
reconcile_all-Looped [] remainder s d h u = (λ k. refl, λ k. ground arith, u)
reconcile_all-Looped (ac ∷ acs) remainder s d h u =
    Returns-bind (Round ac s) (Looped (ac ∷ acs) remainder s) _ _ (reconcile_check-Round ac s h.0)
      (λ s' round.
        Returns-map _ (λ r looped. Looped-cons ac acs remainder s s' r d.0 round looped)
          (reconcile_all-Looped acs (without ac.check_in.id remainder) s' d.1 h.1
            (without-Distinct ac.check_in.id remainder u)))

-- Some checks were removed, and no others.
abbrev Removed : List String → Scheduler → Scheduler → Type 0
Removed ids s s' =
    (k : String) → lookup k s'.checks ≡ (if contains ids k then none else lookup k s.checks)

abbrev removed_one : String → Running → Scheduler → Scheduler
removed_one id r s =
    bump r.check.check_in.check_type (negsuc 0)
      (cancel_check r (record s { checks = delete id s.checks }))

Removed-cons :
    (id : String) (ids : List String) (r : Running) (s s' : Scheduler)
    → Removed ids (removed_one id r s) s'
    → Removed (id ∷ ids) s s'
unfolding bump
Removed-cons id ids r s s' removed k = removed k ∙ ground (arith, lookup-delete id k s.checks)

still_there :
    (id : String) (ids : List String) (r : Running) (s : Scheduler)
    → contains ids id ≡ false
    → ((k : String) → contains (id ∷ ids) k ≡ true → lookup k s.checks ≢ none)
    → (k : String) → contains ids k ≡ true
    → lookup k (removed_one id r s).checks ≢ none
unfolding bump
still_there id ids r s fresh h k c =
    ground (arith, lookup-delete id k s.checks, h k, eq_iff id k, fresh, c)

remove_all-Removed :
    (ids : List String) (s : Scheduler)
    → Distinct ids
    → ((k : String) → contains ids k ≡ true → lookup k s.checks ≢ none)
    → Returns (remove_all ids s) (Removed ids s)
unfolding remove_all
remove_all-Removed [] s d h = λ k. refl
remove_all-Removed (id ∷ ids) s d h = elim (Option-cases (lookup id s.checks)) [
  | inl e ↦ absurd (h id (rw (==_refl id) refl) e)
  | inr (r, e) ↦
      rw (remove_check, e)
        (Returns-map {P = Removed ids (removed_one id r s)} {Q = Removed (id ∷ ids) s} _
          (λ s' removed. Removed-cons id ids r s s' removed)
          (remove_all-Removed ids (removed_one id r s) d.1 (still_there id ids r s d.0 h)))
]

-- The check of an id after reconcile: as the action says if the preparation mentions it, and none
-- otherwise.
abbrev pub Settled : Option ActionableCheck → Option Running → Option Running → Type 0
Settled none old new = new ≡ none
Settled (some ac) old new = Effect ac old new

abbrev pub Reconciled : List ActionableCheck → Scheduler → Scheduler → Type 0
Reconciled acs s s' =
    (k : String) → Settled (mention k acs) (lookup k s.checks) (lookup k s'.checks)

mention-some :
    (k : String) (acs : List ActionableCheck)
    → contains (ids_of acs) k ≡ true
    → (ac : ActionableCheck) × (mention k acs ≡ some ac)
mention-some k [] h = cc
mention-some k (ac ∷ acs) h = elim (Bool-cases (str_eq ac.check_in.id k)) [
  | inl e ↦ (ac, rw e refl)
  | inr e ↦ rw e (mention-some k acs (rw e at h))
]

-- What is not mentioned is left alone by the loop.
Looped-unmentioned :
    (acs : List ActionableCheck) (remainder : List String) (s : Scheduler)
    (r : List String × Scheduler)
    → Looped acs remainder s r
    → (k : String) → contains (ids_of acs) k ≡ false
    → lookup k r.1.checks ≡ lookup k s.checks
Looped-unmentioned acs remainder s r looped k c =
    subst (λ o. Changed o (lookup k s.checks) (lookup k r.1.checks)) (mention-none k acs c)
      (looped.0 k)

-- What is left of the remainder is still there.
Looped-known :
    (acs : List ActionableCheck) (s : Scheduler) (r : List String × Scheduler)
    → Looped acs (keys s.checks) s r
    → (k : String) → contains r.0 k ≡ true
    → lookup k r.1.checks ≢ none
Looped-known acs s r looped k c e = elim (Bool-cases (contains (ids_of acs) k)) [
  | inl m ↦ ground (arith, looped.1 k, c, m)
  | inr m ↦
      let same = Looped-unmentioned acs (keys s.checks) s r looped k m in
      let there = contains-keys k s.checks in
      let gone : contains (keys s.checks) k ≡ false = there ∙ rw (sym same ∙ e) refl in
      ground (arith, looped.1 k, c, m, gone)
]

Reconciled-from :
    (acs : List ActionableCheck) (s s' : Scheduler) (r : List String × Scheduler)
    → Looped acs (keys s.checks) s r
    → Removed r.0 r.1 s'
    → Reconciled acs s s'
Reconciled-from acs s s' r looped removed k = elim (Bool-cases (contains (ids_of acs) k)) [
  | inl m ↦
      let ac = mention-some k acs m in
      let kept : lookup k s'.checks ≡ lookup k r.1.checks =
        ground (arith, removed k, looped.1 k, m) in
      rw ac.1 (
        subst (λ o. Effect ac.0 (lookup k s.checks) o) (sym kept)
          (subst (λ o. Changed o (lookup k s.checks) (lookup k r.1.checks)) ac.1 (looped.0 k)))
  | inr m ↦
      let same = Looped-unmentioned acs (keys s.checks) s r looped k m in
      rw (mention-none k acs m) (elim (Option-cases (lookup k s.checks)) [
        | inl e ↦ ground (arith, removed k, same, e)
        | inr (x, e) ↦
            let there : contains (keys s.checks) k ≡ true = contains-keys k s.checks ∙ rw e refl in
            ground (arith, removed k, looped.1 k, m, there)
      ])
]

-- The checks of a preparation have distinct ids, and those to be started or restarted have details.
-- Then reconcile goes through, whatever the order of the iteration: a check that the preparation
-- mentions changes as its action says (what was made for a start or a restart replaces it; if it
-- cannot be made, and for any other action, it stays), and every other check is removed.
pub reconcile_checks-Reconciled :
    (acs : List ActionableCheck) (s : Scheduler)
    → Unique s.checks
    → Distinct (ids_of acs)
    → All HasDetails acs
    → Returns (reconcile_checks acs s) (Reconciled acs s)
unfolding reconcile_checks
reconcile_checks-Reconciled acs s u d h =
    Returns-bind (Looped acs (keys s.checks) s) (Reconciled acs s) _ _
      (reconcile_all-Looped acs (keys s.checks) s d h (keys-Distinct s.checks u))
      (λ r looped.
        Returns-map {P = Removed r.0 r.1} {Q = Reconciled acs s} _
          (λ s' removed. Reconciled-from acs s s' r looped removed)
          (remove_all-Removed r.0 r.1 looped.2 (Looped-known acs s r looped)))
