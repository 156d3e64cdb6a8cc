-- ===== src/Session/Crashes.antt =====
-- When the prepare handlers of poller/session.go crash or hang.
use rackspace_monitoring_pol.Base.{◌≡◌, ◌↔◌, ◌⊎◌, true, false, Option, none, some, arith, str_eq}
use rackspace_monitoring_pol.Base.Int.{ℤ}
use rackspace_monitoring_pol.Base.Dict.{Dict}
use rackspace_monitoring_pol.Base.Outcome.{Outcome, panic, blocked, Returns}
use rackspace_monitoring_pol.Protocol.Frame.{FrameMsg}
use rackspace_monitoring_pol.Protocol.Messages.{PollerPrepareEndParams}
use rackspace_monitoring_pol.Protocol.Methods.{prepare_directive_abort, prepare_directive_prepare}
use rackspace_monitoring_pol.Preparation.{ChecksPreparation, validate}
use rackspace_monitoring_pol.Session.State.{Session, Timer, running, stopped}
use rackspace_monitoring_pol.Session.Prepare.{end_prepare}
use rackspace_monitoring_pol.Session.Coherence.{IsCoherent}

-- A preparation is active that passes Validate.
abbrev pub Concludes : Option ChecksPreparation → ℤ → Type 0
Concludes none v = ⊥
Concludes (some cp) v = validate cp v ≡ none

-- What makes handlePollerPrepareEnd dereference a nil pointer: an abort or an unknown directive
-- with nothing in preparation, or a second end of a valid preparation.
abbrev pub EndCrash : PollerPrepareEndParams → Session → Type 0
EndCrash p s =
    ((s.prep.active_prep ≡ none)
      × ((str_eq p.directive prepare_directive_abort ≡ true)
          ⊎ (str_eq p.directive prepare_directive_prepare ≡ false)))
    ⊎ ((str_eq p.directive prepare_directive_abort ≡ false)
        × (str_eq p.directive prepare_directive_prepare ≡ true)
        × (s.prep.prepare_to_end_timer ≡ none)
        × Concludes s.prep.active_prep p.version)

-- handlePollerPrepareEnd crashes the poller exactly when: nothing is in preparation and the directive
-- is not "prepare"; or the directive is "prepare", the active preparation passes Validate, and its
-- timer is gone because it has been concluded before.
pub end_prepare_crash :
    (f : FrameMsg) (p : PollerPrepareEndParams) (s : Session)
    → IsCoherent s.prep
    → (end_prepare f p s ≡ panic) ↔ EndCrash p s
unfolding end_prepare
end_prepare_crash f p s h = (λ e. ground arith, λ c. ground arith)

-- In every other case handlePollerPrepareEnd goes through, and keeps the preparation coherent.
pub end_prepare-IsCoherent :
    (f : FrameMsg) (p : PollerPrepareEndParams) (s : Session)
    → IsCoherent s.prep
    → ¬ EndCrash p s
    → Returns (end_prepare f p s) (λ s'. IsCoherent s'.prep)
unfolding end_prepare
end_prepare-IsCoherent f p s h c = ground arith

-- What becomes of a block for the active preparation, by the state of the prepare-to-end timer.
abbrev pub BlockOutcome : Option Timer → Outcome Session → Type 0
BlockOutcome none o = o ≡ panic
BlockOutcome (some stopped) o = o ≡ blocked
BlockOutcome (some t) o =
    Returns o (λ s'. IsCoherent s'.prep × (s'.prep.prepare_to_end_timer ≡ some running))
