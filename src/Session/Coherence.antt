-- ===== src/Session/Coherence.antt =====
-- The invariant of a session's preparation (poller/session.go), and that its handlers keep it.
use rackspace_monitoring_pol.Base.{String, ◌≡◌, Bool, true, false, Option, none, some, arith}
use rackspace_monitoring_pol.Base.Outcome.{Returns}
use rackspace_monitoring_pol.Protocol.Frame.{FrameMsg}
use rackspace_monitoring_pol.Protocol.Messages.{PollerPrepareStartParams, PollerCommitParams}
use rackspace_monitoring_pol.Preparation.{ChecksPreparation}
use rackspace_monitoring_pol.Session.State.{Session, PrepDetails, Timer}
use rackspace_monitoring_pol.Session.Prepare.{start_prepare, commit_prepare}
use rackspace_monitoring_pol.Session.Loop.{take_tick}

-- Nothing is being prepared; or a preparation is active, the request that asked for it is at hand,
-- and the prepare-to-end timer exists unless the preparation has been concluded.
abbrev pub Coherent : Option ChecksPreparation → Option FrameMsg → Bool → Option Timer → Type 0
Coherent none none false none = Unit {0}
Coherent (some cp) (some f) done timer = timer ≡ none → done ≡ true
Coherent _ _ _ _ = ⊥

abbrev pub IsCoherent : PrepDetails → Type 0
IsCoherent p = Coherent p.active_prep p.src_prep_msg p.prepared p.prepare_to_end_timer

module _ (validate_checks : ChecksPreparation → Option String) where
  -- A poller.prepare always goes through in a coherent session, and leaves it coherent.
  pub start_prepare-IsCoherent :
      (f : FrameMsg) (p : PollerPrepareStartParams) (s : Session)
      → IsCoherent s.prep
      → Returns (start_prepare validate_checks f p s) (λ s'. IsCoherent s'.prep)
  unfolding start_prepare
  start_prepare-IsCoherent f p s h = ground arith

commit_prepare-IsCoherent :
    (f : FrameMsg) (p : PollerCommitParams) (s : Session)
    → IsCoherent s.prep
    → Returns (commit_prepare f p s) (λ s'. IsCoherent s'.prep)
unfolding commit_prepare
commit_prepare-IsCoherent f p s h = ground arith

-- When the prepare-to-end timer has gone off, the loop takes its tick without a crash or a hang in a
-- coherent session, and leaves it coherent.
pub take_tick-IsCoherent :
    (s : Session) → IsCoherent s.prep → Returns (take_tick s) (λ s'. IsCoherent s'.prep)
unfolding take_tick
take_tick-IsCoherent s h = ground arith
