-- ===== src/Session/Loop.antt =====
-- runFrameHandlingAndTimeout of poller/session.go: each frame to its handler, and the two timers.
use rackspace_monitoring_pol.Base.{
  String, Option, none, some, List, [], ◌∷◌, ◌++◌, str_eq, if◌then◌else◌,
}
use rackspace_monitoring_pol.Base.Outcome.{Outcome, ok, ◌>>=◌}
use rackspace_monitoring_pol.Protocol.Frame.{FrameMsg}
use rackspace_monitoring_pol.Protocol.Methods.{
  method_empty, method_host_info_get, method_poller_prepare, method_poller_prepare_block,
  method_poller_prepare_end, method_poller_commit, method_check_test,
}
use rackspace_monitoring_pol.Preparation.{ChecksPreparation}
use rackspace_monitoring_pol.Session.State.{
  Session, Timer, running, fired, stopped, read_error, with_prep,
}
use rackspace_monitoring_pol.Session.Exchange.{handle_response}
use rackspace_monitoring_pol.Session.Prepare.{
  handle_poller_prepare, handle_poller_prepare_block, handle_poller_prepare_end,
  handle_poller_commit, prepare_to_end_expired,
}

-- An error of a frame is reported, and the loop goes on.
unfoldable pub report : FrameMsg → Session × Option String → Session
report f (s, none) = s
report f (s, some e) = record s { events = s.events ++ read_error f e ∷ [] }

-- `go s.handleHostInfo(f)`, `go s.handleCheckTest(f)`: the goroutines that the session starts.
abbrev pub spawn : FrameMsg → Session → Session
spawn f s = record s { spawned = s.spawned ++ f ∷ [] }

pub data Method : Type 0 where
  empty host_info prepare prepare_block prepare_end commit check_test other : Method

-- The cases of the switch of handleFrame.
unfoldable pub method_of : String → Method
method_of m =
    if str_eq m method_empty
    then empty
    else if str_eq m method_host_info_get
    then host_info
    else if str_eq m method_poller_prepare
    then prepare
    else if str_eq m method_poller_prepare_block
    then prepare_block
    else if str_eq m method_poller_prepare_end
    then prepare_end
    else if str_eq m method_poller_commit
    then commit
    else if str_eq m method_check_test
    then check_test
    else other

module _ (validate_checks : ChecksPreparation → Option String) where
  unfoldable pub dispatch : Method → FrameMsg → Session → Outcome Session
  unfolding report
  dispatch empty f s = do r ← handle_response f s; ok (report f r)
  dispatch host_info f s = ok (spawn f s)
  dispatch prepare f s = handle_poller_prepare validate_checks f s
  dispatch prepare_block f s = handle_poller_prepare_block f s
  dispatch prepare_end f s = handle_poller_prepare_end f s
  dispatch commit f s = handle_poller_commit f s
  dispatch check_test f s = ok (spawn f s)
  dispatch other f s = ok s

  -- handleFrame, with the report of its error
  unfoldable pub handle_frame : FrameMsg → Session → Outcome Session
  unfolding dispatch method_of
  handle_frame f s = dispatch (method_of f.method) f s

  -- The frames that the server sends, one after the other.
  unfoldable pub handle_frames : List FrameMsg → Session → Outcome Session
  unfolding handle_frame
  handle_frames [] s = ok s
  handle_frames (f ∷ fs) s = do s' ← handle_frame f s; handle_frames fs s'

abbrev pub fire : Option Timer → Option Timer
fire (some running) = some fired
fire t = t

-- Time passes: the prepare-to-end timer goes off.
unfoldable pub timer_fires : Session → Session
timer_fires s =
    with_prep s (record s.prep { prepare_to_end_timer = fire s.prep.prepare_to_end_timer })

-- The loop takes the tick of the timer, if there is one.
unfoldable pub take_tick : Session → Outcome Session
unfolding prepare_to_end_expired
take_tick s = elim s.prep.prepare_to_end_timer [
  | none ↦ ok s
  | some t ↦ elim t [ running ↦ ok s | fired ↦ prepare_to_end_expired s | stopped ↦ ok s ]
]
