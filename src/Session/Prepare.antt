-- ===== src/Session/Prepare.antt =====
-- The prepare and commit handlers of poller/session.go.
use Prim.Native.String.{◌++◌ as text_append}
use rackspace_monitoring_pol.Base.{
  String, true, Option, none, some, List, [], ◌∷◌, ◌++◌, str_eq, if◌then◌else◌,
}
use rackspace_monitoring_pol.Base.Int.{ℤ, leb_ℤ}
use rackspace_monitoring_pol.Base.Outcome.{Outcome, ok, panic, ◌>>=◌}
use rackspace_monitoring_pol.Protocol.Frame.{FrameMsg, respond_to}
use rackspace_monitoring_pol.Protocol.Checks.{CheckIn}
use rackspace_monitoring_pol.Protocol.Messages.{
  PollerPrepareStartParams, PollerPrepareBlockParams, PollerPrepareEndParams, PollerPrepareResult,
  PollerCommitParams, decode_prepare_start, decode_prepare_block, decode_prepare_end, decode_commit,
  encode_prepare_result,
}
use rackspace_monitoring_pol.Protocol.Methods.{
  prepare_directive_prepare, prepare_directive_abort, prepare_result_status_prepared,
  prepare_result_status_aborted, prepare_result_status_failed, prepare_result_status_ignored,
  prepare_result_status_committed,
}
use rackspace_monitoring_pol.Preparation.{
  ChecksPreparation, PrepError, unsupported_action, wrong_version, not_declared, not_defined,
  prepared, refused, new_checks_preparation, add_definitions, validate, version_applies, is_newer,
  is_older,
}
use rackspace_monitoring_pol.Session.State.{Session, Timer, running, stop, rearm, clear, with_prep}
use rackspace_monitoring_pol.Session.Exchange.{respond}

-- The text of an error of checks_preparation.go.
pub error_text : PrepError → String
error_text (unsupported_action m) =
    text_append "Unsupported action in manifest: action="
      (text_append m.action (text_append ", check=" m.id))
error_text wrong_version = "Wrong version"
error_text (not_declared id) = text_append "Check defined but not declared in manifest. check=" id
error_text (not_defined id) = text_append "Check declared in manifest but not defined. check=" id

abbrev pub result_of : String → ℤ → String → String → PollerPrepareResult
result_of zone version status details = record {
  zone_id = zone;
  version = version;
  status = status;
  details = details;
}

-- NewPollerPrepareResponse (and NewPollerPrepareCommitResponse) for a request, and its sending. A
-- nil request is a panic.
unfoldable pub answer : Option FrameMsg → PollerPrepareResult → Session → Outcome Session
unfolding respond_to respond
answer f result s = do
  resp ← respond_to f
  ok (respond (record resp { raw_result = some (encode_prepare_result result) }) s)

abbrev pub stop_ptr : Option Timer → Option Timer
stop_ptr none = none
stop_ptr (some t) = some (stop t)

-- The server is told that the active preparation is replaced, and its timer is stopped.
unfoldable pub replace_active : ChecksPreparation → Session → Outcome Session
unfolding answer
replace_active cp s = do
  s' ←
      answer s.prep.src_prep_msg
        (result_of cp.zone_id cp.version prepare_result_status_ignored
          "Request supercedes a previous preparation")
        s
  ok (
      with_prep s'
        (record s'.prep { prepare_to_end_timer = stop_ptr s'.prep.prepare_to_end_timer }))

-- A newer version replaces the active preparation.
unfoldable pub supersede : ℤ → Session → Outcome Session
unfolding replace_active
supersede version s = elim s.prep.active_prep [
  | none ↦ ok s
  | some cp ↦ if is_newer (some cp) version then replace_active cp s else ok s
]

module _ (validate_checks : ChecksPreparation → Option String) where
  -- The last part of handlePollerPrepare: the preparation is made, checked by the reconciler, and
  -- becomes the active one.
  unfoldable pub accept_preparation :
      FrameMsg → PollerPrepareStartParams → Session → Outcome Session
  unfolding answer error_text
  accept_preparation f p s = elim (new_checks_preparation p.zone_id p.version p.manifest) [
    | refused e ↦
        answer (some f) (result_of p.zone_id p.version prepare_result_status_failed (error_text e))
          s
    | prepared cp ↦ elim (validate_checks cp) [
      | some e ↦ answer (some f) (result_of p.zone_id p.version prepare_result_status_failed e) s
      | none ↦ ok (
          with_prep s (record s.prep {
            prepare_to_end_timer = some running;
            src_prep_msg = some f;
            active_prep = some cp;
          }))
    ]
  ]

  unfoldable pub start_prepare : FrameMsg → PollerPrepareStartParams → Session → Outcome Session
  unfolding answer supersede accept_preparation
  start_prepare f p s =
      if leb_ℤ p.version s.prep.newest_committed_version
      then answer (some f)
          (result_of p.zone_id p.version prepare_result_status_ignored
            "Request contains version older than newest committed version")
          s
      else if is_older s.prep.active_prep p.version
      then answer (some f)
          (result_of p.zone_id p.version prepare_result_status_ignored
            "Request contains version older than active preparation")
          s
      else do s' ← supersede p.version s; accept_preparation f p s'

  unfoldable pub handle_poller_prepare : FrameMsg → Session → Outcome Session
  unfolding start_prepare decode_prepare_start
  handle_poller_prepare f s = start_prepare f (decode_prepare_start f.raw_params) s

unfoldable pub add_block : ChecksPreparation → List (Option CheckIn) → Session → Outcome Session
unfolding rearm add_definitions
add_block cp block s = do
  cp' ← add_definitions cp block
  t ← rearm s.prep.prepare_to_end_timer
  ok (with_prep s (record s.prep { active_prep = some cp'; prepare_to_end_timer = some t }))

unfoldable pub block_prepare : PollerPrepareBlockParams → Session → Outcome Session
unfolding add_block
block_prepare p s = elim s.prep.active_prep [
  | none ↦ ok s
  | some cp ↦ if version_applies (some cp) p.version then add_block cp p.block s else ok s
]

unfoldable pub handle_poller_prepare_block : FrameMsg → Session → Outcome Session
unfolding block_prepare decode_prepare_block
handle_poller_prepare_block f s = block_prepare (decode_prepare_block f.raw_params) s

-- The end of a preparation that has passed its validation.
unfoldable pub conclude_prepare : ChecksPreparation → ℤ → Session → Outcome Session
unfolding answer
conclude_prepare cp version s = elim s.prep.prepare_to_end_timer [
  | none ↦ panic
  | some t ↦
      answer s.prep.src_prep_msg (result_of cp.zone_id version prepare_result_status_prepared "")
        (with_prep s (record s.prep { prepared = true; prepare_to_end_timer = none }))
]

unfoldable pub abort_prepare : PollerPrepareEndParams → Session → Outcome Session
unfolding answer clear
abort_prepare p s = do
  s' ←
      answer s.prep.src_prep_msg
        (result_of p.zone_id p.version prepare_result_status_aborted
          "Aborting poller prepare per request of the server")
        s
  ok (with_prep s' (clear s'.prep))

unfoldable pub finish_prepare : FrameMsg → PollerPrepareEndParams → Session → Outcome Session
unfolding answer conclude_prepare validate error_text
finish_prepare f p s = elim s.prep.active_prep [
  | none ↦
      answer (some f)
        (result_of p.zone_id p.version prepare_result_status_failed "No active checks preparation")
        s
  | some cp ↦ elim (validate cp p.version) [
    | some e ↦
        answer s.prep.src_prep_msg
          (result_of p.zone_id p.version prepare_result_status_failed (error_text e)) s
    | none ↦ conclude_prepare cp p.version s
  ]
]

unfoldable pub end_prepare : FrameMsg → PollerPrepareEndParams → Session → Outcome Session
unfolding answer abort_prepare finish_prepare
end_prepare f p s =
    if str_eq p.directive prepare_directive_abort
    then abort_prepare p s
    else if str_eq p.directive prepare_directive_prepare
    then finish_prepare f p s
    else answer s.prep.src_prep_msg
        (result_of p.zone_id p.version prepare_result_status_failed
          (text_append "Unexpected directive during poller prepare end: " p.directive))
        s

unfoldable pub handle_poller_prepare_end : FrameMsg → Session → Outcome Session
unfolding end_prepare decode_prepare_end
handle_poller_prepare_end f s = end_prepare f (decode_prepare_end f.raw_params) s

-- prepDetails.commit: the reconciler is handed the preparation.
unfoldable pub commit : ChecksPreparation → Session → Session
unfolding clear
commit cp s = record s { reconciled = s.reconciled ++ cp ∷ []; prep = clear s.prep }

unfoldable pub ignore_commit : FrameMsg → PollerCommitParams → Session → Outcome Session
unfolding answer
ignore_commit f p s =
    answer (some f)
      (result_of p.zone_id p.version prepare_result_status_ignored
        "Poller commit request specified non-applicable version")
      s

unfoldable pub accept_commit :
    FrameMsg → PollerCommitParams → ChecksPreparation → Session → Outcome Session
unfolding answer commit
accept_commit f p cp s = do
  s' ← answer (some f) (result_of p.zone_id p.version prepare_result_status_committed "") s
  ok (commit cp s')

unfoldable pub commit_prepare : FrameMsg → PollerCommitParams → Session → Outcome Session
unfolding ignore_commit accept_commit
commit_prepare f p s = elim s.prep.active_prep [
  | none ↦ ignore_commit f p s
  | some cp ↦
      if version_applies (some cp) p.version then accept_commit f p cp s else ignore_commit f p s
]

unfoldable pub handle_poller_commit : FrameMsg → Session → Outcome Session
unfolding commit_prepare decode_commit
handle_poller_commit f s = commit_prepare f (decode_commit f.raw_params) s

-- The branch of runFrameHandlingAndTimeout that takes the tick of the prepare-to-end timer.
unfoldable pub prepare_to_end_expired : Session → Outcome Session
unfolding answer clear
prepare_to_end_expired s = elim s.prep.active_prep [
  | none ↦ panic
  | some cp ↦ do
    s' ←
        answer s.prep.src_prep_msg
          (result_of cp.zone_id cp.version prepare_result_status_failed
            "prepare-to-end timer expired")
          (with_prep s (record s.prep { prepare_to_end_timer = none }))
    ok (with_prep s' (clear s'.prep))
]
