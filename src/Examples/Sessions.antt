-- ===== src/Examples/Sessions.antt =====
-- The theorems on poller/session.go and utils/timestamp.go, at concrete messages and times.
use rackspace_monitoring_pol.Base.{
  ℕ, String, ◌≡◌, ◌↔◌, refl, Bool, true, false, Option, none, some, [], ◌∷◌, ◌+◌, ◌%◌, ◌^◌, arith,
}
use rackspace_monitoring_pol.Base.Int.{ℤ, pos, ◌+ℤ◌}
use rackspace_monitoring_pol.Base.Outcome.{panic, Returns}
use rackspace_monitoring_pol.Json.{num, object}
use rackspace_monitoring_pol.Protocol.Frame.{FrameMsg, empty_frame}
use rackspace_monitoring_pol.Protocol.Messages.{
  PollerPrepareStartParams, PollerPrepareEndParams, PollerPrepareBlockParams,
  decode_heartbeat_result,
}
use rackspace_monitoring_pol.Preparation.{ChecksPreparation}
use rackspace_monitoring_pol.Session.State.{Session, running, new_session, Measurement}
use rackspace_monitoring_pol.Session.Prepare.{end_prepare}
use rackspace_monitoring_pol.Session.Exchange.{handle_response, send_step}
use rackspace_monitoring_pol.Session.Heartbeat.{prepare_measurement, update_measurement}
use rackspace_monitoring_pol.Session.Crashes.{EndCrash, end_prepare_crash}
use rackspace_monitoring_pol.Session.Versions.{CommitEffect, commit_prepare-CommitEffect}
use rackspace_monitoring_pol.Session.Prepare.{commit_prepare}
use rackspace_monitoring_pol.Session.Correlation.{response_shadows_request}
use rackspace_monitoring_pol.Session.Measured.{heartbeat_measures}
use rackspace_monitoring_pol.Examples.Data.{tcp_check, one_check, request, preparing}

abbrev none_missing : ChecksPreparation → Option String
none_missing cp = none

abbrev start_of : ℤ → String → PollerPrepareStartParams
start_of v action = record {
  zone_id = "z";
  version = v;
  manifest =
      record {
        action = action;
        id = "ch9";
        check_type = "remote.tcp";
        entity_id = "";
        zone_id = "";
      }
      ∷ [];
}

abbrev end_of : String → PollerPrepareEndParams
end_of directive = record { zone_id = "z"; version = pos 3; directive = directive }

abbrev block_of_three : PollerPrepareBlockParams
block_of_three = record { zone_id = "z"; version = pos 3; block = some tcp_check ∷ [] }

commit_prepare-CommitEffect_example :
    Returns
      (commit_prepare request
        (record { zone_id = "z"; version = pos 3 })
        (preparing false (some running)))
      (CommitEffect request
        (record { zone_id = "z"; version = pos 3 })
        (preparing false (some running))
        (some one_check)
        true)
unfolding new_session
commit_prepare-CommitEffect_example =
    commit_prepare-CommitEffect request (record { zone_id = "z"; version = pos 3 })
      (preparing false (some running))

-- A second end.
end_prepare_crash_example :
    (end_prepare request (end_of "prepare") (preparing true none) ≡ panic)
    ↔ EndCrash (end_of "prepare") (preparing true none)
unfolding new_session
end_prepare_crash_example =
    end_prepare_crash request (end_of "prepare") (preparing true none) (λ e. refl)

abbrev hello_sent : Bool → Session
hello_sent done = record (new_session "guid") {
  completions = (1, record { id = 1; method = "handshake.hello" }) ∷ [];
  authenticated = done;
}

abbrev answer_to : ℕ → FrameMsg
answer_to id = record empty_frame { version = "1"; id = id }

-- A response with the id of the handshake is to be written.
abbrev answering : Session
answering = record (hello_sent false) { send_ch = answer_to 1 ∷ [] }

response_shadows_request_example :
    Returns (handle_response (answer_to 1) (send_step true answering)) (λ o.
      (o.0.authenticated ≡ answering.authenticated)
      × (o.0.heartbeats_started ≡ answering.heartbeats_started)
      × (o.0.auth_timer ≡ answering.auth_timer)
      × (o.0.heartbeat_responses ≡ answering.heartbeat_responses)
      × (o.1 ≡ none))
response_shadows_request_example =
    response_shadows_request true (answer_to 1) (answer_to 1) [] answering refl refl refl

abbrev heartbeat_answer : FrameMsg
heartbeat_answer = record (answer_to 5) {
  raw_result = some (object (("timestamp", num (pos 1250)) ∷ []));
}

abbrev no_measurement : Measurement
no_measurement = (new_session "guid").measurement

-- Sent at 1000, the server's clock 200 ahead, 50 each way.
heartbeat_measures_example :
    let m' =
      update_measurement heartbeat_answer
        (pos 1000 +ℤ pos 50 +ℤ pos 50)
        (prepare_measurement 5 (pos 1000) no_measurement) in
    (m'.offset ≡ pos 200)
    × (m'.latency ≡ pos 50 +ℤ pos 50)
    × (m'.observations ≡ (no_measurement.observations + 1) % 2 ^ 64)
unfolding ◌+ℤ◌ decode_heartbeat_result
heartbeat_measures_example =
    heartbeat_measures 5 heartbeat_answer (pos 1000) (pos 200) (pos 50) no_measurement
      (omega arith, omega arith) (omega arith, omega arith) (omega arith, omega arith)
      (refl, refl, refl, refl) refl refl
