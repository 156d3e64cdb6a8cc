-- ===== src/Session/Heartbeat.antt =====
-- runHeartbeats of poller/session.go: the requests that it sends, and the latencies that it measures.
use rackspace_monitoring_pol.Base.{
  ℕ, ◌+◌, ◌%◌, ◌^◌, Bool, none, some, [], ◌∷◌, ltb, ◌==◌, if◌then◌else◌,
}
use rackspace_monitoring_pol.Base.Int.{ℤ}
use rackspace_monitoring_pol.Protocol.Frame.{FrameMsg, set_id}
use rackspace_monitoring_pol.Protocol.Messages.{new_heartbeat_request, decode_heartbeat_result}
use rackspace_monitoring_pol.Timing.{TimeLatencyTracking, compute_skew}
use rackspace_monitoring_pol.Session.State.{Session, Measurement}
use rackspace_monitoring_pol.Session.Exchange.{send}

unfoldable pub prepare_measurement : ℕ → ℤ → Measurement → Measurement
prepare_measurement id now m = record m {
  expected_seq_id = id;
  tracking = record m.tracking { poller_send_timestamp = now };
}

-- The timer branch of runHeartbeats, at the given time
unfoldable pub send_heartbeat : ℤ → Session → Session
unfolding send new_heartbeat_request prepare_measurement
send_heartbeat now s =
    let (seq', req) = set_id s.seq (new_heartbeat_request now) in
    send req (record s { seq = seq'; measurement = prepare_measurement req.id now s.measurement })

-- The tracking of a heartbeat that is answered at the given time.
abbrev pub tracking_of : FrameMsg → ℤ → Measurement → TimeLatencyTracking
tracking_of resp now m = record m.tracking {
  poller_recv_timestamp = now;
  server_recv_timestamp = decode_heartbeat_result resp.raw_result;
  server_resp_timestamp = decode_heartbeat_result resp.raw_result;
}

-- updateHeartbeatMeasurement
unfoldable pub update_measurement : FrameMsg → ℤ → Measurement → Measurement
update_measurement resp now m =
    if resp.id == m.expected_seq_id
    then elim (compute_skew (tracking_of resp now m)) [
      | none ↦ record m { tracking = tracking_of resp now m }
      | some (offset, latency) ↦ record m {
        tracking = tracking_of resp now m;
        observations = (m.observations + 1) % 2 ^ 64;
        offset = offset;
        latency = latency;
      }
    ]
    else m

-- The branch of runHeartbeats that takes a response
unfoldable pub take_heartbeat : ℤ → Session → Session
unfolding update_measurement
take_heartbeat now s = elim s.heartbeat_responses [
  | [] ↦ s
  | resp ∷ rest ↦ record s {
    heartbeat_responses = rest;
    measurement = update_measurement resp now s.measurement;
  }
]

unfoldable pub has_latency_measurements : Session → Bool
has_latency_measurements s = ltb 0 s.measurement.observations
