-- ===== src/Session/Measured.antt =====
-- What a session learns from a heartbeat (poller/session.go), when no int64 operation overflows.
use rackspace_monitoring_pol.Base.{ℕ, ◌+◌, ◌%◌, ◌^◌, ◌≡◌, ◌≢◌, some, arith}
use rackspace_monitoring_pol.Base.Int.{ℤ, pos, ◌+ℤ◌, int_laws}
use rackspace_monitoring_pol.Protocol.Frame.{FrameMsg}
use rackspace_monitoring_pol.Protocol.Messages.{decode_heartbeat_result}
use rackspace_monitoring_pol.Timing.{compute_skew}
use rackspace_monitoring_pol.Timing.Skew.{IsModest, IsStamped, exchange, compute_skew-symmetric}
use rackspace_monitoring_pol.Session.State.{Measurement}
use rackspace_monitoring_pol.Session.Heartbeat.{prepare_measurement, update_measurement}

plus-zero : (a : ℤ) → a +ℤ pos 0 ≡ a
plus-zero a = omega int_laws

-- The exchange as the session sees it: the server gives one timestamp.
measured_skew :
    (sent ahead delay : ℤ)
    → IsModest sent
    → IsModest ahead
    → IsModest delay
    → IsStamped (exchange sent ahead delay (pos 0) delay)
    → compute_skew (record {
      poller_send_timestamp = sent;
      poller_recv_timestamp = sent +ℤ delay +ℤ delay;
      server_recv_timestamp = sent +ℤ ahead +ℤ delay;
      server_resp_timestamp = sent +ℤ ahead +ℤ delay;
    })
      ≡ some (ahead, delay +ℤ delay)
measured_skew sent ahead delay m1 m2 m3 st =
    let e = compute_skew-symmetric sent ahead delay (pos 0) m1 m2 m3 (omega arith) st in
    rw
      (
        plus-zero (sent +ℤ ahead +ℤ delay),
        plus-zero (sent +ℤ delay),
        plus-zero (pos 0),
        plus-zero (delay +ℤ delay),
      )
      at e

-- A heartbeat sent at `sent`, stamped by a server whose clock is `ahead`, with the same delay both
-- ways and no time spent in the server: the session's offset is then `ahead`, its latency is the
-- round trip, and one more observation counts.
pub heartbeat_measures :
    (id : ℕ) (resp : FrameMsg) (sent ahead delay : ℤ) (m : Measurement)
    → IsModest sent
    → IsModest ahead
    → IsModest delay
    → IsStamped (exchange sent ahead delay (pos 0) delay)
    → resp.id ≡ id
    → decode_heartbeat_result resp.raw_result ≡ sent +ℤ ahead +ℤ delay
    → let m' = update_measurement resp (sent +ℤ delay +ℤ delay) (prepare_measurement id sent m) in
      (m'.offset ≡ ahead)
      × (m'.latency ≡ delay +ℤ delay)
      × (m'.observations ≡ (m.observations + 1) % 2 ^ 64)
unfolding update_measurement prepare_measurement
heartbeat_measures id resp sent ahead delay m m1 m2 m3 st e1 e2 =
    ground (arith, measured_skew sent ahead delay m1 m2 m3 st, e1, e2)

-- A response to any other frame than the last heartbeat changes nothing.
pub heartbeat_out_of_sequence :
    (resp : FrameMsg) (now : ℤ) (m : Measurement)
    → resp.id ≢ m.expected_seq_id
    → update_measurement resp now m ≡ m
unfolding update_measurement
heartbeat_out_of_sequence resp now m h = ground arith
