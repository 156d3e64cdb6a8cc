-- ===== src/Examples/Connections.antt =====
-- The theorems on poller/connection.go and utils/smart_conn.go, at small states.
use rackspace_monitoring_pol.Base.{String, Bool, true, false, none, some, [], ◌∷◌, ◌≡◌, refl}
use rackspace_monitoring_pol.Base.Outcome.{ok, blocked, ◌>>=◌}
use rackspace_monitoring_pol.Connection.{Network, new_connection, connect, Closes, connect-Closes}
use rackspace_monitoring_pol.SmartConn.{
  SmartConn, new_smart_conn, with_timer, running, told, start, write, write_all, send_heartbeat,
}
use rackspace_monitoring_pol.SmartConn as Smart
use rackspace_monitoring_pol.SmartConn.Heartbeats.{deadline_calls, send_heartbeat-hangs}

-- A session is whether it is closed.
abbrev cancel : Bool → Bool
cancel s = true

abbrev endpoint_address : String
endpoint_address = "endpoint:50041"

abbrev unreachable : Network
unreachable = record { proxy = none; tls = true; dial_error = some "connection refused" }

connect-Closes_example :
    Closes cancel (connect true unreachable false (new_connection endpoint_address "guid"))
connect-Closes_example = connect-Closes cancel endpoint_address "guid" true unreachable false

abbrev beating : SmartConn
beating = record new_smart_conn {
  has_heartbeat_sender = true;
  heartbeat_send_interval = 30;
  write_allowance = 60;
  read_keepalive = 10;
}

send_heartbeat-hangs_example :
    let s = (start 5 none beating).0 in
    (write_all 7 ("prepare" ∷ []) s
      ≡ ok (with_timer running (told (deadline_calls 7 s.write_allowance ("prepare" ∷ [])) s)))
    × ((write_all 7 ("prepare" ∷ []) s >>= send_heartbeat 7 ("heartbeat" ∷ [])) ≡ blocked)
    × ((write_all 7 ("prepare" ∷ []) s >>= λ written. write 7 "late" (Smart.close written))
        ≡ blocked)
send_heartbeat-hangs_example =
    send_heartbeat-hangs beating 5 7 ("prepare" ∷ []) "heartbeat" [] "late" refl refl
