-- ===== src/Session/Exchange.antt =====
-- Sending and receiving of poller/session.go: Send, Respond, the frames that wait for an answer,
-- Auth and its timer, and what becomes of a response.
use rackspace_monitoring_pol.Base.{
  ℕ, ◌*◌, ◌%◌, ◌^◌, String, Bool, true, Option, none, some, [], ◌∷◌, ◌++◌, ◌==◌, str_eq,
  if◌then◌else◌,
}
use rackspace_monitoring_pol.Base.Int.{ℤ}
use rackspace_monitoring_pol.Base.Words.{signed}
use rackspace_monitoring_pol.Base.Dict.{nat_eq, lookup, insert, delete}
use rackspace_monitoring_pol.Base.Outcome.{Outcome, ok, panic}
use rackspace_monitoring_pol.Protocol.Frame.{FrameMsg, set_id, set_target, set_source}
use rackspace_monitoring_pol.Protocol.Messages.{
  HandshakeParameters, new_handshake_request, decode_handshake_result,
}
use rackspace_monitoring_pol.Protocol.Methods.{method_handshake_hello, method_heartbeat_post}
use rackspace_monitoring_pol.Session.State.{Session, running, send_error, auth_timeout}

-- Respond: the frame is addressed and staged.
unfoldable pub respond : FrameMsg → Session → Session
respond msg s = record s {
  send_ch = s.send_ch ++ set_source s.guid (set_target "endpoint" msg) ∷ [];
}

-- Send: a frame without an id is given the next one.
unfoldable pub send : FrameMsg → Session → Session
unfolding respond set_id
send msg s =
    if msg.id == 0
    then (let (seq', msg') = set_id s.seq msg in respond msg' (record s { seq = seq' }))
    else respond msg s

-- Auth, with `TimeoutAuth > 0` as a flag
unfoldable pub auth : HandshakeParameters → Bool → Session → Session
unfolding send new_handshake_request
auth params has_timeout s =
    let s' = send (new_handshake_request params) s in
    if has_timeout then record s' { auth_timer = some running } else s'

-- The function that the authentication timer runs when it goes off.
unfoldable pub auth_expired : Session → Session
auth_expired s = record s { connection_closed = true; events = s.events ++ auth_timeout ∷ [] }

unfoldable pub add_completion : FrameMsg → Session → Session
unfolding insert
add_completion f s = record s {
  completions = insert f.id (record { id = f.id; method = f.method }) s.completions;
}

-- exitError and the deferred cancel of runFrameSending
unfoldable pub exit_error : Session → Session
exit_error s = record s { events = s.events ++ send_error ∷ []; cancelled = true }

-- One round of runFrameSending; the flag says whether the connection took the frame and the line
-- end that follows it.
unfoldable pub send_step : Bool → Session → Session
unfolding add_completion exit_error
send_step written s = elim s.send_ch [
  | [] ↦ s
  | f ∷ rest ↦
      let s' = add_completion f (record s { send_ch = rest }) in
      if written then record s' { written = s'.written ++ f ∷ [] } else exit_error s'
]

-- `time.Duration(interval) * time.Millisecond`, in nanoseconds
abbrev pub interval_duration : ℕ → ℤ
interval_duration ms = signed (ms * 1000000 % 2 ^ 64)

-- The handshake was answered without an error.
unfoldable pub handshake_accepted : FrameMsg → Session → Outcome (Session × Option String)
unfolding decode_handshake_result
handshake_accepted f s =
    if s.authenticated
    then panic
    else ok (
      record s {
        heartbeat_interval =
            interval_duration (decode_handshake_result f.raw_result).heartbeat_interval;
        heartbeats_started = true;
        authenticated = true;
      },
      none,
    )

unfoldable pub handle_handshake : FrameMsg → Session → Outcome (Session × Option String)
unfolding handshake_accepted
handle_handshake f s =
    let s' : Session = record s { auth_timer = none } in
    elim f.error [ some e ↦ ok (s', some e.message) | none ↦ handshake_accepted f s' ]

-- The switch of handleResponse on the method of the request that is answered.
unfoldable pub dispatch_response : String → FrameMsg → Session → Outcome (Session × Option String)
unfolding handle_handshake
dispatch_response method f s =
    if str_eq method method_handshake_hello
    then handle_handshake f s
    else if str_eq method method_heartbeat_post
    then ok (record s { heartbeat_responses = s.heartbeat_responses ++ f ∷ [] }, none)
    else ok (s, none)

-- handleResponse, with getCompletionRequest: the result is the state and the error, if any.
unfoldable pub handle_response : FrameMsg → Session → Outcome (Session × Option String)
unfolding lookup delete dispatch_response
handle_response f s = elim (lookup f.id s.completions) [
  | none ↦ ok (s, none)
  | some req ↦ dispatch_response req.method f (record s { completions = delete f.id s.completions })
]
