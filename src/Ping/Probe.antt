-- ===== src/Ping/Probe.antt =====
-- check/pinger.go: the payload of a ping, and the loop that waits for the answer to it. The
-- connection is the list of what its reads give: after the last of them the deadline passes.
pub mod Payload
pub mod Receive
use rackspace_monitoring_pol.Base.{
  ℕ, zero, suc, ◌+◌, ◌-◌, ◌%◌, ◌≡◌, ◌<◌, String, Bool, true, false, ◌&&◌, not, Option, none, some,
  List, [], ◌∷◌, ◌++◌, if◌then◌else◌, length, take, str_eq, ◌==◌,
}
use rackspace_monitoring_pol.Base.Int.{ℤ, pos}
use rackspace_monitoring_pol.Ping.{PingResponse}

-- time.Time and its binary form, which is 15 bytes long: package time of Go's library.
pub record TimeCodec : Type 1 where
  pub Time : Type 0
  pub marshal : Time → List ℕ
  pub unmarshal : List ℕ → Option Time
  pub marshal_length : (t : Time) → length (marshal t) ≡ 15
  pub unmarshal-marshal : (t : Time) → unmarshal (marshal t) ≡ some t
  pub unmarshal_short : (bytes : List ℕ) → length bytes < 15 → unmarshal bytes ≡ none

abbrev pub pad_up_to : ℕ
pad_up_to = 56

abbrev pub google_ping_limit : ℕ
google_ping_limit = 64

-- `for buffer.Len() < PadUpTo`, for the bytes that are missing; `padByte` is a byte.
unfoldable pub padding : ℕ → ℕ → List ℕ
padding zero pad_byte = []
padding (suc missing) pad_byte = pad_byte ∷ padding missing ((pad_byte + 1) % 256)

-- ReadString(0) without its delimiter, and what it leaves; an error if there is no delimiter.
unfoldable pub read_string : List ℕ → Option (List ℕ × List ℕ)
read_string [] = none
read_string (b ∷ bytes) = elim (read_string bytes) [
  | none ↦ if b == 0 then some ([], bytes) else none
  | some (s, rest) ↦ if b == 0 then some ([], bytes) else some (b ∷ s, rest)
]

-- The body of an ICMP message, after icmp.ParseMessage.
pub data Body : Type 0 where
  echo : ℕ → ℕ → List ℕ → Body
  dst_unreach : Body
  other_body : Body

-- A read of the connection: a timeout, another error, a packet that does not parse, or a message with
-- whether its type is one of the four that are expected.
pub data Read : Type 0 where
  timed_out : String → Read
  failed : String → Read
  unparsed : String → Read
  message : String → Bool → Body → Read

pub record Pinger : Type 0 where
  pub id : ℕ
  pub identifier : List ℕ
  pub remote_addr : String

-- `closed` tells whether the connection was closed on the way.
pub record Received : Type 0 where
  pub response : PingResponse
  pub closed : Bool

abbrev pub error_response : String → Bool → PingResponse
error_response e timeout = record { seq = pos 0; rtt = pos 0; timeout = timeout; err = some e }

module _ (time : TimeCodec) where
  open time use {Time, marshal, unmarshal}

  unfoldable pub ping_payload : List ℕ → Time → List ℕ
  unfolding padding
  ping_payload identifier now =
      let written = identifier ++ 0 ∷ (length (marshal now) % 256) ∷ marshal now in
      written ++ padding (pad_up_to - length written) 1

  -- The sent time of an echo's payload; the identifier is read, and not looked at.
  unfoldable pub sent_time : List ℕ → Option Time
  unfolding read_string
  sent_time payload = elim (read_string (take google_ping_limit payload)) [
    | none ↦ none
    | some (identifier, rest) ↦ elim rest [
      | [] ↦ none
      | time_len ∷ bytes ↦ unmarshal (take time_len bytes)
    ]
  ]

  -- The response of an echo that is the pinger's own. `since` is time.Since.
  unfoldable pub echo_response : (Time → ℤ) → ℕ → List ℕ → Option PingResponse
  unfolding sent_time
  echo_response since seq payload = elim (sent_time payload) [
    | none ↦ none
    | some sent ↦ some (record { seq = pos seq; rtt = since sent; timeout = false; err = none })
  ]

  -- What a read comes to: `none` continues the loop.
  unfoldable pub judge : (Time → ℤ) → Pinger → Read → Option Received
  unfolding echo_response
  judge since p (timed_out e) = some (record { response = error_response e true; closed = false })
  judge since p (failed e) = some (record { response = error_response e false; closed = true })
  judge since p (unparsed peer) = none
  judge since p (message peer expected (echo id seq payload)) =
      if str_eq peer p.remote_addr && expected && id == p.id
      then elim (echo_response since seq payload) [
        | none ↦ none
        | some r ↦ some (record { response = r; closed = false })
      ]
      else none
  judge since p (message peer expected dst_unreach) = none
  judge since p (message peer expected other_body) = none

  -- recvLoop
  unfoldable pub receive : (Time → ℤ) → Pinger → List Read → Received
  unfolding judge
  receive since p [] = record { response = error_response "i/o timeout" true; closed = false }
  receive since p (r ∷ rs) = elim (judge since p r) [ some done ↦ done | none ↦ receive since p rs ]
