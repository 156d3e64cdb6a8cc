-- ===== src/Examples/Pings.antt =====
-- The theorems on check/check_ping.go and check/pinger.go, at a check with two pings.
use rackspace_monitoring_pol.Base.{
  ℕ, ◌+◌, ◌<◌, ◌≤◌, ◌≡◌, refl, String, true, false, Option, none, some, List, [], ◌∷◌, ◌++◌, arith,
  length, get_elem?, replicate, ◌==◌, if◌then◌else◌, ◌⊎◌, All,
}
use rackspace_monitoring_pol.Base.Int.{ℤ, pos}
use rackspace_monitoring_pol.Ping.{
  PingResponse, Turn, replied, no_tally, tally, average_rtt, run_pings, run_ping,
}
use rackspace_monitoring_pol.Ping.Slots.{first_answer, last_error, run_pings-Slots}
use rackspace_monitoring_pol.Ping.Statistics.{Summary, tally-Summary}
use rackspace_monitoring_pol.Ping.Report.{Reports, run_ping-Reports}
use rackspace_monitoring_pol.Ping.Probe.{
  TimeCodec, Read, unparsed, message, echo, Pinger, ping_payload, sent_time, receive,
  error_response,
}
use rackspace_monitoring_pol.Ping.Probe.Payload.{sent_time-ping_payload}
use rackspace_monitoring_pol.Ping.Probe.Receive.{IsForeign, receive-own_echo}

abbrev answer : ℕ → PingResponse
answer n = record { seq = pos n; rtt = pos 5; timeout = false; err = none }

abbrev both_answered : ℕ → Turn
both_answered n = replied (answer n)

run_pings-Slots_example :
    let p = run_pings both_answered 2 in
    (length p.responses ≡ 2)
    × (p.ping_err ≡ last_error both_answered 1 2 none)
    × ((i : ℕ) → i < 2 → get_elem? p.responses i ≡ some (first_answer i both_answered 1 2))
run_pings-Slots_example = run_pings-Slots both_answered 2

abbrev one_answered : List (Option PingResponse)
one_answered = none ∷ some (answer 2) ∷ []

tally-Summary_example :
    ((◌≡◌ {A = List ℕ} (5 ∷ []) [])
      × (tally one_answered no_tally ≡ no_tally)
      × (average_rtt (tally one_answered no_tally) ≡ pos 0))
    ⊎ ((n : ℕ) × (rest : List ℕ) × ((5 ∷ []) ≡ n ∷ rest)
        × Summary n rest (tally one_answered no_tally))
tally-Summary_example = tally-Summary one_answered (5 ∷ []) (refl, tt) (omega arith)

abbrev check_id : String
check_id = "chPing"

run_ping-Reports_example : Reports both_answered 2 check_id (run_ping both_answered 2 check_id)
run_ping-Reports_example = run_ping-Reports both_answered 2 check_id

-- A time is a number, followed by fourteen bytes.
abbrev read_time : List ℕ → Option ℕ
read_time [] = none
read_time (t ∷ bytes) = if length bytes == 14 then some t else none

read_time_short : (bytes : List ℕ) → length bytes < 15 → read_time bytes ≡ none
read_time_short [] h = refl
read_time_short (t ∷ bytes) h = ground arith

abbrev numbered_time : TimeCodec
numbered_time = record {
  Time = ℕ;
  marshal = λ t. t ∷ replicate 14 0;
  unmarshal = read_time;
  marshal_length = λ t. refl;
  unmarshal-marshal = λ t. refl;
  unmarshal_short = read_time_short;
}

abbrev pinger : Pinger
pinger = record { id = 9; identifier = 7 ∷ 8 ∷ []; remote_addr = "10.0.0.1" }

sent_time-ping_payload_example :
    (56 ≤ length (ping_payload numbered_time (7 ∷ 8 ∷ []) 3))
    × (length pinger.identifier ≤ 47
        → sent_time numbered_time (ping_payload numbered_time (7 ∷ 8 ∷ []) 3) ≡ some 3)
    × (47 < length pinger.identifier
        → sent_time numbered_time (ping_payload numbered_time (7 ∷ 8 ∷ []) 3) ≡ none)
sent_time-ping_payload_example =
    sent_time-ping_payload numbered_time (7 ∷ 8 ∷ []) 3 (refl, (refl, tt))

abbrev elapsed_time : ℕ → ℤ
elapsed_time t = pos (t + 1)

abbrev echo_of : ℕ → ℕ → Read
echo_of seq t = message "10.0.0.1" true (echo 9 seq (ping_payload numbered_time (7 ∷ 8 ∷ []) t))

receive-own_echo_example :
    (length pinger.identifier ≤ 47
      → receive numbered_time elapsed_time pinger ((unparsed "10.0.0.2" ∷ []) ++ echo_of 1 3 ∷ [])
        ≡ record {
          response = record { seq = pos 1; rtt = pos 4; timeout = false; err = none };
          closed = false;
        })
    × (47 < length pinger.identifier
        → All (λ r. IsForeign pinger r ⊎ ((n : ℕ) × (s : ℕ) × (r ≡ echo_of n s))) []
        → receive numbered_time elapsed_time pinger ((unparsed "10.0.0.2" ∷ []) ++ echo_of 1 3 ∷ [])
          ≡ record { response = error_response "i/o timeout" true; closed = false })
receive-own_echo_example =
    receive-own_echo numbered_time elapsed_time pinger (unparsed "10.0.0.2" ∷ []) [] 1 3
      (refl, (refl, tt)) (tt, tt)
