-- ===== src/Ping.antt =====
-- check/check_ping.go: the loop of PingCheck.Run over the pings of one run, the statistics of the
-- answers, and the set of results. The delays between pings only pass time and are left out: the
-- timer of the overall timeout is asked for at each turn.
pub mod Slots
pub mod Statistics
pub mod Report
pub mod Probe
use rackspace_monitoring_pol.Base.{
  ℕ, zero, suc, ◌+◌, ◌-◌, ◌*◌, ◌/◌, String, Bool, true, false, ◌||◌, Option, none, some, List, [],
  ◌∷◌, if◌then◌else◌, length, replicate, get_elem?, set, ◌==◌,
}
use rackspace_monitoring_pol.Base.Int.{ℤ, pos, negsuc, pos_part, ◌+ℤ◌, ltb_ℤ, leb_ℤ, neg_part}
use rackspace_monitoring_pol.Base.Words.{wrap64}
use rackspace_monitoring_pol.Results.{
  Value, int, quotient, Metric, metric_number, metric_float, new_metric, new_result, ResultSet,
  new_result_set, set_state_available, set_state_unavailable, set_status_success, set_status,
  set_status_from_error, change_states,
}

pub record PingResponse : Type 0 where
  pub seq : ℤ
  pub rtt : ℤ
  pub timeout : Bool
  pub err : Option String

-- What a turn of the loop meets: the overall timeout, or what the pinger returns for its ping.
pub data Turn : Type 0 where
  expired : Turn
  replied : PingResponse → Turn

pub record Progress : Type 0 where
  pub responses : List (Option PingResponse)
  pub ping_err : Option String

-- Only an empty slot takes a response.
abbrev pub fill : Option (Option PingResponse) → ℕ → PingResponse → Progress → Progress
fill none i r p = p
fill (some none) i r p = record p { responses = set p.responses i (some r) }
fill (some (some old)) i r p = p

unfoldable pub keep_at : ℤ → PingResponse → Progress → Progress
keep_at seq r p =
    if leb_ℤ seq (pos 0) || ltb_ℤ (pos (length p.responses)) seq
    then p
    else fill (get_elem? p.responses (pos_part seq - 1)) (pos_part seq - 1) r p

unfoldable pub keep_response : PingResponse → Progress → Progress
unfolding keep_at
keep_response r p = keep_at r.seq r p

-- An error that is no timeout is kept for the end.
unfoldable pub take_as : Option String → PingResponse → Progress → Progress
unfolding keep_response
take_as none r p = keep_response r p
take_as (some e) r p = if r.timeout then p else record p { ping_err = some e }

unfoldable pub take_reply : PingResponse → Progress → Progress
unfolding take_as
take_reply r p = take_as r.err r p

-- packetLoop, from the turn of the sequence number `seq`, for the turns that are left.
unfoldable pub packet_loop : (ℕ → Turn) → ℕ → ℕ → Progress → Progress
unfolding take_reply
packet_loop turn seq zero p = p
packet_loop turn seq (suc left) p = elim (turn seq) [
  | expired ↦ p
  | replied r ↦ packet_loop turn (seq + 1) left (take_reply r p)
]

abbrev pub default_ping_count : ℕ
default_ping_count = 6

unfoldable pub ping_count : ℕ → ℕ
ping_count n = if n == 0 then default_ping_count else n

unfoldable pub run_pings : (ℕ → Turn) → ℕ → Progress
unfolding packet_loop
run_pings turn count =
    packet_loop turn 1 count (record { responses = replicate count none; ping_err = none })

-- The loop over the responses.
pub record Tally : Type 0 where
  pub recv : ℕ
  pub initial_duration : Bool
  pub min_rtt : ℤ
  pub max_rtt : ℤ
  pub total_rtt : ℤ

unfoldable pub count_rtt : ℤ → Tally → Tally
unfolding wrap64 ◌+ℤ◌
count_rtt rtt t = record {
  recv = t.recv + 1;
  initial_duration = false;
  min_rtt = if t.initial_duration || ltb_ℤ rtt t.min_rtt then rtt else t.min_rtt;
  max_rtt = if t.initial_duration || ltb_ℤ t.max_rtt rtt then rtt else t.max_rtt;
  total_rtt = wrap64 (t.total_rtt +ℤ rtt);
}

unfoldable pub tally : List (Option PingResponse) → Tally → Tally
unfolding count_rtt
tally [] t = t
tally (none ∷ rs) t = tally rs t
tally (some r ∷ rs) t = tally rs (count_rtt r.rtt t)

abbrev pub no_tally : Tally
no_tally = record {
  recv = 0;
  initial_duration = true;
  min_rtt = pos 0;
  max_rtt = pos 0;
  total_rtt = pos 0;
}

-- Go's division of integers, by a number that is not 0: it rounds towards 0.
abbrev pub quot : ℤ → ℕ → ℤ
quot (pos n) d = pos (n / d)
quot (negsuc n) d = let q = suc n / d in if q == 0 then pos 0 else negsuc (q - 1)

unfoldable pub average_rtt : Tally → ℤ
average_rtt t = if t.recv == 0 then pos 0 else quot t.total_rtt t.recv

-- ScaleFractionalDuration to seconds
abbrev pub in_seconds : ℤ → Value
in_seconds d = quotient d (pos 1000000000)

unfoldable pub ping_metrics : ℕ → Tally → List Metric
unfolding average_rtt new_metric
ping_metrics sent t =
    new_metric "count" "" metric_number (int (pos sent)) ""
    ∷ new_metric "available" "" metric_float (quotient (pos (100 * t.recv)) (pos sent)) "PERCENT"
    ∷ new_metric "average" "" metric_float (in_seconds (average_rtt t)) "SECONDS"
    ∷ new_metric "maximum" "" metric_float (in_seconds t.max_rtt) "SECONDS"
    ∷ new_metric "minimum" "" metric_float (in_seconds t.min_rtt) "SECONDS"
    ∷ []

module _ {ℓ} {C : Type ℓ} where
  unfoldable pub conclude : Option String → ℕ → ResultSet C → ResultSet C
  unfolding set_state_available set_state_unavailable set_status_success set_status
      set_status_from_error
  conclude none zero rs =
      change_states (set_status "No responses received") (set_state_unavailable rs)
  conclude none (suc recv) rs = set_state_available (set_status_success rs)
  conclude (some e) recv rs = change_states (set_status_from_error e) (set_state_unavailable rs)

  -- Run of a ping check whose details ask for `n` pings, once it has a pinger.
  unfoldable pub run_ping : (ℕ → Turn) → ℕ → C → ResultSet C
  unfolding ping_count run_pings tally ping_metrics new_result new_result_set conclude
  run_ping turn n check =
      let count = ping_count n in
      let progress = run_pings turn count in
      let t = tally progress.responses no_tally in
      conclude progress.ping_err t.recv
        (new_result_set check (some (new_result (ping_metrics count t))))
