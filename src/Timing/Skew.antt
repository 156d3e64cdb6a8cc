-- ===== src/Timing/Skew.antt =====
-- What ComputeSkew (utils/timestamp.go) measures, when no int64 operation overflows.
use rackspace_monitoring_pol.Base.{◌<◌, ◌^◌, ◌≡◌, ◌∙◌, false, some, arith}
use rackspace_monitoring_pol.Base.Int.{ℤ, pos_part, neg_part, ◌+ℤ◌, ◌-ℤ◌, int_laws, int_bounds}
use rackspace_monitoring_pol.Base.Words.{wrap64-InRange, InRange}
use rackspace_monitoring_pol.Timing.{
  TimeLatencyTracking, is_unset, half, sub64, add64, compute_skew,
}

sub64-InRange : (a b c : ℤ) → InRange c → a -ℤ b ≡ c → sub64 a b ≡ c
unfolding sub64
sub64-InRange a b c r e = rw e (wrap64-InRange c r)

add64-InRange : (a b c : ℤ) → InRange c → a +ℤ b ≡ c → add64 a b ≡ c
unfolding add64
add64-InRange a b c r e = rw e (wrap64-InRange c r)

half-double : (a : ℤ) → half (a +ℤ a) ≡ a
unfolding ◌+ℤ◌ ◌-ℤ◌
half-double a = ground arith

-- A quantity of less than 2 ^ 60 milliseconds, which is more than thirty million years.
abbrev pub IsModest : ℤ → Type 0
IsModest z = (pos_part z < 2 ^ 60) × (neg_part z < 2 ^ 60)

-- One exchange: the poller sends at `sent` on its own clock, the server's clock is ahead by `ahead`,
-- the request travels `out`, the server takes `busy`, and the answer travels `back`.
abbrev pub exchange : (sent ahead out busy back : ℤ) → TimeLatencyTracking
exchange sent ahead out busy back = record {
  poller_send_timestamp = sent;
  server_recv_timestamp = sent +ℤ ahead +ℤ out;
  server_resp_timestamp = sent +ℤ ahead +ℤ out +ℤ busy;
  poller_recv_timestamp = sent +ℤ out +ℤ busy +ℤ back;
}

abbrev pub IsStamped : TimeLatencyTracking → Type 0
IsStamped t =
    (is_unset t.poller_send_timestamp ≡ false)
    × (is_unset t.poller_recv_timestamp ≡ false)
    × (is_unset t.server_recv_timestamp ≡ false)
    × (is_unset t.server_resp_timestamp ≡ false)

module _ (sent ahead out busy back : ℤ) (m1 : IsModest sent) (m2 : IsModest ahead)
    (m3 : IsModest out) (m4 : IsModest busy) (m5 : IsModest back) where
  compute_skew-exchange :
      IsStamped (exchange sent ahead out busy back)
      → compute_skew (exchange sent ahead out busy back)
        ≡ some (half (ahead +ℤ ahead +ℤ (out -ℤ back)), out +ℤ back +ℤ (busy +ℤ busy))
  unfolding compute_skew
  compute_skew-exchange s =
      rw (s.0, s.1, s.2, s.3)
        (rw (
          sub64-InRange (sent +ℤ ahead +ℤ out) sent (ahead +ℤ out) (omega int_bounds)
              (omega int_laws),
          sub64-InRange (sent +ℤ ahead +ℤ out +ℤ busy) (sent +ℤ out +ℤ busy +ℤ back) (ahead -ℤ back)
              (omega int_bounds) (omega int_laws),
          sub64-InRange (sent +ℤ out +ℤ busy +ℤ back) sent (out +ℤ busy +ℤ back) (omega int_bounds)
              (omega int_laws),
          sub64-InRange (sent +ℤ ahead +ℤ out +ℤ busy) (sent +ℤ ahead +ℤ out) busy
              (omega int_bounds) (omega int_laws),
          add64-InRange (ahead +ℤ out) (ahead -ℤ back) (ahead +ℤ ahead +ℤ (out -ℤ back))
              (omega int_bounds) (omega int_laws),
          add64-InRange (out +ℤ busy +ℤ back) busy (out +ℤ back +ℤ (busy +ℤ busy))
              (omega int_bounds) (omega int_laws),
        ))

-- With the same delay both ways, and all four timestamps set, the offset is exactly how far the
-- server's clock is ahead, and the latency is the two delays plus twice the time that the server
-- took: exactly the round trip where that time is 0. (NTP's delay leaves the server's time out.)
pub compute_skew-symmetric :
    (sent ahead delay busy : ℤ)
    → IsModest sent
    → IsModest ahead
    → IsModest delay
    → IsModest busy
    → IsStamped (exchange sent ahead delay busy delay)
    → compute_skew (exchange sent ahead delay busy delay)
      ≡ some (ahead, delay +ℤ delay +ℤ (busy +ℤ busy))
compute_skew-symmetric sent ahead delay busy m1 m2 m3 m4 s =
    compute_skew-exchange sent ahead delay busy delay m1 m2 m3 m4 m3 s
    ∙ rw (even, half-double ahead)
  where
    even : ahead +ℤ ahead +ℤ (delay -ℤ delay) ≡ ahead +ℤ ahead
    even = omega int_laws
