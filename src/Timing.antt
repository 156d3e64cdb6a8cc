-- ===== src/Timing.antt =====
-- utils/timestamp.go: the clock offset and the latency between poller and server.
pub mod Skew
use rackspace_monitoring_pol.Base.{ℕ, suc, ◌/◌, Bool, ◌||◌, Option, none, some, ◌==◌, if◌then◌else◌}
use rackspace_monitoring_pol.Base.Int.{ℤ, pos, negsuc, ◌+ℤ◌, ◌-ℤ◌}
use rackspace_monitoring_pol.Base.Words.{wrap64}

pub record TimeLatencyTracking : Type 0 where
  pub poller_send_timestamp : ℤ
  pub poller_recv_timestamp : ℤ
  pub server_recv_timestamp : ℤ
  pub server_resp_timestamp : ℤ

abbrev pub is_unset : ℤ → Bool
is_unset (pos n) = n == 0
is_unset (negsuc n) = Bool.false

-- Go's `x / 2` rounds towards zero.
abbrev pub half : ℤ → ℤ
half (pos n) = pos (n / 2)
half (negsuc n) = pos 0 -ℤ pos (suc n / 2)

-- int64 subtraction and addition
unfoldable pub sub64 : ℤ → ℤ → ℤ
unfolding wrap64 ◌-ℤ◌
sub64 a b = wrap64 (a -ℤ b)

unfoldable pub add64 : ℤ → ℤ → ℤ
unfolding wrap64 ◌+ℤ◌
add64 a b = wrap64 (a +ℤ b)

-- The offset and the latency; none is the error "Unable to compute with any unset timestamp".
unfoldable pub compute_skew : TimeLatencyTracking → Option (ℤ × ℤ)
unfolding sub64 add64 ◌-ℤ◌
compute_skew tt' =
    if is_unset t1 || is_unset t4 || is_unset t2 || is_unset t3
    then none
    else some (half (add64 (sub64 t2 t1) (sub64 t3 t4)), add64 (sub64 t4 t1) (sub64 t3 t2))
  where
    open tt' use {
      poller_send_timestamp as t1, server_recv_timestamp as t2, server_resp_timestamp as t3,
      poller_recv_timestamp as t4,
    }
