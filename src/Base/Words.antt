-- ===== src/Base/Words.antt =====
-- 64-bit machine integers: an int64 is an integer kept within its range by wrap-around.
use rackspace_monitoring_pol.Base.{ℕ, ◌-◌, ◌%◌, ◌^◌, ◌<◌, ◌≤◌, ◌≡◌, arith, ltb, if◌then◌else◌}
use rackspace_monitoring_pol.Base.Int.{ℤ, pos, negsuc, pos_part, neg_part}

-- The bit pattern of an integer, modulo 2 ^ 64.
abbrev pub pattern_of : ℤ → ℕ
pattern_of (pos n) = n % 2 ^ 64
pattern_of (negsuc n) = 2 ^ 64 - 1 - n % 2 ^ 64

-- The int64 that a pattern below 2 ^ 64 stands for.
abbrev pub signed : ℕ → ℤ
signed b = if ltb b (2 ^ 63) then pos b else negsuc (2 ^ 64 - 1 - b)

unfoldable pub wrap64 : ℤ → ℤ
wrap64 z = signed (pattern_of z)

abbrev pub InRange : ℤ → Type 0
InRange z = (pos_part z < 2 ^ 63) × (neg_part z ≤ 2 ^ 63)

pub wrap64-InRange : (z : ℤ) → InRange z → wrap64 z ≡ z
unfolding wrap64
wrap64-InRange (pos n) h = ground arith
wrap64-InRange (negsuc n) h = ground arith
