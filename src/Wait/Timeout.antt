-- ===== src/Wait/Timeout.antt =====
-- The timeout of `rmw_wait`.
use rmw_microxrcedds.Base.{ℕ, ◌+◌, ◌*◌, ◌/◌, ◌^◌, ◌<◌, ◌≡◌, arith, some, leb, if◌then◌else◌}
use rmw_microxrcedds.Wait.{Time, int_max, wait_milliseconds}

abbrev pub minimum : ℕ → ℕ → ℕ
minimum a b = if leb a b then a else b

-- For a time whose two numbers have 64 bits: the timeout of rmw_wait is the time in milliseconds,
-- rounded down, or INT_MAX if it is larger.
pub wait_milliseconds-minimum :
    (infinite : ℕ) (t : Time)
    → t.sec < 2 ^ 64
    → t.nsec < 2 ^ 64
    → wait_milliseconds infinite (some t) ≡ minimum (t.sec * 1000 + t.nsec / 1_000_000) int_max
unfolding wait_milliseconds
wait_milliseconds-minimum infinite t s n = ground arith
