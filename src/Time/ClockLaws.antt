-- ===== src/Time/ClockLaws.antt =====
-- The way of a clock number to FreeBSD and back.
use libc6_shim.Prelude.{ℕ, ◌==◌, ◌≡◌, ◌≢◌, if◌then◌else◌, arith}
use libc6_shim.Outcome.{ok}
use libc6_shim.Switch.{select}
use libc6_shim.Time.{ClockNumbers, linux_to_native_clockid, native_to_linux_clockid}

-- The numbers of the four clocks differ.
pub record IsClockNumbers (c : ClockNumbers) : Type 0 where
  pub realtime_apart :
      (c.realtime ≢ c.monotonic) × (c.realtime ≢ c.realtime_fast) × (c.realtime ≢ c.monotonic_fast)
  pub monotonic_apart : (c.monotonic ≢ c.realtime_fast) × (c.monotonic ≢ c.monotonic_fast)
  pub fast_apart : c.realtime_fast ≢ c.monotonic_fast

-- The Linux clock that stands for a clock and all others of the same native number.
abbrev pub canonical : ℕ → ℕ
canonical v = if v == 4 then 6 else if v == 7 then 1 else v

-- Where the four native numbers differ: a clock that the shim knows has a native number, which is converted back to the same clock; but
-- MONOTONIC_RAW (4) comes back as MONOTONIC_COARSE (6), and BOOTTIME (7) as MONOTONIC (1).
pub clockid_round_trip :
    (c : ClockNumbers) (v n : ℕ)
    → IsClockNumbers c
    → linux_to_native_clockid c v ≡ ok n
    → native_to_linux_clockid c n ≡ ok (canonical v)
unfolding linux_to_native_clockid native_to_linux_clockid select
clockid_round_trip c v n h e = ground (arith, e, h.realtime_apart, h.monotonic_apart, h.fast_apart)
