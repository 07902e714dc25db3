-- ===== src/Time/Tests.antt =====
-- A zone with summer time, FreeBSD's clocks, and the theorems at concrete inputs.
use libc6_shim.Prelude.{ℕ, ◌+◌, ◌*◌, ◌==◌, if◌then◌else◌, ◌≡◌, refl, some, none, ◌<◌, ◌⊎◌, arith}
use libc6_shim.Outcome.{ok}
use libc6_shim.Switch.{select}
use libc6_shim.Time.{ClockNumbers, LocalTime, find_offset, find_from, linux_to_native_clockid}
use libc6_shim.Time.Search.{IsMatch}
use libc6_shim.Time.Laws.{find_offset_lem}
use libc6_shim.Time.ClockLaws.{IsClockNumbers}

-- Two hours ahead of UTC in June, one in December.
abbrev berlin : ℕ → ℕ → LocalTime
berlin year month =
    if month == 5
    then record { tm_isdst = 1; tm_gmtoff = 7200 }
    else record { tm_isdst = 0; tm_gmtoff = 3600 }

find_offset_lem_example :
    ((year : ℕ) × (month : ℕ) × (find_offset berlin 72 10 0 ≡ some (berlin year month).tm_gmtoff)
      × IsMatch berlin 72 10 0 year month
      × (¬ ((y : ℕ) × (x : ℕ) × IsMatch berlin 72 10 0 y x × (12 * year + month < 12 * y + x))))
    ⊎ ((find_offset berlin 72 10 0 ≡ none) × (¬ ((y : ℕ) × (x : ℕ) × IsMatch berlin 72 10 0 y x)))
find_offset_lem_example = find_offset_lem berlin 72 10 0 (omega arith)

-- In November 1972 the last winter is that of 1971.
find_offset_winter : find_offset berlin 72 10 0 ≡ some 3600
unfolding find_offset find_from
find_offset_winter = refl

abbrev pub freebsd : ClockNumbers
freebsd = record { realtime = 0; monotonic = 4; realtime_fast = 10; monotonic_fast = 12 }

freebsd-IsClockNumbers : IsClockNumbers freebsd
freebsd-IsClockNumbers = omega arith

boottime : linux_to_native_clockid freebsd 7 ≡ ok 4
unfolding linux_to_native_clockid select
boottime = refl
