-- ===== src/Time.antt =====
-- src/libc/time.c: clock numbers, and the variables that tzset sets. A year is counted from 1900,
-- as in `struct tm`, and is not before it.
pub mod Clock
pub mod Search
pub mod Laws
pub mod ClockLaws
pub mod Tests
use libc6_shim.Prelude.{
  ℕ, zero, suc, ◌+◌, ◌-◌, ◌%◌, ◌^◌, List, [], ◌∷◌, Option, none, some, ◌==◌, ltb, ◌&&◌,
  if◌then◌else◌,
}
use libc6_shim.CArray.{copy_bounded}
use libc6_shim.Outcome.{Outcome, or_abort}
use libc6_shim.Flags.{Entry, ◌⇒◌}
use libc6_shim.Switch.{select}

pub record Timespec : Type 0 where
  pub tv_sec : ℕ
  pub tv_nsec : ℕ

-- The clocks of FreeBSD's <time.h>.
pub record ClockNumbers : Type 0 where
  pub realtime : ℕ
  pub monotonic : ℕ
  pub realtime_fast : ℕ
  pub monotonic_fast : ℕ

unfoldable pub linux_to_native_clockid : ClockNumbers → ℕ → Outcome ℕ
linux_to_native_clockid c linux_clock_id = or_abort (
    select
      ((0 ⇒ c.realtime)
        ∷ (1 ⇒ c.monotonic)
        ∷ (4 ⇒ c.monotonic_fast)
        ∷ (5 ⇒ c.realtime_fast)
        ∷ (6 ⇒ c.monotonic_fast)
        ∷ (7 ⇒ c.monotonic)
        ∷ [])
      linux_clock_id)

unfoldable pub native_to_linux_clockid : ClockNumbers → ℕ → Outcome ℕ
native_to_linux_clockid c clock_id = or_abort (
    select
      ((c.realtime ⇒ 0) ∷ (c.monotonic ⇒ 1) ∷ (c.realtime_fast ⇒ 5) ∷ (c.monotonic_fast ⇒ 6) ∷ [])
      clock_id)

-- What `timegm` and `localtime_r` give for the 21st of a month of a year: `tm_isdst` and
-- `tm_gmtoff`, a `long` by its bit pattern. The PANIC for a `localtime_r` that gives NULL, which takes
-- a year that overflows, is left out.
pub record LocalTime : Type 0 where
  pub tm_isdst : ℕ
  pub tm_gmtoff : ℕ

module _ (local : ℕ → ℕ → LocalTime) (current_year current_month is_dst : ℕ) where
  -- The body of the loops of `find_offset`, and what follows it: `rest`.
  abbrev pub probe : ℕ → ℕ → Option ℕ → Option ℕ
  probe year month rest =
      if year == current_year && ltb current_month month
      then rest
      else if (local year month).tm_isdst == is_dst
      then some (local year month).tm_gmtoff
      else rest

  -- The loop over the years from `69 + n` down to 70, and in each over the months 11 and 5.
  unfoldable pub find_from : ℕ → Option ℕ
  find_from zero = none
  find_from (suc n) = probe (70 + n) 11 (probe (70 + n) 5 (find_from n))

  -- The offset is the result; `none` is the `false` that leaves `*offset` alone.
  unfoldable pub find_offset : Option ℕ
  find_offset = find_from (suc current_year - 70)

-- The exported variables, where timezone stands for itself and its alias, and daylight too.
pub record Zone : Type 0 where
  pub timezone : ℕ
  pub daylight : ℕ
  pub tzname_0 : List ℕ
  pub tzname_1 : List ℕ

abbrev pub negated : Option ℕ → ℕ
negated none = 0
negated (some offset) = (2 ^ 64 - offset) % 2 ^ 64

abbrev pub is_found : Option ℕ → ℕ
is_found none = 0
is_found (some offset) = 1

-- The native names, and the current year and month, are what the native tzset and localtime_r give.
unfoldable pub shim_tzset : (ℕ → ℕ → LocalTime) → ℕ → ℕ → List ℕ → List ℕ → Zone → Zone
shim_tzset local current_year current_month name_0 name_1 z = record {
  timezone = negated (find_offset local current_year current_month 0);
  daylight = is_found (find_offset local current_year current_month 1);
  tzname_0 = copy_bounded z.tzname_0 name_0;
  tzname_1 = copy_bounded z.tzname_1 name_1;
}
