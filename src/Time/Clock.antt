-- ===== src/Time/Clock.antt =====
-- src/libc/time.c: the calls that read and set a clock.
use libc6_shim.Prelude.{ℕ}
use libc6_shim.Outcome.{Outcome, ok, ◌>>=◌}
use libc6_shim.Process.{Process}
use libc6_shim.Time.{Timespec, ClockNumbers, linux_to_native_clockid}

pub record ClockHost (W : Type 0) : Type 0 where
  pub clock_gettime : ℕ → Process W → ℕ × Timespec × Process W
  pub clock_settime : ℕ → Timespec → Process W → ℕ × Process W
  pub clock_getres : ℕ → Process W → ℕ × Timespec × Process W

module _ {W : Type 0} (c : ClockNumbers) (host : ClockHost W) where
  unfoldable pub shim_clock_gettime : ℕ → Process W → Outcome (ℕ × Timespec × Process W)
  shim_clock_gettime linux_clock_id p = do
    clock_id ← linux_to_native_clockid c linux_clock_id
    ok (host.clock_gettime clock_id p)

  unfoldable pub shim_clock_settime : ℕ → Timespec → Process W → Outcome (ℕ × Process W)
  shim_clock_settime linux_clock_id tp p = do
    clock_id ← linux_to_native_clockid c linux_clock_id
    ok (host.clock_settime clock_id tp p)

  unfoldable pub shim_clock_getres : ℕ → Process W → Outcome (ℕ × Timespec × Process W)
  shim_clock_getres linux_clock_id p = do
    clock_id ← linux_to_native_clockid c linux_clock_id
    ok (host.clock_getres clock_id p)
