-- ===== src/Pthread/Attr.antt =====
-- Barrier and condition attributes: words of flags.
use libc6_shim.Prelude.{
  Bool, true, false, Option, none, some, ℕ, bit_and, bit_or, ◌==◌, ◌||◌, ◌&&◌, not, if◌then◌else◌,
}
use libc6_shim.Bits.{bit_not32}
use libc6_shim.Outcome.{Outcome, ok, ◌>>◌, assert}
use libc6_shim.Flags.{has}
use libc6_shim.Pthread.{PthreadNumbers}

abbrev pub process_private : ℕ
process_private = 0

abbrev pub process_shared : ℕ
process_shared = 1

abbrev pub barrierattr_shared : ℕ
barrierattr_shared = 1

abbrev pub condattr_monotonic : ℕ
condattr_monotonic = 1

abbrev pub condattr_shared : ℕ
condattr_shared = 2

-- `*attr |= flag` or `*attr &= ~flag`
abbrev pub put : Bool → ℕ → ℕ → ℕ
put on attr flag = if on then bit_or attr flag else bit_and attr (bit_not32 flag)

unfoldable pub barrierattr_init : ℕ → ℕ
barrierattr_init attr = 0

unfoldable pub barrierattr_getpshared : ℕ → ℕ
barrierattr_getpshared attr =
    if has attr barrierattr_shared then process_shared else process_private

unfoldable pub barrierattr_setpshared : ℕ → ℕ → Outcome ℕ
barrierattr_setpshared attr linux_pshared = do
  assert (linux_pshared == process_private || linux_pshared == process_shared)
  ok (put (linux_pshared == process_shared) attr barrierattr_shared)

unfoldable pub condattr_init : ℕ → ℕ
condattr_init attr = 0

abbrev pub linux_clock_realtime : ℕ
linux_clock_realtime = 0

abbrev pub linux_clock_monotonic : ℕ
linux_clock_monotonic = 1

unfoldable pub condattr_getclock : ℕ → ℕ
condattr_getclock attr =
    if has attr condattr_monotonic then linux_clock_monotonic else linux_clock_realtime

-- The error and the object after the call.
unfoldable pub condattr_setclock : PthreadNumbers → ℕ → ℕ → ℕ × ℕ
condattr_setclock c attr linux_clock_id =
    if not (linux_clock_id == linux_clock_realtime) && not (linux_clock_id == linux_clock_monotonic)
    then (c.einval, attr)
    else (0, put (linux_clock_id == linux_clock_monotonic) attr condattr_monotonic)

unfoldable pub condattr_getpshared : ℕ → ℕ
condattr_getpshared attr = if has attr condattr_shared then process_shared else process_private

unfoldable pub condattr_setpshared : ℕ → ℕ → Outcome ℕ
condattr_setpshared attr linux_pshared = do
  assert (linux_pshared == process_private || linux_pshared == process_shared)
  ok (put (linux_pshared == process_shared) attr condattr_shared)

-- What the native attributes of `shim_pthread_barrier_init_impl` and `shim_pthread_cond_init_impl`
-- are set to, from a Linux object or from NULL; a field that is not set keeps its default.
pub record NativeAttr : Type 0 where
  pub given : Bool
  pub shared : Bool
  pub monotonic : Bool

unfoldable pub barrier_init_attr : Option ℕ → NativeAttr
barrier_init_attr none = record { given = false; shared = false; monotonic = false }
barrier_init_attr (some attr) = record {
  given = true;
  shared = has attr barrierattr_shared;
  monotonic = false;
}

unfoldable pub cond_init_attr : Option ℕ → NativeAttr
cond_init_attr none = record { given = false; shared = false; monotonic = false }
cond_init_attr (some attr) = record {
  given = true;
  shared = has attr condattr_shared;
  monotonic = has attr condattr_monotonic;
}
