-- ===== src/Pthread/Threads.antt =====
-- The calls of pthread.c on threads: their creation, what they return, signals and scheduling.
use libc6_shim.Prelude.{ℕ, ◌-◌, ◌^◌, List, [], ◌∷◌, Option, none, some, not, ◌==◌, if◌then◌else◌}
use libc6_shim.CString.{CString}
use libc6_shim.Outcome.{Outcome, ok, ◌>>=◌, ◌>>◌, assert, or_abort}
use libc6_shim.Flags.{Entry, ◌⇒◌}
use libc6_shim.Switch.{select}
use libc6_shim.Errno.{Errnos, native_to_linux_errno}
use libc6_shim.Process.{minus_one}
use libc6_shim.Memory.{Memory, malloc, load, free}
use libc6_shim.Signal.{SignalNumbers, linux_to_freebsd_signo}
use libc6_shim.Time.{ClockNumbers, Timespec, native_to_linux_clockid}
use libc6_shim.Pthread.{PthreadNumbers, linux_to_native_sched_policy, native_to_linux_sched_policy}
use libc6_shim.Pthread.Sched.{write_converted}

-- `struct wrapper_args`: the function and its argument are numbers.
pub record WrapperArgs : Type 0 where
  pub start_routine : ℕ
  pub arg : ℕ

-- FreeBSD's PTHREAD_CANCELED, EPERM, its names of the operations on a signal mask, and the width of
-- a pointer in the build: 32 or 64 bits.
pub record ThreadNumbers : Type 0 where
  pub canceled : ℕ
  pub eperm : ℕ
  pub sig_block : ℕ
  pub sig_unblock : ℕ
  pub sig_setmask : ℕ
  pub pointer_bits : ℕ

-- LINUX_PTHREAD_CANCELED, the pointer -1.
abbrev pub linux_canceled : ThreadNumbers → ℕ
linux_canceled n = 2 ^ n.pointer_bits - 1

-- The native calls; `pthread_create` gets the argument of the wrapper, and `call` runs a function of
-- the program.
pub record ThreadHost (W : Type 0) : Type 0 where
  pub pthread_create : ℕ → ℕ → W → ℕ × ℕ × W
  pub call : ℕ → ℕ → Memory WrapperArgs → W → ℕ × Memory WrapperArgs × W
  pub pthread_join : ℕ → W → ℕ × ℕ × W
  pub pthread_timedjoin : ℕ → Timespec → W → ℕ × ℕ × W
  pub pthread_set_name : ℕ → CString → W → W
  pub pthread_kill : ℕ → ℕ → W → ℕ × W
  pub pthread_sigmask : ℕ → Option ℕ → W → ℕ × ℕ × W
  pub pthread_getschedparam : ℕ → W → ℕ × ℕ
  pub pthread_setschedparam : ℕ → ℕ → ℕ → W → ℕ × W
  pub pthread_getcpuclockid : ℕ → W → ℕ × ℕ
  pub rwlock_timedrdlock : ℕ → Timespec → W → ℕ × W
  pub rwlock_timedwrlock : ℕ → Timespec → W → ℕ × W

-- What `pthread_create` leaves: its result, the thread, and the state.
pub record Created (W : Type 0) : Type 0 where
  pub err : ℕ
  pub thread : ℕ
  pub memory : Memory WrapperArgs
  pub world : W

-- What a thread leaves when its function returns.
pub record Returned (W : Type 0) : Type 0 where
  pub ret : ℕ
  pub memory : Memory WrapperArgs
  pub world : W

-- `if (value_ptr != NULL && *value_ptr == PTHREAD_CANCELED)`, after a native call that did not fail;
-- `none` is NULL, and `some old` what is there before the call.
abbrev pub joined : ThreadNumbers → ℕ → ℕ → Option ℕ → Option ℕ
joined n err value none = none
joined n err value (some old) =
    if err == 0 then some (if value == n.canceled then linux_canceled n else value) else some old

abbrev pub how_cases : ThreadNumbers → List Entry
how_cases n = (0 ⇒ n.sig_block) ∷ (1 ⇒ n.sig_unblock) ∷ (2 ⇒ n.sig_setmask) ∷ []

module _ {W : Type 0} (e : Errnos) (c : PthreadNumbers) (n : ThreadNumbers)
    (host : ThreadHost W) where
  -- The pthread_create of the 32-bit build; in the 64-bit build the shim has none.
  unfoldable pub thread_create : ℕ → ℕ → ℕ → Memory WrapperArgs → W → Created W
  thread_create attr start_routine arg m w =
      let (wargs, m1) = malloc (record { start_routine = start_routine; arg = arg }) m in
      let (err, thread, w1) = host.pthread_create attr wargs w in
      record { err = err; thread = thread; memory = m1; world = w1 }

  -- The function that the native thread runs, in the 32-bit build.
  unfoldable pub start_routine_wrapper : ℕ → Memory WrapperArgs → W → Outcome (Returned W)
  start_routine_wrapper wargs m w = do
    a ← load wargs m
    let (ret, m1, w1) = host.call a.start_routine a.arg m w
    m2 ← free wargs m1
    ok (record { ret = ret; memory = m2; world = w1 })

  -- The native call writes only where it succeeds.
  unfoldable pub thread_join : ℕ → Option ℕ → W → ℕ × Option ℕ × W
  thread_join thread value_ptr w =
      let (err, value, w1) = host.pthread_join thread w in (err, joined n err value value_ptr, w1)

  unfoldable pub thread_timedjoin : ℕ → Option ℕ → Timespec → W → ℕ × Option ℕ × W
  thread_timedjoin thread value_ptr abstime w =
      let (err, value, w1) = host.pthread_timedjoin thread abstime w in
      (native_to_linux_errno e err, joined n err value value_ptr, w1)

  unfoldable pub thread_getaffinity : ℕ
  thread_getaffinity = native_to_linux_errno e n.eperm

  unfoldable pub thread_setname : ℕ → CString → W → ℕ × W
  thread_setname tid name w = (0, host.pthread_set_name tid name w)

  unfoldable pub thread_kill : SignalNumbers → ℕ → ℕ → W → Outcome (ℕ × W)
  thread_kill s thread linux_sig w = do
    let sig = linux_to_freebsd_signo s linux_sig
    assert (not (sig == minus_one))
    ok (host.pthread_kill thread sig w)

  -- The sets are passed on as they are.
  unfoldable pub thread_sigmask : ℕ → Option ℕ → W → Outcome (ℕ × ℕ × W)
  thread_sigmask linux_how set w = do
    how ← or_abort (select (how_cases n) linux_how)
    ok (host.pthread_sigmask how set w)

  unfoldable pub thread_getschedparam : ℕ → ℕ → W → Outcome (ℕ × ℕ)
  thread_getschedparam thread old w =
      write_converted (native_to_linux_sched_policy c) (host.pthread_getschedparam thread w) old

  unfoldable pub thread_setschedparam : ℕ → ℕ → ℕ → W → Outcome (ℕ × W)
  thread_setschedparam thread linux_policy param w = do
    policy ← linux_to_native_sched_policy c linux_policy
    ok (host.pthread_setschedparam thread policy param w)

  unfoldable pub thread_getcpuclockid : ClockNumbers → ℕ → ℕ → W → Outcome (ℕ × ℕ)
  thread_getcpuclockid clocks thread_id old w =
      write_converted (native_to_linux_clockid clocks) (host.pthread_getcpuclockid thread_id w) old

  unfoldable pub rwlock_timedrdlock : ℕ → Timespec → W → ℕ × W
  rwlock_timedrdlock rwlock abs_timeout w =
      let (err, w1) = host.rwlock_timedrdlock rwlock abs_timeout w in
      (native_to_linux_errno e err, w1)

  unfoldable pub rwlock_timedwrlock : ℕ → Timespec → W → ℕ × W
  rwlock_timedwrlock rwlock abs_timeout w =
      let (err, w1) = host.rwlock_timedwrlock rwlock abs_timeout w in
      (native_to_linux_errno e err, w1)
