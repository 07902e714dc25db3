-- ===== src/Signal.antt =====
-- src/libc/signal.c and signal.h: signal numbers, signal actions and the calls that take them.
-- An `int` is its bit pattern of 32 bits, so -1 is `minus_one`.
pub mod Convert
pub mod Calls
pub mod Numbers
pub mod Actions
pub mod Query
mod Tests
use libc6_shim.Prelude.{ℕ, ◌-◌, ◌^◌, List, [], ◌∷◌, ◌==◌, ltb, leb, Bool, ◌&&◌, ◌||◌, if◌then◌else◌}

abbrev pub minus_one : ℕ
minus_one = 2 ^ 32 - 1

-- The constants of FreeBSD's <signal.h>.
pub record SignalNumbers : Type 0 where
  pub sigrtmin : ℕ
  pub sigrtmax : ℕ
  pub sigusr1 : ℕ
  pub sig_dfl : ℕ
  pub sig_block : ℕ
  pub sig_unblock : ℕ
  pub sig_setmask : ℕ
  pub sa_nocldstop : ℕ
  pub sa_nocldwait : ℕ
  pub sa_siginfo : ℕ
  pub sa_onstack : ℕ
  pub sa_restart : ℕ
  pub sa_nodefer : ℕ
  pub sa_resethand : ℕ
  pub ss_onstack : ℕ
  pub ss_disable : ℕ

abbrev pub linux_sigabrt : ℕ
linux_sigabrt = 6

abbrev pub linux_sigbus : ℕ
linux_sigbus = 7

abbrev pub linux_sigsegv : ℕ
linux_sigsegv = 11

abbrev pub linux_sigpwr : ℕ
linux_sigpwr = 30

abbrev pub linux_sigsys : ℕ
linux_sigsys = 31

-- Every bound of the source's condition is at least 0, so a negative number, whose bit pattern is
-- at least 2 ^ 31, fails it here too as long as SIGRTMAX is an `int`.
unfoldable pub has_same_number : SignalNumbers → ℕ → Bool
has_same_number c linux_signal =
    (leb 0 linux_signal && ltb linux_signal 7)
    || ((ltb 7 linux_signal && ltb linux_signal 10)
        || (linux_signal == 11
            || ((ltb 12 linux_signal && ltb linux_signal 17)
                || ((ltb 20 linux_signal && ltb linux_signal 23)
                    || ((ltb 23 linux_signal && ltb linux_signal 29)
                        || (leb c.sigrtmin linux_signal && leb linux_signal c.sigrtmax))))))

unfoldable pub linux_to_freebsd_signo : SignalNumbers → ℕ → ℕ
unfolding has_same_number
linux_to_freebsd_signo c linux_signal =
    if has_same_number c linux_signal
    then linux_signal
    else if linux_signal == linux_sigpwr
    then c.sigusr1
    else minus_one

-- A `linux_sigset_t`: the bytes that a native `sigset_t` takes up, and those behind it.
pub record LinuxSigset : Type 0 where
  pub head : ℕ
  pub rest : ℕ

pub record LinuxSigaction : Type 0 where
  pub linux_sa_handler : ℕ
  pub sa_mask : LinuxSigset
  pub sa_flags : ℕ

-- The native `struct sigaction`.
pub record Sigaction : Type 0 where
  pub sa_handler : ℕ
  pub sa_mask : ℕ
  pub sa_flags : ℕ
