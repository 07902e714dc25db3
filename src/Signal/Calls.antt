-- ===== src/Signal/Calls.antt =====
-- The calls of signal.c over the native ones, which a `Host` stands for. Each takes the state of
-- the system and returns it changed.
use libc6_shim.Prelude.{ℕ, Option, none, some, ◌==◌, ◌||◌, not, if◌then◌else◌}
use libc6_shim.Outcome.{Outcome, ok, abort, ◌>>=◌, ◌>>◌, assert}
use libc6_shim.Signal.{
  SignalNumbers, LinuxSigset, LinuxSigaction, Sigaction, minus_one, linux_to_freebsd_signo,
  linux_sigabrt, linux_sigsegv, linux_sigbus, linux_sigsys,
}
use libc6_shim.Signal.Convert.{
  linux_to_native_sigaction, native_to_linux_sigaction, linux_to_freebsd_sigstack_flags,
}

-- What the native `sigaction` gives back: its result, the action that was installed before, and
-- the system after it.
pub record SigactionResult (W : Type 0) : Type 0 where
  pub err : ℕ
  pub old : Sigaction
  pub world : W

pub record StackT : Type 0 where
  pub ss_sp : ℕ
  pub ss_flags : ℕ
  pub ss_size : ℕ

-- The native calls. `sigemptyset` gives the bytes that it writes.
pub record Host (W : Type 0) : Type 0 where
  pub kill : ℕ → ℕ → W → ℕ × W
  pub raise : ℕ → W → ℕ × W
  pub signal : ℕ → ℕ → W → ℕ × W
  pub sigaction : ℕ → Option Sigaction → W → SigactionResult W
  pub sigemptyset : ℕ
  pub sigaddset : ℕ → ℕ → ℕ × ℕ
  pub sigdelset : ℕ → ℕ → ℕ × ℕ
  pub sigismember : ℕ → ℕ → ℕ
  pub sigprocmask : ℕ → Option ℕ → W → ℕ × ℕ × W
  pub sigaltstack : StackT → W → ℕ × W

-- What a Linux program sees of `sigaction`: the result, and the contents of `*linux_oact`, if that
-- is not NULL.
pub record ShimSigactionResult (W : Type 0) : Type 0 where
  pub err : ℕ
  pub oact : Option LinuxSigaction
  pub world : W

module _ {W : Type 0} (c : SignalNumbers) (host : Host W) where
  unfoldable pub shim_kill : ℕ → ℕ → W → Outcome (ℕ × W)
  shim_kill pid linux_sig w = do
    let sig = linux_to_freebsd_signo c linux_sig
    assert (not (sig == minus_one))
    ok (host.kill pid sig w)

  unfoldable pub shim_raise : ℕ → W → Outcome (ℕ × W)
  shim_raise linux_sig w = do
    let sig = linux_to_freebsd_signo c linux_sig
    assert (not (sig == minus_one))
    ok (host.raise sig w)

  unfoldable pub shim_signal : ℕ → ℕ → W → Outcome (ℕ × W)
  shim_signal linux_sig func w = do
    let sig = linux_to_freebsd_signo c linux_sig
    assert (not (sig == minus_one))
    ok (host.signal sig func w)

  -- What the call writes for the signals whose handlers it does not install.
  unfoldable pub default_oact : LinuxSigaction → LinuxSigaction
  default_oact oact = record oact {
    linux_sa_handler = c.sig_dfl;
    sa_mask = record { head = host.sigemptyset; rest = oact.sa_mask.rest };
    sa_flags = 0;
  }

  -- The copy back into `*linux_oact`, after a native call that did not fail.
  unfoldable pub write_oact :
      SigactionResult W → Option LinuxSigaction → Outcome (ShimSigactionResult W)
  write_oact r none = ok (record { err = r.err; oact = none; world = r.world })
  write_oact r (some dst) =
      if r.err == minus_one
      then ok (record { err = r.err; oact = some dst; world = r.world })
      else do
        out ← native_to_linux_sigaction c dst r.old
        ok (record { err = r.err; oact = some out; world = r.world })

  -- The call with a signal that has a native number.
  unfoldable pub sigaction_call :
      ℕ → Option LinuxSigaction → Option LinuxSigaction → W → Outcome (ShimSigactionResult W)
  sigaction_call sig (some linux_act) linux_oact w = do
    act ← linux_to_native_sigaction c linux_act
    write_oact (host.sigaction sig (some act) w) linux_oact
  sigaction_call sig none (some dst) w = write_oact (host.sigaction sig none w) (some dst)
  sigaction_call sig none none w = ok (record { err = minus_one; oact = none; world = w })

  abbrev pub map_oact : Option LinuxSigaction → Option LinuxSigaction
  map_oact none = none
  map_oact (some oact) = some (default_oact oact)

  unfoldable pub shim_sigaction :
      ℕ → Option LinuxSigaction → Option LinuxSigaction → W → Outcome (ShimSigactionResult W)
  shim_sigaction linux_sig linux_act linux_oact w =
      if linux_sig == linux_sigabrt
        || (linux_sig == linux_sigsegv || (linux_sig == linux_sigbus || linux_sig == linux_sigsys))
      then ok (record { err = 0; oact = map_oact linux_oact; world = w })
      else if linux_to_freebsd_signo c linux_sig == minus_one
      then ok (record { err = minus_one; oact = linux_oact; world = w })
      else sigaction_call (linux_to_freebsd_signo c linux_sig) linux_act linux_oact w

  unfoldable pub shim_sigaddset : LinuxSigset → ℕ → ℕ × LinuxSigset
  shim_sigaddset set linux_signo =
      let (err, head) = host.sigaddset set.head (linux_to_freebsd_signo c linux_signo) in
      (err, record set { head = head })

  unfoldable pub shim_sigdelset : LinuxSigset → ℕ → ℕ × LinuxSigset
  shim_sigdelset set linux_signo =
      let (err, head) = host.sigdelset set.head (linux_to_freebsd_signo c linux_signo) in
      (err, record set { head = head })

  unfoldable pub shim_sigismember : LinuxSigset → ℕ → ℕ
  shim_sigismember set linux_signo =
      host.sigismember set.head (linux_to_freebsd_signo c linux_signo)

  -- The set is NULL or not; the result carries the old mask for `oset`.
  unfoldable pub shim_sigprocmask : ℕ → Option ℕ → W → Outcome (ℕ × ℕ × W)
  shim_sigprocmask linux_how set w =
      if linux_how == 0
      then ok (host.sigprocmask c.sig_block set w)
      else if linux_how == 1
      then ok (host.sigprocmask c.sig_unblock set w)
      else if linux_how == 2
      then ok (host.sigprocmask c.sig_setmask set w)
      else abort

  -- Both pointers are NULL or not; only the first is looked into.
  unfoldable pub shim_sigaltstack : Option StackT → Option StackT → W → Outcome (ℕ × W)
  shim_sigaltstack none linux_oss w = abort
  shim_sigaltstack (some linux_ss) (some linux_oss) w = abort
  shim_sigaltstack (some linux_ss) none w = do
    flags ← linux_to_freebsd_sigstack_flags c linux_ss.ss_flags
    ok (host.sigaltstack (record linux_ss { ss_flags = flags }) w)
