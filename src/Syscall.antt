-- ===== src/Syscall.antt =====
-- src/libc/sys/syscall.c: system calls by number, for the 64-bit build.
pub mod Robust
pub mod Laws
mod Tests
use libc6_shim.Prelude.{ℕ, ◌%◌, ◌^◌, bit_and, List, [], ◌∷◌, ◌==◌, if◌then◌else◌}
use libc6_shim.Bits.{bit_not32}
use libc6_shim.CString.{CString}
use libc6_shim.Outcome.{Outcome, ok, abort, ◌>>=◌, ◌>>◌, assert}
use libc6_shim.Flags.{Entry, ◌⇒◌, or_list, translate}
use libc6_shim.Errno.{Errnos, native_to_linux_errno}
use libc6_shim.Process.{
  Process, minus_one, minus_one_ssize, convert_errno, report_error, sign_extend,
}
use libc6_shim.Redirect.{Redirection}
use libc6_shim.Fcntl.{FcntlNumbers}
use libc6_shim.Fcntl.Open.{NativeOpen, shim_open}
use libc6_shim.Time.{ClockNumbers, Timespec}
use libc6_shim.Time.Clock.{ClockHost, shim_clock_gettime}
use libc6_shim.Mman.{MmanNumbers, MmanHost, shim_mmap64}
use libc6_shim.Unistd.{UnistdHost, shim_pipe2}
use libc6_shim.Syscall.Robust.{RobustList, get_robust_list}

-- FreeBSD's constants: errors, operations of _umtx_op, flags of memfd_create.
pub record SyscallNumbers : Type 0 where
  pub eperm : ℕ
  pub enosys : ℕ
  pub umtx_op_wait : ℕ
  pub umtx_op_wake : ℕ
  pub sizeof_timespec : ℕ
  pub mfd_cloexec : ℕ
  pub mfd_allow_sealing : ℕ

-- `string` reads the string at an address.
pub record SyscallHost (W : Type 0) : Type 0 where
  pub string : ℕ → Process W → CString
  pub write : ℕ → ℕ → ℕ → Process W → ℕ × Process W
  pub getpid : Process W → ℕ × Process W
  pub fork : Process W → ℕ × Process W
  pub getthreadid : Process W → ℕ × Process W
  pub umtx_op : ℕ → ℕ → ℕ → ℕ → ℕ → Process W → ℕ × Process W
  pub thr_kill : ℕ → ℕ → Process W → ℕ × Process W
  pub getrandom : ℕ → ℕ → ℕ → Process W → ℕ × Process W
  pub memfd_create : CString → ℕ → Process W → ℕ × Process W

-- All that the calls behind `syscall` work with. `robust` is what get_robust_list finds and where its
-- thread's list is.
pub record Environment (W : Type 0) : Type 0 where
  pub numbers : SyscallNumbers
  pub errnos : Errnos
  pub fcntl : FcntlNumbers
  pub mman : MmanNumbers
  pub clocks : ClockNumbers
  pub procfs_redirects : List Redirection
  pub open_file : NativeOpen W
  pub mman_host : MmanHost W
  pub unistd_host : UnistdHost W
  pub clock_host : ClockHost W
  pub host : SyscallHost W
  pub robust_here : ℕ
  pub robust : RobustList

-- What is in the memory of the program where the call may write to it, after the call.
pub data Written : Type 0 where
  nothing : Written
  time : Timespec → Written
  descriptors : List ℕ → Written
  robust_list : RobustList → Written

-- `value` is the `long` that `syscall` returns.
pub record Returned (W : Type 0) : Type 0 where
  pub value : ℕ
  pub written : Written
  pub process : Process W

-- The result of a call that writes nothing, an `int`.
abbrev pub int_result : {W : Type 0} → ℕ × Process W → Returned W
int_result (r, p) = record { value = sign_extend r; written = nothing; process = p }

-- `va_arg(args, int)`
abbrev pub int_arg : ℕ → ℕ
int_arg a = a % 2 ^ 32

abbrev pub mfd_entries : SyscallNumbers → List Entry
mfd_entries c = (0x01 ⇒ c.mfd_cloexec) ∷ (0x02 ⇒ c.mfd_allow_sealing) ∷ []

-- The arguments are words, and `args i` is the one that the i-th `va_arg` reads.
module _ {W : Type 0} (env : Environment W) where
  -- The count of bytes is kept in an `int`.
  unfoldable pub syscall_write : (ℕ → ℕ) → Process W → Returned W
  syscall_write args p =
      let (n, q) = env.host.write (int_arg (args 0)) (args 1) (args 2) p in
      int_result (n % 2 ^ 32, q)

  unfoldable pub syscall_open : (ℕ → ℕ) → Process W → Outcome (Returned W)
  syscall_open args p = do
    r ←
        shim_open env.fcntl env.open_file env.procfs_redirects (env.host.string (args 0) p)
          (int_arg (args 1)) (int_arg (args 2)) p
    ok (int_result r)

  unfoldable pub syscall_mmap : (ℕ → ℕ) → Process W → Outcome (Returned W)
  syscall_mmap args p = do
    (address, q) ←
        shim_mmap64 env.mman env.mman_host
          (record { addr = args 0; len = args 1; prot = int_arg (args 2); offset = args 5 })
          (int_arg (args 3)) (int_arg (args 4)) p
    ok (record { value = address; written = nothing; process = q })

  -- FUTEX_WAIT_PRIVATE is 0x80, and FUTEX_WAKE_PRIVATE is 0x81.
  unfoldable pub futex_call : ℕ → ℕ → ℕ → ℕ → Process W → ℕ × Process W
  futex_call uaddr futex_op val timeout p =
      if futex_op == 0x80
      then env.host.umtx_op uaddr env.numbers.umtx_op_wait val env.numbers.sizeof_timespec timeout p
      else if futex_op == 0x81
      then env.host.umtx_op uaddr env.numbers.umtx_op_wake val 0 0 p
      else (minus_one, record p { errno = env.numbers.enosys })

  unfoldable pub syscall_futex : (ℕ → ℕ) → Process W → Returned W
  syscall_futex args p = int_result (
      report_error env.errnos minus_one
        (futex_call (args 0) (int_arg (args 1)) (args 2 % 2 ^ 32) (args 3) p))

  unfoldable pub syscall_clock_gettime : (ℕ → ℕ) → Process W → Outcome (Returned W)
  syscall_clock_gettime args p = do
    (err, tp, q) ← shim_clock_gettime env.clocks env.clock_host (int_arg (args 0)) p
    ok (record { value = sign_extend err; written = time tp; process = q })

  unfoldable pub syscall_tgkill : (ℕ → ℕ) → Process W → Outcome (Returned W)
  syscall_tgkill args p = do
    let (pid, q) = env.host.getpid p
    assert (int_arg (args 0) == pid)
    assert (int_arg (args 2) == 0)
    ok (int_result (env.host.thr_kill (int_arg (args 1)) (int_arg (args 2)) q))

  -- The `long` of get_robust_list is kept in an `int`.
  unfoldable pub syscall_get_robust_list : (ℕ → ℕ) → Process W → Outcome (Returned W)
  syscall_get_robust_list args p = do
    r ← get_robust_list env.robust_here (int_arg (args 0)) (args 1) (args 2) env.robust
    ok (record { value = sign_extend (r.result % 2 ^ 32); written = robust_list r; process = p })

  unfoldable pub syscall_pipe2 : (ℕ → ℕ) → Process W → Outcome (Returned W)
  syscall_pipe2 args p = do
    (err, fds, q) ← shim_pipe2 env.fcntl env.unistd_host (int_arg (args 1)) p
    ok (record { value = sign_extend err; written = descriptors fds; process = q })

  unfoldable pub syscall_getrandom : (ℕ → ℕ) → Process W → Returned W
  syscall_getrandom args p =
      let (n, q) = env.host.getrandom (args 0) (args 1) (int_arg (args 2)) p in
      int_result (n % 2 ^ 32, q)

  unfoldable pub syscall_memfd_create : (ℕ → ℕ) → Process W → Outcome (Returned W)
  syscall_memfd_create args p = do
    assert (bit_and (int_arg (args 1)) (bit_not32 (or_list (0x01 ∷ 0x02 ∷ 0x10 ∷ []))) == 0)
    ok (
        int_result (
          env.host.memfd_create (env.host.string (args 0) p)
            (translate (mfd_entries env.numbers) (int_arg (args 1)) 0) p))

  unfoldable pub shim_syscall : ℕ → (ℕ → ℕ) → Process W → Outcome (Returned W)
  shim_syscall number args p =
      if number == 1
      then ok (syscall_write args p)
      else if number == 2
      then syscall_open args p
      else if number == 9
      then syscall_mmap args p
      else if number == 39
      then ok (int_result (env.host.getpid p))
      else if number == 57
      then ok (int_result (env.host.fork p))
      else if number == 186
      then ok (int_result (env.host.getthreadid p))
      else if number == 125
      then ok (record {
        value = minus_one_ssize;
        written = nothing;
        process = record p { errno = native_to_linux_errno env.errnos env.numbers.eperm };
      })
      else if number == 202
      then ok (syscall_futex args p)
      else if number == 228
      then syscall_clock_gettime args p
      else if number == 234
      then syscall_tgkill args p
      else if number == 274
      then syscall_get_robust_list args p
      else if number == 293
      then syscall_pipe2 args p
      else if number == 318
      then ok (syscall_getrandom args p)
      else if number == 319
      then syscall_memfd_create args p
      else abort
