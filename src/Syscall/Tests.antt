-- ===== src/Syscall/Tests.antt =====
-- The theorem on futex at a concrete input.
use libc6_shim.Prelude.{ℕ, ◌≡◌, ◌≢◌, ◌⊎◌, [], ◌==◌, if◌then◌else◌, arith}
use libc6_shim.CString.{codes}
use libc6_shim.Outcome.{ok}
use libc6_shim.Process.{Process, minus_one}
use libc6_shim.Errno.Tests.{freebsd_errnos}
use libc6_shim.Fcntl.Tests.{freebsd}
use libc6_shim.Time.Tests.{freebsd as freebsd_clocks}
use libc6_shim.Mman.Tests.{freebsd_mman, mapper}
use libc6_shim.Syscall.{
  SyscallNumbers, SyscallHost, Environment, Returned, int_arg, futex_call, shim_syscall,
}
use libc6_shim.Syscall.Laws.{Answers, futex-Answers}

abbrev freebsd_calls : SyscallNumbers
freebsd_calls = record {
  eperm = 1;
  enosys = 78;
  umtx_op_wait = 2;
  umtx_op_wake = 3;
  sizeof_timespec = 16;
  mfd_cloexec = 1;
  mfd_allow_sealing = 2;
}

-- A system where a wait times out (ETIMEDOUT, 60), and a wake finds no one.
abbrev quiet : SyscallHost ℕ
quiet = record {
  string = λ a p. codes "x";
  write = λ fd buf n p. (n, p);
  getpid = λ p. (12, p);
  fork = λ p. (13, p);
  getthreadid = λ p. (100, p);
  umtx_op =
      λ a op v size timeout p. if op == 2 then (minus_one, record p { errno = 60 }) else (0, p);
  thr_kill = λ tid sig p. (0, p);
  getrandom = λ buf n flags p. (n, p);
  memfd_create = λ name flags p. (5, p);
}

abbrev start : Process ℕ
start = record { errno = 0; world = 0 }

abbrev environment : Environment ℕ
environment = record {
  numbers = freebsd_calls;
  errnos = freebsd_errnos;
  fcntl = freebsd;
  mman = freebsd_mman;
  clocks = freebsd_clocks;
  procfs_redirects = [];
  open_file = λ path flags mode p. (3, p);
  mman_host = mapper;
  unistd_host = record {
    chown = λ path owner group p. (0, p);
    sysconf = λ name p. (0, p);
    pipe2 = λ flags p. (0, [], p);
    access = λ path mode p. (0, p);
    getopt = λ argv optstring o. (minus_one, o);
  };
  clock_host = record {
    clock_gettime = λ clock p. (0, record { tv_sec = 1; tv_nsec = 2 }, p);
    clock_settime = λ clock t p. (0, p);
    clock_getres = λ clock p. (0, record { tv_sec = 0; tv_nsec = 1 }, p);
  };
  host = quiet;
  robust_here = 64;
  robust = record {
    result = 0;
    list_head = 0;
    struct_len = 0;
    pthread = record { robust_prev = 0; list = 0; futex_offset = 0; list_op_pending = 0 };
  };
}

-- FUTEX_WAIT_PRIVATE on the address 4096, for the value 1.
abbrev wait_args : ℕ → ℕ
wait_args i = if i == 0 then 4096 else if i == 1 then 0x80 else if i == 2 then 1 else 0

futex-Answers_example :
    (r : ℕ) × (q : Process ℕ) × (got : Returned ℕ) × (shim_syscall environment 202 wait_args start
      ≡ ok got)
    × Answers environment (r, q) got
    × (((int_arg (wait_args 1) ≡ 0x80) × (quiet.umtx_op 4096 2 1 16 0 start ≡ (r, q)))
        ⊎ (((int_arg (wait_args 1) ≡ 0x81) × (quiet.umtx_op 4096 3 1 0 0 start ≡ (r, q)))
            ⊎ ((int_arg (wait_args 1) ≢ 0x80)
                × (int_arg (wait_args 1) ≢ 0x81)
                × (r ≡ minus_one)
                × (q ≡ record start { errno = 78 }))))
unfolding futex_call
futex-Answers_example = futex-Answers environment wait_args start (omega arith)
