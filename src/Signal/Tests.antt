-- ===== src/Signal/Tests.antt =====
-- FreeBSD's numbers, a system that keeps the actions, and the theorems at concrete inputs.
use libc6_shim.Prelude.{ℕ, ◌≡◌, ◌≢◌, ◌⊎◌, none, some, ◌==◌, if◌then◌else◌, refl, arith}
use libc6_shim.Outcome.{ok}
use libc6_shim.Signal.{SignalNumbers, LinuxSigaction, Sigaction, minus_one, linux_to_freebsd_signo}
use libc6_shim.Signal.Convert.{linux_to_freebsd_sigaction_flags, freebsd_to_linux_sigaction_flags}
use libc6_shim.Signal.Calls.{Host, ShimSigactionResult, shim_sigaction}
use libc6_shim.Signal.Numbers.{IsSignalNumbers}
use libc6_shim.Signal.Actions.{IsSigactionFlags, sigaction_flags_round_trip}
use libc6_shim.Signal.Query.{read_back, StoresActions, install_then_query}

abbrev freebsd : SignalNumbers
freebsd = record {
  sigrtmin = 65;
  sigrtmax = 126;
  sigusr1 = 30;
  sig_dfl = 0;
  sig_block = 1;
  sig_unblock = 2;
  sig_setmask = 3;
  sa_nocldstop = 8;
  sa_nocldwait = 0x20;
  sa_siginfo = 0x40;
  sa_onstack = 1;
  sa_restart = 2;
  sa_nodefer = 0x10;
  sa_resethand = 4;
  ss_onstack = 1;
  ss_disable = 4;
}

freebsd-IsSignalNumbers : IsSignalNumbers freebsd
freebsd-IsSignalNumbers = omega arith

freebsd-IsSigactionFlags : IsSigactionFlags freebsd
freebsd-IsSigactionFlags = omega arith

-- SA_SIGINFO | SA_RESTART
sigaction_flags_round_trip_example :
    (y : ℕ) × (linux_to_freebsd_sigaction_flags freebsd 0x1000_0004 ≡ ok y)
    × (freebsd_to_linux_sigaction_flags freebsd y ≡ ok 0x1000_0004)
sigaction_flags_round_trip_example =
    sigaction_flags_round_trip freebsd 0x1000_0004 freebsd-IsSigactionFlags (omega arith, refl)

-- The state is the action of each signal.
abbrev keeping : Host (ℕ → Sigaction)
keeping = record {
  kill = λ pid sig w. (0, w);
  raise = λ sig w. (0, w);
  signal = λ sig func w. (0, w);
  sigaction = λ sig act w. elim act [
    | none ↦ record { err = 0; old = w sig; world = w }
    | some a ↦ record { err = 0; old = w sig; world = λ s. if s == sig then a else w s }
  ];
  sigemptyset = 0;
  sigaddset = λ set sig. (0, set);
  sigdelset = λ set sig. (0, set);
  sigismember = λ set sig. 0;
  sigprocmask = λ how set w. (0, 0, w);
  sigaltstack = λ ss w. (0, w);
}

keeping-StoresActions : StoresActions freebsd keeping
keeping-StoresActions sig a w storable fine = (omega arith, ground arith)

abbrev handler : LinuxSigaction
handler = record {
  linux_sa_handler = 0x4000;
  sa_mask = record { head = 5; rest = 7 };
  sa_flags = 0x1000_0004;
}

abbrev blank : LinuxSigaction
blank = record { linux_sa_handler = 1; sa_mask = record { head = 0; rest = 9 }; sa_flags = 0 }

abbrev initial : ℕ → Sigaction
initial s = record { sa_handler = 0; sa_mask = 0; sa_flags = 0 }

install_then_query_example :
    (r : ShimSigactionResult (ℕ → Sigaction)) × (shim_sigaction freebsd keeping 2
        (some handler)
        none
        initial
      ≡ ok r)
    × ((r.err ≡ minus_one)
        ⊎ ((q : ShimSigactionResult (ℕ → Sigaction)) × (shim_sigaction freebsd keeping 2 none
                (some blank)
                r.world
              ≡ ok q)
            × (q.err ≢ minus_one)
            × (q.oact ≡ some (read_back handler blank))))
unfolding linux_to_freebsd_signo
install_then_query_example =
    install_then_query freebsd keeping 2 handler blank initial freebsd-IsSigactionFlags
      keeping-StoresActions (omega arith, refl) refl refl refl (omega arith) (omega arith)
      (omega arith) (omega arith) (omega arith)
