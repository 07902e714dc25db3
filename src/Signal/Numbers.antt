-- ===== src/Signal/Numbers.antt =====
-- Which signals have a native number.
use libc6_shim.Prelude.{ℕ, ◌<◌, ◌≡◌, ◌↔◌, ◌⊎◌, arith}
use libc6_shim.Signal.{SignalNumbers, minus_one, linux_to_freebsd_signo}

-- The Linux signals below 32 that the shim does not support.
abbrev pub IsUnsupported : ℕ → Type 0
IsUnsupported s =
    (s ≡ 7) ⊎ ((s ≡ 10) ⊎ ((s ≡ 12) ⊎ (((16 < s) × (s < 21)) ⊎ ((s ≡ 23) ⊎ ((s ≡ 29) ⊎ (s ≡ 31))))))

-- FreeBSD's SIGUSR1 has the number of Linux's SIGPWR, as the source notes, and its real-time
-- signals lie above the 31 standard ones.
pub record IsSignalNumbers (c : SignalNumbers) : Type 0 where
  pub usr1_is_pwr : c.sigusr1 ≡ 30
  pub above : 31 < c.sigrtmin
  pub is_int : c.sigrtmax < minus_one

-- Where the native real-time signals lie above 31: every signal number is passed on unchanged or refused with -1. Refused are exactly SIGBUS,
-- SIGUSR1, SIGUSR2, SIGCHLD to SIGTSTP, SIGURG, SIGIO and SIGSYS, and what lies above 31 and outside
-- the native real-time range.
pub signo_supported_iff :
    (c : SignalNumbers) (s : ℕ)
    → IsSignalNumbers c
    → ((linux_to_freebsd_signo c s ≡ minus_one) ⊎ (linux_to_freebsd_signo c s ≡ s))
      × ((linux_to_freebsd_signo c s ≡ minus_one)
          ↔ (IsUnsupported s ⊎ ((31 < s) × ((s < c.sigrtmin) ⊎ (c.sigrtmax < s)))))
unfolding linux_to_freebsd_signo
signo_supported_iff c s h = (ground arith, (ground arith, ground arith))
