-- ===== src/Signal/Convert.antt =====
-- The flags of sigaction and sigaltstack, and the two action structs.
use libc6_shim.Prelude.{ℕ, bit_and, List, [], ◌∷◌, ◌==◌}
use libc6_shim.Bits.{bit_not32}
use libc6_shim.Outcome.{Outcome, ok, ◌>>=◌, ◌>>◌, assert}
use libc6_shim.Flags.{Entry, ◌⇒◌, translate, swap, or_list}
use libc6_shim.Signal.{SignalNumbers, LinuxSigaction, Sigaction}

abbrev pub known_linux_sigaction_flags : ℕ
known_linux_sigaction_flags = or_list (
    0x0000_0001 ∷ 0x0000_0002 ∷ 0x0000_0004 ∷ 0x0800_0000 ∷ 0x1000_0000 ∷ 0x4000_0000 ∷ 0x8000_0000
    ∷ [])

-- The `if`s of `linux_to_freebsd_sigaction_flags`.
abbrev pub sigaction_entries : SignalNumbers → List Entry
sigaction_entries c =
    (0x0000_0001 ⇒ c.sa_nocldstop)
    ∷ (0x0000_0002 ⇒ c.sa_nocldwait)
    ∷ (0x0000_0004 ⇒ c.sa_siginfo)
    ∷ (0x0800_0000 ⇒ c.sa_onstack)
    ∷ (0x1000_0000 ⇒ c.sa_restart)
    ∷ (0x4000_0000 ⇒ c.sa_nodefer)
    ∷ (0x8000_0000 ⇒ c.sa_resethand)
    ∷ []

-- The mask of the assertion in `freebsd_to_linux_sigaction_flags`.
abbrev pub known_native_sigaction_flags : SignalNumbers → ℕ
known_native_sigaction_flags c = or_list (
    c.sa_nocldstop ∷ c.sa_nocldwait ∷ c.sa_siginfo ∷ c.sa_onstack ∷ c.sa_restart ∷ c.sa_nodefer
    ∷ c.sa_resethand ∷ [])

unfoldable pub linux_to_freebsd_sigaction_flags : SignalNumbers → ℕ → Outcome ℕ
linux_to_freebsd_sigaction_flags c linux_flags = do
  assert (bit_and linux_flags (bit_not32 known_linux_sigaction_flags) == 0)
  ok (translate (sigaction_entries c) linux_flags 0)

unfoldable pub freebsd_to_linux_sigaction_flags : SignalNumbers → ℕ → Outcome ℕ
freebsd_to_linux_sigaction_flags c flags = do
  assert (bit_and flags (bit_not32 (known_native_sigaction_flags c)) == 0)
  ok (translate (swap (sigaction_entries c)) flags 0)

unfoldable pub linux_to_native_sigaction : SignalNumbers → LinuxSigaction → Outcome Sigaction
linux_to_native_sigaction c src = do
  flags ← linux_to_freebsd_sigaction_flags c src.sa_flags
  ok (record { sa_handler = src.linux_sa_handler; sa_mask = src.sa_mask.head; sa_flags = flags })

-- The first argument is what the destination holds: `memcpy` writes `sizeof(sigset_t)` bytes of
-- its mask.
unfoldable pub native_to_linux_sigaction :
    SignalNumbers → LinuxSigaction → Sigaction → Outcome LinuxSigaction
native_to_linux_sigaction c dst src = do
  linux_flags ← freebsd_to_linux_sigaction_flags c src.sa_flags
  ok (record {
    linux_sa_handler = src.sa_handler;
    sa_mask = record { head = src.sa_mask; rest = dst.sa_mask.rest };
    sa_flags = linux_flags;
  })

abbrev pub known_linux_sigstack_flags : ℕ
known_linux_sigstack_flags = or_list (1 ∷ 2 ∷ [])

unfoldable pub linux_to_freebsd_sigstack_flags : SignalNumbers → ℕ → Outcome ℕ
linux_to_freebsd_sigstack_flags c linux_flags = do
  assert (bit_and linux_flags (bit_not32 known_linux_sigstack_flags) == 0)
  ok (translate ((1 ⇒ c.ss_onstack) ∷ (2 ⇒ c.ss_disable) ∷ []) linux_flags 0)
