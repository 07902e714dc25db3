-- ===== src/Signal/Actions.antt =====
-- What a program that installs a signal action gets back when it asks for it.
use libc6_shim.Prelude.{ℕ, ◌^◌, ◌<◌, ◌≡◌, bit_and, refl, List, [], ◌∷◌, ap, arith}
use libc6_shim.Bits.{bit_not32}
use libc6_shim.Outcome.{ok}
use libc6_shim.Flags.{Entry, translate, AtomSources, SeparateTargets}
use libc6_shim.Flags.Known.{
  translate-known, translate-swap_known, AtomSources-of_bits, TargetsWithin-targets,
}
use libc6_shim.Signal.{SignalNumbers}
use libc6_shim.Signal.Convert.{
  known_linux_sigaction_flags, known_native_sigaction_flags, sigaction_entries,
  linux_to_freebsd_sigaction_flags, freebsd_to_linux_sigaction_flags,
}

-- The native flags are not empty, share no bits and fit an `int`.
pub record IsSigactionFlags (c : SignalNumbers) : Type 0 where
  pub separate : SeparateTargets (sigaction_entries c)
  pub fits : known_native_sigaction_flags c < 2 ^ 32

abbrev pub IsKnown : ℕ → Type 0
IsKnown x = (x < 2 ^ 32) × (bit_and x (bit_not32 known_linux_sigaction_flags) ≡ 0)

-- For native flags that are not empty and share no bits: known flags have a native form, which is converted back to the same flags.
pub sigaction_flags_round_trip :
    (c : SignalNumbers) (x : ℕ)
    → IsSigactionFlags c
    → IsKnown x
    → (y : ℕ) × (linux_to_freebsd_sigaction_flags c x ≡ ok y)
      × (freebsd_to_linux_sigaction_flags c y ≡ ok x)
unfolding linux_to_freebsd_sigaction_flags freebsd_to_linux_sigaction_flags
sigaction_flags_round_trip c x h k = (
  translate (sigaction_entries c) x 0,
  rw k.1 refl,
  rw (translate-known t x (known_native_sigaction_flags c) h.fits (TargetsWithin-targets t))
      (ap ok (translate-swap_known t x k.0 (omega arith) atoms h.separate k.1)),
)
  where
    t : List Entry
    t = sigaction_entries c

    atoms : AtomSources t
    atoms = AtomSources-of_bits (0 ∷ 1 ∷ 2 ∷ 27 ∷ 28 ∷ 30 ∷ 31 ∷ []) t refl
