-- ===== src/Fcntl/CommandLaws.antt =====
-- The flags of F_SETFL and F_GETFL.
use libc6_shim.Prelude.{ℕ, ◌<◌, ◌^◌, bit_and, List, [], ◌∷◌, ◌≡◌, refl, ap, arith}
use libc6_shim.Bits.{bit_not32}
use libc6_shim.Outcome.{ok}
use libc6_shim.Flags.{Entry, translate, or_list, Apart, AtomSources, SeparateTargets, TargetsWithin}
use libc6_shim.Flags.Laws.{bit_and-translate-Apart}
use libc6_shim.Flags.Known.{
  translate-known, translate-swap_known, AtomSources-of_bits, Within-or_list,
}
use libc6_shim.Fcntl.{FcntlNumbers, linux_o_wronly, linux_o_rdwr, linux_o_nonblock}
use libc6_shim.Fcntl.Commands.{setfl_entries, native_to_linux_fl, linux_to_native_fl}

abbrev getfl_mask : FcntlNumbers → List ℕ
getfl_mask c = linux_o_wronly ∷ c.o_rdwr ∷ c.o_nonblock ∷ []

-- The native flags are not empty, share no bits, and fit an `int`.
pub record IsFlFlags (c : FcntlNumbers) : Type 0 where
  pub separate : SeparateTargets (setfl_entries c)
  pub wronly_apart : Apart c.o_wronly (setfl_entries c)
  pub fits : or_list (linux_o_wronly ∷ c.o_rdwr ∷ c.o_nonblock ∷ []) < 2 ^ 32

mask-TargetsWithin : (c : FcntlNumbers) → TargetsWithin (setfl_entries c) (or_list (getfl_mask c))
mask-TargetsWithin c =
    (Within-or_list (getfl_mask c) 1 _ refl, (Within-or_list (getfl_mask c) 2 _ refl, tt))

-- For native flags that are not empty and share no bits: a word that F_SETFL accepts is converted without an abort to one that F_GETFL accepts and
-- converts back to the same word.
pub fl_round_trip :
    (c : FcntlNumbers) (x : ℕ)
    → IsFlFlags c
    → x < 2 ^ 32
    → bit_and x (bit_not32 (or_list (linux_o_rdwr ∷ linux_o_nonblock ∷ []))) ≡ 0
    → (y : ℕ) × (linux_to_native_fl c x ≡ ok y) × (native_to_linux_fl c y ≡ ok x)
unfolding linux_to_native_fl native_to_linux_fl translate
fl_round_trip c x h small known = (
  translate t x 0,
  rw known refl,
  rw
      (
        translate-known t x (or_list (getfl_mask c)) h.fits (mask-TargetsWithin c),
        bit_and-translate-Apart c.o_wronly t x h.wronly_apart,
      )
      (ap ok (translate-swap_known t x small (omega arith) atoms h.separate known)),
)
  where
    t : List Entry
    t = setfl_entries c

    atoms : AtomSources t
    atoms = AtomSources-of_bits (1 ∷ 11 ∷ []) t refl
