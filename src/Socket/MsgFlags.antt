-- ===== src/Socket/MsgFlags.antt =====
-- Message flags on the way to a native call and back.
use libc6_shim.Prelude.{ℕ, ◌^◌, ◌<◌, ◌≡◌, bit_and, List, [], ◌∷◌, refl, ap, arith}
use libc6_shim.Bits.{bit_not32}
use libc6_shim.Outcome.{ok}
use libc6_shim.Flags.{Entry, sources, translate, Apart, AtomSources, SeparateTargets, TargetsWithin}
use libc6_shim.Flags.Laws.{bit_and-translate-Apart}
use libc6_shim.Flags.Known.{
  translate-known, translate-swap_known, AtomSources-of_bits, Within-or_list,
}
use libc6_shim.Socket.{
  SocketNumbers, known_linux_msg_flags, native_msg_flags, known_native_msg_flags, msg_entries,
  linux_to_native_msg_flags, native_to_linux_msg_flags,
}

-- The native flags are not empty, share no bits, MSG_EOF's included, and fit an `int`.
pub record IsMsgFlags (c : SocketNumbers) : Type 0 where
  pub separate : SeparateTargets (msg_entries c)
  pub eof_apart : Apart c.msg_eof (msg_entries c)
  pub fits : known_native_msg_flags c < 2 ^ 32

native-TargetsWithin :
    (c : SocketNumbers) → TargetsWithin (msg_entries c) (known_native_msg_flags c)
native-TargetsWithin c = (
  Within-or_list (native_msg_flags c) 0 _ refl,
  (
    Within-or_list (native_msg_flags c) 1 _ refl,
    (
      Within-or_list (native_msg_flags c) 2 _ refl,
      (
        Within-or_list (native_msg_flags c) 3 _ refl,
        (
          Within-or_list (native_msg_flags c) 4 _ refl,
          (
            Within-or_list (native_msg_flags c) 5 _ refl,
            (
              Within-or_list (native_msg_flags c) 6 _ refl,
              (
                Within-or_list (native_msg_flags c) 8 _ refl,
                (
                  Within-or_list (native_msg_flags c) 9 _ refl,
                  (
                    Within-or_list (native_msg_flags c) 10 _ refl,
                    (Within-or_list (native_msg_flags c) 11 _ refl, tt),
                  ),
                ),
              ),
            ),
          ),
        ),
      ),
    ),
  ),
)

linux_fits : (c : SocketNumbers) → sources (msg_entries c) < 2 ^ 32
linux_fits c = omega arith

-- For native flags that are disjoint: every Linux word of known message flags is converted without
-- an abort, and what it is converted to is accepted by the conversion back and gives the same word.
pub msg_flags_round_trip :
    (c : SocketNumbers) (x : ℕ)
    → IsMsgFlags c
    → x < 2 ^ 32
    → bit_and x (bit_not32 known_linux_msg_flags) ≡ 0
    → (y : ℕ) × (linux_to_native_msg_flags c x ≡ ok y) × (native_to_linux_msg_flags c y ≡ ok x)
unfolding linux_to_native_msg_flags native_to_linux_msg_flags
msg_flags_round_trip c x h small known = (
  translate t x 0,
  rw known refl,
  rw
      (
        translate-known t x (known_native_msg_flags c) h.fits (native-TargetsWithin c),
        bit_and-translate-Apart c.msg_eof t x h.eof_apart,
      )
      (ap ok (translate-swap_known t x small (linux_fits c) atoms h.separate known)),
)
  where
    t : List Entry
    t = msg_entries c

    atoms : AtomSources t
    atoms = AtomSources-of_bits (0 ∷ 1 ∷ 2 ∷ 3 ∷ 5 ∷ 6 ∷ 7 ∷ 8 ∷ 14 ∷ 16 ∷ 30 ∷ []) t refl
