-- ===== src/Socket/Types.antt =====
-- Socket types: a number in the low byte, and two flags above it.
use libc6_shim.Prelude.{eq→==, ℕ, ◌≡◌, bit_and, bit_or, List, [], ◌∷◌, refl, ◌∙◌, sym, ap, ap₂}
use libc6_shim.Bits.{bit_and_assoc, bit_and-zero, bit_and-bit_or, bit_and-bit_or_right, bit_or-zero}
use libc6_shim.Flags.{or_list, Entry, translate, swap, sources, Apart, SeparateTargets}
use libc6_shim.Flags.Laws.{translate-acc, bit_and-translate-Apart}
use libc6_shim.Flags.RoundTrip.{Agrees, swap-collects, translate-Agrees}
use libc6_shim.Flags.Known.{Within-or_list, Within-translate, AtomSources-of_bits}
use libc6_shim.Outcome.{ok}
use libc6_shim.Socket.{
  known_native_socket_types, linux_to_native_sock_type, native_to_linux_sock_type, SocketNumbers,
  known_linux_socket_types, type_entries,
}

-- The native flags are not empty, share no bits, and lie above the low byte.
pub record IsTypeFlags (c : SocketNumbers) : Type 0 where
  pub separate : SeparateTargets (type_entries c)
  pub above : Apart 0xff (type_entries c)

-- The low byte of a converted type is that of the Linux type.
low_byte :
    (c : SocketNumbers) (x : ℕ)
    → IsTypeFlags c
    → bit_and (translate (type_entries c) x (bit_and x 0xff)) 0xff ≡ bit_and x 0xff
low_byte c x h =
    rw
      (
        translate-acc (type_entries c) x (bit_and x 0xff),
        bit_and-bit_or (bit_and x 0xff) (translate (type_entries c) x 0) 0xff,
        bit_and-translate-Apart 0xff (type_entries c) x h.above,
        bit_or-zero (bit_and (bit_and x 0xff) 0xff),
        bit_and_assoc x 0xff 0xff,
      )
      refl

low-Apart : (x : ℕ) (t : List Entry) → Apart 0xff t → Apart (bit_and x 0xff) t
low-Apart x [] h = tt
low-Apart x (e ∷ t) h =
    (bit_and_assoc x 0xff e.target ∙ ap (bit_and x) h.0 ∙ bit_and-zero x, low-Apart x t h.1)

-- The known types lie in the low byte and the two flags.
covered : (x : ℕ) → bit_and x known_linux_socket_types ≡ x → bit_and x 0x808ff ≡ x
covered x known =
    sym (ap (λ z. bit_and z 0x808ff) known)
    ∙ bit_and_assoc x known_linux_socket_types 0x808ff
    ∙ known

-- There and back without the checks.
both_ways :
    (c : SocketNumbers) (x : ℕ)
    → IsTypeFlags c
    → bit_and x known_linux_socket_types ≡ x
    → let y = translate (type_entries c) x (bit_and x 0xff) in
      translate (swap (type_entries c)) y (bit_and y 0xff) ≡ x
both_ways c x h known =
    let t : List Entry = type_entries c in
    let y = translate t x (bit_and x 0xff) in
    let agrees : Agrees t y x =
      rw (translate-acc t x (bit_and x 0xff))
        (translate-Agrees t x (bit_and x 0xff) h.separate (low-Apart x t h.above)) in
    translate-acc (swap t) y (bit_and y 0xff)
    ∙ ap₂ bit_or (low_byte c x h)
        (swap-collects t x y (AtomSources-of_bits (11 ∷ 19 ∷ []) t refl) agrees)
    ∙ sym (bit_and-bit_or_right x 0xff (sources t))
    ∙ covered x known

seven-Apart : (f : ℕ) → bit_and 0xff f ≡ 0 → bit_and 7 f ≡ 0
seven-Apart f h = bit_and_assoc 7 0xff f ∙ ap (bit_and 7) h ∙ bit_and-zero 7

-- The three lowest bits are known on the native side, as the types 1, 2, 3 and 5 together.
seven-Within : (c : SocketNumbers) → IsTypeFlags c → bit_and 7 (known_native_socket_types c) ≡ 7
seven-Within c h =
    rw
      (
        bit_and-bit_or_right 7 1 (or_list (2 ∷ 3 ∷ 5 ∷ c.sock_nonblock ∷ c.sock_cloexec ∷ [])),
        bit_and-bit_or_right 7 2 (or_list (3 ∷ 5 ∷ c.sock_nonblock ∷ c.sock_cloexec ∷ [])),
        bit_and-bit_or_right 7 3 (or_list (5 ∷ c.sock_nonblock ∷ c.sock_cloexec ∷ [])),
        bit_and-bit_or_right 7 5 (or_list (c.sock_nonblock ∷ c.sock_cloexec ∷ [])),
        bit_and-bit_or_right 7 c.sock_nonblock (or_list (c.sock_cloexec ∷ [])),
        bit_and-bit_or_right 7 c.sock_cloexec 0,
        seven-Apart c.sock_nonblock h.above.0,
        seven-Apart c.sock_cloexec h.above.1.0,
      )
      refl

low_byte_of_known : (x : ℕ) → bit_and x known_linux_socket_types ≡ x → bit_and x 0xff ≡ bit_and x 7
low_byte_of_known x known =
    sym (ap (λ z. bit_and z 0xff) known) ∙ bit_and_assoc x known_linux_socket_types 0xff

native_known :
    (c : SocketNumbers) (x : ℕ)
    → IsTypeFlags c
    → bit_and x known_linux_socket_types ≡ x
    → let y = translate (type_entries c) x (bit_and x 0xff) in
      bit_and y (known_native_socket_types c) ≡ y
native_known c x h known =
    rw
      (
        translate-acc t x (bit_and x 0xff),
        bit_and-bit_or (bit_and x 0xff) (translate t x 0) m,
        Within-translate t x m (Within-or_list fs 4 _ refl, (Within-or_list fs 5 _ refl, tt)),
        low_byte_of_known x known,
        bit_and_assoc x 7 m,
        seven-Within c h,
      )
      refl
  where
    t : List Entry
    t = type_entries c

    fs : List ℕ
    fs = 1 ∷ 2 ∷ 3 ∷ 5 ∷ c.sock_nonblock ∷ c.sock_cloexec ∷ []

    m : ℕ
    m = known_native_socket_types c

-- For native flags that are disjoint and lie above the low byte: every known Linux socket type is
-- converted without an abort, and what it is converted to is accepted by the conversion back and
-- gives the same type.
pub sock_type_round_trip :
    (c : SocketNumbers) (x : ℕ)
    → IsTypeFlags c
    → bit_and x known_linux_socket_types ≡ x
    → (y : ℕ) × (linux_to_native_sock_type c x ≡ ok y) × (native_to_linux_sock_type c y ≡ ok x)
unfolding linux_to_native_sock_type native_to_linux_sock_type
sock_type_round_trip c x h known =
    let y = translate (type_entries c) x (bit_and x 0xff) in
    (
      y,
      rw (eq→== _ _ known) refl,
      rw (eq→== _ _ (native_known c x h known)) (ap ok (both_ways c x h known)),
    )
