-- ===== src/Socket/AddressLaws.antt =====
-- Addresses on the way to a native call and back.
use libc6_shim.Prelude.{ℕ, List, ◌≤◌, ◌<◌, ◌≡◌, refl, length, false, lt→ltb, le→leb, sym, arith}
use libc6_shim.Outcome.{ok}
use libc6_shim.CArray.{c_str, copy_bounded, c_str-IsString, c_str-copy_bounded}
use libc6_shim.Socket.{SocketNumbers}
use libc6_shim.Socket.Address.{
  LinuxSockaddr, Sockaddr, is_abstract, linux_to_native_sockaddr_un, native_to_linux_sockaddr_un,
  linux_to_native_sockaddr, native_to_linux_sockaddr, linux_to_native_sockaddr_in,
  linux_to_native_sockaddr_in6, native_to_linux_sockaddr_in, native_to_linux_sockaddr_in6,
  sizeof_linux_sockaddr_un, sizeof_linux_sockaddr_in, sizeof_linux_sockaddr_in6,
}

-- The same address: paths are compared as strings, since the bytes behind the nul are not copied.
abbrev pub SameAddress : LinuxSockaddr → LinuxSockaddr → Type 0
SameAddress (LinuxSockaddr.un p) (LinuxSockaddr.un q) = c_str p ≡ c_str q
SameAddress (LinuxSockaddr.inet a) (LinuxSockaddr.inet b) = a ≡ b
SameAddress (LinuxSockaddr.inet6 a) (LinuxSockaddr.inet6 b) = a ≡ b
SameAddress _ _ = ⊥

-- What the shim can convert and back: a pathname shorter than both arrays, or an internet address. It
-- also converts an abstract unix address, to a pathname, which is not converted back.
abbrev pub IsConvertible : ℕ → ℕ → LinuxSockaddr → Type 0
IsConvertible native linux (LinuxSockaddr.un p) =
    (is_abstract p ≡ false) × (length (c_str p) < native) × (length (c_str p) < linux)
IsConvertible native linux (LinuxSockaddr.inet a) = Unit {0}
IsConvertible native linux (LinuxSockaddr.inet6 a) = Unit {0}
IsConvertible native linux (LinuxSockaddr.other f) = ⊥

-- The buffers are large enough for every family.
pub record IsRoomy (c : SocketNumbers) (len linux_len : ℕ) : Type 0 where
  pub native_un : c.sizeof_sockaddr_un ≤ len
  pub native_in : c.sizeof_sockaddr_in ≤ len
  pub native_in6 : c.sizeof_sockaddr_in6 ≤ len
  pub linux : sizeof_linux_sockaddr_un ≤ linux_len

un_there :
    (dest path : List ℕ)
    → is_abstract path ≡ false
    → length (c_str path) < length dest
    → linux_to_native_sockaddr_un dest path
      ≡ ok (record { sun_len = 0; sun_path = copy_bounded dest (c_str path) })
unfolding linux_to_native_sockaddr_un
un_there dest path h k = rw (h, lt→ltb _ _ k) refl

-- An internet address of either version, or a unix address that is a pathname shorter than the two
-- destination arrays, is converted, and comes back from the native form as the same address, whatever
-- those arrays held, if the buffers are large enough.
pub sockaddr_round_trip :
    (c : SocketNumbers) (dest linux_dest : List ℕ) (len linux_len : ℕ) (a : LinuxSockaddr)
    → IsRoomy c len linux_len
    → IsConvertible (length dest) (length linux_dest) a
    → (n : Sockaddr) × (m : ℕ) × (b : LinuxSockaddr) × (k : ℕ) × (linux_to_native_sockaddr c dest
          len a
        ≡ ok (n, m))
      × (native_to_linux_sockaddr linux_dest linux_len n ≡ ok (b, k))
      × SameAddress a b
unfolding linux_to_native_sockaddr native_to_linux_sockaddr native_to_linux_sockaddr_un
sockaddr_round_trip c dest linux_dest len linux_len (LinuxSockaddr.un p) h (pathname, fits, fits') =
    let s = c_str p in
    let same : c_str (copy_bounded dest s) ≡ s =
      c_str-copy_bounded dest s (c_str-IsString p) fits in
    (
      Sockaddr.un (record { sun_len = 0; sun_path = copy_bounded dest s }),
      c.sizeof_sockaddr_un,
      LinuxSockaddr.un (copy_bounded linux_dest s),
      sizeof_linux_sockaddr_un,
      rw (le→leb _ _ h.native_un, un_there dest p pathname fits) refl,
      rw (le→leb _ _ h.linux, same, lt→ltb _ _ fits') refl,
      sym (c_str-copy_bounded linux_dest s (c_str-IsString p) fits'),
    )
sockaddr_round_trip c dest linux_dest len linux_len (LinuxSockaddr.inet a) h k = (
  Sockaddr.inet (linux_to_native_sockaddr_in a),
  c.sizeof_sockaddr_in,
  LinuxSockaddr.inet a,
  sizeof_linux_sockaddr_in,
  rw (le→leb _ _ h.native_in) refl,
  unfold linux_to_native_sockaddr_in native_to_linux_sockaddr_in in
      rw (le→leb sizeof_linux_sockaddr_in linux_len (omega (arith, h.linux))) refl,
  refl,
)
sockaddr_round_trip c dest linux_dest len linux_len (LinuxSockaddr.inet6 a) h k = (
  Sockaddr.inet6 (linux_to_native_sockaddr_in6 a),
  c.sizeof_sockaddr_in6,
  LinuxSockaddr.inet6 a,
  sizeof_linux_sockaddr_in6,
  rw (le→leb _ _ h.native_in6) refl,
  unfold linux_to_native_sockaddr_in6 native_to_linux_sockaddr_in6 in
      rw (le→leb sizeof_linux_sockaddr_in6 linux_len (omega (arith, h.linux))) refl,
  refl,
)
sockaddr_round_trip c dest linux_dest len linux_len (LinuxSockaddr.other f) h k = absurd k
