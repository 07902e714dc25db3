-- ===== src/Netdb.antt =====
-- src/libc/netdb.c: the flags and hints of name lookup, and what one entry of an address list is
-- converted to.
pub mod Copy
pub mod NodeLayout
pub mod CopyLaws
pub mod Calls
pub mod CallLaws
mod Tests
use libc6_shim.Prelude.{ℕ, bit_and, List, [], ◌∷◌, Option, ◌==◌}
use libc6_shim.Bits.{bit_not32}
use libc6_shim.CString.{CString}
use libc6_shim.Outcome.{Outcome, ok, abort, ◌>>=◌, ◌>>◌, assert, or_abort}
use libc6_shim.Flags.{Entry, ◌⇒◌, or_list, translate}
use libc6_shim.Switch.{select}
use libc6_shim.Socket.{SocketNumbers, linux_to_native_sock_type, native_to_linux_sock_type}
use libc6_shim.Socket.Address.{
  LinuxSockaddr, Sockaddr, native_to_linux_sockaddr_in, native_to_linux_sockaddr_in6,
  sizeof_linux_sockaddr_in, sizeof_linux_sockaddr_in6,
}

-- The constants of FreeBSD's netdb.h, and AF_UNSPEC.
pub record NetdbNumbers : Type 0 where
  pub af_unspec : ℕ
  pub ai_passive : ℕ
  pub ai_canonname : ℕ
  pub ai_numerichost : ℕ
  pub ai_v4mapped : ℕ
  pub ai_all : ℕ
  pub ai_addrconfig : ℕ
  pub ni_numerichost : ℕ
  pub ni_numericserv : ℕ
  pub ni_nofqdn : ℕ
  pub ni_namereqd : ℕ
  pub ni_dgram : ℕ

abbrev pub known_linux_ai_flags : ℕ
known_linux_ai_flags = or_list (0x01 ∷ 0x02 ∷ 0x04 ∷ 0x08 ∷ 0x10 ∷ 0x20 ∷ [])

-- The `if`s of `linux_to_native_ai_flags`.
abbrev pub ai_entries : NetdbNumbers → List Entry
ai_entries c =
    (0x01 ⇒ c.ai_passive)
    ∷ (0x02 ⇒ c.ai_canonname)
    ∷ (0x04 ⇒ c.ai_numerichost)
    ∷ (0x08 ⇒ c.ai_v4mapped)
    ∷ (0x10 ⇒ c.ai_all)
    ∷ (0x20 ⇒ c.ai_addrconfig)
    ∷ []

unfoldable pub linux_to_native_ai_flags : NetdbNumbers → ℕ → Outcome ℕ
linux_to_native_ai_flags c linux_flags = do
  assert (bit_and linux_flags (bit_not32 known_linux_ai_flags) == 0)
  ok (translate (ai_entries c) linux_flags 0)

abbrev pub known_linux_ni_flags : ℕ
known_linux_ni_flags = or_list (1 ∷ 2 ∷ 4 ∷ 8 ∷ 16 ∷ [])

-- The `if`s of `linux_to_native_ni_flags`.
abbrev pub ni_entries : NetdbNumbers → List Entry
ni_entries c =
    (1 ⇒ c.ni_numerichost)
    ∷ (2 ⇒ c.ni_numericserv)
    ∷ (4 ⇒ c.ni_nofqdn)
    ∷ (8 ⇒ c.ni_namereqd)
    ∷ (16 ⇒ c.ni_dgram)
    ∷ []

unfoldable pub linux_to_native_ni_flags : NetdbNumbers → ℕ → Outcome ℕ
linux_to_native_ni_flags c linux_flags = do
  assert (bit_and linux_flags (bit_not32 known_linux_ni_flags) == 0)
  ok (translate (ni_entries c) linux_flags 0)

-- The hints of either build. The fields that the source sets to 0 or NULL are left out.
pub record Hints : Type 0 where
  pub ai_family : ℕ
  pub ai_socktype : ℕ
  pub ai_protocol : ℕ
  pub ai_flags : ℕ

abbrev pub family_cases : SocketNumbers → NetdbNumbers → List Entry
family_cases s c = (0 ⇒ c.af_unspec) ∷ (2 ⇒ s.pf_inet) ∷ (10 ⇒ s.pf_inet6) ∷ []

-- The hints that `shim_getaddrinfo` hands on; without any from the program, those of its `else`.
unfoldable pub native_hints : SocketNumbers → NetdbNumbers → Option Hints → Outcome Hints
native_hints s c Option.none =
    ok (record { ai_family = c.af_unspec; ai_socktype = 0; ai_protocol = 0; ai_flags = 0 })
native_hints s c (Option.some linux_hints) = do
  family ← or_abort (select (family_cases s c) linux_hints.ai_family)
  type ← linux_to_native_sock_type s linux_hints.ai_socktype
  flags ← linux_to_native_ai_flags c linux_hints.ai_flags
  ok (record {
    ai_family = family;
    ai_socktype = type;
    ai_protocol = linux_hints.ai_protocol;
    ai_flags = flags;
  })

-- One entry of the native list. The constructor of the address stands for `ai_family`.
pub record Addrinfo : Type 0 where
  pub ai_socktype : ℕ
  pub ai_protocol : ℕ
  pub ai_canonname : Option CString
  pub ai_addr : Sockaddr

-- The `switch` of `copy_addrinfo`: the family, the length and the address in the Linux form.
unfoldable pub copy_addr : Sockaddr → Outcome (ℕ × ℕ × LinuxSockaddr)
copy_addr (Sockaddr.inet a) =
    ok (2, sizeof_linux_sockaddr_in, LinuxSockaddr.inet (native_to_linux_sockaddr_in a))
copy_addr (Sockaddr.inet6 a) =
    ok (10, sizeof_linux_sockaddr_in6, LinuxSockaddr.inet6 (native_to_linux_sockaddr_in6 a))
copy_addr (Sockaddr.un a) = abort
copy_addr (Sockaddr.other f) = abort
