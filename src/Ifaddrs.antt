-- ===== src/Ifaddrs.antt =====
-- src/libc/ifaddrs.c: the flags and the addresses of network interfaces.
pub mod Copy
pub mod NodeLayout
pub mod FreeLaws
pub mod CopyLaws
pub mod Calls
mod Tests
use libc6_shim.Prelude.{ℕ, List, [], ◌∷◌, Option, none, some}
use libc6_shim.CString.{CString}
use libc6_shim.Outcome.{Outcome, ok, abort, ◌>>=◌}
use libc6_shim.Flags.{Entry, ◌⇒◌, translate}
use libc6_shim.Socket.Address.{
  LinuxSockaddr, Sockaddr, native_to_linux_sockaddr_in, native_to_linux_sockaddr_in6,
}

-- The constants of FreeBSD's net/if.h.
pub record InterfaceNumbers : Type 0 where
  pub iff_up : ℕ
  pub iff_broadcast : ℕ
  pub iff_debug : ℕ
  pub iff_loopback : ℕ
  pub iff_pointopoint : ℕ
  pub iff_running : ℕ
  pub iff_noarp : ℕ
  pub iff_promisc : ℕ
  pub iff_allmulti : ℕ
  pub iff_multicast : ℕ

-- The `if`s of `native_to_linux_if_flags`.
abbrev pub if_entries : InterfaceNumbers → List Entry
if_entries c =
    (c.iff_up ⇒ 0x0001)
    ∷ (c.iff_broadcast ⇒ 0x0002)
    ∷ (c.iff_debug ⇒ 0x0004)
    ∷ (c.iff_loopback ⇒ 0x0008)
    ∷ (c.iff_pointopoint ⇒ 0x0010)
    ∷ (c.iff_running ⇒ 0x0040)
    ∷ (c.iff_noarp ⇒ 0x0080)
    ∷ (c.iff_promisc ⇒ 0x0100)
    ∷ (c.iff_allmulti ⇒ 0x0200)
    ∷ (c.iff_multicast ⇒ 0x1000)
    ∷ []

unfoldable pub native_to_linux_if_flags : InterfaceNumbers → ℕ → ℕ
native_to_linux_if_flags c flags = translate (if_entries c) flags 0

pub record LinuxSockaddrLl : Type 0 where
  pub sll_protocol : ℕ
  pub sll_ifindex : ℕ
  pub sll_hatype : ℕ
  pub sll_pkttype : ℕ
  pub sll_halen : ℕ
  pub sll_addr : List ℕ

-- The address of an interface: of AF_LINK, of which the source reads `sdl_index`, or a socket
-- address; and of LINUX_AF_PACKET, or a Linux socket address.
pub data InterfaceAddress : Type 0 where
  dl : ℕ → InterfaceAddress
  sock : Sockaddr → InterfaceAddress

pub data LinuxInterfaceAddress : Type 0 where
  ll : LinuxSockaddrLl → LinuxInterfaceAddress
  sock : LinuxSockaddr → LinuxInterfaceAddress

unfoldable pub native_to_linux_sockaddr_dl : ℕ → LinuxSockaddrLl
native_to_linux_sockaddr_dl sdl_index = record {
  sll_protocol = 0;
  sll_ifindex = sdl_index;
  sll_hatype = 0;
  sll_pkttype = 0;
  sll_halen = 0;
  sll_addr = 0 ∷ 0 ∷ 0 ∷ 0 ∷ 0 ∷ 0 ∷ 0 ∷ 0 ∷ [];
}

-- The `switch` on the family of `ifa_netmask`.
unfoldable pub copy_netmask : InterfaceAddress → Outcome LinuxInterfaceAddress
copy_netmask (InterfaceAddress.dl i) = abort
copy_netmask (InterfaceAddress.sock (Sockaddr.inet a)) =
    ok (LinuxInterfaceAddress.sock (LinuxSockaddr.inet (native_to_linux_sockaddr_in a)))
copy_netmask (InterfaceAddress.sock (Sockaddr.inet6 a)) =
    ok (LinuxInterfaceAddress.sock (LinuxSockaddr.inet6 (native_to_linux_sockaddr_in6 a)))
copy_netmask (InterfaceAddress.sock (Sockaddr.un a)) = abort
copy_netmask (InterfaceAddress.sock (Sockaddr.other f)) = abort

-- The `switch` on the family of `ifa_addr`, which has one case more.
unfoldable pub copy_address : InterfaceAddress → Outcome LinuxInterfaceAddress
copy_address (InterfaceAddress.dl i) = ok (LinuxInterfaceAddress.ll (native_to_linux_sockaddr_dl i))
copy_address (InterfaceAddress.sock a) = copy_netmask (InterfaceAddress.sock a)

-- One entry of the native list, without what the source does not read.
pub record Ifaddrs : Type 0 where
  pub ifa_name : CString
  pub ifa_flags : ℕ
  pub ifa_addr : Option InterfaceAddress
  pub ifa_netmask : Option InterfaceAddress

-- An address that may be NULL.
abbrev pub copy_optional :
    (InterfaceAddress → Outcome LinuxInterfaceAddress)
    → Option InterfaceAddress
    → Outcome (Option LinuxInterfaceAddress)
copy_optional convert none = ok none
copy_optional convert (some a) = convert a >>= λ b. ok (some b)
