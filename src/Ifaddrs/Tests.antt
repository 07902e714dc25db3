-- ===== src/Ifaddrs/Tests.antt =====
-- FreeBSD's numbers, and the theorems of the interface list at concrete inputs.
use libc6_shim.Prelude.{ℕ, [], ◌∷◌, ◌≡◌, refl, Option, none, some, ◌==◌, if◌then◌else◌, arith}
use libc6_shim.Outcome.{ok}
use libc6_shim.CString.{codes}
use libc6_shim.Process.{Process}
use libc6_shim.Memory.{Memory}
use libc6_shim.Linked.Layout.{IsChain}
use libc6_shim.Flags.{translate}
use libc6_shim.Socket.Address.{LinuxSockaddr, Sockaddr, SockaddrIn, native_to_linux_sockaddr_in}
use libc6_shim.Ifaddrs.{
  InterfaceNumbers, Ifaddrs, InterfaceAddress, LinuxInterfaceAddress, copy_address, copy_netmask,
  native_to_linux_if_flags, native_to_linux_sockaddr_dl,
}
use libc6_shim.Ifaddrs.Copy.{Cell}
use libc6_shim.Ifaddrs.NodeLayout.{LinuxIfaddrs, ifaddrs_layout}
use libc6_shim.Ifaddrs.Calls.{
  Interfaces, shim_getifaddrs, shim_freeifaddrs, getifaddrs_then_freeifaddrs,
}

abbrev freebsd_if : InterfaceNumbers
freebsd_if = record {
  iff_up = 1;
  iff_broadcast = 2;
  iff_debug = 4;
  iff_loopback = 8;
  iff_pointopoint = 0x10;
  iff_running = 0x40;
  iff_noarp = 0x80;
  iff_promisc = 0x100;
  iff_allmulti = 0x200;
  iff_multicast = 0x8000;
}

abbrev start : Process ℕ
start = record { errno = 0; world = 0 }

-- One allocation of the program, at the address 1.
abbrev heap : Memory Cell
heap = record { last = 1; cells = λ a. if a == 1 then some (Cell.name (codes "kept")) else none }

abbrev localhost : SockaddrIn
localhost = record { sin_len = 16; sin_port = 0; sin_addr = 0x7f00_0001; sin_zero = [] }

-- The link-level entry of an interface, and one with an address and a netmask. IFF_UP and
-- IFF_MULTICAST are set.
abbrev link_entry : Ifaddrs
link_entry = record {
  ifa_name = codes "lo0";
  ifa_flags = 0x8001;
  ifa_addr = some (InterfaceAddress.dl 2);
  ifa_netmask = none;
}

abbrev inet_entry : Ifaddrs
inet_entry = record link_entry {
  ifa_addr = some (InterfaceAddress.sock (Sockaddr.inet localhost));
  ifa_netmask = some (InterfaceAddress.sock (Sockaddr.inet localhost));
}

abbrev linux_localhost : Option LinuxInterfaceAddress
linux_localhost =
    some (LinuxInterfaceAddress.sock (LinuxSockaddr.inet (native_to_linux_sockaddr_in localhost)))

abbrev linux_link_entry : LinuxIfaddrs
linux_link_entry = record {
  name = codes "lo0";
  flags = 0x1001;
  address = some (LinuxInterfaceAddress.ll (native_to_linux_sockaddr_dl 2));
  netmask = none;
}

abbrev linux_inet_entry : LinuxIfaddrs
linux_inet_entry = record linux_link_entry { address = linux_localhost; netmask = linux_localhost }

abbrev interfaces : Interfaces ℕ
interfaces = record {
  getifaddrs = λ p. (0, link_entry ∷ inet_entry ∷ [], p);
  freeifaddrs = λ list_head p. p;
}

getifaddrs_then_freeifaddrs_example :
    (head : ℕ) × (m1 : Memory Cell) × (m2 : Memory Cell) × (shim_getifaddrs freebsd_if interfaces 7
        0 heap start
      ≡ ok (record { err = 0; res = head; memory = m1; process = start }))
    × IsChain ifaddrs_layout m1 1 m1.last head (linux_link_entry ∷ linux_inet_entry ∷ [])
    × (shim_freeifaddrs freebsd_if interfaces 7 3 head m1 ≡ some (ok m2))
    × ((a : ℕ) → m2.cells a ≡ heap.cells a)
unfolding native_to_linux_if_flags translate copy_address copy_netmask
getifaddrs_then_freeifaddrs_example =
    getifaddrs_then_freeifaddrs freebsd_if interfaces 7 link_entry (inet_entry ∷ [])
      linux_link_entry (linux_inet_entry ∷ []) 0 3 heap start start (λ a h. ground (arith, h)) refl
      (refl, (refl, tt)) (omega arith)
