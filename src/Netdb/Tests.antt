-- ===== src/Netdb/Tests.antt =====
-- FreeBSD's numbers, and the theorems of name lookup at concrete inputs.
use libc6_shim.Prelude.{ℕ, [], ◌∷◌, ◌≡◌, refl, Option, none, some, ◌==◌, if◌then◌else◌, arith}
use libc6_shim.Outcome.{ok}
use libc6_shim.CString.{CString, codes}
use libc6_shim.Process.{Process}
use libc6_shim.Memory.{Memory}
use libc6_shim.Linked.Layout.{IsChain}
use libc6_shim.Flags.{translate}
use libc6_shim.Switch.{select}
use libc6_shim.Socket.{linux_to_native_sock_type, native_to_linux_sock_type}
use libc6_shim.Socket.Address.{LinuxSockaddr, Sockaddr, SockaddrIn, native_to_linux_sockaddr_in}
use libc6_shim.Socket.Tests.{freebsd}
use libc6_shim.Netdb.{
  NetdbNumbers, Hints, Addrinfo, native_hints, copy_addr, linux_to_native_ai_flags,
}
use libc6_shim.Netdb.Copy.{Cell}
use libc6_shim.Netdb.NodeLayout.{LinuxAddrinfo, addrinfo_layout}
use libc6_shim.Netdb.Calls.{Resolver, shim_getaddrinfo, shim_freeaddrinfo}
use libc6_shim.Netdb.CallLaws.{getaddrinfo_then_freeaddrinfo}

abbrev freebsd_netdb : NetdbNumbers
freebsd_netdb = record {
  af_unspec = 0;
  ai_passive = 1;
  ai_canonname = 2;
  ai_numerichost = 4;
  ai_v4mapped = 0x800;
  ai_all = 0x100;
  ai_addrconfig = 0x400;
  ni_numerichost = 2;
  ni_numericserv = 8;
  ni_nofqdn = 1;
  ni_namereqd = 4;
  ni_dgram = 0x10;
}

abbrev start : Process ℕ
start = record { errno = 0; world = 0 }

-- One allocation of the program, at the address 1.
abbrev heap : Memory Cell
heap = record { last = 1; cells = λ a. if a == 1 then some (Cell.name (codes "kept")) else none }

abbrev native_address : ℕ → SockaddrIn
native_address port = record {
  sin_len = 16;
  sin_port = port;
  sin_addr = 0x7f00_0001;
  sin_zero = [];
}

abbrev entry : Option CString → ℕ → Addrinfo
entry name port = record {
  ai_socktype = 1;
  ai_protocol = 6;
  ai_canonname = name;
  ai_addr = Sockaddr.inet (native_address port);
}

abbrev linux_entry : Option CString → ℕ → LinuxAddrinfo
linux_entry name port = record {
  family = 2;
  socktype = 1;
  protocol = 6;
  addrlen = 16;
  address = LinuxSockaddr.inet (native_to_linux_sockaddr_in (native_address port));
  canonname = name;
}

-- A name server that finds two addresses for "host", and fails with EAI_NONAME (8) for all else.
abbrev resolver : Resolver ℕ
resolver = record {
  getaddrinfo = λ hostname servname hints p. elim hostname [
    | some s ↦ (0, entry (some s) 80 ∷ entry none 443 ∷ [], p)
    | none ↦ (8, [], p)
  ];
  freeaddrinfo = λ list_head p. p;
  getnameinfo = λ a size buffers flags p. (0, p);
}

-- A family of AF_INET, a type of SOCK_STREAM, and AI_CANONNAME.
abbrev linux_hints : Hints
linux_hints = record { ai_family = 2; ai_socktype = 1; ai_protocol = 0; ai_flags = 2 }

hinted : native_hints freebsd freebsd_netdb (some linux_hints) ≡ ok linux_hints
unfolding native_hints select linux_to_native_sock_type linux_to_native_ai_flags translate
hinted = refl

getaddrinfo_then_freeaddrinfo_example :
    (head : ℕ) × (m1 : Memory Cell) × (m2 : Memory Cell) × (shim_getaddrinfo freebsd freebsd_netdb
        resolver 7 []
        (some (codes "host"))
        none
        (some linux_hints)
        0
        heap
        start
      ≡ ok (record { err = 0; res = head; memory = m1; process = start }))
    × IsChain addrinfo_layout m1 1 m1.last head
        (linux_entry (some (codes "host")) 80 ∷ linux_entry none 443 ∷ [])
    × (shim_freeaddrinfo freebsd freebsd_netdb resolver 7 [] 3 head m1 ≡ some (ok m2))
    × ((a : ℕ) → m2.cells a ≡ heap.cells a)
unfolding native_to_linux_sock_type translate copy_addr native_to_linux_sockaddr_in
getaddrinfo_then_freeaddrinfo_example =
    getaddrinfo_then_freeaddrinfo freebsd freebsd_netdb resolver 7 [] (some (codes "host")) none
      (some linux_hints) linux_hints (entry (some (codes "host")) 80) (entry none 443 ∷ [])
      (linux_entry (some (codes "host")) 80) (linux_entry none 443 ∷ []) 0 3 heap start start
      (λ a h. ground (arith, h)) hinted refl (refl, (refl, tt)) (omega arith)
