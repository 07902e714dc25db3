-- ===== src/Netdb/NodeLayout.antt =====
-- How an entry of the address list lies in memory, and what it stands for.
use libc6_shim.Prelude.{ℕ, ◌+◌, Option, none, some, ◌==◌, if◌then◌else◌}
use libc6_shim.CString.{CString}
use libc6_shim.Outcome.{Outcome, ok, ◌>>=◌}
use libc6_shim.Linked.Layout.{Layout}
use libc6_shim.Socket.{SocketNumbers, native_to_linux_sock_type}
use libc6_shim.Socket.Address.{LinuxSockaddr}
use libc6_shim.Netdb.{Addrinfo, copy_addr}
use libc6_shim.Netdb.Copy.{AddrinfoNode, Cell}

-- An entry of the list as the program reads it, its address and name in place of the pointers.
pub record LinuxAddrinfo : Type 0 where
  pub family : ℕ
  pub socktype : ℕ
  pub protocol : ℕ
  pub addrlen : ℕ
  pub address : LinuxSockaddr
  pub canonname : Option CString

abbrev pub to_linux_addrinfo : SocketNumbers → Addrinfo → Outcome LinuxAddrinfo
to_linux_addrinfo s n = do
  type ← native_to_linux_sock_type s n.ai_socktype
  (family, addrlen, a) ← copy_addr n.ai_addr
  ok (record {
    family = family;
    socktype = type;
    protocol = n.ai_protocol;
    addrlen = addrlen;
    address = a;
    canonname = n.ai_canonname;
  })

abbrev pub node_size : Option CString → ℕ
node_size none = 2
node_size (some s) = 3

abbrev pub node_of : LinuxAddrinfo → ℕ → ℕ → ℕ → AddrinfoNode
node_of v address canonname next = record {
  ai_flags = 0;
  ai_family = v.family;
  ai_socktype = v.socktype;
  ai_protocol = v.protocol;
  ai_addrlen = v.addrlen;
  ai_addr = address;
  ai_canonname = canonname;
  ai_next = next;
}

abbrev pub canonname_of : Option CString → ℕ → ℕ
canonname_of none lo = 0
canonname_of (some s) lo = lo + 2

-- What lies behind the node: the name if there is one, and the address.
abbrev pub tail_cells : Option CString → ℕ → LinuxSockaddr → ℕ → Cell
tail_cells none lo addr a = Cell.addr addr
tail_cells (some s) lo addr a = if a == lo + 2 then Cell.name s else Cell.addr addr

abbrev pub node_cells : LinuxAddrinfo → ℕ → ℕ → ℕ → Cell
node_cells v lo next a =
    if a == lo + 1
    then Cell.info (node_of v (lo + node_size v.canonname) (canonname_of v.canonname lo) next)
    else tail_cells v.canonname lo v.address a

abbrev pub addrinfo_layout : Layout Cell LinuxAddrinfo
addrinfo_layout = record {
  size = λ v. node_size v.canonname;
  cells = λ lo next v a. some (node_cells v lo next a);
}
