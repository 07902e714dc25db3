-- ===== src/Ifaddrs/NodeLayout.antt =====
-- How an entry of the interface list lies in memory, and what it stands for.
use libc6_shim.Prelude.{ℕ, ◌+◌, Option, none, some, ◌==◌, if◌then◌else◌}
use libc6_shim.CString.{CString}
use libc6_shim.Outcome.{Outcome, ok, ◌>>=◌}
use libc6_shim.Linked.Layout.{Layout}
use libc6_shim.Ifaddrs.{
  InterfaceNumbers, Ifaddrs, LinuxInterfaceAddress, native_to_linux_if_flags, copy_address,
  copy_netmask, copy_optional,
}
use libc6_shim.Ifaddrs.Copy.{IfaddrsNode, Cell}

-- An entry of the list as the program reads it, its name and addresses in place of the pointers.
pub record LinuxIfaddrs : Type 0 where
  pub name : CString
  pub flags : ℕ
  pub address : Option LinuxInterfaceAddress
  pub netmask : Option LinuxInterfaceAddress

abbrev pub to_linux_ifaddrs : InterfaceNumbers → Ifaddrs → Outcome LinuxIfaddrs
to_linux_ifaddrs c ifa = do
  a ← copy_optional copy_address ifa.ifa_addr
  b ← copy_optional copy_netmask ifa.ifa_netmask
  ok (record {
    name = ifa.ifa_name;
    flags = native_to_linux_if_flags c ifa.ifa_flags;
    address = a;
    netmask = b;
  })

-- How many allocations an address takes, and the pointer to one that ends at `last`.
abbrev pub taken : Option LinuxInterfaceAddress → ℕ
taken none = 0
taken (some a) = 1

abbrev pub pointer : Option LinuxInterfaceAddress → ℕ → ℕ
pointer none last = 0
pointer (some a) last = last

abbrev pub size_of : Option LinuxInterfaceAddress → Option LinuxInterfaceAddress → ℕ
size_of a b = 2 + taken a + taken b

abbrev pub node_of :
    CString → ℕ → Option LinuxInterfaceAddress → Option LinuxInterfaceAddress → ℕ → ℕ → IfaddrsNode
node_of name flags a b lo next = record {
  ifa_next = next;
  ifa_name = lo + 2;
  ifa_flags = flags;
  ifa_addr = pointer a (lo + 3);
  ifa_netmask = pointer b (lo + size_of a b);
  ifa_dstaddr = 0;
}

abbrev pub address_cell : Option LinuxInterfaceAddress → Option Cell
address_cell none = none
address_cell (some a) = some (Cell.addr a)

-- The node, the name, and the addresses that there are, one behind the other.
abbrev pub node_cells :
    CString
    → ℕ
    → Option LinuxInterfaceAddress
    → Option LinuxInterfaceAddress
    → ℕ
    → ℕ
    → ℕ
    → Option Cell
node_cells name flags a b lo next p =
    if p == lo + 1
    then some (Cell.node (node_of name flags a b lo next))
    else if p == lo + 2
    then some (Cell.name name)
    else if p == lo + 2 + taken a
    then address_cell a
    else address_cell b

abbrev pub ifaddrs_layout : Layout Cell LinuxIfaddrs
ifaddrs_layout = record {
  size = λ v. size_of v.address v.netmask;
  cells = λ lo next v p. node_cells v.name v.flags v.address v.netmask lo next p;
}
