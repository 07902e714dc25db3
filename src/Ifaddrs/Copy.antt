-- ===== src/Ifaddrs/Copy.antt =====
-- src/libc/ifaddrs.c: one node of the list that the program gets, its copy and its release.
use libc6_shim.Prelude.{ℕ, Option, none, some, ◌==◌, if◌then◌else◌}
use libc6_shim.CString.{CString}
use libc6_shim.Outcome.{Outcome, ok, abort, ◌>>=◌}
use libc6_shim.Memory.{Memory, malloc, load, free, put}
use libc6_shim.Linked.{NodeOps}
use libc6_shim.Ifaddrs.{
  InterfaceNumbers, Ifaddrs, LinuxInterfaceAddress, native_to_linux_if_flags, copy_address,
  copy_netmask, copy_optional,
}

-- `struct linux_ifaddrs`, with its pointers; `ifa_data`, which is always NULL, is left out.
pub record IfaddrsNode : Type 0 where
  pub ifa_next : ℕ
  pub ifa_name : ℕ
  pub ifa_flags : ℕ
  pub ifa_addr : ℕ
  pub ifa_netmask : ℕ
  pub ifa_dstaddr : ℕ

-- What the heap holds; `raw` is an allocation that nothing was written to.
pub data Cell : Type 0 where
  raw : Cell
  node : IfaddrsNode → Cell
  name : CString → Cell
  addr : LinuxInterfaceAddress → Cell

-- The allocation for an address, if there is one.
abbrev pub place : Option LinuxInterfaceAddress → Memory Cell → ℕ × Memory Cell
place none m = (0, m)
place (some a) m = malloc (addr a) m

abbrev pub load_node : ℕ → Memory Cell → Outcome IfaddrsNode
load_node p m =
    load p m >>= λ c. elim c [ node n ↦ ok n | raw ↦ abort | name s ↦ abort | addr a ↦ abort ]

abbrev pub free_unless_null : ℕ → Memory Cell → Outcome (Memory Cell)
free_unless_null p m = if p == 0 then ok m else free p m

-- `garbage` is what the field `ifa_next` of an allocation holds before it is written.
module _ (c : InterfaceNumbers) (garbage : ℕ) where
  unfoldable pub copy_ifaddrs : Ifaddrs → Memory Cell → Outcome (ℕ × Memory Cell)
  copy_ifaddrs ifa m = do
    let (linux_ifa, m1) = malloc raw m
    let (ifa_name, m2) = malloc (name ifa.ifa_name) m1
    a ← copy_optional copy_address ifa.ifa_addr
    let (ifa_addr, m3) = place a m2
    b ← copy_optional copy_netmask ifa.ifa_netmask
    let (ifa_netmask, m4) = place b m3
    ok (
      linux_ifa,
      put linux_ifa
          (some (
            node (record {
              ifa_next = garbage;
              ifa_name = ifa_name;
              ifa_flags = native_to_linux_if_flags c ifa.ifa_flags;
              ifa_addr = ifa_addr;
              ifa_netmask = ifa_netmask;
              ifa_dstaddr = 0;
            })))
          m4,
    )

  -- `linux_ifa->ifa_next = ...`
  unfoldable pub set_ifa_next : ℕ → ℕ → Memory Cell → Outcome (Memory Cell)
  set_ifa_next p next m = do
    n ← load_node p m
    ok (put p (some (node (record n { ifa_next = next }))) m)

  -- The body of the loop of `shim_freeifaddrs`.
  unfoldable pub free_ifaddrs : ℕ → Memory Cell → Outcome (ℕ × Memory Cell)
  free_ifaddrs ifa m = do
    n ← load_node ifa m
    m1 ← free n.ifa_name m
    m2 ← free_unless_null n.ifa_addr m1
    m3 ← free_unless_null n.ifa_netmask m2
    m4 ← free_unless_null n.ifa_dstaddr m3
    m5 ← free ifa m4
    ok (n.ifa_next, m5)

  abbrev pub ifaddrs_ops : NodeOps Ifaddrs Cell
  ifaddrs_ops = record { copy = copy_ifaddrs; set_next = set_ifa_next; free_node = free_ifaddrs }
