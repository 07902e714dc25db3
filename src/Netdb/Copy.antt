-- ===== src/Netdb/Copy.antt =====
-- src/libc/netdb.c: one node of the list that the program gets, its copy and its release.
use libc6_shim.Prelude.{ℕ, Option, none, some, ◌==◌, if◌then◌else◌}
use libc6_shim.CString.{CString}
use libc6_shim.Outcome.{Outcome, ok, abort, ◌>>=◌}
use libc6_shim.Memory.{Memory, malloc, load, free, put}
use libc6_shim.Linked.{NodeOps}
use libc6_shim.Socket.{SocketNumbers, native_to_linux_sock_type}
use libc6_shim.Socket.Address.{LinuxSockaddr}
use libc6_shim.Netdb.{Addrinfo, copy_addr}

-- `struct linux_addrinfo`, with its pointers.
pub record AddrinfoNode : Type 0 where
  pub ai_flags : ℕ
  pub ai_family : ℕ
  pub ai_socktype : ℕ
  pub ai_protocol : ℕ
  pub ai_addrlen : ℕ
  pub ai_addr : ℕ
  pub ai_canonname : ℕ
  pub ai_next : ℕ

-- What the heap holds; `raw` is an allocation that nothing was written to.
pub data Cell : Type 0 where
  raw : Cell
  info : AddrinfoNode → Cell
  name : CString → Cell
  addr : LinuxSockaddr → Cell

-- `p != NULL ? strdup(p) : NULL`
abbrev pub copy_name : Option CString → Memory Cell → ℕ × Memory Cell
copy_name none m = (0, m)
copy_name (some s) m = malloc (name s) m

abbrev pub load_info : ℕ → Memory Cell → Outcome AddrinfoNode
load_info p m =
    load p m >>= λ c. elim c [ info n ↦ ok n | raw ↦ abort | name s ↦ abort | addr a ↦ abort ]

-- `garbage` is what the field `ai_next` of an allocation holds before it is written.
module _ (s : SocketNumbers) (garbage : ℕ) where
  unfoldable pub copy_addrinfo : Addrinfo → Memory Cell → Outcome (ℕ × Memory Cell)
  copy_addrinfo n m = do
    let (linux_info, m1) = malloc raw m
    type ← native_to_linux_sock_type s n.ai_socktype
    let (canonname, m2) = copy_name n.ai_canonname m1
    (family, addrlen, a) ← copy_addr n.ai_addr
    let (address, m3) = malloc (addr a) m2
    ok (
      linux_info,
      put linux_info
          (some (
            info (record {
              ai_flags = 0;
              ai_family = family;
              ai_socktype = type;
              ai_protocol = n.ai_protocol;
              ai_addrlen = addrlen;
              ai_addr = address;
              ai_canonname = canonname;
              ai_next = garbage;
            })))
          m3,
    )

  -- `linux_info->ai_next = ...`
  unfoldable pub set_ai_next : ℕ → ℕ → Memory Cell → Outcome (Memory Cell)
  set_ai_next p next m = do
    n ← load_info p m
    ok (put p (some (info (record n { ai_next = next }))) m)

  -- The body of the loop of `shim_freeaddrinfo`.
  unfoldable pub free_addrinfo : ℕ → Memory Cell → Outcome (ℕ × Memory Cell)
  free_addrinfo ai m = do
    n ← load_info ai m
    m1 ← if n.ai_canonname == 0 then ok m else free n.ai_canonname m
    m2 ← free n.ai_addr m1
    m3 ← free ai m2
    ok (n.ai_next, m3)

  abbrev pub addrinfo_ops : NodeOps Addrinfo Cell
  addrinfo_ops = record { copy = copy_addrinfo; set_next = set_ai_next; free_node = free_addrinfo }
