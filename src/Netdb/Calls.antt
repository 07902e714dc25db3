-- ===== src/Netdb/Calls.antt =====
-- src/libc/netdb.c: `shim_getaddrinfo`, `shim_freeaddrinfo` and `shim_getnameinfo`.
use libc6_shim.Prelude.{ℕ, List, Option, ◌==◌, if◌then◌else◌}
use libc6_shim.CString.{CString}
use libc6_shim.Outcome.{Outcome, ok, ◌>>=◌}
use libc6_shim.Process.{Process}
use libc6_shim.Memory.{Memory}
use libc6_shim.Linked.{copy_list, free_list}
use libc6_shim.Socket.{SocketNumbers}
use libc6_shim.Socket.Address.{LinuxSockaddr, Sockaddr, checked_sockaddr}
use libc6_shim.Netdb.{NetdbNumbers, Hints, Addrinfo, native_hints, linux_to_native_ni_flags}
use libc6_shim.Netdb.Copy.{Cell, addrinfo_ops}

-- The buffers that `getnameinfo` fills, with their sizes: numbers stand for the pointers.
pub record NameBuffers : Type 0 where
  pub host : ℕ
  pub hostlen : ℕ
  pub serv : ℕ
  pub servlen : ℕ

pub record Resolver (W : Type 0) : Type 0 where
  pub getaddrinfo :
      Option CString → Option CString → Hints → Process W → ℕ × List Addrinfo × Process W
  pub freeaddrinfo : List Addrinfo → Process W → Process W
  pub getnameinfo : Sockaddr → ℕ → NameBuffers → ℕ → Process W → ℕ × Process W

-- What `shim_getaddrinfo` leaves: its result, `*res`, and the state.
pub record Resolved (W : Type 0) : Type 0 where
  pub err : ℕ
  pub res : ℕ
  pub memory : Memory Cell
  pub process : Process W

-- `garbage` is what the field `ai_next` of an allocation holds before it is written, and `scratch`
-- the array of a local `struct sockaddr_un`.
module _ {W : Type 0} (s : SocketNumbers) (c : NetdbNumbers) (host : Resolver W) (garbage : ℕ)
    (scratch : List ℕ) where
  unfoldable pub shim_getaddrinfo :
      Option CString
      → Option CString
      → Option Hints
      → ℕ
      → Memory Cell
      → Process W
      → Outcome (Resolved W)
  shim_getaddrinfo hostname servname linux_hints res m p = do
    hints ← native_hints s c linux_hints
    let (err, list_head, p1) = host.getaddrinfo hostname servname hints p
    if err == 0
        then (do
          (head, m1) ← copy_list (addrinfo_ops s garbage) list_head m
          ok (record {
            err = err;
            res = head;
            memory = m1;
            process = host.freeaddrinfo list_head p1;
          }))
        else ok (record { err = err; res = res; memory = m; process = p1 })

  -- `none` when the fuel runs out.
  unfoldable pub shim_freeaddrinfo : ℕ → ℕ → Memory Cell → Option (Outcome (Memory Cell))
  shim_freeaddrinfo fuel ai m = free_list (addrinfo_ops s garbage) fuel ai m

  unfoldable pub shim_getnameinfo :
      LinuxSockaddr → ℕ → NameBuffers → ℕ → Process W → Outcome (ℕ × Process W)
  shim_getnameinfo linux_addr linux_addrlen buffers linux_flags p = do
    (addr, size) ← checked_sockaddr s scratch linux_addr linux_addrlen
    flags ← linux_to_native_ni_flags c linux_flags
    ok (host.getnameinfo addr size buffers flags p)
