-- ===== src/Socket/Address.antt =====
-- Socket addresses. A constructor stands for the `sa_family` by which the source reads the struct.
use libc6_shim.Prelude.{
  ℕ, List, [], ◌∷◌, ◌++◌, ◌==◌, ltb, leb, if◌then◌else◌, Bool, true, drop, length,
}
use libc6_shim.Outcome.{Outcome, ok, abort, ◌>>=◌, ◌>>◌, assert}
use libc6_shim.CString.{codes}
use libc6_shim.CArray.{c_str, copy_bounded}
use libc6_shim.Socket.{SocketNumbers}

pub record LinuxSockaddrIn : Type 0 where
  pub sin_port : ℕ
  pub sin_addr : ℕ
  pub sin_zero : List ℕ

pub record LinuxSockaddrIn6 : Type 0 where
  pub sin6_port : ℕ
  pub sin6_flowinfo : ℕ
  pub sin6_addr : List ℕ
  pub sin6_scope_id : ℕ

pub data LinuxSockaddr : Type 0 where
  un : List ℕ → LinuxSockaddr
  inet : LinuxSockaddrIn → LinuxSockaddr
  inet6 : LinuxSockaddrIn6 → LinuxSockaddr
  other : ℕ → LinuxSockaddr

pub record SockaddrUn : Type 0 where
  pub sun_len : ℕ
  pub sun_path : List ℕ

pub record SockaddrIn : Type 0 where
  pub sin_len : ℕ
  pub sin_port : ℕ
  pub sin_addr : ℕ
  pub sin_zero : List ℕ

pub record SockaddrIn6 : Type 0 where
  pub sin6_len : ℕ
  pub sin6_port : ℕ
  pub sin6_flowinfo : ℕ
  pub sin6_addr : List ℕ
  pub sin6_scope_id : ℕ

pub data Sockaddr : Type 0 where
  un : SockaddrUn → Sockaddr
  inet : SockaddrIn → Sockaddr
  inet6 : SockaddrIn6 → Sockaddr
  other : ℕ → Sockaddr

-- The sizes of the Linux structs of socket.h: a family of 2 bytes and the fields behind it.
abbrev pub sizeof_linux_sockaddr_un : ℕ
sizeof_linux_sockaddr_un = 110

abbrev pub sizeof_linux_sockaddr_in : ℕ
sizeof_linux_sockaddr_in = 16

abbrev pub sizeof_linux_sockaddr_in6 : ℕ
sizeof_linux_sockaddr_in6 = 28

unfoldable pub linux_to_native_sockaddr_in : LinuxSockaddrIn → SockaddrIn
linux_to_native_sockaddr_in src = record {
  sin_len = 0;
  sin_port = src.sin_port;
  sin_addr = src.sin_addr;
  sin_zero = src.sin_zero;
}

unfoldable pub linux_to_native_sockaddr_in6 : LinuxSockaddrIn6 → SockaddrIn6
linux_to_native_sockaddr_in6 src = record {
  sin6_len = 0;
  sin6_port = src.sin6_port;
  sin6_flowinfo = src.sin6_flowinfo;
  sin6_addr = src.sin6_addr;
  sin6_scope_id = src.sin6_scope_id;
}

-- `src->sun_path[0] == 0`
abbrev pub is_abstract : List ℕ → Bool
is_abstract [] = true
is_abstract (b ∷ bs) = b == 0

-- The first argument is the array that the destination has.
unfoldable pub linux_to_native_sockaddr_un : List ℕ → List ℕ → Outcome SockaddrUn
linux_to_native_sockaddr_un dest src =
    if is_abstract src
    then ok (record {
      sun_len = 0;
      sun_path = copy_bounded dest (codes "/var/run/" ++ c_str (drop 1 src));
    })
    else do
      assert (ltb (length (c_str src)) (length dest))
      ok (record { sun_len = 0; sun_path = copy_bounded dest (c_str src) })

-- The array of the destination, and `*len`; the result holds the `*len` that is stored.
unfoldable pub linux_to_native_sockaddr :
    SocketNumbers → List ℕ → ℕ → LinuxSockaddr → Outcome (Sockaddr × ℕ)
linux_to_native_sockaddr c dest len (LinuxSockaddr.un path) = do
  assert (leb c.sizeof_sockaddr_un len)
  addr ← linux_to_native_sockaddr_un dest path
  ok (Sockaddr.un addr, c.sizeof_sockaddr_un)
linux_to_native_sockaddr c dest len (LinuxSockaddr.inet a) = do
  assert (leb c.sizeof_sockaddr_in len)
  ok (Sockaddr.inet (linux_to_native_sockaddr_in a), c.sizeof_sockaddr_in)
linux_to_native_sockaddr c dest len (LinuxSockaddr.inet6 a) = do
  assert (leb c.sizeof_sockaddr_in6 len)
  ok (Sockaddr.inet6 (linux_to_native_sockaddr_in6 a), c.sizeof_sockaddr_in6)
linux_to_native_sockaddr c dest len (LinuxSockaddr.other f) = abort

unfoldable pub native_to_linux_sockaddr_in : SockaddrIn → LinuxSockaddrIn
native_to_linux_sockaddr_in src = record {
  sin_port = src.sin_port;
  sin_addr = src.sin_addr;
  sin_zero = src.sin_zero;
}

unfoldable pub native_to_linux_sockaddr_in6 : SockaddrIn6 → LinuxSockaddrIn6
native_to_linux_sockaddr_in6 src = record {
  sin6_port = src.sin6_port;
  sin6_flowinfo = src.sin6_flowinfo;
  sin6_addr = src.sin6_addr;
  sin6_scope_id = src.sin6_scope_id;
}

unfoldable pub native_to_linux_sockaddr_un : List ℕ → SockaddrUn → Outcome (List ℕ)
native_to_linux_sockaddr_un dest src = do
  assert (ltb (length (c_str src.sun_path)) (length dest))
  ok (copy_bounded dest (c_str src.sun_path))

unfoldable pub native_to_linux_sockaddr : List ℕ → ℕ → Sockaddr → Outcome (LinuxSockaddr × ℕ)
native_to_linux_sockaddr dest linux_len (Sockaddr.un a) = do
  assert (leb sizeof_linux_sockaddr_un linux_len)
  path ← native_to_linux_sockaddr_un dest a
  ok (LinuxSockaddr.un path, sizeof_linux_sockaddr_un)
native_to_linux_sockaddr dest linux_len (Sockaddr.inet a) = do
  assert (leb sizeof_linux_sockaddr_in linux_len)
  ok (LinuxSockaddr.inet (native_to_linux_sockaddr_in a), sizeof_linux_sockaddr_in)
native_to_linux_sockaddr dest linux_len (Sockaddr.inet6 a) = do
  assert (leb sizeof_linux_sockaddr_in6 linux_len)
  ok (LinuxSockaddr.inet6 (native_to_linux_sockaddr_in6 a), sizeof_linux_sockaddr_in6)
native_to_linux_sockaddr dest linux_len (Sockaddr.other f) = abort

-- The shared shape of `shim_bind`, `shim_connect`, `shim_sendto` and `shim_getnameinfo`: the
-- length that the program gives is checked, the address is converted into a local variable, whose
-- array is the first argument, and passed on with the size of that variable.
unfoldable pub checked_sockaddr :
    SocketNumbers → List ℕ → LinuxSockaddr → ℕ → Outcome (Sockaddr × ℕ)
checked_sockaddr c dest (LinuxSockaddr.un path) addrlen = do
  assert (leb addrlen sizeof_linux_sockaddr_un)
  addr ← linux_to_native_sockaddr_un dest path
  ok (Sockaddr.un addr, c.sizeof_sockaddr_un)
checked_sockaddr c dest (LinuxSockaddr.inet a) addrlen = do
  assert (addrlen == sizeof_linux_sockaddr_in)
  ok (Sockaddr.inet (linux_to_native_sockaddr_in a), c.sizeof_sockaddr_in)
checked_sockaddr c dest (LinuxSockaddr.inet6 a) addrlen = do
  assert (addrlen == sizeof_linux_sockaddr_in6)
  ok (Sockaddr.inet6 (linux_to_native_sockaddr_in6 a), c.sizeof_sockaddr_in6)
checked_sockaddr c dest (LinuxSockaddr.other f) addrlen = abort
