-- ===== src/Socket.antt =====
-- src/libc/sys/socket.c and socket.h: the constants of the sockets interface and their conversion.
pub mod Address
pub mod Message
pub mod Options
pub mod Calls
pub mod MsgFlags
pub mod Types
pub mod AddressLaws
pub mod OptionLaws
pub mod ControlLaws
pub mod Tests
use libc6_shim.Prelude.{ℕ, bit_and, bit_or, List, [], ◌∷◌, ◌==◌, if◌then◌else◌}
use libc6_shim.Bits.{bit_not32}
use libc6_shim.Outcome.{Outcome, ok, ◌>>=◌, ◌>>◌, assert, or_abort}
use libc6_shim.Flags.{Entry, ◌⇒◌, has, translate, swap, or_list}
use libc6_shim.Switch.{select}

-- The constants and sizes of FreeBSD's socket headers.
pub record SocketNumbers : Type 0 where
  pub pf_unix : ℕ
  pub pf_inet : ℕ
  pub pf_inet6 : ℕ
  pub sol_socket : ℕ
  pub sol_local : ℕ
  pub ipproto_ip : ℕ
  pub ipproto_tcp : ℕ
  pub ipproto_udp : ℕ
  pub sock_nonblock : ℕ
  pub sock_cloexec : ℕ
  pub msg_oob : ℕ
  pub msg_peek : ℕ
  pub msg_dontroute : ℕ
  pub msg_ctrunc : ℕ
  pub msg_trunc : ℕ
  pub msg_dontwait : ℕ
  pub msg_eor : ℕ
  pub msg_eof : ℕ
  pub msg_waitall : ℕ
  pub msg_nosignal : ℕ
  pub msg_waitforone : ℕ
  pub msg_cmsg_cloexec : ℕ
  pub scm_rights : ℕ
  pub ip_recvtos : ℕ
  pub ip_dontfrag : ℕ
  pub ipv6_v6only : ℕ
  pub so_reuseaddr : ℕ
  pub so_error : ℕ
  pub so_broadcast : ℕ
  pub so_sndbuf : ℕ
  pub so_rcvbuf : ℕ
  pub so_keepalive : ℕ
  pub local_creds_persistent : ℕ
  pub tcp_nodelay : ℕ
  pub tcp_keepidle : ℕ
  pub tcp_keepintvl : ℕ
  pub sizeof_sockaddr_un : ℕ
  pub sizeof_sockaddr_in : ℕ
  pub sizeof_sockaddr_in6 : ℕ
  pub sizeof_sockaddr_storage : ℕ
  pub sizeof_sun_path : ℕ

abbrev pub level_cases : SocketNumbers → List Entry
level_cases c =
    (1 ⇒ c.sol_socket) ∷ (0 ⇒ c.ipproto_ip) ∷ (6 ⇒ c.ipproto_tcp) ∷ (17 ⇒ c.ipproto_udp) ∷ []

unfoldable pub linux_to_native_sock_level : SocketNumbers → ℕ → Outcome ℕ
linux_to_native_sock_level c linux_level = or_abort (select (level_cases c) linux_level)

unfoldable pub native_to_linux_sock_level : SocketNumbers → ℕ → Outcome ℕ
native_to_linux_sock_level c level = or_abort (select (swap (level_cases c)) level)

abbrev pub domain_cases : SocketNumbers → List Entry
domain_cases c = (1 ⇒ c.pf_unix) ∷ (2 ⇒ c.pf_inet) ∷ (10 ⇒ c.pf_inet6) ∷ []

unfoldable pub linux_to_native_domain : SocketNumbers → ℕ → Outcome ℕ
linux_to_native_domain c linux_domain = or_abort (select (domain_cases c) linux_domain)

abbrev pub linux_sock_nonblock : ℕ
linux_sock_nonblock = 0x00800

abbrev pub linux_sock_cloexec : ℕ
linux_sock_cloexec = 0x80000

-- SOCK_STREAM, SOCK_DGRAM, SOCK_RAW, SOCK_RDM, SOCK_SEQPACKET and the two flags.
abbrev pub known_linux_socket_types : ℕ
known_linux_socket_types =
    or_list (1 ∷ 2 ∷ 3 ∷ 4 ∷ 5 ∷ linux_sock_nonblock ∷ linux_sock_cloexec ∷ [])

abbrev pub type_entries : SocketNumbers → List Entry
type_entries c =
    (linux_sock_nonblock ⇒ c.sock_nonblock) ∷ (linux_sock_cloexec ⇒ c.sock_cloexec) ∷ []

unfoldable pub linux_to_native_sock_type : SocketNumbers → ℕ → Outcome ℕ
linux_to_native_sock_type c linux_type = do
  assert (bit_and linux_type known_linux_socket_types == linux_type)
  ok (translate (type_entries c) linux_type (bit_and linux_type 0xff))

-- The static assertions of the source give SOCK_STREAM and the others their Linux values.
abbrev pub known_native_socket_types : SocketNumbers → ℕ
known_native_socket_types c = or_list (1 ∷ 2 ∷ 3 ∷ 5 ∷ c.sock_nonblock ∷ c.sock_cloexec ∷ [])

unfoldable pub native_to_linux_sock_type : SocketNumbers → ℕ → Outcome ℕ
native_to_linux_sock_type c type = do
  assert (bit_and type (known_native_socket_types c) == type)
  ok (translate (swap (type_entries c)) type (bit_and type 0xff))

abbrev pub known_linux_msg_flags : ℕ
known_linux_msg_flags = or_list (
    0x0000_0001 ∷ 0x0000_0002 ∷ 0x0000_0004 ∷ 0x0000_0008 ∷ 0x0000_0020 ∷ 0x0000_0040 ∷ 0x0000_0080
    ∷ 0x0000_0100 ∷ 0x0000_4000 ∷ 0x0001_0000 ∷ 0x4000_0000 ∷ [])

abbrev pub native_msg_flags : SocketNumbers → List ℕ
native_msg_flags c =
    c.msg_oob ∷ c.msg_peek ∷ c.msg_dontroute ∷ c.msg_ctrunc ∷ c.msg_trunc ∷ c.msg_dontwait
    ∷ c.msg_eor ∷ c.msg_eof ∷ c.msg_waitall ∷ c.msg_nosignal ∷ c.msg_waitforone ∷ c.msg_cmsg_cloexec
    ∷ []

abbrev pub known_native_msg_flags : SocketNumbers → ℕ
known_native_msg_flags c = or_list (native_msg_flags c)

-- The `if`s of `linux_to_native_msg_flags`.
abbrev pub msg_entries : SocketNumbers → List Entry
msg_entries c =
    (0x0000_0001 ⇒ c.msg_oob)
    ∷ (0x0000_0002 ⇒ c.msg_peek)
    ∷ (0x0000_0004 ⇒ c.msg_dontroute)
    ∷ (0x0000_0008 ⇒ c.msg_ctrunc)
    ∷ (0x0000_0020 ⇒ c.msg_trunc)
    ∷ (0x0000_0040 ⇒ c.msg_dontwait)
    ∷ (0x0000_0080 ⇒ c.msg_eor)
    ∷ (0x0000_0100 ⇒ c.msg_waitall)
    ∷ (0x0000_4000 ⇒ c.msg_nosignal)
    ∷ (0x0001_0000 ⇒ c.msg_waitforone)
    ∷ (0x4000_0000 ⇒ c.msg_cmsg_cloexec)
    ∷ []

unfoldable pub linux_to_native_msg_flags : SocketNumbers → ℕ → Outcome ℕ
linux_to_native_msg_flags c linux_flags = do
  assert (bit_and linux_flags (bit_not32 known_linux_msg_flags) == 0)
  ok (translate (msg_entries c) linux_flags 0)

-- The second assertion is the `assert(0)` under `flags & MSG_EOF`.
unfoldable pub native_to_linux_msg_flags : SocketNumbers → ℕ → Outcome ℕ
native_to_linux_msg_flags c flags = do
  assert (bit_and flags (bit_not32 (known_native_msg_flags c)) == 0)
  assert (bit_and flags c.msg_eof == 0)
  ok (translate (swap (msg_entries c)) flags 0)
