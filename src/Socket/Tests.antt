-- ===== src/Socket/Tests.antt =====
-- FreeBSD's numbers, and the theorems at concrete inputs.
use libc6_shim.Prelude.{ℕ, List, [], ◌∷◌, ◌≡◌, refl, arith}
use libc6_shim.Outcome.{ok}
use libc6_shim.Switch.{select, DistinctTargets}
use libc6_shim.CArray.{c_str}
use libc6_shim.Socket.{
  SocketNumbers, level_cases, linux_to_native_msg_flags, native_to_linux_msg_flags,
}
use libc6_shim.Socket.Address.{
  LinuxSockaddr, Sockaddr, linux_to_native_sockaddr, native_to_linux_sockaddr,
}
use libc6_shim.Socket.Message.{Control, linux_to_native_msg_control, native_to_linux_msg_control}
use libc6_shim.Socket.MsgFlags.{IsMsgFlags, msg_flags_round_trip}
use libc6_shim.Socket.Types.{IsTypeFlags}
use libc6_shim.Socket.AddressLaws.{SameAddress, IsRoomy, sockaddr_round_trip}
use libc6_shim.Socket.ControlLaws.{control_round_trip}

abbrev pub freebsd : SocketNumbers
freebsd = record {
  pf_unix = 1;
  pf_inet = 2;
  pf_inet6 = 28;
  sol_socket = 0xffff;
  sol_local = 0;
  ipproto_ip = 0;
  ipproto_tcp = 6;
  ipproto_udp = 17;
  sock_nonblock = 0x2000_0000;
  sock_cloexec = 0x1000_0000;
  msg_oob = 1;
  msg_peek = 2;
  msg_dontroute = 4;
  msg_ctrunc = 0x20;
  msg_trunc = 0x10;
  msg_dontwait = 0x80;
  msg_eor = 8;
  msg_eof = 0x100;
  msg_waitall = 0x40;
  msg_nosignal = 0x2_0000;
  msg_waitforone = 0x8_0000;
  msg_cmsg_cloexec = 0x4_0000;
  scm_rights = 1;
  ip_recvtos = 68;
  ip_dontfrag = 67;
  ipv6_v6only = 27;
  so_reuseaddr = 4;
  so_error = 0x1007;
  so_broadcast = 0x20;
  so_sndbuf = 0x1001;
  so_rcvbuf = 0x1002;
  so_keepalive = 8;
  local_creds_persistent = 3;
  tcp_nodelay = 1;
  tcp_keepidle = 256;
  tcp_keepintvl = 512;
  sizeof_sockaddr_un = 106;
  sizeof_sockaddr_in = 16;
  sizeof_sockaddr_in6 = 28;
  sizeof_sockaddr_storage = 128;
  sizeof_sun_path = 104;
}

pub freebsd-IsMsgFlags : IsMsgFlags freebsd
freebsd-IsMsgFlags = omega arith

freebsd-IsTypeFlags : IsTypeFlags freebsd
freebsd-IsTypeFlags = omega arith

pub freebsd-DistinctTargets : DistinctTargets (level_cases freebsd)
freebsd-DistinctTargets = omega arith

-- MSG_PEEK | MSG_NOSIGNAL
msg_flags_round_trip_example :
    (y : ℕ) × (linux_to_native_msg_flags freebsd 0x4002 ≡ ok y)
    × (native_to_linux_msg_flags freebsd y ≡ ok 0x4002)
msg_flags_round_trip_example =
    msg_flags_round_trip freebsd 0x4002 freebsd-IsMsgFlags (omega arith) refl

abbrev socket_path : List ℕ
socket_path = 47 ∷ 115 ∷ 0 ∷ 9 ∷ []

abbrev small_buffer : List ℕ
small_buffer = 1 ∷ 1 ∷ 1 ∷ 1 ∷ 1 ∷ []

pub roomy : IsRoomy freebsd 128 128
roomy = omega arith

sockaddr_round_trip_example :
    (n : Sockaddr) × (m : ℕ) × (b : LinuxSockaddr) × (k : ℕ) × (linux_to_native_sockaddr freebsd
        small_buffer 128
        (LinuxSockaddr.un socket_path)
      ≡ ok (n, m))
    × (native_to_linux_sockaddr small_buffer 128 n ≡ ok (b, k))
    × SameAddress (LinuxSockaddr.un socket_path) b
unfolding c_str
sockaddr_round_trip_example =
    sockaddr_round_trip freebsd small_buffer small_buffer 128 128 (LinuxSockaddr.un socket_path)
      roomy (refl, omega arith, omega arith)

abbrev pub descriptors : Control
descriptors = record {
  messages =
      record { cmsg_len = 20; cmsg_level = 1; cmsg_type = 1; payload = 3 ∷ 0 ∷ 0 ∷ 0 ∷ [] } ∷ [];
  controllen = 24;
}

control_round_trip_example :
    (n : Control) × (linux_to_native_msg_control freebsd 24 descriptors ≡ ok n)
    × (native_to_linux_msg_control freebsd 32 n ≡ ok descriptors)
unfolding select
control_round_trip_example =
    control_round_trip freebsd 24 32 descriptors freebsd-DistinctTargets
      ((refl, refl, omega arith, 0xffff, refl), tt) (omega arith) (omega arith) (omega arith)
