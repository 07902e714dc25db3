-- ===== src/Socket/Calls.antt =====
-- The calls of socket.c that open sockets and move data, over the native ones.
use libc6_shim.Prelude.{ℕ, List, [], ◌==◌, ◌||◌, leb, if◌then◌else◌, Option, none, some}
use libc6_shim.Outcome.{Outcome, ok, abort, ◌>>=◌, ◌>>◌, assert}
use libc6_shim.Errno.{Errnos}
use libc6_shim.Process.{Process, minus_one, minus_one_ssize, convert_errno, report_error}
use libc6_shim.Socket.{
  SocketNumbers, linux_to_native_domain, linux_to_native_sock_type, linux_to_native_msg_flags,
  native_to_linux_msg_flags,
}
use libc6_shim.Socket.Address.{
  LinuxSockaddr, Sockaddr, linux_to_native_sockaddr, native_to_linux_sockaddr, checked_sockaddr,
}
use libc6_shim.Socket.Message.{Control, linux_to_native_msg_control, native_to_linux_msg_control}

-- `struct msghdr` with an address of either build. The buffers of `msg_iov` are the system's
-- business: a number stands for the pointer.
pub record Msghdr (A : Type 0) : Type 0 where
  pub msg_name : Option A
  pub msg_namelen : ℕ
  pub msg_iov : ℕ
  pub msg_iovlen : ℕ
  pub msg_control : Control
  pub msg_flags : ℕ

pub record Host (W : Type 0) : Type 0 where
  pub socket : ℕ → ℕ → ℕ → Process W → ℕ × Process W
  pub socketpair : ℕ → ℕ → ℕ → Process W → ℕ × List ℕ × Process W
  pub bind : ℕ → Sockaddr → ℕ → Process W → ℕ × Process W
  pub connect : ℕ → Sockaddr → ℕ → Process W → ℕ × Process W
  pub recv : ℕ → ℕ → ℕ → ℕ → Process W → ℕ × Process W
  pub send : ℕ → ℕ → ℕ → ℕ → Process W → ℕ × Process W
  pub recvmsg : ℕ → Msghdr Sockaddr → ℕ → Process W → ℕ × Msghdr Sockaddr × Process W
  pub sendmsg : ℕ → Msghdr Sockaddr → ℕ → Process W → ℕ × Process W
  pub recvfrom : ℕ → ℕ → ℕ → ℕ → Option ℕ → Process W → ℕ × Sockaddr × Process W
  pub sendto : ℕ → ℕ → ℕ → ℕ → Sockaddr → ℕ → Process W → ℕ × Process W
  pub getsockname : ℕ → ℕ → Process W → ℕ × Sockaddr × Process W

-- The results of the calls that write to the program's memory.
pub record Received (W : Type 0) : Type 0 where
  pub nbytes : ℕ
  pub msg : Msghdr LinuxSockaddr
  pub process : Process W

pub record Named (W : Type 0) : Type 0 where
  pub result : ℕ
  pub name : Option (LinuxSockaddr × ℕ)
  pub process : Process W

-- The header that `shim_recvmsg` hands to the native call: a local buffer for the name, if the
-- program wants one, and a local control buffer of the size of the program's.
abbrev pub receive_header : SocketNumbers → Msghdr LinuxSockaddr → Msghdr Sockaddr
receive_header c linux_msg = record {
  msg_name = elim linux_msg.msg_name [ none ↦ none | some a ↦ some (Sockaddr.other 0) ];
  msg_namelen = elim linux_msg.msg_name [ none ↦ 0 | some a ↦ c.sizeof_sockaddr_storage ];
  msg_iov = linux_msg.msg_iov;
  msg_iovlen = linux_msg.msg_iovlen;
  msg_control = record { messages = []; controllen = linux_msg.msg_control.controllen };
  msg_flags = 0;
}

-- `scratch` is what the array of a local `struct sockaddr_un` holds before it is written.
module _ {W : Type 0} (c : SocketNumbers) (e : Errnos) (host : Host W) (scratch : List ℕ) where
  unfoldable pub shim_socket : ℕ → ℕ → ℕ → Process W → Outcome (ℕ × Process W)
  shim_socket domain type protocol p = do
    d ← linux_to_native_domain c domain
    t ← linux_to_native_sock_type c type
    ok (host.socket d t protocol p)

  unfoldable pub shim_socketpair : ℕ → ℕ → ℕ → Process W → Outcome (ℕ × List ℕ × Process W)
  shim_socketpair domain type protocol p = do
    d ← linux_to_native_domain c domain
    t ← linux_to_native_sock_type c type
    ok (host.socketpair d t protocol p)

  unfoldable pub shim_bind : ℕ → LinuxSockaddr → ℕ → Process W → Outcome (ℕ × Process W)
  shim_bind s linux_addr addrlen p = do
    (addr, size) ← checked_sockaddr c scratch linux_addr addrlen
    ok (host.bind s addr size p)

  unfoldable pub shim_connect : ℕ → LinuxSockaddr → ℕ → Process W → Outcome (ℕ × Process W)
  shim_connect s linux_name namelen p = do
    (addr, size) ← checked_sockaddr c scratch linux_name namelen
    ok (report_error e minus_one (host.connect s addr size p))

  unfoldable pub shim_recv : ℕ → ℕ → ℕ → ℕ → Process W → Outcome (ℕ × Process W)
  shim_recv s buf len linux_flags p = do
    flags ← linux_to_native_msg_flags c linux_flags
    ok (report_error e minus_one_ssize (host.recv s buf len flags p))

  unfoldable pub shim_send : ℕ → ℕ → ℕ → ℕ → Process W → Outcome (ℕ × Process W)
  shim_send s msg len linux_flags p = do
    flags ← linux_to_native_msg_flags c linux_flags
    ok (report_error e minus_one_ssize (host.send s msg len flags p))

  unfoldable pub shim_recv_chk : ℕ → ℕ → ℕ → ℕ → ℕ → Process W → Outcome (ℕ × Process W)
  shim_recv_chk fd buf len buflen flags p = do
    assert (leb len buflen)
    ok (host.recv fd buf len flags p)

  unfoldable pub shim_sendto :
      ℕ → ℕ → ℕ → ℕ → LinuxSockaddr → ℕ → Process W → Outcome (ℕ × Process W)
  shim_sendto s msg len linux_flags linux_to tolen p = do
    (to, size) ← checked_sockaddr c scratch linux_to tolen
    flags ← linux_to_native_msg_flags c linux_flags
    ok (report_error e minus_one_ssize (host.sendto s msg len flags to size p))

  -- The copy back of the peer's address; the array is that of the program's buffer.
  unfoldable pub write_name : List ℕ → ℕ → ℕ → ℕ × Sockaddr × Process W → Outcome (Named W)
  write_name dest linux_len failure (r, name, p) =
      if r == failure then ok (record { result = r; name = none; process = p }) else do
        written ← native_to_linux_sockaddr dest linux_len name
        ok (record { result = r; name = some written; process = p })

  -- The program's buffer is NULL, or an array and its length.
  unfoldable pub shim_recvfrom : ℕ → ℕ → ℕ → ℕ → Option (List ℕ × ℕ) → Process W → Outcome (Named W)
  shim_recvfrom s buf len linux_flags none p = do
    flags ← linux_to_native_msg_flags c linux_flags
    let (r, from, p') = host.recvfrom s buf len flags none p
    let (r', p'') = report_error e minus_one_ssize (r, p')
    ok (record { result = r'; name = none; process = p'' })
  shim_recvfrom s buf len linux_flags (some (dest, linux_fromlen)) p = do
    flags ← linux_to_native_msg_flags c linux_flags
    let (r, from, p') = host.recvfrom s buf len flags (some c.sizeof_sockaddr_storage) p
    named ← write_name dest linux_fromlen minus_one_ssize (r, from, p')
    let (r', p'') = report_error e minus_one_ssize (r, p')
    ok (record named { process = p'' })

  unfoldable pub shim_getsockname : ℕ → List ℕ → ℕ → Process W → Outcome (Named W)
  shim_getsockname s dest linux_namelen p =
      write_name dest linux_namelen minus_one (host.getsockname s c.sizeof_sockaddr_storage p)

  -- The name is written only where the program gave a buffer and the native call a name.
  unfoldable pub write_msg_name :
      List ℕ → Msghdr LinuxSockaddr → Msghdr Sockaddr → Outcome (Option LinuxSockaddr × ℕ)
  write_msg_name dest linux_msg msg = elim linux_msg.msg_name [
    | none ↦ ok (none, linux_msg.msg_namelen)
    | some a ↦ elim msg.msg_name [
      | none ↦ abort
      | some name ↦ do
        (written, len) ← native_to_linux_sockaddr dest linux_msg.msg_namelen name
        ok (some written, len)
    ]
  ]

  unfoldable pub shim_recvmsg :
      ℕ → List ℕ → Msghdr LinuxSockaddr → ℕ → Process W → Outcome (Received W)
  shim_recvmsg s dest linux_msg linux_flags p = do
    flags ← linux_to_native_msg_flags c linux_flags
    let (nbytes, msg, p') = host.recvmsg s (receive_header c linux_msg) flags p
    if nbytes == minus_one_ssize
        then ok (record { nbytes = nbytes; msg = linux_msg; process = convert_errno e p' })
        else do
          new_flags ← native_to_linux_msg_flags c msg.msg_flags
          (name, namelen) ← write_msg_name dest linux_msg msg
          control ← native_to_linux_msg_control c linux_msg.msg_control.controllen msg.msg_control
          ok (record {
            nbytes = nbytes;
            msg = record linux_msg {
              msg_name = name;
              msg_namelen = namelen;
              msg_iovlen = msg.msg_iovlen;
              msg_control = control;
              msg_flags = new_flags;
            };
            process = p';
          })

  -- The name that `shim_sendmsg` passes on, in a local `struct sockaddr_storage`.
  unfoldable pub send_name : Option LinuxSockaddr → Outcome (Option Sockaddr × ℕ)
  send_name none = ok (none, 0)
  send_name (some linux_name) = do
    (name, len) ← linux_to_native_sockaddr c scratch c.sizeof_sockaddr_storage linux_name
    ok (some name, len)

  unfoldable pub shim_sendmsg : ℕ → Msghdr LinuxSockaddr → ℕ → Process W → Outcome (ℕ × Process W)
  shim_sendmsg s linux_msg linux_flags p = do
    (name, namelen) ← send_name linux_msg.msg_name
    control ← linux_to_native_msg_control c linux_msg.msg_control.controllen linux_msg.msg_control
    flags ← linux_to_native_msg_flags c linux_flags
    ok (
        report_error e minus_one_ssize (
          host.sendmsg s
            (record {
              msg_name = name;
              msg_namelen = namelen;
              msg_iov = linux_msg.msg_iov;
              msg_iovlen = linux_msg.msg_iovlen;
              msg_control = control;
              msg_flags = 0;
            })
            flags p))

  -- Of the two converters of addresses to and from text only the check of the family is the shim's.
  unfoldable pub inet_family : ℕ → Outcome ℕ
  inet_family af = do assert (af == 2 || af == 10); linux_to_native_domain c af
