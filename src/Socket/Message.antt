-- ===== src/Socket/Message.antt =====
-- Control messages and message headers. The two builds of `struct cmsghdr` lay out their data
-- alike, as the source asserts, so one record serves both; a buffer is the list of the messages
-- that CMSG_FIRSTHDR and CMSG_NXTHDR walk through.
use libc6_shim.Prelude.{
  ℕ, ◌+◌, ◌-◌, ◌%◌, ◌^◌, take, length, List, [], ◌∷◌, ◌==◌, ◌&&◌, ltb, leb, if◌then◌else◌,
}
use libc6_shim.Outcome.{Outcome, ok, abort, ◌>>=◌, ◌>>◌, assert}
use libc6_shim.Socket.{SocketNumbers, linux_to_native_sock_level, native_to_linux_sock_level}

pub record Cmsg : Type 0 where
  pub cmsg_len : ℕ
  pub cmsg_level : ℕ
  pub cmsg_type : ℕ
  pub payload : List ℕ

-- `msg_control`, NULL or the messages in it, and `msg_controllen`.
pub record Control : Type 0 where
  pub messages : List Cmsg
  pub controllen : ℕ

abbrev pub linux_scm_rights : ℕ
linux_scm_rights = 1

abbrev pub linux_ip_tos : ℕ
linux_ip_tos = 1

-- CMSG_LEN(0), the aligned size of a header.
abbrev pub cmsg_len_zero : ℕ
cmsg_len_zero = 16

-- `memcpy` of `cmsg_len - CMSG_LEN(0)` bytes, where a read past the message has no result.
unfoldable pub copy_data : Cmsg → Outcome (List ℕ)
copy_data m =
    let size = (m.cmsg_len + (2 ^ 64 - cmsg_len_zero)) % 2 ^ 64 in
    assert (leb size (length m.payload)) >> ok (take size m.payload)

-- The body of the loop in `linux_to_native_msg_control`. The native `cmsg_len` has 32 bits.
unfoldable pub linux_to_native_cmsg : SocketNumbers → Cmsg → Outcome Cmsg
linux_to_native_cmsg c linux_cmsg = do
  assert (linux_cmsg.cmsg_type == linux_scm_rights)
  level ← linux_to_native_sock_level c linux_cmsg.cmsg_level
  payload ← copy_data linux_cmsg
  ok (record {
    cmsg_len = linux_cmsg.cmsg_len % 2 ^ 32;
    cmsg_level = level;
    cmsg_type = c.scm_rights;
    payload = payload;
  })

unfoldable pub linux_to_native_cmsgs : SocketNumbers → List Cmsg → Outcome (List Cmsg)
linux_to_native_cmsgs c [] = ok []
linux_to_native_cmsgs c (m ∷ ms) = do
  cmsg ← linux_to_native_cmsg c m
  rest ← linux_to_native_cmsgs c ms
  ok (cmsg ∷ rest)

-- The number is the `msg_controllen` of the native header, the size of its buffer.
unfoldable pub linux_to_native_msg_control : SocketNumbers → ℕ → Control → Outcome Control
linux_to_native_msg_control c size linux_control =
    if ltb 0 linux_control.controllen
    then (do
      assert (leb linux_control.controllen size)
      messages ← linux_to_native_cmsgs c linux_control.messages
      ok (record { messages = messages; controllen = linux_control.controllen }))
    else ok (record { messages = []; controllen = 0 })

-- The `if`s on the type.
unfoldable pub native_to_linux_cmsg_type : SocketNumbers → Cmsg → Outcome ℕ
native_to_linux_cmsg_type c cmsg =
    if cmsg.cmsg_type == c.scm_rights
    then ok linux_scm_rights
    else if cmsg.cmsg_level == c.ipproto_ip && cmsg.cmsg_type == c.ip_recvtos
    then ok linux_ip_tos
    else abort

-- The body of the loop in `native_to_linux_msg_control`.
unfoldable pub native_to_linux_cmsg : SocketNumbers → Cmsg → Outcome Cmsg
native_to_linux_cmsg c cmsg = do
  linux_level ← native_to_linux_sock_level c cmsg.cmsg_level
  linux_type ← native_to_linux_cmsg_type c cmsg
  payload ← copy_data cmsg
  ok (record {
    cmsg_len = cmsg.cmsg_len;
    cmsg_level = linux_level;
    cmsg_type = linux_type;
    payload = payload;
  })

unfoldable pub native_to_linux_cmsgs : SocketNumbers → List Cmsg → Outcome (List Cmsg)
native_to_linux_cmsgs c [] = ok []
native_to_linux_cmsgs c (m ∷ ms) = do
  linux_cmsg ← native_to_linux_cmsg c m
  rest ← native_to_linux_cmsgs c ms
  ok (linux_cmsg ∷ rest)

unfoldable pub native_to_linux_msg_control : SocketNumbers → ℕ → Control → Outcome Control
native_to_linux_msg_control c size control =
    if ltb 0 control.controllen
    then (do
      assert (leb control.controllen size)
      messages ← native_to_linux_cmsgs c control.messages
      ok (record { messages = messages; controllen = control.controllen }))
    else ok (record { messages = []; controllen = 0 })
