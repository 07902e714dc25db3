-- ===== src/Socket/ControlLaws.antt =====
-- Control messages on the way to a native call and back.
use libc6_shim.Prelude.{
  ◌+◌, ◌-◌, ◌%◌, ◌^◌, length, ap, eq→==, sym, ℕ, List, [], ◌∷◌, ◌≤◌, ◌<◌, ◌≡◌, refl, le→leb, lt→ltb,
  some, arith,
}
use libc6_shim.Outcome.{ok}
use libc6_shim.CArray.{take-all}
use libc6_shim.Switch.{select, DistinctTargets}
use libc6_shim.Switch.Laws.{select-swap}
use libc6_shim.Socket.{
  SocketNumbers, level_cases, linux_to_native_sock_level, native_to_linux_sock_level,
}
use libc6_shim.Socket.Message.{
  Cmsg, Control, cmsg_len_zero, copy_data, native_to_linux_cmsg_type, linux_scm_rights,
  linux_to_native_cmsg, linux_to_native_cmsgs, linux_to_native_msg_control, native_to_linux_cmsg,
  native_to_linux_cmsgs, native_to_linux_msg_control,
}

-- A message that passes file descriptors at a level that the shim knows. Its length, of 32 bits, is
-- that of the header and its payload.
abbrev pub IsRights : SocketNumbers → Cmsg → Type 0
IsRights c m =
    (m.cmsg_type ≡ linux_scm_rights)
    × (m.cmsg_len ≡ 16 + length m.payload)
    × (m.cmsg_len < 2 ^ 32)
    × (level : ℕ) × (select (level_cases c) m.cmsg_level ≡ some level)

abbrev pub AllRights : SocketNumbers → List Cmsg → Type 0
AllRights c [] = Unit {0}
AllRights c (m ∷ ms) = IsRights c m × AllRights c ms

copy_data-all :
    (m : Cmsg)
    → m.cmsg_len ≡ 16 + length m.payload
    → m.cmsg_len < 2 ^ 32
    → copy_data m ≡ ok m.payload
unfolding copy_data
copy_data-all m sized small =
    let size : (m.cmsg_len + (2 ^ 64 - cmsg_len_zero)) % 2 ^ 64 ≡ length m.payload =
      omega (arith, sized, small) in
    rw (size, le→leb (length m.payload) (length m.payload) (omega arith))
      (ap (λ l. ok l) (take-all (length m.payload) m.payload (omega arith)))

cmsg_round_trip :
    (c : SocketNumbers) (m : Cmsg)
    → DistinctTargets (level_cases c)
    → IsRights c m
    → (n : Cmsg) × (linux_to_native_cmsg c m ≡ ok n) × (native_to_linux_cmsg c n ≡ ok m)
unfolding linux_to_native_cmsg native_to_linux_cmsg linux_to_native_sock_level
    native_to_linux_sock_level native_to_linux_cmsg_type copy_data
cmsg_round_trip c m distinct (rights, sized, small, level, known) =
    let native : Cmsg = record m { cmsg_level = level; cmsg_type = c.scm_rights } in
    let same : m.cmsg_len % 2 ^ 32 ≡ m.cmsg_len = omega (arith, small) in
    (
      native,
      rw (rights, known, copy_data-all m sized small, same) refl,
      rw
          (
            select-swap (level_cases c) m.cmsg_level level distinct known,
            eq→== c.scm_rights c.scm_rights refl,
            copy_data-all native sized small,
            sym rights,
          )
          refl,
    )

cmsgs_round_trip :
    (c : SocketNumbers) (ms : List Cmsg)
    → DistinctTargets (level_cases c)
    → AllRights c ms
    → (ns : List Cmsg) × (linux_to_native_cmsgs c ms ≡ ok ns) × (native_to_linux_cmsgs c ns ≡ ok ms)
unfolding linux_to_native_cmsgs native_to_linux_cmsgs
cmsgs_round_trip c [] distinct h = ([], refl, refl)
cmsgs_round_trip c (m ∷ ms) distinct h =
    let (n, there, back) = cmsg_round_trip c m distinct h.0 in
    let (ns, theres, backs) = cmsgs_round_trip c ms distinct h.1 in
    (n ∷ ns, rw (there, theres) refl, rw (back, backs) refl)

-- Where the native levels differ from one another: a control buffer that passes file descriptors
-- at known levels, in messages whose length is that of the header and the payload, is converted into any buffer that is large enough, and comes back message by
-- message with the same payloads.
pub control_round_trip :
    (c : SocketNumbers) (size linux_size : ℕ) (control : Control)
    → DistinctTargets (level_cases c)
    → AllRights c control.messages
    → 0 < control.controllen
    → control.controllen ≤ size
    → control.controllen ≤ linux_size
    → (n : Control) × (linux_to_native_msg_control c size control ≡ ok n)
      × (native_to_linux_msg_control c linux_size n ≡ ok control)
unfolding linux_to_native_msg_control native_to_linux_msg_control
control_round_trip c size linux_size control distinct h pos fits fits' =
    let (ns, there, back) = cmsgs_round_trip c control.messages distinct h in
    (
      record { messages = ns; controllen = control.controllen },
      rw (lt→ltb _ _ pos, le→leb _ _ fits, there) refl,
      rw (lt→ltb _ _ pos, le→leb _ _ fits', back) refl,
    )
