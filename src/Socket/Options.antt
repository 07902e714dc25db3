-- ===== src/Socket/Options.antt =====
-- Socket options: `getsockopt` and `setsockopt`.
use libc6_shim.Prelude.{
  ℕ, List, [], ◌∷◌, ◌==◌, ◌&&◌, if◌then◌else◌, Option, none, some, Bool, false,
}
use libc6_shim.Outcome.{Outcome, ok, abort, ◌>>=◌, or_abort}
use libc6_shim.Flags.{Entry, ◌⇒◌}
use libc6_shim.Switch.{select}
use libc6_shim.Process.{Process, minus_one}
use libc6_shim.Socket.{SocketNumbers}

abbrev pub linux_so_sndbuf : ℕ
linux_so_sndbuf = 7

abbrev pub linux_so_passcred : ℕ
linux_so_passcred = 16

abbrev pub so_cases : SocketNumbers → List Entry
so_cases c =
    (2 ⇒ c.so_reuseaddr)
    ∷ (4 ⇒ c.so_error)
    ∷ (6 ⇒ c.so_broadcast)
    ∷ (7 ⇒ c.so_sndbuf)
    ∷ (8 ⇒ c.so_rcvbuf)
    ∷ (9 ⇒ c.so_keepalive)
    ∷ []

unfoldable pub linux_to_native_so_opt : SocketNumbers → ℕ → Outcome ℕ
linux_to_native_so_opt c linux_optname = or_abort (select (so_cases c) linux_optname)

unfoldable pub linux_to_native_ip4_opt : SocketNumbers → ℕ → Outcome ℕ
linux_to_native_ip4_opt c linux_optname =
    or_abort
      (select ((11 ⇒ minus_one) ∷ (13 ⇒ c.ip_recvtos) ∷ (10 ⇒ c.ip_dontfrag) ∷ []) linux_optname)

unfoldable pub linux_to_native_ip6_opt : SocketNumbers → ℕ → Outcome ℕ
linux_to_native_ip6_opt c linux_optname =
    or_abort (select ((26 ⇒ c.ipv6_v6only) ∷ []) linux_optname)

unfoldable pub linux_to_native_tcp_opt : SocketNumbers → ℕ → Outcome ℕ
linux_to_native_tcp_opt c linux_optname = or_abort (
    select
      ((1 ⇒ c.tcp_nodelay) ∷ (4 ⇒ c.tcp_keepidle) ∷ (5 ⇒ c.tcp_keepintvl) ∷ (18 ⇒ minus_one) ∷ [])
      linux_optname)

-- The level and the option of the native call.
pub record Target : Type 0 where
  pub level : ℕ
  pub optname : ℕ

-- The `switch` that both calls share, behind their special cases for SOL_SOCKET.
unfoldable pub option_target : SocketNumbers → ℕ → ℕ → Outcome Target
option_target c linux_level linux_optname =
    if linux_level == 1
    then (do
      o ← linux_to_native_so_opt c linux_optname
      ok (record { level = c.sol_socket; optname = o }))
    else if linux_level == 0
    then (do
      o ← linux_to_native_ip4_opt c linux_optname
      ok (record { level = c.ipproto_ip; optname = o }))
    else if linux_level == 41
    then (do
      o ← linux_to_native_ip6_opt c linux_optname
      ok (record { level = c.ipproto_ip; optname = o }))
    else if linux_level == 6
    then (do
      o ← linux_to_native_tcp_opt c linux_optname
      ok (record { level = c.ipproto_tcp; optname = o }))
    else abort

-- The native calls: of an option's value only the `int` that it points to is looked at.
pub record OptionHost (W : Type 0) : Type 0 where
  pub getsockopt : ℕ → ℕ → ℕ → Process W → ℕ × Option ℕ × Process W
  pub setsockopt : ℕ → ℕ → ℕ → Option ℕ → Process W → ℕ × Process W

-- `has_creds` says whether the build has LOCAL_CREDS_PERSISTENT.
module _ {W : Type 0} (c : SocketNumbers) (has_creds : Bool) (host : OptionHost W) where
  unfoldable pub shim_getsockopt : ℕ → ℕ → ℕ → Process W → Outcome (ℕ × Option ℕ × Process W)
  shim_getsockopt s linux_level linux_optname p =
      if linux_level == 1 && linux_optname == linux_so_passcred
      then if has_creds
        then ok (host.getsockopt s c.sol_local c.local_creds_persistent p)
        else ok (minus_one, none, p)
      else do
        t ← option_target c linux_level linux_optname
        ok (host.getsockopt s t.level t.optname p)

  abbrev pub is_zero : Option ℕ → Bool
  is_zero none = false
  is_zero (some v) = v == 0

  unfoldable pub shim_setsockopt : ℕ → ℕ → ℕ → Option ℕ → Process W → Outcome (ℕ × Process W)
  shim_setsockopt s linux_level linux_optname optval p =
      if linux_level == 1 && (linux_optname == linux_so_sndbuf && is_zero optval)
      then ok (0, p)
      else if linux_level == 1 && linux_optname == linux_so_passcred
      then if has_creds
        then ok (host.setsockopt s c.sol_local c.local_creds_persistent optval p)
        else ok (minus_one, p)
      else do
        t ← option_target c linux_level linux_optname
        ok (host.setsockopt s t.level t.optname optval p)
