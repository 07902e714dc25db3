-- ===== src/Socket/OptionLaws.antt =====
-- Which native levels the option calls reach.
use libc6_shim.Prelude.{ℕ, ◌≡◌, ◌≢◌, arith}
use libc6_shim.Outcome.{ok}
use libc6_shim.Socket.{SocketNumbers}
use libc6_shim.Socket.Options.{Target, option_target}

-- Where the call does not abort, and whatever the level and the option of the program, IPv6 ones included, the native call is at the
-- level SOL_SOCKET, IPPROTO_IP or IPPROTO_TCP: a native level that differs from these three, as
-- IPPROTO_IPV6 does, is never used.
pub option_target-ne_ipv6 :
    (c : SocketNumbers) (ipproto_ipv6 linux_level linux_optname : ℕ) (t : Target)
    → ipproto_ipv6 ≢ c.sol_socket
    → ipproto_ipv6 ≢ c.ipproto_ip
    → ipproto_ipv6 ≢ c.ipproto_tcp
    → option_target c linux_level linux_optname ≡ ok t
    → t.level ≢ ipproto_ipv6
unfolding option_target
option_target-ne_ipv6 c v6 linux_level linux_optname t h₁ h₂ h₃ e = ground (arith, e)
