-- ===== src/Redirect/Laws.antt =====
-- What `redirect` lets through.
use libc6_shim.Prelude.{none, some, true, false, ◌≡◌, ◌≢◌, refl, [], ◌∷◌, ◌↔◌, ◌⊎◌, arith}
use libc6_shim.CString.{CString, codes, str_eq, str_starts_with, str_eq→eq, str_eq_iff}
use libc6_shim.Redirect.{init_redirects, find_redirect, redirect, emul_cpuinfo, proc_cpuinfo}

-- Not under /proc/ or /sys/.
abbrev pub IsOutside : CString → Type 0
IsOutside path =
    (str_starts_with path (codes "/proc/") ≡ false) × (str_starts_with path (codes "/sys/") ≡ false)

constants-IsOutside :
    IsOutside (codes "/dev/null")
    × IsOutside (codes "/etc/ssl/cert.pem")
    × IsOutside (codes "/dev/nvidia-uvm")
unfolding str_starts_with
constants-IsOutside = ((refl, refl), (refl, refl), (refl, refl))

uvm-IsOutside : (path : CString) → str_eq (codes "/dev/nvidia-uvm") path ≡ true → IsOutside path
uvm-IsOutside path h = rw (← str_eq→eq (codes "/dev/nvidia-uvm") path h) constants-IsOutside.2

-- The second character tells the two prefixes apart.
sys_not_proc :
    (path : CString)
    → str_starts_with path (codes "/sys/") ≡ true
    → str_starts_with path (codes "/proc/") ≡ false
unfolding str_starts_with
sys_not_proc [] h = refl
sys_not_proc (a ∷ []) h = ground arith
sys_not_proc (a ∷ b ∷ path) h = ground arith

-- Where the path of the Linux emulation lies outside /proc/ and /sys/, no path that `redirect`
-- returns lies there: every access to the native /proc and /sys is cut off.
pub redirect-IsOutside :
    (emul path : CString) {q : CString}
    → IsOutside (emul_cpuinfo emul)
    → redirect (init_redirects emul) path ≡ some q
    → IsOutside q
unfolding init_redirects find_redirect redirect
redirect-IsOutside emul path h e = ground (arith, constants-IsOutside)

-- `redirect` refuses exactly the paths under /proc/ but for the two redirected ones, and all those
-- under /sys/.
pub redirect_refuses_iff :
    (emul path : CString)
    → (redirect (init_redirects emul) path ≡ none) ↔ (
        ((str_starts_with path (codes "/proc/") ≡ true)
          × (path ≢ codes "/proc/self/maps")
          × (path ≢ proc_cpuinfo))
        ⊎ (str_starts_with path (codes "/sys/") ≡ true))
unfolding init_redirects find_redirect redirect
redirect_refuses_iff emul path = (
  ground (arith, str_eq_iff path (codes "/proc/self/maps"), str_eq_iff path proc_cpuinfo),
  ground (
    arith,
    uvm-IsOutside path,
    sys_not_proc path,
    str_eq_iff path (codes "/proc/self/maps"),
    str_eq_iff path proc_cpuinfo,
  ),
)
