-- ===== src/Redirect/Tests.antt =====
-- The redirections of an emulation under /compat/linux.
use libc6_shim.Prelude.{none, some, ◌≡◌, ◌≢◌, ◌↔◌, ◌⊎◌, true, refl}
use libc6_shim.CString.{CString, codes, str_eq, str_starts_with}
use libc6_shim.Redirect.{init_redirects, find_redirect, redirect, proc_cpuinfo}
use libc6_shim.Redirect.Laws.{redirect_refuses_iff}

abbrev pub emul : CString
emul = codes "/compat/linux"

redirect_cpuinfo :
    redirect (init_redirects emul) (codes "/proc/cpuinfo")
    ≡ some (codes "/compat/linux//proc/cpuinfo")
unfolding redirect init_redirects find_redirect str_eq str_starts_with
redirect_cpuinfo = refl

redirect_refuses_iff_example : (redirect (init_redirects emul) (codes "/proc/self/maps") ≡ none) ↔ (
    ((str_starts_with (codes "/proc/self/maps") (codes "/proc/") ≡ true)
      × (codes "/proc/self/maps" ≢ codes "/proc/self/maps")
      × (codes "/proc/self/maps" ≢ proc_cpuinfo))
    ⊎ (str_starts_with (codes "/proc/self/maps") (codes "/sys/") ≡ true))
redirect_refuses_iff_example = redirect_refuses_iff emul (codes "/proc/self/maps")
