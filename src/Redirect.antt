-- ===== src/Redirect.antt =====
-- src/util.c: the files of Linux's /proc and /sys that are served from elsewhere, or refused.
pub mod Laws
mod Tests
use libc6_shim.Prelude.{ℕ, List, [], ◌∷◌, ◌++◌, Option, none, some, if◌then◌else◌}
use libc6_shim.CString.{CString, codes, str_eq, str_starts_with}

-- One pair of `procfs_redirects`, which holds the path and what it is redirected to in turn.
pub record Redirection : Type 0 where
  pub from : CString
  pub to : CString

abbrev pub proc_cpuinfo : CString
proc_cpuinfo = codes "/proc/cpuinfo"

-- `asprintf(..., "%s/%s", linux_emul_path, "/proc/cpuinfo")`
abbrev pub emul_cpuinfo : CString → CString
emul_cpuinfo linux_emul_path = linux_emul_path ++ (codes "/" ++ proc_cpuinfo)

-- The table that `init_redirects` fills, up to its final NULL. The argument is the value of the
-- sysctl compat.linux.emul_path.
unfoldable pub init_redirects : CString → List Redirection
init_redirects linux_emul_path =
    record { from = codes "/proc/self/maps"; to = codes "/dev/null" }
    ∷ record { from = proc_cpuinfo; to = emul_cpuinfo linux_emul_path }
    ∷ []

-- The loop of `redirect` over that table.
unfoldable pub find_redirect : List Redirection → CString → Option CString
find_redirect [] path = none
find_redirect (r ∷ rs) path = if str_eq path r.from then some r.to else find_redirect rs path

-- `none` is the NULL that callers report as EACCES.
unfoldable pub redirect : List Redirection → CString → Option CString
redirect procfs_redirects path =
    if str_eq (codes "/dev/nvidia-uvm") path
    then some (codes "/dev/null")
    else if str_starts_with path (codes "/proc/")
    then find_redirect procfs_redirects path
    else if str_starts_with path (codes "/sys/")
    then none
    else if str_eq path (codes "/etc/ssl/certs/ca-certificates.crt")
    then some (codes "/etc/ssl/cert.pem")
    else some path
