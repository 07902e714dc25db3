-- ===== src/Unistd/Tests.antt =====
-- The theorems on links at concrete inputs.
use libc6_shim.Prelude.{ℕ, ◌+◌, ◌-◌, ◌*◌, ◌≡◌, refl, [], ◌∷◌, ◌++◌, some, arith}
use libc6_shim.CString.{CString, codes, str_eq}
use libc6_shim.Outcome.{ok}
use libc6_shim.Process.{Process}
use libc6_shim.Errno.Tests.{freebsd_errnos}
use libc6_shim.Unistd.Links.{LinkHost, proc, shim_readlink, shim_realpath}
use libc6_shim.Unistd.LinkLaws.{IsOwn, own_exe}

-- The value of decimal digits.
abbrev decimal : CString → ℕ → ℕ
decimal [] value = value
decimal (x ∷ s) value = decimal s (value * 10 + (x - 48))

-- Process 12, whose program is /bin/sh.
abbrev pub system : LinkHost ℕ
system = record {
  readlink = λ path bufsize p. record { nchars = 1; buf = some (codes "x"); process = p };
  realpath = λ path p. record { path = some path; process = p };
  sysctl_pathname = λ pid bufsize p. (0, codes "/bin/sh", 8, p);
  getpid = λ p. 12;
  strtoul = λ s p. (decimal s 0, p);
}

abbrev start : Process ℕ
start = record { errno = 0; world = 0 }

own_exe_example :
    (shim_readlink freebsd_errnos 13 1024 system
        (some (codes "/opt/game"))
        (proc ++ (codes "12" ++ codes "/exe"))
        5
        start
      ≡ ok (record { nchars = 5; buf = some (codes "/opt/"); process = start }))
    × (shim_realpath freebsd_errnos 13 1024 system
          (some (codes "/opt/game"))
          (proc ++ (codes "12" ++ codes "/exe"))
          start
        ≡ ok (record { path = some (codes "/opt/game"); process = start }))
unfolding str_eq
own_exe_example =
    own_exe freebsd_errnos 13 1024 system (codes "/opt/game") (codes "12") 5 start start
      (omega arith, (omega arith, tt))
      (IsOwn.pid (codes "12") 12 start refl refl (omega arith) (omega arith) refl) (omega arith)
