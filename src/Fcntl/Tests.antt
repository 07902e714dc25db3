-- ===== src/Fcntl/Tests.antt =====
-- FreeBSD's numbers, and the theorems and defects at concrete inputs.
use libc6_shim.Prelude.{ℕ, ◌≡◌, refl, arith}
use libc6_shim.CString.{codes, str_eq, str_starts_with}
use libc6_shim.Outcome.{ok, abort}
use libc6_shim.Flags.{SeparateTargets, translate}
use libc6_shim.Process.{Process, minus_one}
use libc6_shim.Redirect.{init_redirects, redirect}
use libc6_shim.Fcntl.{FcntlNumbers}
use libc6_shim.Fcntl.Open.{NativeOpen, shim_open, open_known, shim_shm_open}
use libc6_shim.Fcntl.OpenLaws.{OpenResult, open_names, open_result}
use libc6_shim.Fcntl.Commands.{native_to_linux_fl}
use libc6_shim.Fcntl.CommandLaws.{IsFlFlags}

abbrev pub freebsd : FcntlNumbers
freebsd = record {
  o_wronly = 1;
  o_rdwr = 2;
  o_creat = 0x200;
  o_excl = 0x800;
  o_noctty = 0x8000;
  o_trunc = 0x400;
  o_append = 8;
  o_nonblock = 4;
  o_directory = 0x2_0000;
  o_cloexec = 0x10_0000;
  f_getfd = 1;
  f_setfd = 2;
  f_getfl = 3;
  f_setfl = 4;
  f_setlk = 12;
  f_setlkw = 13;
  f_dupfd_cloexec = 17;
  f_add_seals = 19;
  fd_cloexec = 1;
  f_rdlck = 1;
  f_wrlck = 3;
  f_unlck = 2;
  eacces = 13;
  path_max = 1024;
}

-- The state is the flags and the mode of the last `open`, which gives descriptor 3.
abbrev recording : NativeOpen (ℕ × ℕ)
recording path flags mode w = (3, record w { world = (flags, mode) })

abbrev idle : Process (ℕ × ℕ)
idle = record { errno = 0; world = (0, 0) }

freebsd-SeparateTargets : SeparateTargets (open_names freebsd)
freebsd-SeparateTargets = omega arith

-- O_WRONLY | O_CREAT
open_result_example :
    (r : ℕ × Process (ℕ × ℕ)) × (shim_open freebsd recording
        (init_redirects (codes "/compat/linux"))
        (codes "/tmp/x")
        0x41
        0x1a4
        idle
      ≡ ok r)
    × OpenResult freebsd recording (codes "/compat/linux") (codes "/tmp/x") 0x41 0x1a4 idle r
unfolding str_starts_with
open_result_example =
    open_result freebsd recording (codes "/compat/linux") (codes "/tmp/x") 0x41 0x1a4 idle
      freebsd-SeparateTargets (refl, refl) refl

-- O_DIRECTORY alone, on an ordinary path: the call fails and leaves errno 0.
open_directory :
    shim_open freebsd recording
      (init_redirects (codes "/compat/linux"))
      (codes "/tmp")
      0x10000
      0
      idle
    ≡ ok (minus_one, idle)
unfolding shim_open open_known redirect str_eq str_starts_with
open_directory = refl

-- shm_open with O_RDWR and mode 0600: O_CLOEXEC is in the mode, and not in the flags.
shm_open_cloexec :
    shim_shm_open freebsd recording (codes "/x") 2 0x180 idle
    ≡ ok (3, record idle { world = (2, 0x10_0180) })
unfolding shim_shm_open translate
shm_open_cloexec = refl

-- F_GETFL of a bad descriptor: the -1 of the native call fails the assertion.
getfl_bad_descriptor : native_to_linux_fl freebsd minus_one ≡ abort
unfolding native_to_linux_fl
getfl_bad_descriptor = refl

freebsd-IsFlFlags : IsFlFlags freebsd
freebsd-IsFlFlags = omega arith
