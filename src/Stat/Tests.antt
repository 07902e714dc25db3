-- ===== src/Stat/Tests.antt =====
-- FreeBSD's numbers, and the theorems of file status at concrete inputs.
use libc6_shim.Prelude.{ℕ, ◌+◌, ◌-◌, ◌*◌, ◌^◌, ◌<◌, ◌≡◌, refl, [], ◌∷◌, ◌++◌, arith}
use libc6_shim.CString.{CString, codes}
use libc6_shim.Outcome.{ok}
use libc6_shim.Process.{Process}
use libc6_shim.Time.{Timespec}
use libc6_shim.Stat.{StatNumbers, Stat, copy_stat_buf, make_dev_id}
use libc6_shim.Stat.Calls.{FileSystem, dev_nvidia, shim_xstat}
use libc6_shim.Stat.DeviceLaws.{linux_major, linux_minor, make_dev_id_decodes}
use libc6_shim.Stat.CallLaws.{HasMinor, xstat_nvidia}

abbrev pub freebsd_stat : StatNumbers
freebsd_stat = record {
  at_symlink_nofollow = 0x200;
  at_empty_path = 0x4000;
  erange = 34;
  einval = 22;
}

make_dev_id_decodes_example :
    (linux_major (make_dev_id 0x12345 0x6789) ≡ 0x12345)
    × (linux_minor (make_dev_id 0x12345 0x6789) ≡ 0x6789)
    × (make_dev_id 0x12345 0x6789 < 2 ^ 64)
make_dev_id_decodes_example = make_dev_id_decodes 0x12345 0x6789 (omega arith) (omega arith)

abbrev epoch : Timespec
epoch = record { tv_sec = 0; tv_nsec = 0 }

abbrev pub device : Stat
device = record {
  st_dev = 1;
  st_ino = 2;
  st_nlink = 1;
  st_mode = 0x21b6;
  st_uid = 0;
  st_gid = 0;
  st_rdev = 7;
  st_size = 0;
  st_blksize = 4096;
  st_blocks = 0;
  st_atim = epoch;
  st_mtim = epoch;
  st_ctim = epoch;
}

-- The value of decimal digits.
abbrev decimal : CString → ℕ → ℕ
decimal [] value = value
decimal (x ∷ s) value = decimal s (value * 10 + (x - 48))

abbrev pub files : FileSystem ℕ
files = record {
  fstat = λ fd p. (0, device, p);
  fstatat = λ dirfd path flags p. (0, device, p);
  lstat = λ path p. (0, device, p);
  stat = λ path p. (0, device, p);
  chmod = λ path mode p. (0, p);
  strtoul = λ s p. (decimal s 0, p);
}

abbrev start : Process ℕ
start = record { errno = 3; world = 0 }

abbrev cleared : Process ℕ
cleared = record { errno = 0; world = 0 }

-- "/dev/nvidia12"
xstat_nvidia_example :
    (dev : ℕ) × (shim_xstat freebsd_stat files 1
        (dev_nvidia ++ codes "12")
        (copy_stat_buf device)
        start
      ≡ ok (record {
        err = 0;
        stat_buf = record (copy_stat_buf device) { st_rdev = dev };
        process = cleared;
      }))
    × (linux_major dev ≡ 195)
    × (linux_minor dev ≡ 12)
xstat_nvidia_example =
    xstat_nvidia freebsd_stat files 1 (codes "12") (copy_stat_buf device) device 12 start start
      cleared refl
      (HasMinor.numbered 49 (codes "2") 12 cleared (omega arith) (omega arith) refl (omega arith)
        (omega arith) (omega arith))
