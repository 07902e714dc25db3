-- ===== src/Mount/Tests.antt =====
-- A file system that is mounted read-only.
use libc6_shim.Prelude.{ℕ, ◌≡◌, refl, []}
use libc6_shim.CString.{codes}
use libc6_shim.Flags.{translate}
use libc6_shim.Process.{Process}
use libc6_shim.Mount.{MountHost, LinuxStatvfs, shim_statvfs64}

abbrev media : MountHost ℕ
media = record {
  fstatfs = λ fd p. (
    1,
    record {
      f_type = 0;
      f_bsize = 0;
      f_blocks = 0;
      f_bfree = 0;
      f_bavail = 0;
      f_files = 0;
      f_ffree = 0;
      f_namemax = 0;
    },
    p,
  );
  statfs = λ path p. (
    0,
    record {
      f_type = 5;
      f_bsize = 2048;
      f_blocks = 10;
      f_bfree = 0;
      f_bavail = 0;
      f_files = 3;
      f_ffree = 0;
      f_namemax = 255;
    },
    p,
  );
  statvfs = λ path p. (
    0,
    record {
      f_bsize = 2048;
      f_frsize = 2048;
      f_blocks = 10;
      f_bfree = 0;
      f_bavail = 0;
      f_files = 3;
      f_ffree = 0;
      f_favail = 0;
      f_flag = 0x101;
      f_namemax = 255;
    },
    p,
  );
}

abbrev empty : LinuxStatvfs
empty = record {
  f_bsize = 0;
  f_frsize = 0;
  f_blocks = 0;
  f_bfree = 0;
  f_bavail = 0;
  f_files = 0;
  f_ffree = 0;
  f_favail = 0;
  f_fsid = 9;
  f_flag = 9;
  f_namemax = 0;
  pad = [];
}

abbrev started : Process ℕ
started = record { errno = 0; world = 0 }

statvfs_flag :
    (shim_statvfs64 media
      (record { st_rdonly = 1; st_nosuid = 2 })
      (codes "/cdrom")
      empty
      started).1.f_flag
    ≡ 1
unfolding shim_statvfs64 translate
statvfs_flag = refl
