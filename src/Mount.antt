-- ===== src/Mount.antt =====
-- src/libc/sys/mount.c and statvfs.c: what is told about a file system, in the 64-bit build, where the
-- structs of statfs and statfs64 are one.
mod Tests
use libc6_shim.Prelude.{ℕ, List, [], ◌∷◌, ◌==◌, if◌then◌else◌}
use libc6_shim.CString.{CString}
use libc6_shim.Flags.{Entry, ◌⇒◌, translate}
use libc6_shim.Process.{Process}

-- The fields of FreeBSD's `struct statfs` that are read.
pub record Statfs : Type 0 where
  pub f_type : ℕ
  pub f_bsize : ℕ
  pub f_blocks : ℕ
  pub f_bfree : ℕ
  pub f_bavail : ℕ
  pub f_files : ℕ
  pub f_ffree : ℕ
  pub f_namemax : ℕ

-- `struct linux_statfs`
pub record LinuxStatfs : Type 0 where
  pub f_type : ℕ
  pub f_bsize : ℕ
  pub f_blocks : ℕ
  pub f_bfree : ℕ
  pub f_bavail : ℕ
  pub f_files : ℕ
  pub f_ffree : ℕ
  pub f_fsid : ℕ
  pub f_namelen : ℕ
  pub f_frsize : ℕ
  pub f_flags : ℕ
  pub f_spare : List ℕ

-- `copy_statfs_buf` and `copy_statfs64_buf`; `f_spare` is not written.
unfoldable pub copy_statfs_buf : LinuxStatfs → Statfs → LinuxStatfs
copy_statfs_buf dst src = record {
  f_type = src.f_type;
  f_bsize = src.f_bsize;
  f_blocks = src.f_blocks;
  f_bfree = src.f_bfree;
  f_bavail = src.f_bavail;
  f_files = src.f_files;
  f_ffree = src.f_ffree;
  f_fsid = 0;
  f_namelen = src.f_namemax;
  f_frsize = 0;
  f_flags = 0;
  f_spare = dst.f_spare;
}

-- FreeBSD's `struct statvfs`, as far as it is read.
pub record Statvfs : Type 0 where
  pub f_bsize : ℕ
  pub f_frsize : ℕ
  pub f_blocks : ℕ
  pub f_bfree : ℕ
  pub f_bavail : ℕ
  pub f_files : ℕ
  pub f_ffree : ℕ
  pub f_favail : ℕ
  pub f_flag : ℕ
  pub f_namemax : ℕ

-- `struct linux_statvfs64`
pub record LinuxStatvfs : Type 0 where
  pub f_bsize : ℕ
  pub f_frsize : ℕ
  pub f_blocks : ℕ
  pub f_bfree : ℕ
  pub f_bavail : ℕ
  pub f_files : ℕ
  pub f_ffree : ℕ
  pub f_favail : ℕ
  pub f_fsid : ℕ
  pub f_flag : ℕ
  pub f_namemax : ℕ
  pub pad : List ℕ

pub record MountNumbers : Type 0 where
  pub st_rdonly : ℕ
  pub st_nosuid : ℕ

abbrev pub linux_st_rdonly : ℕ
linux_st_rdonly = 1

abbrev pub linux_st_nosuid : ℕ
linux_st_nosuid = 2

abbrev pub st_entries : MountNumbers → List Entry
st_entries c = (c.st_rdonly ⇒ linux_st_rdonly) ∷ (c.st_nosuid ⇒ linux_st_nosuid) ∷ []

unfoldable pub copy_statvfs : MountNumbers → LinuxStatvfs → Statvfs → LinuxStatvfs
copy_statvfs c dst buf = record {
  f_bsize = buf.f_bsize;
  f_frsize = buf.f_frsize;
  f_blocks = buf.f_blocks;
  f_bfree = buf.f_bfree;
  f_bavail = buf.f_bavail;
  f_files = buf.f_files;
  f_ffree = buf.f_ffree;
  f_favail = buf.f_favail;
  f_fsid = 0;
  f_flag = translate (st_entries c) buf.f_flag 0;
  f_namemax = buf.f_namemax;
  pad = dst.pad;
}

pub record MountHost (W : Type 0) : Type 0 where
  pub fstatfs : ℕ → Process W → ℕ × Statfs × Process W
  pub statfs : CString → Process W → ℕ × Statfs × Process W
  pub statvfs : CString → Process W → ℕ × Statvfs × Process W

module _ {W : Type 0} (host : MountHost W) where
  -- `shim_fstatfs_impl` and `shim_fstatfs64_impl`
  unfoldable pub shim_fstatfs : ℕ → LinuxStatfs → Process W → ℕ × LinuxStatfs × Process W
  unfolding copy_statfs_buf
  shim_fstatfs fd linux_buf p =
      let (err, buf, q) = host.fstatfs fd p in
      (err, if err == 0 then copy_statfs_buf linux_buf buf else linux_buf, q)

  -- `shim_statfs_impl` and `shim_statfs64_impl`
  unfoldable pub shim_statfs : CString → LinuxStatfs → Process W → ℕ × LinuxStatfs × Process W
  unfolding copy_statfs_buf
  shim_statfs path linux_buf p =
      let (err, buf, q) = host.statfs path p in
      (err, if err == 0 then copy_statfs_buf linux_buf buf else linux_buf, q)

  unfoldable pub shim_statvfs64 :
      MountNumbers → CString → LinuxStatvfs → Process W → ℕ × LinuxStatvfs × Process W
  unfolding copy_statvfs
  shim_statvfs64 c path linux_buf p =
      let (err, buf, q) = host.statvfs path p in
      (err, if err == 0 then copy_statvfs c linux_buf buf else linux_buf, q)
