-- ===== src/Dirent.antt =====
-- src/libc/dirent.c and dirent.h: directory streams, whose entries stay allocated until closedir.
pub mod Heap
pub mod Directory
pub mod Scan
pub mod Stream
pub mod StreamLaws
pub mod DirectoryLaws
pub mod ScanLaws
mod Tests
use libc6_shim.Prelude.{ℕ, List}
use libc6_shim.CArray.{c_str, copy_bounded}

-- A native entry; its name is a string.
pub record NativeDirent : Type 0 where
  pub d_ino : ℕ
  pub d_off : ℕ
  pub d_reclen : ℕ
  pub d_type : ℕ
  pub d_name : List ℕ

-- `linux_dirent` and `linux_dirent64`, which are the same on x86-64: `d_name` is its 256 bytes.
pub record LinuxDirent : Type 0 where
  pub d_ino : ℕ
  pub d_off : ℕ
  pub d_reclen : ℕ
  pub d_type : ℕ
  pub d_name : List ℕ

-- `copy_direntry` and `copy_direntry64`, into an object that holds `dst`.
unfoldable pub copy_direntry : LinuxDirent → NativeDirent → LinuxDirent
copy_direntry dst src = record {
  d_ino = src.d_ino;
  d_off = src.d_off;
  d_reclen = src.d_reclen;
  d_type = src.d_type;
  d_name = copy_bounded dst.d_name src.d_name;
}
