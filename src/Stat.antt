-- ===== src/Stat.antt =====
-- src/libc/sys/stat.c and stat.h: the copy of `struct stat`, and device numbers.
pub mod Calls
pub mod DeviceLaws
pub mod CallLaws
pub mod Tests
use libc6_shim.Prelude.{
  ℕ, ◌+◌, ◌-◌, ◌*◌, ◌^◌, bit_and, bit_or, List, [], ◌∷◌, ◌==◌, ltb, if◌then◌else◌,
}
use libc6_shim.Bits.{bit_not32}
use libc6_shim.Outcome.{Outcome, ok, ◌>>◌, assert}
use libc6_shim.Process.{sign_extend}
use libc6_shim.Time.{Timespec}
use libc6_shim.Flags.{Entry, ◌⇒◌, or_list, translate}

-- What the source reads of FreeBSD's `struct stat`.
pub record Stat : Type 0 where
  pub st_dev : ℕ
  pub st_ino : ℕ
  pub st_nlink : ℕ
  pub st_mode : ℕ
  pub st_uid : ℕ
  pub st_gid : ℕ
  pub st_rdev : ℕ
  pub st_size : ℕ
  pub st_blksize : ℕ
  pub st_blocks : ℕ
  pub st_atim : Timespec
  pub st_mtim : Timespec
  pub st_ctim : Timespec

-- `struct linux_stat` of the 64-bit build, which `linux_stat64` is another name of.
pub record LinuxStat : Type 0 where
  pub st_dev : ℕ
  pub st_ino : ℕ
  pub st_nlink : ℕ
  pub st_mode : ℕ
  pub st_uid : ℕ
  pub st_gid : ℕ
  pub pad1 : List ℕ
  pub st_rdev : ℕ
  pub st_size : ℕ
  pub st_blksize : ℕ
  pub st_blocks : ℕ
  pub st_atim : Timespec
  pub st_mtim : Timespec
  pub st_ctim : Timespec
  pub pad2 : List ℕ

abbrev pub zeros4 : List ℕ
zeros4 = 0 ∷ 0 ∷ 0 ∷ 0 ∷ []

-- What `memset` leaves in the 24 bytes at the end.
abbrev pub zeros24 : List ℕ
zeros24 =
    0 ∷ 0 ∷ 0 ∷ 0 ∷ 0 ∷ 0 ∷ 0 ∷ 0 ∷ 0 ∷ 0 ∷ 0 ∷ 0 ∷ 0 ∷ 0 ∷ 0 ∷ 0 ∷ 0 ∷ 0 ∷ 0 ∷ 0 ∷ 0 ∷ 0 ∷ 0 ∷ 0
    ∷ []

unfoldable pub copy_stat_buf : Stat → LinuxStat
copy_stat_buf src = record {
  st_dev = src.st_dev;
  st_ino = src.st_ino;
  st_nlink = src.st_nlink;
  st_mode = src.st_mode;
  st_uid = src.st_uid;
  st_gid = src.st_gid;
  pad1 = zeros4;
  st_rdev = src.st_rdev;
  st_size = src.st_size;
  st_blksize = sign_extend src.st_blksize;
  st_blocks = src.st_blocks;
  st_atim = src.st_atim;
  st_mtim = src.st_mtim;
  st_ctim = src.st_ctim;
  pad2 = zeros24;
}

-- The flags of FreeBSD's fcntl.h that `fstatat` takes, and the errors of `strtoul`.
pub record StatNumbers : Type 0 where
  pub at_symlink_nofollow : ℕ
  pub at_empty_path : ℕ
  pub erange : ℕ
  pub einval : ℕ

abbrev pub at_entries : StatNumbers → List Entry
at_entries c = (0x0100 ⇒ c.at_symlink_nofollow) ∷ (0x1000 ⇒ c.at_empty_path) ∷ []

abbrev pub known_linux_at_flags : ℕ
known_linux_at_flags = or_list (0x0100 ∷ 0x1000 ∷ [])

unfoldable pub linux_to_native_fstatat_flags : StatNumbers → ℕ → Outcome ℕ
linux_to_native_fstatat_flags c linux_flags = do
  assert (bit_and linux_flags (bit_not32 known_linux_at_flags) == 0)
  ok (translate (at_entries c) linux_flags 0)

-- No shift loses a bit: the masked words are below 2 ^ 32, and the results below 2 ^ 64.
unfoldable pub make_dev_id : ℕ → ℕ → ℕ
make_dev_id major minor =
    bit_or
      (bit_or (bit_or (bit_and major 0x0000_0fff * 2 ^ 8) (bit_and major 0xffff_f000 * 2 ^ 32))
        (bit_and minor 0x0000_00ff * 2 ^ 0))
      (bit_and minor 0xffff_ff00 * 2 ^ 12)
