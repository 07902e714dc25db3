-- ===== src/Mman.antt =====
-- src/libc/sys/mman.c: mappings of memory.
pub mod Laws
pub mod Tests
use libc6_shim.Prelude.{ℕ, ◌-◌, bit_and, bit_or, List, [], ◌∷◌, not, ◌||◌, ◌==◌, if◌then◌else◌}
use libc6_shim.Bits.{bit_not32}
use libc6_shim.Outcome.{Outcome, ok, ◌>>=◌, ◌>>◌, assert}
use libc6_shim.Process.{Process, minus_one, minus_one_ssize}
use libc6_shim.Flags.{Entry, ◌⇒◌, has, or_list, translate}

-- The constants of FreeBSD's sys/mman.h and errno.h, and the size of a page.
pub record MmanNumbers : Type 0 where
  pub map_shared : ℕ
  pub map_private : ℕ
  pub map_fixed : ℕ
  pub map_anon : ℕ
  pub map_32bit : ℕ
  pub ms_async : ℕ
  pub ms_invalidate : ℕ
  pub ms_sync : ℕ
  pub einval : ℕ
  pub pagesize : ℕ

-- The arguments of `mmap` that are passed on as they are; a `protection` is the one of both systems.
pub record Mapping : Type 0 where
  pub addr : ℕ
  pub len : ℕ
  pub prot : ℕ
  pub offset : ℕ

pub record MmanHost (W : Type 0) : Type 0 where
  pub mmap : Mapping → ℕ → ℕ → Process W → ℕ × Process W
  pub munmap : ℕ → ℕ → Process W → ℕ × Process W
  pub msync : ℕ → ℕ → ℕ → Process W → ℕ × Process W
  pub perror : Process W → Process W

abbrev pub linux_map_shared : ℕ
linux_map_shared = 0x0001

abbrev pub linux_map_private : ℕ
linux_map_private = 0x0002

abbrev pub linux_map_fixed : ℕ
linux_map_fixed = 0x0010

abbrev pub linux_map_anon : ℕ
linux_map_anon = 0x0020

abbrev pub linux_map_32bit : ℕ
linux_map_32bit = 0x0040

-- MAP_EXECUTABLE and MAP_NORESERVE are accepted, and have no effect.
abbrev pub known_linux_mmap_flags : ℕ
known_linux_mmap_flags = or_list (
    linux_map_shared ∷ linux_map_private ∷ linux_map_fixed ∷ linux_map_anon ∷ linux_map_32bit
    ∷ 0x1000 ∷ 0x4000 ∷ [])

-- The `if`s of `shim_mmap64`, for the descriptor that the program passes: a private mapping of no
-- file is anonymous.
abbrev pub mmap_entries : MmanNumbers → ℕ → List Entry
mmap_entries c fd =
    (linux_map_shared ⇒ c.map_shared)
    ∷ (linux_map_private ⇒ bit_or c.map_private (if fd == minus_one then c.map_anon else 0))
    ∷ (linux_map_fixed ⇒ c.map_fixed)
    ∷ (linux_map_anon ⇒ c.map_anon)
    ∷ (linux_map_32bit ⇒ c.map_32bit)
    ∷ []

abbrev pub ms_entries : MmanNumbers → List Entry
ms_entries c = (1 ⇒ c.ms_async) ∷ (2 ⇒ c.ms_invalidate) ∷ (4 ⇒ c.ms_sync) ∷ []

unfoldable pub linux_to_native_msync_flags : MmanNumbers → ℕ → Outcome ℕ
linux_to_native_msync_flags c linux_flags = do
  assert (bit_and linux_flags (bit_not32 (or_list (1 ∷ 2 ∷ 4 ∷ []))) == 0)
  ok (translate (ms_entries c) linux_flags 0)

module _ {W : Type 0} (c : MmanNumbers) (host : MmanHost W) where
  -- `if (p == MAP_FAILED) { perror(__func__); } return p;`, where MAP_FAILED is -1.
  unfoldable pub warn : ℕ × Process W → ℕ × Process W
  warn (r, q) = (r, if r == minus_one_ssize then host.perror q else q)

  -- For the 64-bit build, where `shim_mmap` is the same call.
  unfoldable pub shim_mmap64 : Mapping → ℕ → ℕ → Process W → Outcome (ℕ × Process W)
  shim_mmap64 mapping linux_flags fd p = do
    assert (bit_and linux_flags known_linux_mmap_flags == linux_flags)
    assert (not (has linux_flags linux_map_anon) || (fd == minus_one || fd == 0))
    assert (not (has linux_flags linux_map_32bit) || bit_and linux_flags linux_map_fixed == 0)
    let native_fd = if has linux_flags linux_map_anon then minus_one else fd
    ok (warn (host.mmap mapping (translate (mmap_entries c fd) linux_flags 0) native_fd p))

  unfoldable pub shim_munmap : ℕ → ℕ → Process W → ℕ × Process W
  shim_munmap addr len p =
      if has addr (c.pagesize - 1)
      then (minus_one, record p { errno = c.einval })
      else host.munmap addr len p

  -- The arguments are not looked at.
  unfoldable pub shim_mremap : Process W → ℕ × Process W
  shim_mremap p = (minus_one_ssize, p)

  unfoldable pub shim_msync : ℕ → ℕ → ℕ → Process W → Outcome (ℕ × Process W)
  shim_msync addr len linux_flags p = do
    flags ← linux_to_native_msync_flags c linux_flags
    ok (host.msync addr len flags p)
