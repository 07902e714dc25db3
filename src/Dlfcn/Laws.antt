-- ===== src/Dlfcn/Laws.antt =====
-- What dlopen asks for.
use libc6_shim.Prelude.{ℕ, ◌≡◌, ◌≢◌, bit_and, bit_or}
use libc6_shim.Bits.{bit_not32}
use libc6_shim.CString.{CString}
use libc6_shim.Dlfcn.{
  DlNumbers, linux_rtld_noload, linux_rtld_deepbind, known_linux_dlopen_mode_flags,
}

-- What FreeBSD's flags have to be for the conversion to work: the two new ones are no Linux flags,
-- and apart.
pub record IsDlNumbers (c : DlNumbers) : Type 0 where
  pub noload : c.rtld_noload ≢ 0
  pub deepbind : c.rtld_deepbind ≢ 0
  pub noload_new : bit_and (known_linux_dlopen_mode_flags c) c.rtld_noload ≡ 0
  pub deepbind_new : bit_and (known_linux_dlopen_mode_flags c) c.rtld_deepbind ≡ 0
  pub apart : bit_and c.rtld_noload c.rtld_deepbind ≡ 0
  pub noload_not_linux : (bit_and c.rtld_noload 4 ≡ 0) × (bit_and c.rtld_noload 8 ≡ 0)
  pub deepbind_not_linux : (bit_and c.rtld_deepbind 4 ≡ 0) × (bit_and c.rtld_deepbind 8 ≡ 0)

-- A flag that both systems give the same number, and that is apart from the two.
pub record IsShared (c : DlNumbers) (f : ℕ) : Type 0 where
  pub stays : bit_and (bit_not32 (bit_or linux_rtld_noload linux_rtld_deepbind)) f ≡ f
  pub not_noload : bit_and c.rtld_noload f ≡ 0
  pub not_deepbind : bit_and c.rtld_deepbind f ≡ 0

module _ (c : DlNumbers) (linux_mode : ℕ) where
  kept : ℕ
  kept = bit_and linux_mode (bit_not32 (bit_or linux_rtld_noload linux_rtld_deepbind))
