-- ===== src/Glob.antt =====
-- src/libc/glob.c: the paths that match a pattern.
pub mod Laws
mod Tests
use libc6_shim.Prelude.{ℕ, bit_and, bit_or, List, [], ◌∷◌, not, ◌==◌, if◌then◌else◌}
use libc6_shim.Bits.{bit_not32}
use libc6_shim.CString.{CString}
use libc6_shim.Outcome.{Outcome, ok, ◌>>=◌, ◌>>◌, assert, or_abort}
use libc6_shim.Flags.{Entry, ◌⇒◌, has, or_list, translate}
use libc6_shim.Switch.{select}
use libc6_shim.Process.{Process}

-- The constants of FreeBSD's glob.h; the errors are negative, and given by their bit patterns.
pub record GlobNumbers : Type 0 where
  pub glob_err : ℕ
  pub glob_mark : ℕ
  pub glob_nosort : ℕ
  pub glob_dooffs : ℕ
  pub glob_nocheck : ℕ
  pub glob_append : ℕ
  pub glob_noescape : ℕ
  pub glob_magchar : ℕ
  pub glob_altdirfunc : ℕ
  pub glob_brace : ℕ
  pub glob_nomagic : ℕ
  pub glob_tilde : ℕ
  pub glob_nospace : ℕ
  pub glob_aborted : ℕ
  pub glob_nomatch : ℕ

abbrev pub linux_glob_magchar : ℕ
linux_glob_magchar = 0x0100

abbrev pub linux_glob_altdirfunc : ℕ
linux_glob_altdirfunc = 0x0200

-- All but PERIOD, ONLYDIR and TILDE_CHECK.
abbrev pub known_linux_glob_flags : ℕ
known_linux_glob_flags = or_list (
    0x0001 ∷ 0x0002 ∷ 0x0004 ∷ 0x0008 ∷ 0x0010 ∷ 0x0020 ∷ 0x0040 ∷ 0 ∷ linux_glob_magchar
    ∷ linux_glob_altdirfunc ∷ 0x0400 ∷ 0x0800 ∷ 0x1000 ∷ 0 ∷ 0 ∷ [])

-- The `if`s of `linux_to_native_glob_flags`.
abbrev pub glob_entries : GlobNumbers → List Entry
glob_entries c =
    (0x0001 ⇒ c.glob_err)
    ∷ (0x0002 ⇒ c.glob_mark)
    ∷ (0x0004 ⇒ c.glob_nosort)
    ∷ (0x0008 ⇒ c.glob_dooffs)
    ∷ (0x0010 ⇒ c.glob_nocheck)
    ∷ (0x0020 ⇒ c.glob_append)
    ∷ (0x0040 ⇒ c.glob_noescape)
    ∷ (linux_glob_magchar ⇒ c.glob_magchar)
    ∷ (linux_glob_altdirfunc ⇒ c.glob_altdirfunc)
    ∷ (0x0400 ⇒ c.glob_brace)
    ∷ (0x0800 ⇒ c.glob_nomagic)
    ∷ (0x1000 ⇒ c.glob_tilde)
    ∷ []

unfoldable pub linux_to_native_glob_flags : GlobNumbers → ℕ → Outcome ℕ
linux_to_native_glob_flags c linux_flags = do
  assert (bit_and linux_flags (bit_not32 known_linux_glob_flags) == 0)
  ok (translate (glob_entries c) linux_flags 0)

-- The `switch` on the result of the native call.
abbrev pub glob_errors : GlobNumbers → List Entry
glob_errors c = (0 ⇒ 0) ∷ (c.glob_nospace ⇒ 1) ∷ (c.glob_aborted ⇒ 2) ∷ (c.glob_nomatch ⇒ 3) ∷ []

-- `struct shim_glob`; a number stands for the array of paths.
pub record LinuxGlob : Type 0 where
  pub gl_pathc : ℕ
  pub gl_pathv : ℕ
  pub gl_offs : ℕ
  pub gl_flags : ℕ

-- What the source reads and writes of FreeBSD's `glob_t`.
pub record NativeGlob : Type 0 where
  pub gl_pathc : ℕ
  pub gl_pathv : ℕ
  pub gl_matchc : ℕ
  pub gl_offs : ℕ
  pub gl_flags : ℕ

pub record GlobHost (W : Type 0) : Type 0 where
  pub glob : CString → ℕ → NativeGlob → Process W → ℕ × NativeGlob × Process W
  pub globfree : NativeGlob → Process W → Process W

-- What is set of the flags in the program's struct.
abbrev pub found_flags : GlobNumbers → ℕ → ℕ → ℕ
found_flags c linux_flags gl_flags =
    if has gl_flags c.glob_magchar
    then bit_or linux_flags linux_glob_magchar
    else bit_and linux_flags (bit_not32 linux_glob_magchar)

-- `garbage` is what the local `glob_t` holds before it is written.
module _ {W : Type 0} (c : GlobNumbers) (host : GlobHost W) (garbage : NativeGlob) where
  -- The third argument is the pointer to the function for errors.
  unfoldable pub shim_glob :
      CString → ℕ → ℕ → LinuxGlob → Process W → Outcome (ℕ × LinuxGlob × Process W)
  shim_glob pattern linux_flags errfunc pglob p = do
    assert (bit_and linux_flags linux_glob_altdirfunc == 0)
    assert (errfunc == 0)
    flags ← linux_to_native_glob_flags c linux_flags
    let (err, out, q) = host.glob pattern flags (record garbage { gl_offs = pglob.gl_offs }) p
    result ← or_abort (select (glob_errors c) err)
    ok (
      result,
      record {
        gl_pathc = out.gl_pathc;
        gl_pathv = out.gl_pathv;
        gl_offs = out.gl_offs;
        gl_flags = found_flags c linux_flags out.gl_flags;
      },
      q,
    )

  unfoldable pub shim_globfree : LinuxGlob → Process W → Outcome (Process W)
  shim_globfree pglob p = do
    flags ← linux_to_native_glob_flags c pglob.gl_flags
    ok (
        host.globfree
          (record {
            gl_pathc = pglob.gl_pathc;
            gl_pathv = pglob.gl_pathv;
            gl_matchc = 0;
            gl_offs = pglob.gl_offs;
            gl_flags = flags;
          })
          p)
