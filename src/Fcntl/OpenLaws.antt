-- ===== src/Fcntl/OpenLaws.antt =====
-- Which files and flags reach the native `open`.
use libc6_shim.Prelude.{
  if◌then◌else◌, none, some, List, ℕ, bit_and, ==-cases, Option-cases, [], ◌∷◌, ◌≡◌, ◌≢◌, inl, inr,
  refl, eq→==,
}
use libc6_shim.CString.{CString}
use libc6_shim.Outcome.{ok}
use libc6_shim.Flags.{Entry, ◌⇒◌, has, translate, SeparateTargets}
use libc6_shim.Flags.Each.{EachFlag, translate-EachFlag}
use libc6_shim.Process.{Process, minus_one}
use libc6_shim.Redirect.{init_redirects, redirect, emul_cpuinfo}
use libc6_shim.Redirect.Laws.{IsOutside, redirect-IsOutside}
use libc6_shim.Fcntl.{FcntlNumbers, open_entries, known_linux_open_flags, linux_o_tmpfile}
use libc6_shim.Fcntl.Open.{NativeOpen, open_known, shim_open}

-- The flags that the two systems number differently, by name: on Linux WRONLY, RDWR, CREAT, EXCL,
-- NOCTTY, TRUNC, APPEND, NONBLOCK, DIRECTORY and CLOEXEC.
abbrev pub open_names : FcntlNumbers → List Entry
open_names c =
    (0x1 ⇒ c.o_wronly)
    ∷ (0x2 ⇒ c.o_rdwr)
    ∷ (0x40 ⇒ c.o_creat)
    ∷ (0x80 ⇒ c.o_excl)
    ∷ (0x100 ⇒ c.o_noctty)
    ∷ (0x200 ⇒ c.o_trunc)
    ∷ (0x400 ⇒ c.o_append)
    ∷ (0x800 ⇒ c.o_nonblock)
    ∷ (0x10000 ⇒ c.o_directory)
    ∷ (0x80000 ⇒ c.o_cloexec)
    ∷ []

-- The three ways in which the call can end, for a path, the Linux flags `x` and the variadic mode.
pub data OpenResult {W : Type 0} (c : FcntlNumbers) (open_file : NativeOpen W) (emul path : CString)
    (x mode_arg : ℕ) (w : Process W) : ℕ × Process W → Type 0 where
  refused :
      redirect (init_redirects emul) path ≡ none
      → OpenResult c open_file emul path x mode_arg w (minus_one, record w { errno = c.eacces })
  no_tmpfile :
      bit_and x linux_o_tmpfile ≢ 0 → OpenResult c open_file emul path x mode_arg w (minus_one, w)
  opened :
      (p : CString) (flags : ℕ)
      → redirect (init_redirects emul) path ≡ some p
      → IsOutside p
      → bit_and x linux_o_tmpfile ≡ 0
      → EachFlag (open_names c) x flags
      → OpenResult c open_file emul path x mode_arg w
          (open_file p flags (if has flags c.o_creat then mode_arg else 0) w)

open_known-OpenResult :
    {W : Type 0} (c : FcntlNumbers) (open_file : NativeOpen W) (emul path p : CString) (x mode : ℕ)
    (w : Process W)
    → SeparateTargets (open_names c)
    → redirect (init_redirects emul) path ≡ some p
    → IsOutside p
    → bit_and x known_linux_open_flags ≡ x
    → OpenResult c open_file emul path x mode w (open_known c open_file p x mode w)
unfolding open_known
open_known-OpenResult c open_file emul path p x mode w separate there outside known =
    elim (==-cases (bit_and x linux_o_tmpfile) 0) [
      | inl e ↦ rw e.1 (
          opened p (translate (open_entries c) x 0) there outside e.0
            (translate-EachFlag (open_entries c) x separate))
      | inr e ↦ rw e.1 (no_tmpfile e.0)
    ]

-- Where the Linux emulation lies outside /proc/ and /sys/, and the native flags are not empty and
-- share no bits: with known flags the call returns. It has refused a path that is not redirected
-- anywhere, with EACCES; or it has failed because of a bit of O_TMPFILE, of which O_DIRECTORY is
-- one; or it has opened what the path is redirected to, which lies outside /proc/ and /sys/, with
-- native flags of which each is set exactly if the Linux flag of that name is, for WRONLY, RDWR,
-- CREAT, EXCL, NOCTTY, TRUNC, APPEND, NONBLOCK, DIRECTORY and CLOEXEC, and with the mode only where
-- they create.
pub open_result :
    {W : Type 0} (c : FcntlNumbers) (open_file : NativeOpen W) (emul path : CString) (x mode : ℕ)
    (w : Process W)
    → SeparateTargets (open_names c)
    → IsOutside (emul_cpuinfo emul)
    → bit_and x known_linux_open_flags ≡ x
    → (r : ℕ × Process W) × (shim_open c open_file (init_redirects emul) path x mode w ≡ ok r)
      × OpenResult c open_file emul path x mode w r
unfolding shim_open redirect libc6_shim.CString.str_eq
open_result c open_file emul path x mode w separate emul_outside known =
    elim (Option-cases (redirect (init_redirects emul) path)) [
      | inl e ↦ (_, rw e refl, refused e)
      | inr e ↦ (
        open_known c open_file e.0 x mode w,
        rw (e.1, eq→== (bit_and x known_linux_open_flags) x known) refl,
        open_known-OpenResult c open_file emul path e.0 x mode w separate e.1
            (redirect-IsOutside emul path emul_outside e.1) known,
      )
    ]
