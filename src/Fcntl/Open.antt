-- ===== src/Fcntl/Open.antt =====
-- `shim_open_impl` and `shim_shm_open_impl` over the native `open`.
use libc6_shim.Prelude.{
  ℕ, ◌-◌, bit_and, bit_or, List, [], ◌∷◌, ◌++◌, none, some, take, ◌==◌, if◌then◌else◌,
}
use libc6_shim.CString.{CString, codes}
use libc6_shim.Outcome.{Outcome, ok, ◌>>◌, assert}
use libc6_shim.Flags.{Entry, ◌⇒◌, has, or_list, translate}
use libc6_shim.Process.{Process, minus_one}
use libc6_shim.Redirect.{Redirection, redirect}
use libc6_shim.Fcntl.{
  FcntlNumbers, open_entries, known_linux_open_flags, linux_o_wronly, linux_o_rdwr, linux_o_creat,
  linux_o_excl, linux_o_trunc, linux_o_tmpfile,
}

-- The native `open`, of a path, flags and a mode.
abbrev pub NativeOpen : Type 0 → Type 0
NativeOpen W = CString → ℕ → ℕ → Process W → ℕ × Process W

module _ {W : Type 0} (c : FcntlNumbers) (open_file : NativeOpen W) where
  -- The part behind the assertion: `mode_arg` is what `va_arg` would give.
  unfoldable pub open_known : CString → ℕ → ℕ → Process W → ℕ × Process W
  open_known p linux_flags mode_arg w =
      if has linux_flags linux_o_tmpfile
      then (minus_one, w)
      else let flags = translate (open_entries c) linux_flags 0 in
        open_file p flags (if has flags c.o_creat then mode_arg else 0) w

  unfoldable pub shim_open :
      List Redirection → CString → ℕ → ℕ → Process W → Outcome (ℕ × Process W)
  shim_open procfs_redirects path linux_flags mode_arg w = elim (redirect procfs_redirects path) [
    | none ↦ ok (minus_one, record w { errno = c.eacces })
    | some p ↦ do
      assert (bit_and linux_flags known_linux_open_flags == linux_flags)
      ok (open_known p linux_flags mode_arg w)
  ]

  abbrev pub known_shm_flags : ℕ
  known_shm_flags = or_list (0 ∷ linux_o_rdwr ∷ linux_o_creat ∷ linux_o_excl ∷ linux_o_trunc ∷ [])

  abbrev pub shm_entries : List Entry
  shm_entries =
      (linux_o_wronly ⇒ c.o_wronly)
      ∷ (linux_o_rdwr ⇒ c.o_rdwr)
      ∷ (linux_o_creat ⇒ c.o_creat)
      ∷ (linux_o_excl ⇒ c.o_excl)
      ∷ (linux_o_trunc ⇒ c.o_trunc)
      ∷ []

  -- What `snprintf` leaves in a buffer of PATH_MAX bytes.
  abbrev pub shm_path : CString → CString
  shm_path path = take (c.path_max - 1) (codes "/compat/linux/dev/shm" ++ path)

  unfoldable pub shim_shm_open : CString → ℕ → ℕ → Process W → Outcome (ℕ × Process W)
  shim_shm_open path linux_flags mode w = do
    assert (bit_and linux_flags known_shm_flags == linux_flags)
    ok (open_file (shm_path path) (translate shm_entries linux_flags 0) (bit_or mode c.o_cloexec) w)
