-- ===== src/Fcntl.antt =====
-- src/libc/fcntl.c and fcntl.h: opening files, and the commands of fcntl. A word of flags is its
-- bit pattern.
pub mod Open
pub mod Commands
pub mod OpenLaws
pub mod CommandLaws
pub mod Tests
use libc6_shim.Prelude.{ℕ, bit_and, bit_or, List, [], ◌∷◌, ◌==◌}
use libc6_shim.Flags.{Entry, ◌⇒◌, or_list}

-- The constants of FreeBSD's <fcntl.h> and <errno.h> that the file uses.
pub record FcntlNumbers : Type 0 where
  pub o_wronly : ℕ
  pub o_rdwr : ℕ
  pub o_creat : ℕ
  pub o_excl : ℕ
  pub o_noctty : ℕ
  pub o_trunc : ℕ
  pub o_append : ℕ
  pub o_nonblock : ℕ
  pub o_directory : ℕ
  pub o_cloexec : ℕ
  pub f_getfd : ℕ
  pub f_setfd : ℕ
  pub f_getfl : ℕ
  pub f_setfl : ℕ
  pub f_setlk : ℕ
  pub f_setlkw : ℕ
  pub f_dupfd_cloexec : ℕ
  pub f_add_seals : ℕ
  pub fd_cloexec : ℕ
  pub f_rdlck : ℕ
  pub f_wrlck : ℕ
  pub f_unlck : ℕ
  pub eacces : ℕ
  pub path_max : ℕ

abbrev pub linux_o_wronly : ℕ
linux_o_wronly = 0x00001

abbrev pub linux_o_rdwr : ℕ
linux_o_rdwr = 0x00002

abbrev pub linux_o_creat : ℕ
linux_o_creat = 0x00040

abbrev pub linux_o_excl : ℕ
linux_o_excl = 0x00080

abbrev pub linux_o_trunc : ℕ
linux_o_trunc = 0x00200

abbrev pub linux_o_nonblock : ℕ
linux_o_nonblock = 0x00800

abbrev pub linux_o_tmpfile : ℕ
linux_o_tmpfile = bit_or 0x400000 0x10000

abbrev pub open_entries : FcntlNumbers → List Entry
open_entries c =
    (linux_o_wronly ⇒ c.o_wronly)
    ∷ (linux_o_rdwr ⇒ c.o_rdwr)
    ∷ (linux_o_creat ⇒ c.o_creat)
    ∷ (linux_o_excl ⇒ c.o_excl)
    ∷ (0x00100 ⇒ c.o_noctty)
    ∷ (linux_o_trunc ⇒ c.o_trunc)
    ∷ (0x00400 ⇒ c.o_append)
    ∷ (linux_o_nonblock ⇒ c.o_nonblock)
    ∷ (0x10000 ⇒ c.o_directory)
    ∷ (0x80000 ⇒ c.o_cloexec)
    ∷ []

abbrev pub known_linux_open_flags : ℕ
known_linux_open_flags = or_list (
    0 ∷ linux_o_wronly ∷ linux_o_rdwr ∷ linux_o_creat ∷ linux_o_excl ∷ 0x00100 ∷ linux_o_trunc
    ∷ 0x00400 ∷ linux_o_nonblock ∷ 0x10000 ∷ 0x80000 ∷ linux_o_tmpfile ∷ [])
