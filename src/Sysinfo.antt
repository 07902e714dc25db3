-- ===== src/Sysinfo.antt =====
-- src/libc/sys/utsname.c and the small files about the system: what uname tells, limits, sets of
-- descriptors, and the flags of eventfd and epoll.
pub mod Laws
mod Tests
use libc6_shim.Prelude.{ℕ, ◌/◌, ◌^◌, List, [], ◌∷◌, replicate, bit_and, ◌==◌, ltb, if◌then◌else◌}
use libc6_shim.Bits.{bit_not32}
use libc6_shim.CString.{CString, codes}
use libc6_shim.CArray.{copy_bounded}
use libc6_shim.Outcome.{Outcome, ok, abort, ◌>>=◌, ◌>>◌, assert}
use libc6_shim.Flags.{Entry, ◌⇒◌, or_list, translate}
use libc6_shim.Errno.{Errnos, native_to_linux_errno}
use libc6_shim.Process.{Process, minus_one}

-- FreeBSD's `struct utsname`, each field a string.
pub record Utsname : Type 0 where
  pub sysname : CString
  pub nodename : CString
  pub release : CString
  pub version : CString
  pub machine : CString

-- `struct linux_utsname`, each field an array of 65 characters.
pub record LinuxUtsname : Type 0 where
  pub sysname : List ℕ
  pub nodename : List ℕ
  pub release : List ℕ
  pub version : List ℕ
  pub machine : List ℕ
  pub domainname : List ℕ

-- `strlcpy(field, s, 65)`, after the memset.
abbrev pub copy_field : CString → List ℕ
copy_field s = copy_bounded (replicate 65 0) s

-- In the 64-bit build.
unfoldable pub copy_utsname : Utsname → LinuxUtsname
copy_utsname name = record {
  sysname = copy_field name.sysname;
  nodename = copy_field name.nodename;
  release = copy_field name.release;
  version = copy_field name.version;
  machine = copy_field (codes "x86_64");
  domainname = copy_field [];
}

-- The native calls.
pub record SystemHost (W : Type 0) : Type 0 where
  pub uname : Process W → ℕ × Utsname × Process W
  pub eventfd : ℕ → ℕ → Process W → ℕ × Process W
  pub epoll_create1 : ℕ → Process W → ℕ × Process W

pub record SystemNumbers : Type 0 where
  pub efd_semaphore : ℕ
  pub efd_nonblock : ℕ
  pub efd_cloexec : ℕ
  pub epoll_cloexec : ℕ
  pub eacces : ℕ
  pub eperm : ℕ

abbrev pub linux_efd_semaphore : ℕ
linux_efd_semaphore = 1

abbrev pub linux_efd_nonblock : ℕ
linux_efd_nonblock = 0x00800

abbrev pub linux_efd_cloexec : ℕ
linux_efd_cloexec = 0x80000

abbrev pub efd_entries : SystemNumbers → List Entry
efd_entries c =
    (linux_efd_semaphore ⇒ c.efd_semaphore)
    ∷ (linux_efd_nonblock ⇒ c.efd_nonblock)
    ∷ (linux_efd_cloexec ⇒ c.efd_cloexec)
    ∷ []

abbrev pub linux_epoll_cloexec : ℕ
linux_epoll_cloexec = 0x80000

module _ {W : Type 0} (c : SystemNumbers) (host : SystemHost W) where
  -- The result, what `linux_name` holds, and the process.
  unfoldable pub shim_uname : LinuxUtsname → Process W → ℕ × LinuxUtsname × Process W
  unfolding copy_utsname
  shim_uname linux_name p =
      let (err, name, q) = host.uname p in
      (err, if err == 0 then copy_utsname name else linux_name, q)

  unfoldable pub shim_eventfd : ℕ → ℕ → Process W → Outcome (ℕ × Process W)
  shim_eventfd initval linux_flags p = do
    assert (
        bit_and linux_flags
          (bit_not32 (or_list (linux_efd_cloexec ∷ linux_efd_nonblock ∷ linux_efd_semaphore ∷ [])))
        == 0)
    ok (host.eventfd initval (translate (efd_entries c) linux_flags 0) p)

  unfoldable pub shim_epoll_create1 : ℕ → Process W → Outcome (ℕ × Process W)
  shim_epoll_create1 linux_flags p = do
    assert (bit_and linux_flags (bit_not32 linux_epoll_cloexec) == 0)
    ok (
        host.epoll_create1 (translate ((linux_epoll_cloexec ⇒ c.epoll_cloexec) ∷ []) linux_flags 0)
          p)

  unfoldable pub shim_prctl : Process W → ℕ × Process W
  shim_prctl p = (minus_one, record p { errno = c.eacces })

  -- `shim_getrlimit_impl` and `shim_getrlimit64_impl`
  unfoldable pub shim_getrlimit : Errnos → Process W → ℕ × Process W
  shim_getrlimit e p = (minus_one, record p { errno = native_to_linux_errno e c.eperm })

-- The index of the word of a descriptor in an `fd_set`; a negative `long` is a number from 2 ^ 63 on.
unfoldable pub shim_fdelt_chk : ℕ → Outcome ℕ
shim_fdelt_chk d = assert (ltb d 1024) >> ok (d / 64)
