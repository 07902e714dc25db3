-- ===== src/Unistd.antt =====
-- src/libc/unistd.c: links under /proc, access, pipes, limits and options.
pub mod Links
pub mod LinkLaws
pub mod Tests
use libc6_shim.Prelude.{ℕ, bit_and, bit_or, List, [], ◌∷◌, none, some, not, ◌==◌, if◌then◌else◌}
use libc6_shim.CString.{CString, codes, str_starts_with}
use libc6_shim.Outcome.{Outcome, ok, ◌>>=◌, ◌>>◌, assert, or_abort}
use libc6_shim.Flags.{Entry, ◌⇒◌, translate}
use libc6_shim.Switch.{select}
use libc6_shim.Process.{Process, minus_one}
use libc6_shim.Redirect.{Redirection, redirect}
use libc6_shim.Fcntl.{FcntlNumbers, linux_o_nonblock}

-- The names of FreeBSD's `sysconf`.
pub record SysconfNumbers : Type 0 where
  pub nprocessors_conf : ℕ
  pub nprocessors_onln : ℕ
  pub pagesize : ℕ
  pub phys_pages : ℕ
  pub monotonic_clock : ℕ

-- The `if`s of `shim_sysconf`, each of which returns.
abbrev pub sysconf_cases : SysconfNumbers → List Entry
sysconf_cases c =
    (83 ⇒ c.nprocessors_conf)
    ∷ (84 ⇒ c.nprocessors_onln)
    ∷ (30 ⇒ c.pagesize)
    ∷ (85 ⇒ c.phys_pages)
    ∷ (149 ⇒ c.monotonic_clock)
    ∷ []

abbrev pub linux_o_cloexec : ℕ
linux_o_cloexec = 0x80000

abbrev pub pipe_entries : FcntlNumbers → List Entry
pipe_entries c = (linux_o_nonblock ⇒ c.o_nonblock) ∷ (linux_o_cloexec ⇒ c.o_cloexec) ∷ []

-- The variables of `getopt`, of either C library; a number stands for a pointer.
pub record Options : Type 0 where
  pub optarg : ℕ
  pub optind : ℕ
  pub opterr : ℕ
  pub optopt : ℕ

pub record UnistdHost (W : Type 0) : Type 0 where
  pub chown : CString → ℕ → ℕ → Process W → ℕ × Process W
  pub sysconf : ℕ → Process W → ℕ × Process W
  pub pipe2 : ℕ → Process W → ℕ × List ℕ × Process W
  pub access : CString → ℕ → Process W → ℕ × Process W
  pub getopt : List CString → CString → Options → ℕ × Options

module _ {W : Type 0} (c : FcntlNumbers) (host : UnistdHost W) where
  unfoldable pub shim_chown : CString → ℕ → ℕ → Process W → Outcome (ℕ × Process W)
  shim_chown path owner group p = do
    assert (not (str_starts_with path (codes "/dev/")))
    ok (host.chown path owner group p)

  unfoldable pub shim_sysconf : SysconfNumbers → ℕ → Process W → Outcome (ℕ × Process W)
  shim_sysconf n name p = do
    native_name ← or_abort (select (sysconf_cases n) name)
    ok (host.sysconf native_name p)

  -- The descriptors are part of the result.
  unfoldable pub shim_pipe2 : ℕ → Process W → Outcome (ℕ × List ℕ × Process W)
  shim_pipe2 linux_flags p = do
    assert (bit_and linux_flags (bit_or linux_o_cloexec linux_o_nonblock) == linux_flags)
    ok (host.pipe2 (translate (pipe_entries c) linux_flags 0) p)

  unfoldable pub shim_access : List Redirection → CString → ℕ → Process W → ℕ × Process W
  shim_access procfs_redirects path mode p = elim (redirect procfs_redirects path) [
    | none ↦ (minus_one, record p { errno = c.eacces })
    | some q ↦ host.access q mode p
  ]

  -- The native variables, and those of the program: two of them are copied in, and three back.
  unfoldable pub shim_getopt : List CString → CString → Options → Options → ℕ × Options × Options
  shim_getopt argv optstring native globals =
      let (err, after) =
        host.getopt argv optstring
          (record native { optind = globals.optind; opterr = globals.opterr }) in
      (
        err,
        after,
        record globals { optarg = after.optarg; optind = after.optind; optopt = after.optopt },
      )
