-- ===== src/Startup.antt =====
-- src/main.c: what the constructor of the library sets up before the program runs, and what runs the
-- program. Pointers, of data and of functions, are numbers.
pub mod Pointers
pub mod Laws
pub mod PointerLaws
mod Tests
use libc6_shim.Prelude.{ℕ, ◌==◌, not, List, [], ◌∷◌, if◌then◌else◌}
use libc6_shim.CString.{CString, codes}
use libc6_shim.Outcome.{Outcome, ok, ◌>>=◌, ◌>>◌, assert}

-- `G(var, version, value)`: a variable of the C library, and what it is set to.
pub record Global : Type 0 where
  pub var : CString
  pub value : ℕ

infix 60 ◌≔◌
abbrev pub ◌≔◌ : CString → ℕ → Global
var ≔ value = record { var = var; value = value }

-- The arguments of the constructor, FreeBSD's three streams, and `basename(argv[0])`.
pub record StartValues : Type 0 where
  pub argc : ℕ
  pub argv : ℕ
  pub env : ℕ
  pub argv_zero : ℕ
  pub short_program_name : ℕ
  pub stdin : ℕ
  pub stdout : ℕ
  pub stderr : ℕ

-- The uses of `G` in the 64-bit build.
abbrev pub global_values : StartValues → List Global
global_values v =
    (codes "_IO_2_1_stderr_" ≔ v.stderr)
    ∷ (codes "_IO_2_1_stdin_" ≔ v.stdin)
    ∷ (codes "_IO_2_1_stdout_" ≔ v.stdout)
    ∷ (codes "__daylight" ≔ 0)
    ∷ (codes "daylight" ≔ 0)
    ∷ (codes "__environ" ≔ v.env)
    ∷ (codes "_environ" ≔ v.env)
    ∷ (codes "environ" ≔ v.env)
    ∷ (codes "stderr" ≔ v.stderr)
    ∷ (codes "stdin" ≔ v.stdin)
    ∷ (codes "stdout" ≔ v.stdout)
    ∷ (codes "optarg" ≔ 0)
    ∷ (codes "opterr" ≔ 1)
    ∷ (codes "optind" ≔ 1)
    ∷ (codes "optopt" ≔ 0)
    ∷ (codes "__progname" ≔ v.short_program_name)
    ∷ (codes "__progname_full" ≔ v.argv_zero)
    ∷ (codes "program_invocation_name" ≔ v.argv_zero)
    ∷ (codes "program_invocation_short_name" ≔ v.short_program_name)
    ∷ (codes "__timezone" ≔ 0)
    ∷ (codes "timezone" ≔ 0)
    ∷ []

-- What stands at each address.
abbrev pub Words : Type 0
Words = ℕ → ℕ

abbrev pub write_word : ℕ → ℕ → Words → Words
write_word a x m = λ b. if b == a then x else m b

-- `dlvsym(RTLD_DEFAULT, name, "GLIBC_2.2.5")` is a parameter.
module _ (dlvsym : CString → ℕ) where
  unfoldable pub set_globals : List Global → Words → Outcome Words
  set_globals [] m = ok m
  set_globals (g ∷ gs) m =
      assert (not (dlvsym g.var == 0)) >> set_globals gs (write_word (dlvsym g.var) g.value m)

-- `shim_argc`, `shim_argv` and `shim_env`.
pub record SavedArguments : Type 0 where
  pub shim_argc : ℕ
  pub shim_argv : ℕ
  pub shim_env : ℕ

abbrev pub save_arguments : StartValues → SavedArguments
save_arguments v = record { shim_argc = v.argc; shim_argv = v.argv; shim_env = v.env }

-- What `shim___libc_start_main` calls, in order.
pub data StartCall : Type 0 where
  call_init : ℕ → ℕ → ℕ → ℕ → StartCall
  at_exit : ℕ → StartCall
  libc_start : ℕ → ℕ → ℕ → ℕ → StartCall

-- Of its arguments, the program's `argc` and `argv` are not looked at.
unfoldable pub shim_libc_start_main : SavedArguments → ℕ → ℕ → ℕ → ℕ → ℕ → Outcome (List StartCall)
shim_libc_start_main s main argc ubp_av init fini = do
  assert (not (init == 0))
  assert (not (fini == 0))
  ok (
      call_init init s.shim_argc s.shim_argv s.shim_env
      ∷ at_exit fini
      ∷ libc_start s.shim_argc s.shim_argv s.shim_env main
      ∷ [])

abbrev pub linux_at_sysinfo_ehdr : ℕ
linux_at_sysinfo_ehdr = 33

unfoldable pub shim_getauxval : ℕ → Outcome ℕ
shim_getauxval type_ = assert (type_ == linux_at_sysinfo_ehdr) >> ok 0
