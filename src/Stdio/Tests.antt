-- ===== src/Stdio/Tests.antt =====
-- fopen over a system whose `fopen` gives a number for each path.
use libc6_shim.Prelude.{ℕ, ◌≡◌, [], ◌∷◌, length, take, refl, if◌then◌else◌}
use libc6_shim.CString.{CString, codes, str_eq, str_starts_with}
use libc6_shim.Outcome.{ok, abort}
use libc6_shim.Process.{Process}
use libc6_shim.Redirect.{init_redirects, find_redirect, redirect}
use libc6_shim.Fcntl.Open.{NativeOpen}
use libc6_shim.Unistd.{UnistdHost}
use libc6_shim.Stdio.{
  StdioHost, strchr, task_tail, open_redirected, open_params, shim_fopen, shim_remove,
}
use libc6_shim.Stdio.Outside.{AgreeOutside}

abbrev pub emul : CString
emul = codes "/compat/linux"

-- A file is the length of its path; the world is a number.
abbrev pub files : StdioHost ℕ
files = record {
  fopen = λ path mode p. (length path, p);
  fmemopen = λ size mode p. (size, p);
  fwrite = λ bytes file p. record p { world = length bytes };
  rewind = λ file p. p;
  remove = λ path p. (0, p);
  vsnprintf = λ maxlen format. (5, take maxlen (1 ∷ 2 ∷ 3 ∷ 4 ∷ 5 ∷ 0 ∷ []));
}

abbrev pub started : Process ℕ
started = record { errno = 0; world = 0 }

-- A system that differs below /proc/ only.
abbrev pub hidden : CString → CString → Process ℕ → ℕ × Process ℕ
hidden path =
    if str_starts_with path (codes "/proc/")
    then (λ mode p. (0, p))
    else (λ mode p. (length path, p))

fopen_params :
    shim_fopen 13 files
      (init_redirects emul)
      (codes "/proc/driver/nvidia/params")
      (codes "r")
      started
    ≡ ok (22, record started { world = 22 })
unfolding shim_fopen open_params str_eq
fopen_params = refl

fopen_comm :
    shim_fopen 13 files (init_redirects emul) (codes "/proc/self/task/7/comm") (codes "wb") started
    ≡ ok (9, started)
unfolding shim_fopen str_eq str_starts_with task_tail strchr
fopen_comm = refl

fopen_refused :
    shim_fopen 13 files (init_redirects emul) (codes "/proc/version") (codes "r") started
    ≡ ok (0, record started { errno = 13 })
unfolding shim_fopen open_redirected str_eq str_starts_with init_redirects find_redirect redirect
fopen_refused = refl

remove_device : shim_remove files (codes "/dev/null") started ≡ abort
unfolding shim_remove str_starts_with
remove_device = refl

pub hidden_agrees : AgreeOutside files.fopen hidden
hidden_agrees q h = rw h.0 refl

abbrev pub open_file : NativeOpen ℕ
open_file path flags mode p = (length path, p)

abbrev pub open_hidden : NativeOpen ℕ
open_hidden path =
    if str_starts_with path (codes "/proc/")
    then (λ flags mode p. (0, p))
    else (λ flags mode p. (length path, p))

abbrev pub calls : UnistdHost ℕ
calls = record {
  chown = λ path owner group p. (0, p);
  sysconf = λ name p. (0, p);
  pipe2 = λ flags p. (0, 3 ∷ 4 ∷ [], p);
  access = λ path mode p. (length path, p);
  getopt = λ argv optstring o. (0, o);
}

abbrev pub access_hidden : CString → ℕ → Process ℕ → ℕ × Process ℕ
access_hidden path =
    if str_starts_with path (codes "/proc/")
    then (λ mode p. (0, p))
    else (λ mode p. (length path, p))
