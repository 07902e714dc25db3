-- ===== src/Stdio/PathTests.antt =====
-- The calls on paths over two systems that differ below /proc/ only.
use libc6_shim.Prelude.{ℕ, ◌≡◌, Option, none, some, refl, if◌then◌else◌}
use libc6_shim.CString.{CString, codes, str_starts_with}
use libc6_shim.Process.{Process}
use libc6_shim.Errno.Tests.{freebsd_errnos}
use libc6_shim.Fcntl.Tests.{freebsd}
use libc6_shim.Stat.{Stat, copy_stat_buf}
use libc6_shim.Stat.Tests.{freebsd_stat, device, files as stats}
use libc6_shim.Unistd.Links.{Link, Resolution}
use libc6_shim.Unistd.Tests.{system}
use libc6_shim.Stdio.Tests.{
  emul, files, started, hidden, hidden_agrees, open_file, open_hidden, calls, access_hidden,
}
use libc6_shim.Stdio.Paths.{
  PathCalls, AreSameOutside, Hosts, PathNumbers, PathArguments, path_results, paths_stay_outside,
}

abbrev lstat_hidden : Option CString → Process ℕ → ℕ × Stat × Process ℕ
lstat_hidden none = λ p. (1, device, p)
lstat_hidden (some q) =
    if str_starts_with q (codes "/proc/") then (λ p. (1, device, p)) else (λ p. (0, device, p))

abbrev lstat_seen : Option CString → Process ℕ → ℕ × Stat × Process ℕ
lstat_seen none = λ p. (1, device, p)
lstat_seen (some q) = λ p. (0, device, p)

abbrev link_hidden : CString → ℕ → Process ℕ → Link ℕ
link_hidden path =
    if str_starts_with path (codes "/proc/")
    then (λ size p. record { nchars = 0; buf = none; process = p })
    else (λ size p. record { nchars = 1; buf = some (codes "x"); process = p })

abbrev path_hidden : CString → Process ℕ → Resolution ℕ
path_hidden path =
    if str_starts_with path (codes "/proc/")
    then (λ p. record { path = none; process = p })
    else (λ p. record { path = some path; process = p })

abbrev seen : PathCalls ℕ
seen = record {
  fopen = files.fopen;
  open_file = open_file;
  access = calls.access;
  lstat = lstat_seen;
  readlink = system.readlink;
  realpath = system.realpath;
}

abbrev unseen : PathCalls ℕ
unseen = record {
  fopen = hidden;
  open_file = open_hidden;
  access = access_hidden;
  lstat = lstat_hidden;
  readlink = link_hidden;
  realpath = path_hidden;
}

seen-AreSameOutside : AreSameOutside seen unseen
seen-AreSameOutside = record {
  fopen = hidden_agrees;
  open_file = λ q h. rw h.0 refl;
  access = λ q h. rw h.0 refl;
  lstat = λ q h. rw h.0 refl;
  lstat_null = refl;
  readlink = λ q h. rw h.0 refl;
  realpath = λ q h. rw h.0 refl;
}

abbrev hosts : Hosts ℕ
hosts = record { files = files; calls = calls; stats = stats; links = system }

abbrev numbers : PathNumbers
numbers = record {
  errnos = freebsd_errnos;
  eacces = 13;
  path_max = 1024;
  fcntl = freebsd;
  stat = freebsd_stat;
}

abbrev arguments : PathArguments
arguments = record {
  path = codes "/proc/stat";
  mode = codes "r";
  flags = 0;
  bits = 0;
  ver = 1;
  buf = copy_stat_buf device;
  size = 9;
  override = none;
}

paths_stay_outside_example :
    path_results numbers emul hosts arguments started seen
    ≡ path_results numbers emul hosts arguments started unseen
unfolding str_starts_with
paths_stay_outside_example =
    paths_stay_outside emul (refl, refl) hosts seen unseen seen-AreSameOutside numbers arguments
      started
