-- ===== src/Unistd/Links.antt =====
-- src/libc/unistd.c and stdlib.c: `shim_readlink` and `shim_realpath`, and what they make of /proc.
use libc6_shim.Prelude.{
  ℕ, ◌+◌, ◌-◌, ◌%◌, ◌^◌, [], ◌∷◌, Option, none, some, take, drop, length, min, ltb, ◌&&◌, ◌||◌,
  ◌==◌, if◌then◌else◌,
}
use libc6_shim.CString.{CString, codes, str_eq, str_starts_with}
use libc6_shim.Outcome.{Outcome, ok, abort, ◌>>=◌, ◌>>◌, assert}
use libc6_shim.Errno.{Errnos, native_to_linux_errno}
use libc6_shim.Process.{Process, minus_one, minus_one_ssize, convert_errno}

-- What a call leaves in the first bytes of the buffer, if it writes there.
pub record Link (W : Type 0) : Type 0 where
  pub nchars : ℕ
  pub buf : Option CString
  pub process : Process W

-- A path, or NULL.
pub record Resolution (W : Type 0) : Type 0 where
  pub path : Option CString
  pub process : Process W

-- `sysctl` gives its result, what it writes, and the size that it stores.
pub record LinkHost (W : Type 0) : Type 0 where
  pub readlink : CString → ℕ → Process W → Link W
  pub realpath : CString → Process W → Resolution W
  pub sysctl_pathname : ℕ → ℕ → Process W → ℕ × CString × ℕ × Process W
  pub getpid : Process W → ℕ
  pub strtoul : CString → Process W → ℕ × Process W

-- `strsep(&s, "/")`: what is before the first slash, and the new `s`, which is NULL if there is none.
-- 47 is the slash.
unfoldable pub strsep : CString → CString × Option CString
strsep [] = ([], none)
strsep (x ∷ s) = let (token, rest) = strsep s in if x == 47 then ([], some s) else (x ∷ token, rest)

abbrev pub proc : CString
proc = codes "/proc/"

module _ {W : Type 0} (e : Errnos) (eacces path_max : ℕ) (host : LinkHost W) where
  unfoldable pub refuse : Process W → Link W
  refuse p = record {
    nchars = minus_one_ssize;
    buf = none;
    process = record p { errno = native_to_linux_errno e eacces };
  }

  -- `pid`, an `int`; -1 is the process itself.
  unfoldable pub link_pid : CString → Process W → Outcome (ℕ × Process W)
  link_pid node p =
      if str_eq node (codes "self")
      then ok (minus_one, p)
      else (let (n, q) = host.strtoul node p in
          let pid = n % 2 ^ 32 in assert (ltb 0 pid && ltb pid (2 ^ 31)) >> ok (pid, q))

  -- The native call that finds the program of another process, or of this one.
  unfoldable pub program_path : ℕ → ℕ → Process W → Link W
  program_path pid bufsize p =
      let (err, path, size, q) = host.sysctl_pathname pid bufsize p in
      if err == minus_one
      then record { nchars = minus_one_ssize; buf = none; process = convert_errno e q }
      else record { nchars = (size + (2 ^ 64 - 1)) % 2 ^ 64; buf = some path; process = q }

  -- The first argument is `proc_self_exe_override`.
  unfoldable pub read_exe : Option CString → ℕ → ℕ → Process W → Link W
  read_exe none pid bufsize p = program_path pid bufsize p
  read_exe (some path) pid bufsize p =
      if pid == minus_one || pid == host.getpid p
      then record {
        nchars = min (length path) bufsize;
        buf = some (take (min (length path) bufsize) path);
        process = p;
      }
      else program_path pid bufsize p

  -- What follows "/proc/". Without a slash there, `entry` is NULL, which `strcmp` reads.
  unfoldable pub read_proc : Option CString → CString → ℕ → Process W → Outcome (Link W)
  read_proc proc_self_exe_override path bufsize p =
      let (node, s) = strsep path in
      elim s [
        | none ↦ abort
        | some rest ↦
            if str_eq (strsep rest).0 (codes "exe")
            then (do (pid, q) ← link_pid node p; ok (read_exe proc_self_exe_override pid bufsize q))
            else ok (refuse p)
      ]

  unfoldable pub shim_readlink : Option CString → CString → ℕ → Process W → Outcome (Link W)
  shim_readlink proc_self_exe_override path bufsize p =
      if str_starts_with path proc
      then read_proc proc_self_exe_override (drop 6 path) bufsize p
      else if str_starts_with path (codes "/sys/")
      then ok (refuse p)
      else ok (host.readlink path bufsize p)

  unfoldable pub refuse_path : Process W → Resolution W
  refuse_path p = record {
    path = none;
    process = record p { errno = native_to_linux_errno e eacces };
  }

  -- The call into the buffer of PATH_MAX bytes, which the program gives or `malloc`.
  unfoldable pub resolve_program : ℕ → Process W → Resolution W
  resolve_program pid p =
      let (err, path, size, q) = host.sysctl_pathname pid path_max p in
      if err == minus_one
      then record { path = none; process = convert_errno e q }
      else record { path = some path; process = q }

  unfoldable pub resolve_exe : Option CString → ℕ → Process W → Outcome (Resolution W)
  resolve_exe none pid p = ok (resolve_program pid p)
  resolve_exe (some path) pid p =
      if pid == minus_one || pid == host.getpid p
      then (do
        assert (ltb (length path) path_max)
        ok (record { path = some (take (path_max - 1) path); process = p }))
      else ok (resolve_program pid p)

  -- What follows "/proc/", as in `read_proc`.
  unfoldable pub resolve_proc : Option CString → CString → Process W → Outcome (Resolution W)
  resolve_proc proc_self_exe_override path p =
      let (node, s) = strsep path in
      elim s [
        | none ↦ abort
        | some rest ↦
            if str_eq (strsep rest).0 (codes "exe")
            then (do (pid, q) ← link_pid node p; resolve_exe proc_self_exe_override pid q)
            else ok (refuse_path p)
      ]

  unfoldable pub shim_realpath : Option CString → CString → Process W → Outcome (Resolution W)
  shim_realpath proc_self_exe_override path p =
      if str_starts_with path proc
      then resolve_proc proc_self_exe_override (drop 6 path) p
      else if str_starts_with path (codes "/sys/")
      then ok (refuse_path p)
      else ok (host.realpath path p)
