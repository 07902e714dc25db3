-- ===== src/Stdio.antt =====
-- src/libc/stdio.c: opening and removing files by path, and the checked printing into a buffer.
pub mod Outside
pub mod Paths
pub mod Laws
pub mod Tests
mod PathTests
use libc6_shim.Prelude.{
  ℕ, suc, ◌+◌, List, [], ◌∷◌, ◌++◌, Option, none, some, drop, length, Bool, true, false, not, ◌&&◌,
  ◌||◌, ◌==◌, leb, if◌then◌else◌,
}
use libc6_shim.CString.{CString, codes, str_eq, str_starts_with}
use libc6_shim.Outcome.{Outcome, ok, abort, ◌>>=◌, ◌>>◌, assert}
use libc6_shim.Process.{Process, minus_one}
use libc6_shim.Redirect.{Redirection, redirect}

-- The native calls; a FILE* is a number, and NULL is 0. `vsnprintf` gives the `int` that it returns
-- and the bytes that it writes, for a format with its arguments, which is a number.
pub record StdioHost (W : Type 0) : Type 0 where
  pub fopen : CString → CString → Process W → ℕ × Process W
  pub fmemopen : ℕ → CString → Process W → ℕ × Process W
  pub fwrite : List ℕ → ℕ → Process W → Process W
  pub rewind : ℕ → Process W → Process W
  pub remove : CString → Process W → ℕ × Process W
  pub vsnprintf : ℕ → ℕ → ℕ × List ℕ

-- `strchr(s, c)`: the string from the first `c` on.
unfoldable pub strchr : CString → ℕ → Option CString
strchr [] c = none
strchr (x ∷ s) c = if x == c then some (x ∷ s) else strchr s c

abbrev pub nvidia_params : CString
nvidia_params = codes "/proc/driver/nvidia/params"

-- `char str[]`, with its final nul.
abbrev pub params_text : List ℕ
params_text = codes "ModifyDeviceFiles: 0" ++ (10 ∷ 0 ∷ [])

abbrev pub self_task : CString
self_task = codes "/proc/self/task/"

-- `strchr(path + sizeof("/proc/self/task/"), '/')`, which skips one character behind the prefix: for
-- the prefix alone that is a read past the end of the string, which is `abort` here.
unfoldable pub task_tail : CString → Outcome (Option CString)
task_tail path =
    if leb (length path) (length self_task)
    then abort
    else ok (strchr (drop (suc (length self_task)) path) b'/')

abbrev pub is_comm : Option CString → Bool
is_comm none = false
is_comm (some tail) = str_eq tail (codes "/comm")

module _ {W : Type 0} (eacces : ℕ) (host : StdioHost W) where
  -- The end of `shim_fopen_impl`.
  unfoldable pub open_redirected : List Redirection → CString → CString → Process W → ℕ × Process W
  open_redirected procfs_redirects path mode p = elim (redirect procfs_redirects path) [
    | none ↦ (0, record p { errno = eacces })
    | some q ↦ host.fopen q mode p
  ]

  -- The file in memory that stands for the driver's parameters.
  unfoldable pub open_params : Process W → ℕ × Process W
  open_params p =
      let (mem, p1) = host.fmemopen (length params_text) (codes "r+") p in
      (mem, host.rewind mem (host.fwrite params_text mem p1))

  unfoldable pub shim_fopen :
      List Redirection → CString → CString → Process W → Outcome (ℕ × Process W)
  unfolding open_redirected open_params
  shim_fopen procfs_redirects path mode p =
      if str_eq path nvidia_params
      then (assert (str_eq mode (codes "r")) >> ok (open_params p))
      else if str_starts_with path self_task
      then (task_tail path >>= λ tail.
          if is_comm tail
          then (assert (str_eq mode (codes "wb")) >> ok (host.fopen (codes "/dev/null") mode p))
          else ok (open_redirected procfs_redirects path mode p))
      else ok (open_redirected procfs_redirects path mode p)

module _ {W : Type 0} (host : StdioHost W) where
  unfoldable pub shim_remove : CString → Process W → Outcome (ℕ × Process W)
  shim_remove path p = do
    assert (
        str_starts_with path (codes "/dev/char/195:") || not (str_starts_with path (codes "/dev/")))
    ok (host.remove path p)

  -- `__snprintf_chk` and `__vsnprintf_chk`; `strlen` is the size of the destination.
  unfoldable pub shim_snprintf_chk : ℕ → ℕ → ℕ → ℕ → Outcome (ℕ × List ℕ)
  shim_snprintf_chk maxlen flag strlen format = do
    assert (flag == 1 && leb maxlen strlen)
    ok (host.vsnprintf maxlen format)
