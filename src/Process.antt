-- ===== src/Process.antt =====
-- What every call acts on: `errno` of the calling thread, and the system, which only native calls
-- look into. An `int` or `ssize_t` result is its bit pattern.
use libc6_shim.Prelude.{ℕ, ◌+◌, ◌-◌, ◌^◌, ◌==◌, ltb, if◌then◌else◌}
use libc6_shim.Errno.{Errnos, native_to_linux_errno}

pub record Process (W : Type 0) : Type 0 where
  pub errno : ℕ
  pub world : W

-- -1 as an `int`, and as an `ssize_t` of the 64-bit build.
abbrev pub minus_one : ℕ
minus_one = 2 ^ 32 - 1

abbrev pub minus_one_ssize : ℕ
minus_one_ssize = 2 ^ 64 - 1

-- An `int` that is assigned to a 64-bit integer, by the bit patterns.
abbrev pub sign_extend : ℕ → ℕ
sign_extend x = if ltb x (2 ^ 31) then x else x + (2 ^ 64 - 2 ^ 32)

-- `errno = native_to_linux_errno(errno)`
unfoldable pub convert_errno : {W : Type 0} → Errnos → Process W → Process W
convert_errno c p = record p { errno = native_to_linux_errno c p.errno }

-- `if (r == -1) { errno = native_to_linux_errno(errno); } return r;`
unfoldable pub report_error : {W : Type 0} → Errnos → ℕ → ℕ × Process W → ℕ × Process W
report_error c failure (r, p) = (r, if r == failure then convert_errno c p else p)
