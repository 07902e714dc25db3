-- ===== src/Stat/Calls.antt =====
-- src/libc/sys/stat.c: the calls, over the native ones.
use libc6_shim.Prelude.{ℕ, List, [], ◌∷◌, Option, drop, length, ◌==◌, ltb, not, ◌&&◌, if◌then◌else◌}
use libc6_shim.CString.{CString, codes, str_starts_with}
use libc6_shim.Outcome.{Outcome, ok, ◌>>=◌, ◌>>◌, assert}
use libc6_shim.Process.{Process}
use libc6_shim.Redirect.{Redirection, redirect}
use libc6_shim.Stat.{
  StatNumbers, Stat, LinuxStat, copy_stat_buf, linux_to_native_fstatat_flags, make_dev_id,
}

-- A path is `none` where the source may pass NULL.
pub record FileSystem (W : Type 0) : Type 0 where
  pub fstat : ℕ → Process W → ℕ × Stat × Process W
  pub fstatat : ℕ → CString → ℕ → Process W → ℕ × Stat × Process W
  pub lstat : Option CString → Process W → ℕ × Stat × Process W
  pub stat : CString → Process W → ℕ × Stat × Process W
  pub chmod : CString → ℕ → Process W → ℕ × Process W
  pub strtoul : CString → Process W → ℕ × Process W

-- What a call leaves: its result, the buffer of the program, and the state.
pub record Statted (W : Type 0) : Type 0 where
  pub err : ℕ
  pub stat_buf : LinuxStat
  pub process : Process W

-- `if (err == 0) { copy_stat_buf(stat_buf, &sb); }`
unfoldable pub write_stat : {W : Type 0} → LinuxStat → ℕ × Stat × Process W → Statted W
write_stat stat_buf (err, sb, p) = record {
  err = err;
  stat_buf = if err == 0 then copy_stat_buf sb else stat_buf;
  process = p;
}

-- `path[0]`
abbrev pub first_char : CString → ℕ
first_char [] = 0
first_char (x ∷ s) = x

abbrev pub dev_nvidia : CString
dev_nvidia = codes "/dev/nvidia"

module _ {W : Type 0} (c : StatNumbers) (host : FileSystem W) where
  unfoldable pub shim_fxstat : ℕ → ℕ → LinuxStat → Process W → Statted W
  shim_fxstat ver fd stat_buf p = write_stat stat_buf (host.fstat fd p)

  unfoldable pub shim_fxstatat64 : ℕ → ℕ → CString → LinuxStat → ℕ → Process W → Outcome (Statted W)
  shim_fxstatat64 ver dirfd path stat_buf linux_flags p = do
    flags ← linux_to_native_fstatat_flags c linux_flags
    ok (write_stat stat_buf (host.fstatat dirfd path flags p))

  unfoldable pub shim_lxstat : List Redirection → ℕ → CString → LinuxStat → Process W → Statted W
  shim_lxstat procfs_redirects ver path stat_buf p =
      write_stat stat_buf (host.lstat (redirect procfs_redirects path) p)

  -- The `default:` of the `switch` in FIX_NV_DEV_ID, on what follows the prefix.
  unfoldable pub numbered_device : CString → Statted W → Outcome (Statted W)
  numbered_device rest r =
      let (i, q) = host.strtoul rest (record r.process { errno = 0 }) in
      if not (q.errno == c.erange) && not (q.errno == c.einval)
      then (do
        assert (ltb i 254)
        ok (record r { stat_buf = record r.stat_buf { st_rdev = make_dev_id 195 i }; process = q }))
      else ok (record r { process = q })

  -- FIX_NV_DEV_ID: 99 is 'c', and 45 is '-'.
  unfoldable pub fix_nv_dev_id : CString → Statted W → Outcome (Statted W)
  fix_nv_dev_id path r =
      if str_starts_with path dev_nvidia
      then (let rest = drop (length dev_nvidia) path in
          if first_char rest == 99
          then ok (record r { stat_buf = record r.stat_buf { st_rdev = make_dev_id 195 255 } })
          else if first_char rest == 45
          then ok (record r { stat_buf = record r.stat_buf { st_rdev = make_dev_id 195 254 } })
          else numbered_device rest r)
      else ok r

  unfoldable pub shim_xstat : ℕ → CString → LinuxStat → Process W → Outcome (Statted W)
  shim_xstat ver path stat_buf p =
      let r = write_stat stat_buf (host.stat path p) in
      if r.err == 0 then fix_nv_dev_id path r else ok r

  unfoldable pub shim_chmod : CString → ℕ → Process W → Outcome (ℕ × Process W)
  shim_chmod path mode p = do
    assert (not (str_starts_with path (codes "/dev/")))
    ok (host.chmod path mode p)
