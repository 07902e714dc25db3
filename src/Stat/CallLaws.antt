-- ===== src/Stat/CallLaws.antt =====
-- What programs see of the file status calls.
use libc6_shim.Prelude.{◌≤◌, ℕ, ◌^◌, ◌<◌, ◌≡◌, ◌≢◌, refl, ◌∷◌, ◌++◌, ne→==, lt→ltb, arith}
use libc6_shim.CString.{codes, CString, starts-append, drop-append}
use libc6_shim.Outcome.{ok}
use libc6_shim.Process.{Process}
use libc6_shim.Stat.{StatNumbers, Stat, LinuxStat, copy_stat_buf, make_dev_id}
use libc6_shim.Stat.Calls.{
  FileSystem, Statted, dev_nvidia, write_stat, numbered_device, fix_nv_dev_id, shim_xstat,
}
use libc6_shim.Stat.DeviceLaws.{linux_major, linux_minor, make_dev_id_decodes}

module _ {W : Type 0} (c : StatNumbers) (host : FileSystem W) where
  -- The minor number that Linux gives the device of NVIDIA's driver whose name goes on with the text
  -- behind "/dev/nvidia", and the state after it is read: nvidiactl, nvidia-modeset, and the numbered
  -- ones, whose number begins with a digit and is what `strtoul` reads.
  pub data HasMinor (p : Process W) : CString → ℕ → Process W → Type 0 where
    control : HasMinor p (codes "ctl") 255 p
    modeset : HasMinor p (codes "-modeset") 254 p
    numbered :
        (digit : ℕ) (s : CString) (i : ℕ) (q : Process W)
        → 48 ≤ digit
        → digit ≤ 57
        → host.strtoul (digit ∷ s) (record p { errno = 0 }) ≡ (i, q)
        → q.errno ≢ c.erange
        → q.errno ≢ c.einval
        → i < 254
        → HasMinor p (digit ∷ s) i q

  fix_nv_dev_id-HasMinor :
      (rest : CString) (r : Statted W) (minor : ℕ) (q : Process W)
      → HasMinor r.process rest minor q
      → fix_nv_dev_id c host (dev_nvidia ++ rest) r
        ≡ ok (record r {
          stat_buf = record r.stat_buf { st_rdev = make_dev_id 195 minor };
          process = q;
        })
  unfolding fix_nv_dev_id numbered_device
  fix_nv_dev_id-HasMinor rest r minor q control = rw (starts-append dev_nvidia rest) refl
  fix_nv_dev_id-HasMinor rest r minor q modeset = rw (starts-append dev_nvidia rest) refl
  fix_nv_dev_id-HasMinor rest r minor q
        (numbered digit t i q1 low high parsed in_range valid small) =
      rw
        (
          starts-append dev_nvidia rest,
          drop-append dev_nvidia rest,
          ne→== digit 99 (omega (arith, high)),
          ne→== digit 45 (omega (arith, low)),
          parsed,
          ne→== q.errno c.erange in_range,
          ne→== q.errno c.einval valid,
          lt→ltb minor 254 small,
        )
        refl

  HasMinor-small :
      (p : Process W) (rest : CString) (minor : ℕ) (q : Process W)
      → HasMinor p rest minor q
      → minor < 2 ^ 32
  HasMinor-small p rest minor q control = omega arith
  HasMinor-small p rest minor q modeset = omega arith
  HasMinor-small p rest minor q (numbered digit t i q1 low high parsed in_range valid small) =
      omega (arith, small)

  -- When the native call succeeds on /dev/nvidiactl, /dev/nvidia-modeset or a device /dev/nvidia0 to
  -- /dev/nvidia253 of NVIDIA's driver, the program finds in `st_rdev`, as glibc takes it apart, the
  -- major number 195 and the minor number 255, 254 or the one in the name, which Linux gives these
  -- devices. The rest of the buffer is as for any file.
  pub xstat_nvidia :
      (ver : ℕ) (rest : CString) (stat_buf : LinuxStat) (sb : Stat) (minor : ℕ) (p p1 q : Process W)
      → host.stat (dev_nvidia ++ rest) p ≡ (0, sb, p1)
      → HasMinor p1 rest minor q
      → (dev : ℕ) × (shim_xstat c host ver (dev_nvidia ++ rest) stat_buf p
          ≡ ok (record {
            err = 0;
            stat_buf = record (copy_stat_buf sb) { st_rdev = dev };
            process = q;
          }))
        × (linux_major dev ≡ 195)
        × (linux_minor dev ≡ minor)
  unfolding shim_xstat write_stat
  xstat_nvidia ver rest stat_buf sb minor p p1 q found h =
      let (major, low, small) =
        make_dev_id_decodes 195 minor (omega arith) (HasMinor-small p1 rest minor q h) in
      (
        make_dev_id 195 minor,
        rw found (
            fix_nv_dev_id-HasMinor rest
              (record { err = 0; stat_buf = copy_stat_buf sb; process = p1 }) minor q h),
        major,
        low,
      )
