-- ===== src/Ioctl.antt =====
-- src/libc/sys/ioctl.c: the requests of ioctl, whose direction is converted.
pub mod Laws
mod Tests
use libc6_shim.Prelude.{
  ℕ, ◌*◌, ◌/◌, ◌%◌, ◌^◌, bit_or, Option, none, some, Bool, ◌&&◌, ◌||◌, ◌==◌, leb, if◌then◌else◌,
}
use libc6_shim.Outcome.{Outcome, ok, abort, ◌>>=◌}
use libc6_shim.Process.{Process, minus_one}

-- FreeBSD's numbers, and its macro _IOC, of the direction, the group, the number and the length.
pub record IoctlNumbers : Type 0 where
  pub ioc : ℕ → ℕ → ℕ → ℕ → ℕ
  pub ioc_void : ℕ
  pub ioc_in : ℕ
  pub ioc_out : ℕ
  pub tiocgwinsz : ℕ
  pub fionread : ℕ
  pub fionbio : ℕ
  pub einval : ℕ

-- The fields of a Linux request, LINUX_IOC_DIR and the others.
abbrev pub linux_ioc_dir : ℕ → ℕ
linux_ioc_dir x = (x / 2 ^ 30) % 2 ^ 2

abbrev pub linux_ioc_len : ℕ → ℕ
linux_ioc_len x = (x / 2 ^ 16) % 2 ^ 14

abbrev pub linux_ioc_grp : ℕ → ℕ
linux_ioc_grp x = (x / 2 ^ 8) % 2 ^ 8

abbrev pub linux_ioc_cmd : ℕ → ℕ
linux_ioc_cmd x = x % 2 ^ 8

unfoldable pub linux_to_native_dir : IoctlNumbers → ℕ → Outcome ℕ
linux_to_native_dir c linux_dir =
    if linux_dir == 0
    then ok c.ioc_void
    else if linux_dir == 1
    then ok c.ioc_in
    else if linux_dir == 2
    then ok c.ioc_out
    else if linux_dir == 3
    then ok (bit_or c.ioc_in c.ioc_out)
    else abort

-- LINUX_TO_NATIVE_REQ, in the builds without DEBUG, where the length is not checked.
unfoldable pub linux_to_native_req : IoctlNumbers → ℕ → Outcome ℕ
linux_to_native_req c x = linux_to_native_dir c (linux_ioc_dir x) >>= λ dir.
    ok (c.ioc dir (linux_ioc_grp x) (linux_ioc_cmd x) (linux_ioc_len x))

abbrev pub linux_tiocgwinsz : ℕ
linux_tiocgwinsz = 0x5413

abbrev pub linux_fionread : ℕ
linux_fionread = 0x541b

abbrev pub linux_fionbio : ℕ
linux_fionbio = 0x5421

abbrev pub linux_siocgifconf : ℕ
linux_siocgifconf = 0x8912

abbrev pub linux_sndctl_sysinfo : ℕ
linux_sndctl_sysinfo = 0x84f85801

abbrev pub nv_uvm_initialize : ℕ
nv_uvm_initialize = 0x30000001

abbrev pub nv_uvm_deinitialize : ℕ
nv_uvm_deinitialize = 0x30000002

abbrev pub nv_err_not_supported : ℕ
nv_err_not_supported = 0x56

-- The commands of NVIDIA's drivers, of sound and of DRM.
unfoldable pub is_driver_command : ℕ → Bool
is_driver_command command =
    (leb 0x4600 command && leb command 0x46ff)
    || (command == 0x6d00
        || ((leb 0x4d00 command && leb command 0x510e)
            || (leb 0x6400 command && leb command 0x64ff)))

-- The native ioctl, of a descriptor, a request and a pointer.
abbrev pub NativeIoctl : Type 0 → Type 0
NativeIoctl W = ℕ → ℕ → ℕ → Process W → ℕ × Process W

-- The result, the field `status` of the argument where it is written, and the process.
pub record Controlled (W : Type 0) : Type 0 where
  pub result : ℕ
  pub status : Option ℕ
  pub process : Process W

module _ {W : Type 0} (c : IoctlNumbers) (ioctl : NativeIoctl W) where
  abbrev pub pass : ℕ → ℕ → ℕ → Process W → Controlled W
  pass fd request arg p =
      let (r, q) = ioctl fd request arg p in record { result = r; status = none; process = q }

  -- `errno = EINVAL; return -1;`
  abbrev pub reject_request : Process W → Controlled W
  reject_request p = record {
    result = minus_one;
    status = none;
    process = record p { errno = c.einval };
  }

  unfoldable pub shim_ioctl : ℕ → ℕ → ℕ → Process W → Outcome (Controlled W)
  shim_ioctl fd request arg p =
      if is_driver_command (request % 2 ^ 16)
      then (linux_to_native_req c request >>= λ native. ok (pass fd native arg p))
      else if request == linux_tiocgwinsz
      then ok (pass fd c.tiocgwinsz arg p)
      else if request == linux_fionread
      then ok (pass fd c.fionread arg p)
      else if request == linux_fionbio
      then ok (pass fd c.fionbio arg p)
      else if request == linux_siocgifconf
      then ok (reject_request p)
      else if request == linux_sndctl_sysinfo
      then ok (reject_request p)
      else if request == nv_uvm_initialize
      then ok (record { result = 0; status = some nv_err_not_supported; process = p })
      else if request == nv_uvm_deinitialize
      then ok (record { result = 0; status = none; process = p })
      else abort
