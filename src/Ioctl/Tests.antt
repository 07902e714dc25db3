-- ===== src/Ioctl/Tests.antt =====
-- ioctl with FreeBSD's numbers.
use libc6_shim.Prelude.{◌-◌, bit_or, bit_and, ℕ, ◌+◌, ◌*◌, ◌%◌, ◌^◌, ◌≡◌, refl, inr, none, arith}
use libc6_shim.Outcome.{ok, abort}
use libc6_shim.Process.{Process, minus_one}
use libc6_shim.Ioctl.{
  IoctlNumbers, linux_to_native_dir, linux_to_native_req, is_driver_command, linux_ioc_dir,
  NativeIoctl, pass, shim_ioctl,
}
use libc6_shim.Ioctl.Laws.{IsIoctlNumbers, direction_bits, ioctl_forwards}

abbrev freebsd : IoctlNumbers
freebsd = record {
  ioc = λ dir grp cmd len.
      bit_or (bit_or (bit_or dir (bit_and len (2 ^ 13 - 1) * 2 ^ 16)) (grp * 2 ^ 8)) cmd;
  ioc_void = 2 ^ 29;
  ioc_in = 2 ^ 31;
  ioc_out = 2 ^ 30;
  tiocgwinsz = 0x40087468;
  fionread = 0x4004667f;
  fionbio = 0x8004667e;
  einval = 22;
}

freebsd-IsIoctlNumbers : IsIoctlNumbers freebsd
freebsd-IsIoctlNumbers = record {
  fields = λ dir grp cmd len. refl;
  void_lem = refl;
  in_lem = refl;
  out_lem = refl;
}

-- A driver that answers with the request.
abbrev echo : NativeIoctl ℕ
echo fd request arg p = (request, p)

abbrev started : Process ℕ
started = record { errno = 0; world = 0 }

-- DRM_IOCTL_VERSION, which reads and writes.
drm_version :
    shim_ioctl freebsd echo 3 0xc040_6400 0 started ≡ ok (pass freebsd echo 3 0xc040_6400 0 started)
unfolding shim_ioctl is_driver_command linux_to_native_req linux_to_native_dir
drm_version = refl

ioctl_interfaces :
    shim_ioctl freebsd echo 3 0x8912 0 started
    ≡ ok (record { result = minus_one; status = none; process = record started { errno = 22 } })
unfolding shim_ioctl is_driver_command
ioctl_interfaces = refl

ioctl_unknown : shim_ioctl freebsd echo 3 0x5401 0 started ≡ abort
unfolding shim_ioctl is_driver_command
ioctl_unknown = refl

-- DRM_IOCTL_SET_VERSION with a structure that the driver only reads.
ioctl_forwards_example :
    shim_ioctl freebsd echo 3 0x4010_6407 9 started
    ≡ ok (
        pass freebsd echo 3
          (direction_bits (linux_ioc_dir 0x4010_6407) + 0x4010_6407 % 2 ^ 29)
          9
          started)
ioctl_forwards_example =
    ioctl_forwards freebsd echo 3 0x4010_6407 9 started freebsd-IsIoctlNumbers (inr refl)
      (omega arith)
