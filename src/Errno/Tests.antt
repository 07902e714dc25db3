-- ===== src/Errno/Tests.antt =====
-- FreeBSD's numbers, and the theorem at a concrete input.
use libc6_shim.Prelude.{◌≡◌, ◌↔◌, refl, arith}
use libc6_shim.Switch.{select}
use libc6_shim.Errno.{Errnos, IsErrnos, linux_to_native_errno, native_to_linux_errno}
use libc6_shim.Errno.Laws.{NotLinuxErrno, NotNativeErrno, errno_round_trip_iff}

abbrev pub freebsd_errnos : Errnos
freebsd_errnos = record { eagain = 35; enosys = 78; etimedout = 60; einprogress = 36 }

pub freebsd-IsErrnos : IsErrnos freebsd_errnos
freebsd-IsErrnos = omega arith

errno_round_trip_iff_example :
    ((native_to_linux_errno freebsd_errnos 35 ≡ 11)
      × (native_to_linux_errno freebsd_errnos 78 ≡ 38)
      × (native_to_linux_errno freebsd_errnos 60 ≡ 110)
      × (native_to_linux_errno freebsd_errnos 36 ≡ 115))
    × ((linux_to_native_errno freebsd_errnos (native_to_linux_errno freebsd_errnos 11) ≡ 11)
        ↔ NotLinuxErrno 11)
    × ((native_to_linux_errno freebsd_errnos (linux_to_native_errno freebsd_errnos 11) ≡ 11)
        ↔ NotNativeErrno freebsd_errnos 11)
errno_round_trip_iff_example = errno_round_trip_iff freebsd_errnos 11 freebsd-IsErrnos

-- The native error 11 (EDEADLK) reaches Linux code as EAGAIN.
deadlock_as_eagain :
    (native_to_linux_errno freebsd_errnos 11 ≡ 11) × (native_to_linux_errno freebsd_errnos 35 ≡ 11)
unfolding native_to_linux_errno select
deadlock_as_eagain = (refl, refl)
