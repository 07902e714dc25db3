-- ===== src/Errno/Laws.antt =====
-- What the two errno conversions keep and what they lose.
use libc6_shim.Prelude.{ℕ, ◌≡◌, ◌≢◌, ◌↔◌, arith}
use libc6_shim.Switch.{select}
use libc6_shim.Errno.{Errnos, IsErrnos, linux_to_native_errno, native_to_linux_errno}

-- A number is none of the four that Linux or FreeBSD gives EAGAIN, ENOSYS, ETIMEDOUT and
-- EINPROGRESS.
abbrev pub NotLinuxErrno : ℕ → Type 0
NotLinuxErrno error = (error ≢ 11) × (error ≢ 38) × (error ≢ 110) × (error ≢ 115)

abbrev pub NotNativeErrno : Errnos → ℕ → Type 0
NotNativeErrno c error =
    (error ≢ c.eagain) × (error ≢ c.enosys) × (error ≢ c.etimedout) × (error ≢ c.einprogress)

-- For errno numbers that differ from one another and from the four Linux numbers: EAGAIN, ENOSYS,
-- ETIMEDOUT and EINPROGRESS become 11, 38, 110 and 115. A native error survives the way to Linux and
-- back exactly when it is not one of these four numbers, and a Linux error survives the way to
-- FreeBSD and back exactly when it is not one of the four native numbers. All others, such as the
-- native error 11, come back as another error.
pub errno_round_trip_iff :
    (c : Errnos) (error : ℕ)
    → IsErrnos c
    → ((native_to_linux_errno c c.eagain ≡ 11)
        × (native_to_linux_errno c c.enosys ≡ 38)
        × (native_to_linux_errno c c.etimedout ≡ 110)
        × (native_to_linux_errno c c.einprogress ≡ 115))
      × ((linux_to_native_errno c (native_to_linux_errno c error) ≡ error) ↔ NotLinuxErrno error)
      × ((native_to_linux_errno c (linux_to_native_errno c error) ≡ error) ↔ NotNativeErrno c error)
unfolding linux_to_native_errno native_to_linux_errno select
errno_round_trip_iff c error h =
    ((ground arith, ground arith, ground arith, ground arith), ground arith, ground arith)
