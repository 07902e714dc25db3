-- ===== src/Errno.antt =====
-- The error numbers of src/util.c. The native numbers come from FreeBSD's <errno.h>.
pub mod Laws
pub mod Tests
use libc6_shim.Prelude.{ℕ, List, [], ◌∷◌, ◌≢◌}
use mathlib.Core.Option
use libc6_shim.Flags.{Entry, ◌⇒◌}
use libc6_shim.Switch.{select, DistinctTargets, NotLabel}

pub record Errnos : Type 0 where
  pub eagain : ℕ
  pub enosys : ℕ
  pub etimedout : ℕ
  pub einprogress : ℕ

abbrev pub linux_eagain : ℕ
linux_eagain = 11

abbrev pub linux_enosys : ℕ
linux_enosys = 38

abbrev pub linux_etimedout : ℕ
linux_etimedout = 110

abbrev pub linux_einprogress : ℕ
linux_einprogress = 115

-- The cases of `linux_to_native_errno`.
abbrev pub errno_cases : Errnos → List Entry
errno_cases c =
    (linux_eagain ⇒ c.eagain)
    ∷ (linux_enosys ⇒ c.enosys)
    ∷ (linux_etimedout ⇒ c.etimedout)
    ∷ (linux_einprogress ⇒ c.einprogress)
    ∷ []

-- The cases of `native_to_linux_errno`.
abbrev pub native_errno_cases : Errnos → List Entry
native_errno_cases c =
    (c.eagain ⇒ linux_eagain)
    ∷ (c.enosys ⇒ linux_enosys)
    ∷ (c.etimedout ⇒ linux_etimedout)
    ∷ (c.einprogress ⇒ linux_einprogress)
    ∷ []

unfoldable pub linux_to_native_errno : Errnos → ℕ → ℕ
linux_to_native_errno c error = Option.get_or (select (errno_cases c) error) error

unfoldable pub native_to_linux_errno : Errnos → ℕ → ℕ
native_to_linux_errno c error = Option.get_or (select (native_errno_cases c) error) error

-- What FreeBSD's header says of the four numbers: they differ, and Linux gives none of their
-- values to one of the four.
pub record IsErrnos (c : Errnos) : Type 0 where
  pub distinct : DistinctTargets (errno_cases c)
  pub apart_again : NotLabel c.eagain (errno_cases c)
  pub apart_nosys : NotLabel c.enosys (errno_cases c)
  pub apart_timedout : NotLabel c.etimedout (errno_cases c)
  pub apart_inprogress : NotLabel c.einprogress (errno_cases c)
