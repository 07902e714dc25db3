-- ===== src/Fcntl/Commands.antt =====
-- `shim_fcntl_impl`, command by command.
use libc6_shim.Prelude.{ℕ, bit_and, List, [], ◌∷◌, ◌==◌, if◌then◌else◌}
use libc6_shim.Bits.{bit_not32}
use libc6_shim.Outcome.{Outcome, ok, abort, ◌>>=◌, ◌>>◌, assert, or_abort}
use libc6_shim.Flags.{Entry, ◌⇒◌, has, or_list, translate}
use libc6_shim.Switch.{select}
use libc6_shim.Process.{Process}
use libc6_shim.Fcntl.{FcntlNumbers, linux_o_wronly, linux_o_rdwr, linux_o_nonblock}

-- `struct linux_flock`, and the native one of the same fields.
pub record Flock : Type 0 where
  pub l_type : ℕ
  pub l_whence : ℕ
  pub l_start : ℕ
  pub l_len : ℕ
  pub l_pid : ℕ

unfoldable pub copy_linux_flock : FcntlNumbers → Flock → Outcome Flock
copy_linux_flock c src = do
  l_type ← or_abort (select ((0 ⇒ c.f_rdlck) ∷ (1 ⇒ c.f_wrlck) ∷ (2 ⇒ c.f_unlck) ∷ []) src.l_type)
  ok (record src { l_type = l_type })

-- The third argument of a native call, if there is one.
pub data NativeArg : Type 0 where
  no_arg : NativeArg
  int_arg : ℕ → NativeArg
  lock_arg : Flock → NativeArg

-- The two functions that commands are passed to: that of libepoll-shim, and fcntl itself.
pub record FcntlHost (W : Type 0) : Type 0 where
  pub epoll_shim_fcntl : ℕ → ℕ → NativeArg → Process W → ℕ × Process W
  pub fcntl : ℕ → ℕ → NativeArg → Process W → ℕ × Process W

-- What `va_arg` gives for either type that a command may read.
pub record VaArg : Type 0 where
  pub int_value : ℕ
  pub lock_value : Flock

-- The flags that F_GETFL converts, and those of F_SETFL.
abbrev pub getfl_entries : FcntlNumbers → List Entry
getfl_entries c =
    (c.o_wronly ⇒ linux_o_wronly)
    ∷ (c.o_rdwr ⇒ linux_o_rdwr)
    ∷ (c.o_nonblock ⇒ linux_o_nonblock)
    ∷ []

abbrev pub setfl_entries : FcntlNumbers → List Entry
setfl_entries c = (linux_o_rdwr ⇒ c.o_rdwr) ∷ (linux_o_nonblock ⇒ c.o_nonblock) ∷ []

-- The mask has LINUX_O_WRONLY, not O_WRONLY.
unfoldable pub native_to_linux_fl : FcntlNumbers → ℕ → Outcome ℕ
native_to_linux_fl c flags = do
  assert (bit_and flags (bit_not32 (or_list (linux_o_wronly ∷ c.o_rdwr ∷ c.o_nonblock ∷ []))) == 0)
  ok (translate (getfl_entries c) flags 0)

unfoldable pub linux_to_native_fl : FcntlNumbers → ℕ → Outcome ℕ
linux_to_native_fl c linux_flags = do
  assert (bit_and linux_flags (bit_not32 (or_list (linux_o_rdwr ∷ linux_o_nonblock ∷ []))) == 0)
  ok (translate (setfl_entries c) linux_flags 0)

module _ {W : Type 0} (c : FcntlNumbers) (host : FcntlHost W) where
  unfoldable pub getfl : ℕ → Process W → Outcome (ℕ × Process W)
  getfl fd w = do
    let (flags, w1) = host.epoll_shim_fcntl fd c.f_getfl no_arg w
    linux_flags ← native_to_linux_fl c flags
    ok (linux_flags, w1)

  unfoldable pub setfl : ℕ → ℕ → Process W → Outcome (ℕ × Process W)
  setfl fd linux_flags w = do
    flags ← linux_to_native_fl c linux_flags
    ok (host.epoll_shim_fcntl fd c.f_setfl (int_arg flags) w)

  unfoldable pub set_lock : ℕ → ℕ → Flock → Process W → Outcome (ℕ × Process W)
  set_lock fd cmd linux_lock w = do
    lock ← copy_linux_flock c linux_lock
    ok (host.epoll_shim_fcntl fd cmd (lock_arg lock) w)

  unfoldable pub shim_fcntl : ℕ → ℕ → VaArg → Process W → Outcome (ℕ × Process W)
  shim_fcntl fd cmd args w =
      if cmd == 1
      then ok (host.epoll_shim_fcntl fd c.f_getfd no_arg w)
      else if cmd == 2
      then ok (
          host.epoll_shim_fcntl fd c.f_setfd
            (int_arg (if has args.int_value 1 then c.fd_cloexec else 0)) w)
      else if cmd == 3
      then getfl fd w
      else if cmd == 4
      then setfl fd args.int_value w
      else if cmd == 5
      then abort
      else if cmd == 6
      then set_lock fd c.f_setlk args.lock_value w
      else if cmd == 7
      then set_lock fd c.f_setlkw args.lock_value w
      else if cmd == 8
      then abort
      else if cmd == 9
      then abort
      else if cmd == 1030
      then ok (host.fcntl fd c.f_dupfd_cloexec (int_arg args.int_value) w)
      else if cmd == 1033
      then ok (host.epoll_shim_fcntl fd c.f_add_seals (int_arg args.int_value) w)
      else abort
