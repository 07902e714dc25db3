-- ===== src/Pthread/MutexInit.antt =====
-- The shim's mutexes, each a native one beside the kind that a Linux static initializer gives. A
-- native mutex is a pointer, NULL (0) until it is initialized.
use libc6_shim.Prelude.{ℕ, Option, none, some, ◌==◌, ◌&&◌, not, if◌then◌else◌}
use libc6_shim.Outcome.{Outcome, ok, ◌>>=◌, ◌>>◌, assert}
use libc6_shim.Errno.{Errnos, native_to_linux_errno}
use libc6_shim.Pthread.{
  PthreadNumbers, linux_to_native_mutex_kind, linux_to_native_protocol, linux_to_native_pshared,
  linux_to_native_robust,
}
use libc6_shim.Pthread.MutexAttr.{MutexAttr}

-- `struct shim_pthread_mutex`
pub record Mutex : Type 0 where
  pub wrapped_mutex : ℕ
  pub linux_kind : ℕ

-- A native attribute object: what the shim sets, and `none` for what keeps its default.
pub record NativeMutexattr : Type 0 where
  pub kind : ℕ
  pub protocol : Option ℕ
  pub pshared : Option ℕ
  pub robust : Option ℕ

-- The native result, the pointer after the call, and the system after it.
pub record Native (W : Type 0) : Type 0 where
  pub err : ℕ
  pub wrapped : ℕ
  pub world : W

-- The native calls on a mutex at its pointer, and those on `mutex_initialization_mutex`.
-- `wait` stands for any of lock, trylock, timedlock, cond_wait and cond_timedwait.
pub record MutexHost (W : Type 0) : Type 0 where
  pub mutex_init : ℕ → Option NativeMutexattr → W → Native W
  pub wait : ℕ → W → Native W
  pub unlock : ℕ → W → Native W
  pub lock_initialization : W → ℕ × W
  pub unlock_initialization : W → ℕ × W

-- What the attribute object of a Linux program becomes.
unfoldable pub linux_to_native_mutexattr : PthreadNumbers → MutexAttr → Outcome NativeMutexattr
linux_to_native_mutexattr c attr = do
  kind ← linux_to_native_mutex_kind c attr.linux_kind
  assert (attr.linux_prioceiling == 0)
  protocol ← linux_to_native_protocol c attr.linux_protocol
  pshared ← linux_to_native_pshared c attr.linux_pshared
  robust ← linux_to_native_robust c attr.linux_robust
  ok (record {
    kind = kind;
    protocol = some protocol;
    pshared = some pshared;
    robust = some robust;
  })

abbrev pub kind_only : ℕ → NativeMutexattr
kind_only type = record { kind = type; protocol = none; pshared = none; robust = none }

module _ {W : Type 0} (e : Errnos) (c : PthreadNumbers) (host : MutexHost W) where
  -- The result of the call and the mutex after it.
  abbrev pub finish : Mutex → Native W → ℕ × Mutex × W
  finish m r = (r.err, record m { wrapped_mutex = r.wrapped }, r.world)

  unfoldable pub mutex_init : Mutex → Option MutexAttr → W → Outcome (ℕ × Mutex × W)
  mutex_init m none w = ok (finish m (host.mutex_init m.wrapped_mutex none w))
  mutex_init m (some linux_attr) w = do
    attr ← linux_to_native_mutexattr c linux_attr
    ok (finish m (host.mutex_init m.wrapped_mutex (some attr) w))

  -- The second test of the pointer and what depends on it, with the initialization mutex held.
  unfoldable pub init_locked : Mutex → W → Outcome (Mutex × W)
  init_locked m w =
      if m.wrapped_mutex == 0
      then (do
        type ← linux_to_native_mutex_kind c m.linux_kind
        let (err, m1, w1) = finish m (host.mutex_init m.wrapped_mutex (some (kind_only type)) w)
        ok (m1, w1))
      else ok (m, w)

  -- One thread alone; Race has several.
  unfoldable pub init_mutex_if_necessary : Mutex → W → Outcome (Mutex × W)
  init_mutex_if_necessary m w =
      if m.wrapped_mutex == 0 && not (m.linux_kind == 0)
      then (do
        let (lock_err, w1) = host.lock_initialization w
        assert (lock_err == 0)
        (m2, w2) ← init_locked m w1
        let (unlock_err, w3) = host.unlock_initialization w2
        assert (unlock_err == 0)
        ok (m2, w3))
      else ok (m, w)

  -- `shim_pthread_mutex_lock_impl`, and the same of trylock and cond_wait.
  unfoldable pub mutex_lock : Mutex → W → Outcome (ℕ × Mutex × W)
  mutex_lock m w = do
    (m1, w1) ← init_mutex_if_necessary m w
    ok (finish m1 (host.wait m1.wrapped_mutex w1))

  -- `shim_pthread_mutex_timedlock_impl`, and the same of cond_timedwait.
  unfoldable pub mutex_timedlock : Mutex → W → Outcome (ℕ × Mutex × W)
  mutex_timedlock m w = do
    (m1, w1) ← init_mutex_if_necessary m w
    let (err, m2, w2) = finish m1 (host.wait m1.wrapped_mutex w1)
    ok (native_to_linux_errno e err, m2, w2)

  unfoldable pub mutex_unlock : Mutex → W → Outcome (ℕ × Mutex × W)
  mutex_unlock m w = do
    assert (not (m.wrapped_mutex == 0))
    ok (finish m (host.unlock m.wrapped_mutex w))

  -- The calls below are those above over other native calls: `host.wait` is trylock, or waits on a
  -- condition.
  unfoldable pub mutex_trylock : Mutex → W → Outcome (ℕ × Mutex × W)
  unfolding mutex_lock
  mutex_trylock m w = mutex_lock m w

  unfoldable pub cond_wait : Mutex → W → Outcome (ℕ × Mutex × W)
  unfolding mutex_lock
  cond_wait m w = mutex_lock m w

  unfoldable pub cond_timedwait : Mutex → W → Outcome (ℕ × Mutex × W)
  unfolding mutex_timedlock
  cond_timedwait m w = mutex_timedlock m w

  -- `host.unlock` is pthread_mutex_consistent, or pthread_mutex_destroy.
  unfoldable pub mutex_consistent : Mutex → W → Outcome (ℕ × Mutex × W)
  unfolding mutex_unlock
  mutex_consistent m w = mutex_unlock m w

  unfoldable pub mutex_destroy : Mutex → W → Outcome (ℕ × Mutex × W)
  unfolding mutex_unlock
  mutex_destroy m w = mutex_unlock m w
