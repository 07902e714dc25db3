-- ===== src/Pthread/Sched.antt =====
-- The calls of pthread.c that convert one number of a native object: inheritsched, scope and
-- scheduling policy, with a native object of type `A`.
use libc6_shim.Prelude.{ℕ, ◌==◌, if◌then◌else◌}
use libc6_shim.Outcome.{Outcome, ok, ◌>>=◌}
use libc6_shim.Pthread.{
  PthreadNumbers, linux_to_native_inheritsched, native_to_linux_inheritsched, linux_to_native_scope,
  native_to_linux_scope, linux_to_native_sched_policy, native_to_linux_sched_policy,
}

-- A getter gives its error and what it wrote, a setter its error and the object.
pub record AttrHost (A : Type 0) : Type 0 where
  pub getinheritsched : A → ℕ × ℕ
  pub setinheritsched : A → ℕ → ℕ × A
  pub getschedpolicy : A → ℕ × ℕ
  pub setschedpolicy : A → ℕ → ℕ × A
  pub getscope : A → ℕ × ℕ
  pub setscope : A → ℕ → ℕ × A

-- `if (err == 0) { *dest = convert(value); } return err;`, where `*dest` is `old` before.
unfoldable pub write_converted : (ℕ → Outcome ℕ) → ℕ × ℕ → ℕ → Outcome (ℕ × ℕ)
write_converted convert (err, value) old =
    if err == 0 then (do out ← convert value; ok (err, out)) else ok (err, old)

module _ {A : Type 0} (c : PthreadNumbers) (host : AttrHost A) where
  unfoldable pub attr_getinheritsched : A → ℕ → Outcome (ℕ × ℕ)
  attr_getinheritsched attr old =
      write_converted (native_to_linux_inheritsched c) (host.getinheritsched attr) old

  unfoldable pub attr_setinheritsched : A → ℕ → Outcome (ℕ × A)
  attr_setinheritsched attr linux_inheritsched = do
    inheritsched ← linux_to_native_inheritsched c linux_inheritsched
    ok (host.setinheritsched attr inheritsched)

  unfoldable pub attr_getschedpolicy : A → ℕ → Outcome (ℕ × ℕ)
  attr_getschedpolicy attr old =
      write_converted (native_to_linux_sched_policy c) (host.getschedpolicy attr) old

  unfoldable pub attr_setschedpolicy : A → ℕ → Outcome (ℕ × A)
  attr_setschedpolicy attr linux_policy = do
    policy ← linux_to_native_sched_policy c linux_policy
    ok (host.setschedpolicy attr policy)

  unfoldable pub attr_getscope : A → ℕ → Outcome (ℕ × ℕ)
  attr_getscope attr old = write_converted (native_to_linux_scope c) (host.getscope attr) old

  unfoldable pub attr_setscope : A → ℕ → Outcome (ℕ × A)
  attr_setscope attr linux_scope = do
    scope ← linux_to_native_scope c linux_scope
    ok (host.setscope attr scope)
