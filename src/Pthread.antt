-- ===== src/Pthread.antt =====
-- src/libthr/pthread.c and pthread.h: attribute objects of the shim's own layout, and the mutexes
-- that wrap native ones. An `int` argument is its bit pattern, so a negative one is at least 2 ^ 31.
pub mod MutexAttr
pub mod Attr
pub mod MutexInit
pub mod Sched
pub mod Threads
pub mod SchedLaws
pub mod Race
pub mod MutexAttrLaws
pub mod AttrLaws
pub mod MutexInitLaws
pub mod RaceStep
pub mod RaceLaws
pub mod RaceProgress
pub mod RaceLiveness
pub mod ThreadLaws
mod RaceTests
mod Tests
use libc6_shim.Prelude.{ℕ, List, [], ◌∷◌, ◌==◌, if◌then◌else◌}
use libc6_shim.Outcome.{Outcome, ok, abort, or_abort}
use libc6_shim.Flags.{Entry, ◌⇒◌, swap}
use libc6_shim.Switch.{select}

-- The constants of FreeBSD's <pthread.h>, <sched.h> and <time.h> that the shim converts to.
pub record PthreadNumbers : Type 0 where
  pub mutex_normal : ℕ
  pub mutex_recursive : ℕ
  pub mutex_errorcheck : ℕ
  pub mutex_adaptive_np : ℕ
  pub prio_none : ℕ
  pub prio_inherit : ℕ
  pub prio_protect : ℕ
  pub process_private : ℕ
  pub process_shared : ℕ
  pub mutex_stalled : ℕ
  pub mutex_robust : ℕ
  pub inherit_sched : ℕ
  pub explicit_sched : ℕ
  pub scope_system : ℕ
  pub scope_process : ℕ
  pub sched_other : ℕ
  pub sched_fifo : ℕ
  pub sched_rr : ℕ
  pub clock_monotonic : ℕ
  pub einval : ℕ

unfoldable pub linux_to_native_mutex_kind : PthreadNumbers → ℕ → Outcome ℕ
linux_to_native_mutex_kind c linux_kind = or_abort (
    select
      ((0 ⇒ c.mutex_normal)
        ∷ (1 ⇒ c.mutex_recursive)
        ∷ (2 ⇒ c.mutex_errorcheck)
        ∷ (3 ⇒ c.mutex_adaptive_np)
        ∷ [])
      linux_kind)

unfoldable pub linux_to_native_protocol : PthreadNumbers → ℕ → Outcome ℕ
linux_to_native_protocol c linux_protocol =
    or_abort
      (select ((0 ⇒ c.prio_none) ∷ (1 ⇒ c.prio_inherit) ∷ (2 ⇒ c.prio_protect) ∷ []) linux_protocol)

unfoldable pub linux_to_native_pshared : PthreadNumbers → ℕ → Outcome ℕ
linux_to_native_pshared c linux_pshared =
    or_abort (select ((0 ⇒ c.process_private) ∷ (1 ⇒ c.process_shared) ∷ []) linux_pshared)

unfoldable pub linux_to_native_robust : PthreadNumbers → ℕ → Outcome ℕ
linux_to_native_robust c linux_robust =
    or_abort (select ((0 ⇒ c.mutex_stalled) ∷ (1 ⇒ c.mutex_robust) ∷ []) linux_robust)

-- The two `switch`es of `shim_pthread_attr_getinheritsched_impl` and its setter.
abbrev pub inheritsched_cases : PthreadNumbers → List Entry
inheritsched_cases c = (0 ⇒ c.inherit_sched) ∷ (1 ⇒ c.explicit_sched) ∷ []

unfoldable pub linux_to_native_inheritsched : PthreadNumbers → ℕ → Outcome ℕ
linux_to_native_inheritsched c v = or_abort (select (inheritsched_cases c) v)

unfoldable pub native_to_linux_inheritsched : PthreadNumbers → ℕ → Outcome ℕ
native_to_linux_inheritsched c v = or_abort (select (swap (inheritsched_cases c)) v)

abbrev pub scope_cases : PthreadNumbers → List Entry
scope_cases c = (0 ⇒ c.scope_system) ∷ (1 ⇒ c.scope_process) ∷ []

unfoldable pub linux_to_native_scope : PthreadNumbers → ℕ → Outcome ℕ
linux_to_native_scope c v = or_abort (select (scope_cases c) v)

unfoldable pub native_to_linux_scope : PthreadNumbers → ℕ → Outcome ℕ
native_to_linux_scope c v = or_abort (select (swap (scope_cases c)) v)

-- The policies of src/libc/sched.c.
abbrev pub sched_cases : PthreadNumbers → List Entry
sched_cases c = (0 ⇒ c.sched_other) ∷ (1 ⇒ c.sched_fifo) ∷ (2 ⇒ c.sched_rr) ∷ []

unfoldable pub linux_to_native_sched_policy : PthreadNumbers → ℕ → Outcome ℕ
linux_to_native_sched_policy c v = or_abort (select (sched_cases c) v)

unfoldable pub native_to_linux_sched_policy : PthreadNumbers → ℕ → Outcome ℕ
native_to_linux_sched_policy c v = or_abort (select (swap (sched_cases c)) v)
