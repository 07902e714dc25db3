-- ===== src/Pthread/Tests.antt =====
-- FreeBSD's numbers, a system with native mutexes, and the theorems at concrete inputs.
use libc6_shim.Prelude.{
  ℕ, suc, ap, sym, true, ◌==◌, ◌≡◌, ◌≢◌, ◌⊎◌, inr, refl, none, some, ◌+◌, if◌then◌else◌, arith,
}
use libc6_shim.Outcome.{ok, abort}
use libc6_shim.Errno.Tests.{freebsd_errnos}
use libc6_shim.Pthread.{PthreadNumbers}
use libc6_shim.Pthread.MutexAttr.{
  MutexAttr, default_mutexattr, mutexattr_init, mutexattr_settype, mutexattr_setprotocol,
}
use libc6_shim.Pthread.MutexAttrLaws.{Setting, Built, Converts, built_attr-Converts}
use libc6_shim.Pthread.MutexInit.{Mutex, MutexHost, mutex_lock, linux_to_native_mutexattr}
use libc6_shim.Pthread.MutexInitLaws.{IsMutexHost, KeepsMutex, Initialized, Released, mutex_life}
use libc6_shim.Pthread.Attr.{
  condattr_getclock, condattr_setclock, condattr_getpshared, condattr_setpshared, cond_init_attr,
}
use libc6_shim.Pthread.AttrLaws.{condattr_keeps_both}
use libc6_shim.Pthread.Sched.{AttrHost}
use libc6_shim.Pthread.SchedLaws.{IsPthreadNumbers, IsAttrHost}
use libc6_shim.Memory.{Memory, malloc}
use libc6_shim.Pthread.Threads.{
  WrapperArgs, ThreadNumbers, ThreadHost, thread_create, start_routine_wrapper, thread_join,
}
use libc6_shim.Pthread.ThreadLaws.{thread_runs}

abbrev freebsd : PthreadNumbers
freebsd = record {
  mutex_normal = 3;
  mutex_recursive = 2;
  mutex_errorcheck = 1;
  mutex_adaptive_np = 4;
  prio_none = 0;
  prio_inherit = 1;
  prio_protect = 2;
  process_private = 0;
  process_shared = 1;
  mutex_stalled = 0;
  mutex_robust = 1;
  inherit_sched = 4;
  explicit_sched = 0;
  scope_system = 2;
  scope_process = 0;
  sched_other = 2;
  sched_fifo = 1;
  sched_rr = 3;
  clock_monotonic = 4;
  einval = 22;
}

-- A mutex attribute of kind PTHREAD_MUTEX_RECURSIVE.
abbrev recursive_attr : MutexAttr
recursive_attr = record default_mutexattr { linux_kind = 1 }

recursive_attr-Built : Built recursive_attr
unfolding mutexattr_init mutexattr_settype
recursive_attr-Built = Built.after (Setting.type 1) (Built.fresh default_mutexattr) refl

built_attr-Converts_example :
    ((recursive_attr.linux_prioceiling ≡ 0) × Converts freebsd recursive_attr)
    ⊎ ((recursive_attr.linux_prioceiling ≢ 0)
        × (linux_to_native_mutexattr freebsd recursive_attr ≡ abort))
built_attr-Converts_example = built_attr-Converts freebsd recursive_attr recursive_attr-Built

-- PTHREAD_PRIO_PROTECT does not fit the one bit of the protocol.
setprotocol-protect : mutexattr_setprotocol recursive_attr 2 ≡ abort
unfolding mutexattr_setprotocol
setprotocol-protect = refl

-- CLOCK_MONOTONIC and PTHREAD_PROCESS_SHARED, in an object of zeros.
condattr_keeps_both_example :
    (a : ℕ) × (b : ℕ) × (condattr_setclock freebsd 0 1 ≡ (0, a))
    × (condattr_setpshared a 1 ≡ ok b)
    × (condattr_getclock b ≡ 1)
    × (condattr_getpshared b ≡ 1)
    × (cond_init_attr (some b) ≡ record { given = true; shared = 1 == 1; monotonic = 1 == 1 })
condattr_keeps_both_example = condattr_keeps_both freebsd 0 1 1 (inr refl) (inr refl)

-- A system whose state counts the calls, and whose mutexes are allocated at address 8.
abbrev counting : MutexHost ℕ
counting = record {
  mutex_init = λ p attr w. record { err = 0; wrapped = 8; world = suc w };
  wait = λ p w. record { err = 0; wrapped = if p == 0 then 8 else p; world = suc w };
  unlock = λ p w. record { err = 0; wrapped = p; world = suc w };
  lock_initialization = λ w. (0, suc w);
  unlock_initialization = λ w. (0, suc w);
}

counting-IsMutexHost : IsMutexHost counting
counting-IsMutexHost = record {
  locks = λ w. refl;
  unlocks = λ w. refl;
  allocates = λ p w e. ground arith;
}

-- A recursive mutex of a static initializer.
abbrev static_mutex : Mutex
static_mutex = record { wrapped_mutex = 0; linux_kind = 1 }

counting-KeepsMutex : KeepsMutex counting
counting-KeepsMutex p w h = h

mutex_life_example :
    (p : ℕ) × (v : ℕ) × Initialized freebsd counting static_mutex 0 p v
    × (mutex_lock freebsd_errnos freebsd counting static_mutex 0
        ≡ ok (
          (counting.wait p v).err,
          record static_mutex { wrapped_mutex = (counting.wait p v).wrapped },
          (counting.wait p v).world,
        ))
    × (((counting.wait p v).err ≢ 0)
        ⊎ Released freebsd_errnos freebsd counting counting-IsMutexHost counting
            (record static_mutex { wrapped_mutex = (counting.wait p v).wrapped })
            (counting.wait p v).world)
mutex_life_example =
    mutex_life freebsd_errnos freebsd counting counting-IsMutexHost counting static_mutex 0
      counting-KeepsMutex (omega arith)

-- The native object is its scope, and its other fields are not kept.
abbrev keeping : AttrHost ℕ
keeping = record {
  getinheritsched = λ a. (1, 0);
  setinheritsched = λ a v. (1, a);
  getschedpolicy = λ a. (1, 0);
  setschedpolicy = λ a v. (1, a);
  getscope = λ a. (0, a);
  setscope = λ a v. (0, v);
}

keeping-IsAttrHost : IsAttrHost keeping
keeping-IsAttrHost = record {
  inheritsched_kept = λ a b v e. cc;
  policy_kept = λ a b v e. cc;
  scope_kept = λ a b v e. ap (λ p. (0, p.1)) (sym e);
}

freebsd-IsPthreadNumbers : IsPthreadNumbers freebsd
freebsd-IsPthreadNumbers = omega arith

abbrev freebsd_threads : ThreadNumbers
freebsd_threads = record {
  canceled = 1;
  eperm = 1;
  sig_block = 1;
  sig_unblock = 2;
  sig_setmask = 3;
  pointer_bits = 32;
}

-- Thread 9, whose function doubles its argument.
abbrev threads : ThreadHost ℕ
threads = record {
  pthread_create = λ attr wargs w. (0, 9, w);
  call = λ f arg m w. (arg + arg, m, w);
  pthread_join = λ thread w. (0, 42, w);
  pthread_timedjoin = λ thread t w. (0, 42, w);
  pthread_set_name = λ thread name w. w;
  pthread_kill = λ thread sig w. (0, w);
  pthread_sigmask = λ how set w. (0, 0, w);
  pthread_getschedparam = λ thread w. (0, 0);
  pthread_setschedparam = λ thread policy param w. (0, w);
  pthread_getcpuclockid = λ thread w. (0, 0);
  rwlock_timedrdlock = λ l t w. (0, w);
  rwlock_timedwrlock = λ l t w. (0, w);
}

abbrev no_args : Memory WrapperArgs
no_args = record { last = 3; cells = λ a. none }

abbrev created : Memory WrapperArgs
created = (malloc (record { start_routine = 100; arg = 21 }) no_args).1

thread_runs_example :
    (m3 : Memory WrapperArgs) × ((thread_create freebsd_errnos freebsd freebsd_threads threads 0 100
        21 no_args 5).thread
      ≡ 9)
    × (start_routine_wrapper freebsd_errnos freebsd freebsd_threads threads 4 created 5
        ≡ ok (record { ret = 42; memory = m3; world = 5 }))
    × (m3.cells 4 ≡ none)
    × ((a : ℕ) → a ≢ 4 → m3.cells a ≡ created.cells a)
    × (thread_join freebsd_errnos freebsd freebsd_threads threads 9 (some 0) 5 ≡ (0, some 42, 5))
unfolding thread_create
thread_runs_example =
    thread_runs freebsd_errnos freebsd freebsd_threads threads 0 100 21 9 42 0 no_args created
      created 5 5 5 5 5 refl refl refl refl refl
