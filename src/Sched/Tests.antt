-- ===== src/Sched/Tests.antt =====
-- Policies on a system where only process 1 is there.
use libc6_shim.Prelude.{ℕ, ◌≡◌, refl, ◌==◌, if◌then◌else◌}
use libc6_shim.Outcome.{ok, abort}
use libc6_shim.Switch.{select}
use libc6_shim.Process.{Process, minus_one}
use libc6_shim.Pthread.{PthreadNumbers, linux_to_native_sched_policy, native_to_linux_sched_policy}
use libc6_shim.Sched.{SchedHost, shim_sched_getscheduler, shim_sched_get_priority_max}

abbrev freebsd : PthreadNumbers
freebsd = record {
  mutex_normal = 3;
  mutex_recursive = 2;
  mutex_errorcheck = 1;
  mutex_adaptive_np = 4;
  prio_none = 0;
  prio_inherit = 1;
  prio_protect = 2;
  process_private = 0;
  process_shared = 1;
  mutex_stalled = 0;
  mutex_robust = 1;
  inherit_sched = 4;
  explicit_sched = 0;
  scope_system = 2;
  scope_process = 0;
  sched_other = 2;
  sched_fifo = 1;
  sched_rr = 3;
  clock_monotonic = 4;
  einval = 22;
}

abbrev scheduler : SchedHost ℕ
scheduler = record {
  sched_get_priority_max = λ policy p. (103, p);
  sched_get_priority_min = λ policy p. (0, p);
  sched_getscheduler = λ pid p. (if pid == 1 then 3 else minus_one, p);
  sched_setscheduler = λ pid policy param p. (0, p);
  posix_spawnattr_getschedpolicy = λ attr p. (0, 2, p);
  posix_spawnattr_setschedpolicy = λ attr policy p. (0, p);
}

abbrev started : Process ℕ
started = record { errno = 0; world = 0 }

getscheduler_round_robin : shim_sched_getscheduler freebsd scheduler 1 started ≡ ok (2, started)
unfolding shim_sched_getscheduler native_to_linux_sched_policy select
getscheduler_round_robin = refl

-- A process that is not there ends the program that asks for it.
getscheduler_missing : shim_sched_getscheduler freebsd scheduler 5 started ≡ abort
unfolding shim_sched_getscheduler native_to_linux_sched_policy select
getscheduler_missing = refl

-- SCHED_BATCH
priority_batch : shim_sched_get_priority_max freebsd scheduler 3 started ≡ abort
unfolding shim_sched_get_priority_max linux_to_native_sched_policy select
priority_batch = refl
