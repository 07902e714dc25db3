-- ===== src/Sched.antt =====
-- src/libc/sched.c, src/libc/semaphore.c and src/libc/sys/sem.c: scheduling policies, whose numbers are
-- converted, and semaphores.
mod Tests
use libc6_shim.Prelude.{ℕ, List, [], ◌∷◌, Option, none, some, ◌==◌, if◌then◌else◌}
use libc6_shim.Outcome.{Outcome, ok, ◌>>=◌, or_abort}
use libc6_shim.Errno.{Errnos}
use libc6_shim.Flags.{Entry, ◌⇒◌}
use libc6_shim.Switch.{select}
use libc6_shim.Process.{Process, minus_one, report_error}
use libc6_shim.Pthread.{PthreadNumbers, linux_to_native_sched_policy, native_to_linux_sched_policy}

pub record SchedHost (W : Type 0) : Type 0 where
  pub sched_get_priority_max : ℕ → Process W → ℕ × Process W
  pub sched_get_priority_min : ℕ → Process W → ℕ × Process W
  pub sched_getscheduler : ℕ → Process W → ℕ × Process W
  pub sched_setscheduler : ℕ → ℕ → ℕ → Process W → ℕ × Process W
  pub posix_spawnattr_getschedpolicy : ℕ → Process W → ℕ × ℕ × Process W
  pub posix_spawnattr_setschedpolicy : ℕ → ℕ → Process W → ℕ × Process W

module _ {W : Type 0} (c : PthreadNumbers) (host : SchedHost W) where
  unfoldable pub shim_sched_get_priority_max : ℕ → Process W → Outcome (ℕ × Process W)
  shim_sched_get_priority_max linux_policy p =
      linux_to_native_sched_policy c linux_policy >>= λ policy.
      ok (host.sched_get_priority_max policy p)

  unfoldable pub shim_sched_get_priority_min : ℕ → Process W → Outcome (ℕ × Process W)
  shim_sched_get_priority_min linux_policy p =
      linux_to_native_sched_policy c linux_policy >>= λ policy.
      ok (host.sched_get_priority_min policy p)

  -- The result of a call that failed is converted too.
  unfoldable pub shim_sched_getscheduler : ℕ → Process W → Outcome (ℕ × Process W)
  shim_sched_getscheduler pid p =
      let (policy, q) = host.sched_getscheduler pid p in
      native_to_linux_sched_policy c policy >>= λ linux_policy. ok (linux_policy, q)

  unfoldable pub shim_sched_setscheduler : ℕ → ℕ → ℕ → Process W → Outcome (ℕ × Process W)
  shim_sched_setscheduler pid linux_policy param p =
      linux_to_native_sched_policy c linux_policy >>= λ policy.
      ok (host.sched_setscheduler pid policy param p)

  -- The result, `*linux_policy` if it is written, and the process.
  unfoldable pub shim_posix_spawnattr_getschedpolicy :
      ℕ → Process W → Outcome (ℕ × Option ℕ × Process W)
  shim_posix_spawnattr_getschedpolicy attr p =
      let (err, policy, q) = host.posix_spawnattr_getschedpolicy attr p in
      if err == 0
      then (native_to_linux_sched_policy c policy >>= λ linux_policy.
          ok (err, some linux_policy, q))
      else ok (err, none, q)

  unfoldable pub shim_posix_spawnattr_setschedpolicy : ℕ → ℕ → Process W → Outcome (ℕ × Process W)
  shim_posix_spawnattr_setschedpolicy attr linux_policy p =
      linux_to_native_sched_policy c linux_policy >>= λ policy.
      ok (host.posix_spawnattr_setschedpolicy attr policy p)

-- The calls that do nothing.
abbrev pub shim_sched_getaffinity : ℕ
shim_sched_getaffinity = minus_one

abbrev pub shim_sched_setaffinity : ℕ
shim_sched_setaffinity = 0

-- FreeBSD's commands of semctl.
pub record SemNumbers : Type 0 where
  pub ipc_rmid : ℕ
  pub getpid : ℕ
  pub getval : ℕ
  pub getncnt : ℕ
  pub getzcnt : ℕ
  pub setval : ℕ
  pub setall : ℕ

abbrev pub sem_cmd_cases : SemNumbers → List Entry
sem_cmd_cases c =
    (0 ⇒ c.ipc_rmid) ∷ (11 ⇒ c.getpid) ∷ (12 ⇒ c.getval) ∷ (14 ⇒ c.getncnt) ∷ (15 ⇒ c.getzcnt) ∷ []

unfoldable pub linux_to_native_sem_cmd : SemNumbers → ℕ → Outcome ℕ
linux_to_native_sem_cmd c cmd = or_abort (select (sem_cmd_cases c) cmd)

abbrev pub linux_setval : ℕ
linux_setval = 16

abbrev pub linux_setall : ℕ
linux_setall = 17

-- The argument of semctl is `none` where it is not passed.
pub record SemHost (W : Type 0) : Type 0 where
  pub semctl : ℕ → ℕ → ℕ → Option ℕ → Process W → ℕ × Process W
  pub semop : ℕ → ℕ → ℕ → Process W → ℕ × Process W
  pub sem_trywait : ℕ → Process W → ℕ × Process W
  pub sem_timedwait : ℕ → ℕ → Process W → ℕ × Process W
  pub sem_getvalue : ℕ → Process W → ℕ × ℕ × Process W

module _ {W : Type 0} (e : Errnos) (host : SemHost W) where
  unfoldable pub shim_semctl : SemNumbers → ℕ → ℕ → ℕ → ℕ → Process W → Outcome (ℕ × Process W)
  shim_semctl c semid semnum cmd arg p =
      if cmd == linux_setval
      then ok (host.semctl semid semnum c.setval (some arg) p)
      else if cmd == linux_setall
      then ok (host.semctl semid semnum c.setall (some arg) p)
      else (linux_to_native_sem_cmd c cmd >>= λ native. ok (host.semctl semid semnum native none p))

  unfoldable pub shim_semop : ℕ → ℕ → ℕ → Process W → ℕ × Process W
  shim_semop semid array nops p = report_error e minus_one (host.semop semid array nops p)

  unfoldable pub shim_sem_trywait : ℕ → Process W → ℕ × Process W
  shim_sem_trywait sem p = report_error e minus_one (host.sem_trywait sem p)

  unfoldable pub shim_sem_timedwait : ℕ → ℕ → Process W → ℕ × Process W
  shim_sem_timedwait sem abs_timeout p =
      report_error e minus_one (host.sem_timedwait sem abs_timeout p)

  unfoldable pub shim_sem_getvalue : ℕ → Process W → ℕ × ℕ × Process W
  shim_sem_getvalue sem p = host.sem_getvalue sem p
