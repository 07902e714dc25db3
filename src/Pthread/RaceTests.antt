-- ===== src/Pthread/RaceTests.antt =====
-- Interleavings of threads in `init_mutex_if_necessary`.
use libc6_shim.Prelude.{◌+◌, ◌≤◌, ◌≡◌, refl, some, arith}
use libc6_shim.Pthread.Race.{
  Pc, advance, record_init, State, move, initial, goto, Reach, start, later, done, one_more,
}
use libc6_shim.Pthread.RaceStep.{Knows}
use libc6_shim.Pthread.RaceLaws.{initialized_once, handle_is_stable}
use libc6_shim.Pthread.RaceLiveness.{CanReturn, every_thread-CanReturn}

-- Thread 0 has found the pointer NULL and holds the initialization mutex; it initializes the
-- native mutex at address 8.
abbrev contended : State
contended = record {
  shared = record { wrapped_mutex = 8; holder = some 0; inits = 1; failures = 0 };
  pc =
      goto (goto (goto (goto initial.pc 0 Pc.at_lock) 0 Pc.at_second_test) 0 Pc.at_init) 0
        Pc.at_unlock;
}

contended-Reach : Reach contended
unfolding advance record_init
contended-Reach =
    later (later (later (later start (move 0 0 refl)) (move 0 0 refl)) (move 0 0 refl))
      (move 0 8 refl)

-- Then thread 1 passes the first test.
abbrev passed : State
passed = record contended { pc = goto contended.pc 1 Pc.returned }

passed-Reach : Reach passed
unfolding advance
passed-Reach = later contended-Reach (move 1 0 refl)

initialized_once_example : (passed.shared.inits ≤ 1) × Knows passed.shared 1 Pc.returned
initialized_once_example = initialized_once passed 1 passed-Reach

handle_is_stable_example : passed.shared.wrapped_mutex ≡ contended.shared.wrapped_mutex
unfolding advance
handle_is_stable_example =
    handle_is_stable contended passed contended-Reach (one_more done (move 1 0 refl)) (omega arith)

-- Two threads have found the pointer NULL, and the first has the lock: the second waits.
abbrev waiting : State
waiting = record {
  shared = record { wrapped_mutex = 0; holder = some 0; inits = 0; failures = 0 };
  pc = goto (goto (goto initial.pc 0 Pc.at_lock) 1 Pc.at_lock) 0 Pc.at_second_test;
}

waiting-Reach : Reach waiting
unfolding advance
waiting-Reach = later (later (later start (move 0 0 refl)) (move 1 0 refl)) (move 0 0 refl)

-- The one that waits returns too, where `pthread_mutex_init` gives thread i the pointer i + 8.
every_thread-CanReturn_example : CanReturn (λ i. i + 8) 1 waiting
every_thread-CanReturn_example = every_thread-CanReturn (λ i. i + 8) waiting 1 waiting-Reach
