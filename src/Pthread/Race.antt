-- ===== src/Pthread/Race.antt =====
-- Any number of threads in `init_mutex_if_necessary` on one mutex whose kind is not NORMAL, step by
-- step. A read or write of the pointer is one step, as it is on the machines that the shim runs on.
use libc6_shim.Prelude.{ℕ, ◌==◌, if◌then◌else◌, Option, none, some, suc, ◌≡◌}

-- Where a thread stands.
pub data Pc : Type 0 where
  at_test : Pc
  at_lock : Pc
  at_second_test : Pc
  at_init : Pc
  at_unlock : Pc
  returned : Pc

-- The pointer, the thread that holds `mutex_initialization_mutex`, and how many times
-- `pthread_mutex_init` succeeded or failed.
pub record Shared : Type 0 where
  pub wrapped_mutex : ℕ
  pub holder : Option ℕ
  pub inits : ℕ
  pub failures : ℕ

-- `pthread_mutex_init` with the pointer `h`, or with an error, when `h` is 0.
unfoldable pub record_init : ℕ → Shared → Shared
record_init h m =
    if h == 0
    then record m { failures = suc m.failures }
    else record m { wrapped_mutex = h; inits = suc m.inits }

-- One step of thread `i`; a thread that waits for the lock, or has returned, has none.
unfoldable pub advance : ℕ → ℕ → Pc → Shared → Option (Shared × Pc)
advance i h at_test m = some (m, if m.wrapped_mutex == 0 then at_lock else returned)
advance i h at_lock m = elim m.holder [
  | none ↦ some (record m { holder = some i }, at_second_test)
  | some j ↦ none
]
advance i h at_second_test m = some (m, if m.wrapped_mutex == 0 then at_init else at_unlock)
advance i h at_init m = some (record_init h m, at_unlock)
advance i h at_unlock m = some (record m { holder = none }, returned)
advance i h returned m = none

pub record State : Type 0 where
  pub shared : Shared
  pub pc : ℕ → Pc

abbrev pub goto : (ℕ → Pc) → ℕ → Pc → ℕ → Pc
goto pc i p j = if j == i then p else pc j

pub data Step (s : State) : State → Type 0 where
  move :
      (i h : ℕ) {m : Shared} {p : Pc}
      → advance i h (s.pc i) s.shared ≡ some (m, p)
      → Step s (record { shared = m; pc = goto s.pc i p })

-- No thread in the call has begun, the pointer is NULL and the lock free.
abbrev pub initial : State
initial = record {
  shared = record { wrapped_mutex = 0; holder = none; inits = 0; failures = 0 };
  pc = λ i. at_test;
}

pub data Reach : State → Type 0 where
  start : Reach initial
  later : {s t : State} → Reach s → Step s t → Reach t

-- The steps after `s`.
pub data Steps (s : State) : State → Type 0 where
  done : Steps s s
  one_more : {t u : State} → Steps s t → Step t u → Steps s u
