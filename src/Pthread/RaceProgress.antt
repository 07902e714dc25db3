-- ===== src/Pthread/RaceProgress.antt =====
-- That no thread waits for ever in `init_mutex_if_necessary`: whoever holds the lock can leave.
use libc6_shim.Prelude.{
  ℕ, suc, ◌+◌, ◌≤◌, ◌≡◌, ◌≢◌, inl, inr, ==-cases, ne→==, eq→==, refl, sym, ◌∙◌, none, some, arith,
}
use libc6_shim.Pthread.Race.{
  Pc, at_test, at_lock, at_second_test, at_init, at_unlock, returned, Shared, record_init, advance,
  State, goto,
}

-- `n` steps, where `pthread_mutex_init` gives thread `i` the pointer `answers i`.
pub data Run (answers : ℕ → ℕ) : State → ℕ → State → Type 0 where
  stop : (s : State) → Run answers s 0 s
  ahead :
      {s t : State} {n : ℕ} (i : ℕ) (m : Shared) (p : Pc)
      → advance i (answers i) (s.pc i) s.shared ≡ some (m, p)
      → Run answers (record { shared = m; pc = goto s.pc i p }) n t
      → Run answers s (suc n) t

module _ {answers : ℕ → ℕ} where
  pub Run-append :
      {s t u : State} {a b : ℕ}
      → Run answers s a t
      → Run answers t b u
      → (n : ℕ) × (n ≡ a + b) × Run answers s n u
  Run-append {b = b} (stop s) y = (b, omega arith, y)
  Run-append (ahead i m p e x) y =
      let (n, k, r) = Run-append x y in (suc n, omega (arith, k), ahead i m p e r)

-- Thread `i` returns within `bound` steps of its own, which leave the lock free and the other
-- threads where they were.
pub record Finishes (answers : ℕ → ℕ) (bound i : ℕ) (s : State) : Type 0 where
  pub steps : ℕ
  pub last : State
  pub in_bound : steps ≤ bound
  pub run : Run answers s steps last
  pub is_done : last.pc i ≡ returned
  pub free : last.shared.holder ≡ none
  pub others : (j : ℕ) → i ≢ j → last.pc j ≡ s.pc j

goto_self : (pc : ℕ → Pc) (i : ℕ) (p : Pc) → goto pc i p i ≡ p
goto_self pc i p = rw (eq→== i i refl)

pub goto_other : (pc : ℕ → Pc) (i : ℕ) (p : Pc) (j : ℕ) → i ≢ j → goto pc i p j ≡ pc j
goto_other pc i p j ne = rw (ne→== j i (λ e. ne (sym e)))

module _ {answers : ℕ → ℕ} where
  -- One step, and the rest.
  pub Finishes-step :
      {bound : ℕ} (i : ℕ) (s : State) (m : Shared) (p : Pc)
      → advance i (answers i) (s.pc i) s.shared ≡ some (m, p)
      → Finishes answers bound i (record { shared = m; pc = goto s.pc i p })
      → Finishes answers (suc bound) i s
  Finishes-step i s m p e f = record {
    steps = suc f.steps;
    last = f.last;
    in_bound = omega (arith, f.in_bound);
    run = ahead i m p e f.run;
    is_done = f.is_done;
    free = f.free;
    others = λ j ne. f.others j ne ∙ goto_other s.pc i p j ne;
  }

  pub Finishes-returned :
      (i : ℕ) (s : State) → s.pc i ≡ returned → s.shared.holder ≡ none → Finishes answers 0 i s
  Finishes-returned i s e free = record {
    steps = 0;
    last = s;
    in_bound = omega arith;
    run = stop s;
    is_done = e;
    free = free;
    others = λ j ne. refl;
  }

  pub Finishes-weaken :
      {a b : ℕ} (i : ℕ) (s : State) → a ≤ b → Finishes answers a i s → Finishes answers b i s
  Finishes-weaken i s h f = record {
    steps = f.steps;
    last = f.last;
    in_bound = omega (arith, f.in_bound);
    run = f.run;
    is_done = f.is_done;
    free = f.free;
    others = f.others;
  }

  pub from_unlock : (i : ℕ) (s : State) → s.pc i ≡ at_unlock → Finishes answers 1 i s
  unfolding advance
  from_unlock i s e =
      Finishes-step i s (record s.shared { holder = none }) returned (rw e refl)
        (Finishes-returned i _ (goto_self s.pc i returned) refl)

  pub from_init : (i : ℕ) (s : State) → s.pc i ≡ at_init → Finishes answers 2 i s
  unfolding advance
  from_init i s e =
      Finishes-step i s (record_init (answers i) s.shared) at_unlock (rw e refl)
        (from_unlock i _ (goto_self s.pc i at_unlock))

  pub from_second_test : (i : ℕ) (s : State) → s.pc i ≡ at_second_test → Finishes answers 3 i s
  unfolding advance
  from_second_test i s e = elim (==-cases s.shared.wrapped_mutex 0) [
    | inl z ↦
        Finishes-step i s s.shared at_init (rw e (rw z.1 refl))
          (from_init i _ (goto_self s.pc i at_init))
    | inr z ↦
        Finishes-step i s s.shared at_unlock (rw e (rw z.1 refl))
          (Finishes-weaken i _ (omega arith) (from_unlock i _ (goto_self s.pc i at_unlock)))
  ]

  pub from_lock :
      (i : ℕ) (s : State) → s.pc i ≡ at_lock → s.shared.holder ≡ none → Finishes answers 4 i s
  unfolding advance
  from_lock i s e free =
      Finishes-step i s (record s.shared { holder = some i }) at_second_test (rw e (rw free refl))
        (from_second_test i _ (goto_self s.pc i at_second_test))

  pub from_test :
      (i : ℕ) (s : State) → s.pc i ≡ at_test → s.shared.holder ≡ none → Finishes answers 5 i s
  unfolding advance
  from_test i s e free = elim (==-cases s.shared.wrapped_mutex 0) [
    | inl z ↦
        Finishes-step i s s.shared at_lock (rw e (rw z.1 refl))
          (from_lock i _ (goto_self s.pc i at_lock) free)
    | inr z ↦
        Finishes-step i s s.shared returned (rw e (rw z.1 refl)) (
          Finishes-weaken i _ (omega arith)
            (Finishes-returned i _ (goto_self s.pc i returned) free))
  ]
