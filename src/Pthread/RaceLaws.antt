-- ===== src/Pthread/RaceLaws.antt =====
-- What holds in every interleaving of the threads in `init_mutex_if_necessary`.
use libc6_shim.Prelude.{
  sym, ◌∙◌, ℕ, ◌≤◌, ◌≡◌, ◌≢◌, inl, inr, ==-cases, refl, subst, some, Bool, true, false, arith,
}
use libc6_shim.Pthread.Race.{
  Pc, at_test, at_lock, at_second_test, at_init, at_unlock, returned, Shared, advance, State, goto,
  Step, move, Reach, start, later, Steps, done, one_more,
}
use libc6_shim.Pthread.RaceStep.{Knows, IsSound, Knows-fair, IsGood, After, advance-After}

step-IsGood :
    {s : State} {m : Shared} {p : Pc} (i h : ℕ)
    → IsSound s
    → advance i h (s.pc i) s.shared ≡ some (m, p)
    → IsGood i s.shared m p
step-IsGood {s} i h v e =
    subst (After i s.shared) e (advance-After i h (s.pc i) s.shared v.once (v.knows i))

goto-Knows :
    (m : Shared) (pc : ℕ → Pc) (i : ℕ) (p : Pc) (j : ℕ)
    → Knows m i p
    → (i ≢ j → Knows m j (pc j))
    → Knows m j (goto pc i p j)
goto-Knows m pc i p j own other = elim (==-cases j i) [
  | inl e ↦ rw e.1 (rw e.0 own)
  | inr e ↦ rw e.1 (other (λ x. e.0 (sym x)))
]

pub Step-IsSound : {s t : State} → IsSound s → Step s t → IsSound t
Step-IsSound {s} v (move i h {m} {p} e) = record {
  once = good.once;
  knows =
      λ j. goto-Knows m s.pc i p j good.own (λ ne. Knows-fair j (s.pc j) good.fair ne (v.knows j));
}
  where
    good : IsGood i s.shared m p
    good = step-IsGood i h v e

pub Reach-IsSound : {s : State} → Reach s → IsSound s
Reach-IsSound start = record { once = (omega arith, λ z. refl); knows = λ i. tt }
Reach-IsSound (later r x) = Step-IsSound (Reach-IsSound r) x

-- The threads that hold the initialization mutex.
abbrev pub is_critical : Pc → Bool
is_critical at_second_test = true
is_critical at_init = true
is_critical at_unlock = true
is_critical _ = false

critical-holder :
    (m : Shared) (i : ℕ) (p : Pc) → Knows m i p → is_critical p ≡ true → m.holder ≡ some i
critical-holder m i at_test k h = cc
critical-holder m i at_lock k h = cc
critical-holder m i at_second_test k h = k
critical-holder m i at_init k h = k.0
critical-holder m i at_unlock k h = k.0
critical-holder m i returned k h = cc

-- In a reachable state no two threads are between the lock and the unlock of the initialization.
pub mutual_exclusion :
    (s : State) (i j : ℕ)
    → Reach s
    → is_critical (s.pc i) ≡ true
    → is_critical (s.pc j) ≡ true
    → i ≡ j
mutual_exclusion s i j r a b =
    let v = Reach-IsSound r in
    cc (
      critical-holder s.shared i (s.pc i) (v.knows i) a,
      critical-holder s.shared j (s.pc j) (v.knows j) b,
    )

-- In every reachable state the native mutex has been initialized at most once, and each thread may
-- rely on what its place in the code says: from the lock to the unlock it holds the lock, where it is
-- about to initialize the pointer is NULL, and at the unlock and once it has returned the native
-- mutex is initialized, unless an initialization failed.
pub initialized_once :
    (s : State) (i : ℕ) → Reach s → (s.shared.inits ≤ 1) × Knows s.shared i (s.pc i)
initialized_once s i r = let v = Reach-IsSound r in (v.once.0, v.knows i)

Step-stays :
    {s t : State}
    → IsSound s
    → Step s t
    → s.shared.wrapped_mutex ≢ 0
    → t.shared.wrapped_mutex ≡ s.shared.wrapped_mutex
Step-stays v (move i h e) ne = (step-IsGood i h v e).stays ne

Steps-IsSound : {s t : State} → IsSound s → Steps s t → IsSound t
Steps-IsSound v done = v
Steps-IsSound v (one_more x y) = Step-IsSound (Steps-IsSound v x) y

Steps-stay :
    {s t : State}
    → IsSound s
    → Steps s t
    → s.shared.wrapped_mutex ≢ 0
    → t.shared.wrapped_mutex ≡ s.shared.wrapped_mutex
Steps-stay v done ne = refl
Steps-stay v (one_more x y) ne =
    Step-stays (Steps-IsSound v x) y (λ z. ne (sym (Steps-stay v x ne) ∙ z)) ∙ Steps-stay v x ne

-- Once the pointer of a reachable state is not NULL, no later step of any thread changes it.
pub handle_is_stable :
    (s t : State)
    → Reach s
    → Steps s t
    → s.shared.wrapped_mutex ≢ 0
    → t.shared.wrapped_mutex ≡ s.shared.wrapped_mutex
handle_is_stable s t r x ne = Steps-stay (Reach-IsSound r) x ne
