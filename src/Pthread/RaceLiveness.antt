-- ===== src/Pthread/RaceLiveness.antt =====
-- That every thread in `init_mutex_if_necessary` can return, from wherever the others stand.
use libc6_shim.Prelude.{
  ℕ, ◌≤◌, ◌≡◌, ◌≢◌, inl, inr, ==-cases, refl, sym, ◌∙◌, subst, true, false, Bool-cases, Option,
  none, some, Option-cases, arith,
}
use libc6_shim.Pthread.Race.{
  Pc, at_test, at_lock, at_second_test, at_init, at_unlock, returned, Shared, record_init, advance,
  State, Step, move, Reach, start, later,
}
use libc6_shim.Pthread.RaceLaws.{is_critical}
use libc6_shim.Pthread.RaceProgress.{
  Run, Run-append, Finishes, from_test, from_lock, from_second_test, from_init, from_unlock,
  Finishes-returned, Finishes-weaken,
}

-- Whoever holds the lock is between the lock and the unlock.
abbrev HolderInside : State → Type 0
HolderInside s = (j : ℕ) → s.shared.holder ≡ some j → is_critical (s.pc j) ≡ true

-- How a step of thread `i` from `p` to `q` may change the holder.
abbrev Inside : ℕ → Shared → Pc → Option (Shared × Pc) → Type 0
Inside i m p none = Unit {0}
Inside i m p (some (n, q)) =
    ((m.holder ≡ some i → is_critical p ≡ true) → n.holder ≡ some i → is_critical q ≡ true)
    × ((j : ℕ) → i ≢ j → n.holder ≡ some j → m.holder ≡ some j)

record_init-holder : (h : ℕ) (m : Shared) → (record_init h m).holder ≡ m.holder
unfolding record_init
record_init-holder h m = elim (==-cases h 0) [ inl e ↦ rw e.1 refl | inr e ↦ rw e.1 refl ]

lock-Inside :
    (i : ℕ) (m : Shared) (holder : Option ℕ)
    → Inside i m at_lock
        (elim holder [ none ↦ some (record m { holder = some i }, at_second_test) | some j ↦ none ])
lock-Inside i m none = (λ h e. refl, λ j ne e. absurd (ne (cc)))
lock-Inside i m (some j) = tt

advance-Inside : (i h : ℕ) (p : Pc) (m : Shared) → Inside i m p (advance i h p m)
unfolding advance
advance-Inside i h at_test m = (λ k e. cc (k e), λ j ne e. e)
advance-Inside i h at_lock m = lock-Inside i m m.holder
advance-Inside i h at_second_test m = elim (==-cases m.wrapped_mutex 0) [
  | inl z ↦ rw z.1 (λ k e. refl, λ j ne e. e)
  | inr z ↦ rw z.1 (λ k e. refl, λ j ne e. e)
]
advance-Inside i h at_init m = (λ k e. refl, λ j ne e. sym (record_init-holder h m) ∙ e)
advance-Inside i h at_unlock m = (λ k e. cc, λ j ne e. cc)
advance-Inside i h returned m = tt

Step-HolderInside : {s t : State} → HolderInside s → Step s t → HolderInside t
Step-HolderInside {s} v (move i h {m} {p} e) = λ j held. elim (==-cases j i) [
  | inl same ↦ rw same.1 (inside.0 (v i) (rw (← same.0) held))
  | inr other ↦ rw other.1 (v j (inside.1 j (λ x. other.0 (sym x)) held))
]
  where
    inside : Inside i s.shared (s.pc i) (some (m, p))
    inside = subst (Inside i s.shared (s.pc i)) e (advance-Inside i h (s.pc i) s.shared)

Reach-HolderInside : {s : State} → Reach s → HolderInside s
Reach-HolderInside start = λ j e. cc
Reach-HolderInside (later r x) = Step-HolderInside (Reach-HolderInside r) x

module _ {answers : ℕ → ℕ} where
  from_critical :
      (i : ℕ) (s : State) (p : Pc) → s.pc i ≡ p → is_critical p ≡ true → Finishes answers 3 i s
  from_critical i s at_test e h = absurd (cc)
  from_critical i s at_lock e h = absurd (cc)
  from_critical i s at_second_test e h = from_second_test i s e
  from_critical i s at_init e h = Finishes-weaken i s (omega arith) (from_init i s e)
  from_critical i s at_unlock e h = Finishes-weaken i s (omega arith) (from_unlock i s e)
  from_critical i s returned e h = absurd (cc)

  from_outside :
      (i : ℕ) (s : State) (p : Pc)
      → s.pc i ≡ p
      → is_critical p ≡ false
      → s.shared.holder ≡ none
      → Finishes answers 5 i s
  from_outside i s at_test e h free = from_test i s e free
  from_outside i s at_lock e h free = Finishes-weaken i s (omega arith) (from_lock i s e free)
  from_outside i s at_second_test e h free = absurd (cc)
  from_outside i s at_init e h free = absurd (cc)
  from_outside i s at_unlock e h free = absurd (cc)
  from_outside i s returned e h free =
      Finishes-weaken i s (omega arith) (Finishes-returned i s e free)

-- Within eight steps, which leave all threads but `i` and the holder of the lock where they are.
abbrev pub CanReturn : (ℕ → ℕ) → ℕ → State → Type 0
CanReturn answers i s = (n : ℕ) × (t : State) × (n ≤ 8) × Run answers s n t × (t.pc i ≡ returned)

module _ (answers : ℕ → ℕ) (s : State) (i : ℕ) where
  alone : {bound : ℕ} → bound ≤ 8 → Finishes answers bound i s → CanReturn answers i s
  alone h f = (f.steps, f.last, omega (arith, f.in_bound), f.run, f.is_done)

  after_holder :
      (j : ℕ) → is_critical (s.pc j) ≡ true → is_critical (s.pc i) ≡ false → CanReturn answers i s
  after_holder j inside outside =
      let first : Finishes answers 3 j s = from_critical j s (s.pc j) refl inside in
      let stayed : first.last.pc i ≡ s.pc i = first.others i (λ e. cc (e, inside, outside)) in
      let second : Finishes answers 5 i first.last =
        from_outside i first.last (s.pc i) stayed outside first.free in
      let (n, k, r) = Run-append first.run second.run in
      (n, second.last, omega (arith, k, first.in_bound, second.in_bound), r, second.is_done)

  -- From every reachable state every thread can return within eight steps, whatever pointers or errors
  -- the calls of pthread_mutex_init give: no thread waits for a lock that nobody will release.
  pub every_thread-CanReturn : Reach s → CanReturn answers i s
  every_thread-CanReturn r = elim (Bool-cases (is_critical (s.pc i))) [
    | inl inside ↦ alone (omega arith) (from_critical i s (s.pc i) refl inside)
    | inr outside ↦ elim (Option-cases s.shared.holder) [
      | inl free ↦ alone (omega arith) (from_outside i s (s.pc i) refl outside free)
      | inr held ↦ after_holder held.0 (Reach-HolderInside r held.0 held.1) outside
    ]
  ]
