-- ===== src/Pthread/RaceStep.antt =====
-- What one step of a thread in `init_mutex_if_necessary` keeps of what the threads know.
use libc6_shim.Prelude.{
  ℕ, ◌≤◌, ◌<◌, ◌≡◌, ◌≢◌, ◌⊎◌, inl, inr, ==-cases, refl, Option, none, some, ◌==◌, if◌then◌else◌,
  arith,
}
use libc6_shim.Pthread.Race.{
  Pc, at_test, at_lock, at_second_test, at_init, at_unlock, returned, Shared, record_init, advance,
  State,
}

-- The native mutex is there, or its initialization has failed.
abbrev pub IsSettled : Shared → Type 0
IsSettled m = (m.wrapped_mutex ≢ 0) ⊎ (0 < m.failures)

-- What thread `i` knows of the shared state, by where it stands.
abbrev pub Knows : Shared → ℕ → Pc → Type 0
Knows m i at_test = Unit {0}
Knows m i at_lock = Unit {0}
Knows m i at_second_test = m.holder ≡ some i
Knows m i at_init = (m.holder ≡ some i) × (m.wrapped_mutex ≡ 0)
Knows m i at_unlock = (m.holder ≡ some i) × IsSettled m
Knows m i returned = IsSettled m

abbrev pub IsOnce : Shared → Type 0
IsOnce m = (m.inits ≤ 1) × (m.wrapped_mutex ≡ 0 → m.inits ≡ 0)

pub record IsSound (s : State) : Type 0 where
  pub once : IsOnce s.shared
  pub knows : (i : ℕ) → Knows s.shared i (s.pc i)

-- How thread `i` may change the shared state without taking from another what it knows.
pub record IsFair (i : ℕ) (m n : Shared) : Type 0 where
  pub holds : (j : ℕ) → i ≢ j → m.holder ≡ some j → n.holder ≡ some j
  pub keeps_null : (j : ℕ) → i ≢ j → m.holder ≡ some j → m.wrapped_mutex ≡ 0 → n.wrapped_mutex ≡ 0
  pub settled : IsSettled m → IsSettled n

pub Knows-fair :
    {m n : Shared} {i : ℕ} (j : ℕ) (p : Pc) → IsFair i m n → i ≢ j → Knows m j p → Knows n j p
Knows-fair j at_test f ne k = tt
Knows-fair j at_lock f ne k = tt
Knows-fair j at_second_test f ne k = f.holds j ne k
Knows-fair j at_init f ne k = (f.holds j ne k.0, f.keeps_null j ne k.0 k.1)
Knows-fair j at_unlock f ne k = (f.holds j ne k.0, f.settled k.1)
Knows-fair j returned f ne k = f.settled k

-- What a step leaves behind: the thread knows its part, the others theirs, and a pointer that
-- is not NULL stays.
pub record IsGood (i : ℕ) (m n : Shared) (p : Pc) : Type 0 where
  pub once : IsOnce n
  pub own : Knows n i p
  pub fair : IsFair i m n
  pub stays : m.wrapped_mutex ≢ 0 → n.wrapped_mutex ≡ m.wrapped_mutex

abbrev pub After : ℕ → Shared → Option (Shared × Pc) → Type 0
After i m none = Unit {0}
After i m (some (n, p)) = IsGood i m n p

same-IsFair : (i : ℕ) (m : Shared) → IsFair i m m
same-IsFair i m = record { holds = λ j ne e. e; keeps_null = λ j ne e z. z; settled = λ h. h }

-- A step that reads only.
read-IsGood : (i : ℕ) (m : Shared) (p : Pc) → IsOnce m → Knows m i p → IsGood i m m p
read-IsGood i m p o k = record { once = o; own = k; fair = same-IsFair i m; stays = λ h. refl }

-- The two tests of the pointer.
test-IsGood :
    (i : ℕ) (m : Shared) (p q : Pc)
    → IsOnce m
    → (m.wrapped_mutex ≡ 0 → Knows m i p)
    → (m.wrapped_mutex ≢ 0 → Knows m i q)
    → IsGood i m m (if m.wrapped_mutex == 0 then p else q)
test-IsGood i m p q o null set = elim (==-cases m.wrapped_mutex 0) [
  | inl e ↦ rw e.1 (read-IsGood i m p o (null e.0))
  | inr e ↦ rw e.1 (read-IsGood i m q o (set e.0))
]

lock-IsGood :
    (i : ℕ) (m : Shared)
    → IsOnce m
    → m.holder ≡ none
    → IsGood i m (record m { holder = some i }) at_second_test
lock-IsGood i m o free = record {
  once = o;
  own = refl;
  fair = record { holds = λ j ne e. cc (e, free); keeps_null = λ j ne e z. z; settled = λ h. h };
  stays = λ h. refl;
}

unlock-IsGood :
    (i : ℕ) (m : Shared)
    → IsOnce m
    → Knows m i at_unlock
    → IsGood i m (record m { holder = none }) returned
unlock-IsGood i m o k = record {
  once = o;
  own = k.1;
  fair = record {
    holds = λ j ne e. grind (arith, ne, e, k.0);
    keeps_null = λ j ne e z. z;
    settled = λ h. h;
  };
  stays = λ h. refl;
}

init-IsGood :
    (i h : ℕ) (m : Shared) → IsOnce m → Knows m i at_init → IsGood i m (record_init h m) at_unlock
unfolding record_init
init-IsGood i h m o k = elim (==-cases h 0) [
  | inl e ↦ rw e.1 (record {
    once = o;
    own = (k.0, inr (omega arith));
    fair = record {
      holds = λ j ne x. x;
      keeps_null = λ j ne x z. z;
      settled = λ s. inr (omega arith);
    };
    stays = λ x. refl;
  })
  | inr e ↦ rw e.1 (record {
    once = (omega (arith, o.1 k.1), λ z. grind (arith, e.0, z));
    own = (k.0, inl e.0);
    fair = record {
      holds = λ j ne x. x;
      keeps_null = λ j ne x z. grind (arith, ne, x, k.0);
      settled = λ s. inl e.0;
    };
    stays = λ x. grind (arith, x, k.1);
  })
]

lock-After :
    (i : ℕ) (m : Shared) (holder : Option ℕ)
    → m.holder ≡ holder
    → IsOnce m
    → After i m
        (elim holder [ none ↦ some (record m { holder = some i }, at_second_test) | some j ↦ none ])
lock-After i m none e o = lock-IsGood i m o e
lock-After i m (some j) e o = tt

pub advance-After :
    (i h : ℕ) (p : Pc) (m : Shared) → IsOnce m → Knows m i p → After i m (advance i h p m)
unfolding advance
advance-After i h at_test m o k = test-IsGood i m at_lock returned o (λ e. tt) (λ e. inl e)
advance-After i h at_lock m o k = lock-After i m m.holder refl o
advance-After i h at_second_test m o k =
    test-IsGood i m at_init at_unlock o (λ e. (k, e)) (λ e. (k, inl e))
advance-After i h at_init m o k = init-IsGood i h m o k
advance-After i h at_unlock m o k = unlock-IsGood i m o k
advance-After i h returned m o k = tt
