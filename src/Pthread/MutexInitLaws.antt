-- ===== src/Pthread/MutexInitLaws.antt =====
-- One thread in `init_mutex_if_necessary` and the calls that begin with it.
use libc6_shim.Prelude.{
  false, arith, ℕ, some, not, ◌&&◌, ◌==◌, ◌<◌, ◌≡◌, ◌≢◌, ◌⊎◌, inl, inr, refl, ==-cases, ne→==,
}
use libc6_shim.Outcome.{ok}
use libc6_shim.Errno.{Errnos}
use libc6_shim.Pthread.{PthreadNumbers, linux_to_native_mutex_kind}
use libc6_shim.Pthread.MutexInit.{
  Mutex, Native, MutexHost, finish, kind_only, init_locked, init_mutex_if_necessary, mutex_lock,
  mutex_unlock, mutex_destroy,
}

-- The lock that guards the initialization works, and a mutex that a native call has locked is
-- not NULL: the library allocates a static one when it is first locked.
pub record IsMutexHost {W : Type 0} (host : MutexHost W) : Type 0 where
  pub locks : (w : W) → (host.lock_initialization w).0 ≡ 0
  pub unlocks : (w : W) → (host.unlock_initialization w).0 ≡ 0
  pub allocates : (p : ℕ) (w : W) → (host.wait p w).err ≡ 0 → (host.wait p w).wrapped ≢ 0

-- Unlocking a mutex does not take its native mutex away.
abbrev pub KeepsMutex : {W : Type 0} → MutexHost W → Type 0
KeepsMutex {W} host = (p : ℕ) (w : W) → p ≢ 0 → (host.unlock p w).wrapped ≢ 0

-- The pointer to the native mutex that the native lock gets, and the state in which it is called:
-- where there is none yet, one of the kind that the Linux number stands for has been initialized, with
-- the initialization mutex locked around it.
abbrev pub IsKind : PthreadNumbers → ℕ → ℕ → Type 0
IsKind c linux_kind type =
    ((linux_kind ≡ 1) × (type ≡ c.mutex_recursive))
    ⊎ ((linux_kind ≡ 2) × (type ≡ c.mutex_errorcheck))
    ⊎ ((linux_kind ≡ 3) × (type ≡ c.mutex_adaptive_np))

abbrev pub Initialized : {W : Type 0} → PthreadNumbers → MutexHost W → Mutex → W → ℕ → W → Type 0
Initialized c host m w p v =
    ((m.wrapped_mutex ≢ 0) × (p ≡ m.wrapped_mutex) × (v ≡ w))
    ⊎ ((m.wrapped_mutex ≡ 0) × (m.linux_kind ≡ 0) × (p ≡ m.wrapped_mutex) × (v ≡ w))
    ⊎ ((m.wrapped_mutex ≡ 0)
        × (type : ℕ) × IsKind c m.linux_kind type
        × (p ≡ (host.mutex_init 0 (some (kind_only type)) (host.lock_initialization w).1).wrapped)
        × (v
            ≡ (host.unlock_initialization
                (host.mutex_init 0 (some (kind_only type))
                  (host.lock_initialization w).1).world).1))

-- With a native mutex the calls are the native ones: nothing is initialized, and nothing aborts.
module _ {W : Type 0} (e : Errnos) (c : PthreadNumbers) (host : MutexHost W) (m : Mutex) (w : W)
    (allocated : m.wrapped_mutex ≢ 0) where
  lock-allocated : mutex_lock e c host m w ≡ ok (finish e c host m (host.wait m.wrapped_mutex w))
  unfolding mutex_lock init_mutex_if_necessary
  lock-allocated = rw (ne→== m.wrapped_mutex 0 allocated) refl

  unlock-allocated :
      mutex_unlock e c host m w ≡ ok (finish e c host m (host.unlock m.wrapped_mutex w))
  unfolding mutex_unlock
  unlock-allocated = rw (ne→== m.wrapped_mutex 0 allocated) refl

module _ {W : Type 0} (e : Errnos) (c : PthreadNumbers) (host : MutexHost W)
    (good : IsMutexHost host) where
  -- The first call on a mutex of a kind that is not NORMAL.
  init-first :
      (m : Mutex) (w : W) (type : ℕ)
      → m.wrapped_mutex ≡ 0
      → m.linux_kind ≢ 0
      → linux_to_native_mutex_kind c m.linux_kind ≡ ok type
      → let i = host.mutex_init 0 (some (kind_only type)) (host.lock_initialization w).1 in
        init_mutex_if_necessary e c host m w
        ≡ ok (record m { wrapped_mutex = i.wrapped }, (host.unlock_initialization i.world).1)
  unfolding init_mutex_if_necessary init_locked
  init-first m w type null kind converted =
      rw
        (
          null,
          ne→== m.linux_kind 0 kind,
          good.locks w,
          converted,
          good.unlocks
              (host.mutex_init 0 (some (kind_only type)) (host.lock_initialization w).1).world,
        )
        refl

  -- A mutex for which there is nothing to do.
  init-none :
      (m : Mutex) (w : W)
      → (m.wrapped_mutex == 0 && not (m.linux_kind == 0)) ≡ false
      → init_mutex_if_necessary e c host m w ≡ ok (m, w)
  unfolding init_mutex_if_necessary
  init-none m w test = rw test refl

  init-Initialized :
      (m : Mutex) (w : W)
      → m.linux_kind < 4
      → (p : ℕ) × (v : W) × Initialized c host m w p v
        × (init_mutex_if_necessary e c host m w ≡ ok (record m { wrapped_mutex = p }, v))
  unfolding linux_to_native_mutex_kind libc6_shim.Switch.select
  init-Initialized m w h = elim (==-cases m.wrapped_mutex 0) [
    | inr there ↦ (m.wrapped_mutex, w, inl (there.0, refl, refl), init-none m w (rw there.1 refl))
    | inl null ↦ elim (==-cases m.linux_kind 0) [
      | inl normal ↦ (
        m.wrapped_mutex,
        w,
        inr (inl (null.0, normal.0, refl, refl)),
        init-none m w (rw (null.1, normal.1) refl),
      )
      | inr other ↦ elim (kinds m.linux_kind h other.0) [
        | inl one ↦ (
          _,
          _,
          inr (inr (null.0, c.mutex_recursive, inl (one, refl), refl, refl)),
          init-first m w c.mutex_recursive null.0 other.0 (rw one refl),
        )
        | inr more ↦ elim more [
          | inl two ↦ (
            _,
            _,
            inr (inr (null.0, c.mutex_errorcheck, inr (inl (two, refl)), refl, refl)),
            init-first m w c.mutex_errorcheck null.0 other.0 (rw two refl),
          )
          | inr three ↦ (
            _,
            _,
            inr (inr (null.0, c.mutex_adaptive_np, inr (inr (three, refl)), refl, refl)),
            init-first m w c.mutex_adaptive_np null.0 other.0 (rw three refl),
          )
        ]
      ]
    ]
  ]
    where
      kinds : (k : ℕ) → k < 4 → k ≢ 0 → (k ≡ 1) ⊎ ((k ≡ 2) ⊎ (k ≡ 3))
      kinds k h ne = omega (arith, h, ne)

  -- What a program does with a mutex that it holds: it unlocks it, which returns; then a further lock
  -- is the native lock of the same native mutex, and the destruction of the mutex returns.
  abbrev pub Released : MutexHost W → Mutex → W → Type 0
  Released destroyer m1 w1 =
      (err : ℕ) × (m2 : Mutex) × (w2 : W) × (mutex_unlock e c host m1 w1 ≡ ok (err, m2, w2))
      × (mutex_lock e c host m2 w2 ≡ ok (finish e c host m2 (host.wait m2.wrapped_mutex w2)))
      × ((r : ℕ × Mutex × W) × (mutex_destroy e c destroyer m2 w2 ≡ ok r))

  allocated-Released :
      (destroyer : MutexHost W) (m1 : Mutex) (w1 : W)
      → KeepsMutex host
      → m1.wrapped_mutex ≢ 0
      → Released destroyer m1 w1
  unfolding mutex_destroy
  allocated-Released destroyer m1 w1 keeps allocated = (
    n.err,
    m2,
    n.world,
    unlock-allocated e c host m1 w1 allocated,
    lock-allocated e c host m2 n.world still,
    (_, unlock-allocated e c destroyer m2 n.world still),
  )
    where
      n : Native W
      n = host.unlock m1.wrapped_mutex w1

      m2 : Mutex
      m2 = record m1 { wrapped_mutex = n.wrapped }

      still : n.wrapped ≢ 0
      still = keeps m1.wrapped_mutex w1 allocated

  -- Where the lock of the initialization works, a native mutex that was locked is not NULL, and
  -- unlocking it leaves it there: with a kind that a Linux initializer can give, locking a mutex
  -- returns, without an abort. A mutex that has no native one is first given one of its kind,
  -- recursive, error checking or adaptive, but none if it is a normal one, which the native lock makes;
  -- the call is then the native lock of that mutex. If it reports no error then unlocking the mutex
  -- returns too; after that a further lock initializes nothing and is the native lock, and destroying
  -- the mutex returns.
  pub mutex_life :
      (destroyer : MutexHost W) (m : Mutex) (w : W)
      → KeepsMutex host
      → m.linux_kind < 4
      → (p : ℕ) × (v : W) × Initialized c host m w p v
        × (mutex_lock e c host m w
            ≡ ok (
              (host.wait p v).err,
              record m { wrapped_mutex = (host.wait p v).wrapped },
              (host.wait p v).world,
            ))
        × (((host.wait p v).err ≢ 0)
            ⊎ Released destroyer
                (record m { wrapped_mutex = (host.wait p v).wrapped })
                (host.wait p v).world)
  unfolding mutex_lock
  mutex_life destroyer m w keeps h =
      let (p, v, initialized, run) = init-Initialized m w h in
      (
        p,
        v,
        initialized,
        rw run refl,
        elim (==-cases (host.wait p v).err 0) [
          | inr failed ↦ inl failed.0
          | inl done ↦ inr (
              allocated-Released destroyer _ (host.wait p v).world keeps
                (good.allocates p v done.0))
        ],
      )
