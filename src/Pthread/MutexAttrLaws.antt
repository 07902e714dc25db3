-- ===== src/Pthread/MutexAttrLaws.antt =====
-- The attribute objects that a program can build with the setters.
use libc6_shim.Prelude.{
  ℕ, ◌<◌, Bool-cases, ==-cases, ne→==, ◌⊎◌, subst, ap, ltb, ltb→lt, some, ◌≡◌, ◌≢◌, refl, inl, inr,
  arith,
}
use libc6_shim.Outcome.{Outcome, ok_unique, ◌>>◌, ok, abort, assert}
use libc6_shim.Switch.{select}
use libc6_shim.Pthread.{
  PthreadNumbers, linux_to_native_mutex_kind, linux_to_native_protocol, linux_to_native_pshared,
  linux_to_native_robust,
}
use libc6_shim.Pthread.MutexAttr.{
  MutexAttr, mutexattr_init, mutexattr_setprioceiling, mutexattr_setprotocol, mutexattr_setpshared,
  mutexattr_setrobust, mutexattr_settype,
}
use libc6_shim.Pthread.MutexInit.{NativeMutexattr, linux_to_native_mutexattr}

-- A call of one of the setters.
pub data Setting : Type 0 where
  prioceiling : ℕ → Setting
  protocol : ℕ → Setting
  pshared : ℕ → Setting
  robust : ℕ → Setting
  type : ℕ → Setting

abbrev pub set : MutexAttr → Setting → Outcome MutexAttr
set a (prioceiling v) = mutexattr_setprioceiling a v
set a (protocol v) = mutexattr_setprotocol a v
set a (pshared v) = mutexattr_setpshared a v
set a (robust v) = mutexattr_setrobust a v
set a (type v) = mutexattr_settype a v

-- What init and any setters that returned have left.
pub data Built : MutexAttr → Type 0 where
  fresh : (a : MutexAttr) → Built (mutexattr_init a)
  after : (s : Setting) {a b : MutexAttr} → Built a → set a s ≡ ok b → Built b

-- The fields fit their bits.
pub record IsMutexAttr (a : MutexAttr) : Type 0 where
  pub kind_fits : a.linux_kind < 4
  pub prioceiling_fits : a.linux_prioceiling < 4
  pub protocol_fits : a.linux_protocol < 2
  pub pshared_fits : a.linux_pshared < 2
  pub robust_fits : a.linux_robust < 2

guarded :
    (v n : ℕ) {a b : MutexAttr}
    → (assert (ltb v n) >> ok a) ≡ ok b
    → (IsMutexAttr a → IsMutexAttr b) × (v < n)
guarded v n {a} {b} e = elim (Bool-cases (ltb v n)) [
  | inl t ↦ (λ h. subst IsMutexAttr (ok_unique refl (rw t at e)) h, ltb→lt v n t)
  | inr f ↦ cc (e, ap (λ x. assert x >> ok a) f)
]

set-IsMutexAttr : (s : Setting) {a b : MutexAttr} → IsMutexAttr a → set a s ≡ ok b → IsMutexAttr b
unfolding mutexattr_setprioceiling mutexattr_setprotocol mutexattr_setpshared mutexattr_setrobust
    mutexattr_settype
set-IsMutexAttr (prioceiling v) h e = (guarded v 4 e).0 (omega (arith, (guarded v 4 e).1))
set-IsMutexAttr (protocol v) h e = (guarded v 2 e).0 (omega (arith, (guarded v 2 e).1))
set-IsMutexAttr (pshared v) h e = (guarded v 2 e).0 (omega (arith, (guarded v 2 e).1))
set-IsMutexAttr (robust v) h e = (guarded v 2 e).0 (omega (arith, (guarded v 2 e).1))
set-IsMutexAttr (type v) h e = (guarded v 4 e).0 (omega (arith, (guarded v 4 e).1))

pub Built-IsMutexAttr : {a : MutexAttr} → Built a → IsMutexAttr a
unfolding mutexattr_init
Built-IsMutexAttr (fresh a) = omega arith
Built-IsMutexAttr (after s x e) = set-IsMutexAttr s (Built-IsMutexAttr x) e

pub kind_converts :
    (c : PthreadNumbers) (v : ℕ) → v < 4 → (k : ℕ) × (linux_to_native_mutex_kind c v ≡ ok k)
unfolding linux_to_native_mutex_kind select
kind_converts c v h = elim (cases h) [
  | inl e ↦ (c.mutex_normal, rw e refl)
  | inr (inl e) ↦ (c.mutex_recursive, rw e refl)
  | inr (inr (inl e)) ↦ (c.mutex_errorcheck, rw e refl)
  | inr (inr (inr e)) ↦ (c.mutex_adaptive_np, rw e refl)
]
  where
    cases : v < 4 → (v ≡ 0) ⊎ ((v ≡ 1) ⊎ ((v ≡ 2) ⊎ (v ≡ 3)))
    cases k = omega arith

below_two : (v : ℕ) → v < 2 → (v ≡ 0) ⊎ (v ≡ 1)
below_two v h = omega arith

protocol_converts :
    (c : PthreadNumbers) (v : ℕ)
    → v < 2
    → (linux_to_native_protocol c v ≡ ok c.prio_none)
      ⊎ (linux_to_native_protocol c v ≡ ok c.prio_inherit)
unfolding linux_to_native_protocol select
protocol_converts c v h = elim (below_two v h) [ inl e ↦ inl (rw e refl) | inr e ↦ inr (rw e refl) ]

pshared_converts :
    (c : PthreadNumbers) (v : ℕ) → v < 2 → (k : ℕ) × (linux_to_native_pshared c v ≡ ok k)
unfolding linux_to_native_pshared select
pshared_converts c v h = elim (below_two v h) [
  | inl e ↦ (c.process_private, rw e refl)
  | inr e ↦ (c.process_shared, rw e refl)
]

robust_converts :
    (c : PthreadNumbers) (v : ℕ) → v < 2 → (k : ℕ) × (linux_to_native_robust c v ≡ ok k)
unfolding linux_to_native_robust select
robust_converts c v h = elim (below_two v h) [
  | inl e ↦ (c.mutex_stalled, rw e refl)
  | inr e ↦ (c.mutex_robust, rw e refl)
]

abbrev pub native : ℕ → ℕ → ℕ → ℕ → NativeMutexattr
native k p s r = record { kind = k; protocol = some p; pshared = some s; robust = some r }

converts_as :
    (c : PthreadNumbers) (a : MutexAttr) (p : ℕ)
    → IsMutexAttr a
    → a.linux_prioceiling ≡ 0
    → linux_to_native_protocol c a.linux_protocol ≡ ok p
    → (n : NativeMutexattr) × (linux_to_native_mutexattr c a ≡ ok n) × (n.protocol ≡ some p)
unfolding linux_to_native_mutexattr
converts_as c a p h z e = (native k.0 p s.0 r.0, rw (k.1, z, e, s.1, r.1) refl, refl)
  where
    k : (k : ℕ) × (linux_to_native_mutex_kind c a.linux_kind ≡ ok k)
    k = kind_converts c a.linux_kind h.kind_fits

    s : (k : ℕ) × (linux_to_native_pshared c a.linux_pshared ≡ ok k)
    s = pshared_converts c a.linux_pshared h.pshared_fits

    r : (k : ℕ) × (linux_to_native_robust c a.linux_robust ≡ ok k)
    r = robust_converts c a.linux_robust h.robust_fits

abbrev pub Converts : PthreadNumbers → MutexAttr → Type 0
Converts c a =
    (n : NativeMutexattr) × (linux_to_native_mutexattr c a ≡ ok n)
    × ((n.protocol ≡ some c.prio_none) ⊎ (n.protocol ≡ some c.prio_inherit))

aborts :
    (c : PthreadNumbers) (a : MutexAttr)
    → IsMutexAttr a
    → a.linux_prioceiling ≢ 0
    → linux_to_native_mutexattr c a ≡ abort
unfolding linux_to_native_mutexattr
aborts c a h ne =
    rw ((kind_converts c a.linux_kind h.kind_fits).1, ne→== a.linux_prioceiling 0 ne) refl

converts :
    (c : PthreadNumbers) (a : MutexAttr) → IsMutexAttr a → a.linux_prioceiling ≡ 0 → Converts c a
converts c a h z = elim (protocol_converts c a.linux_protocol h.protocol_fits) [
  | inl e ↦ let r = converts_as c a c.prio_none h z e in (r.0, r.1, inl r.2)
  | inr e ↦ let r = converts_as c a c.prio_inherit h z e in (r.0, r.1, inr r.2)
]

-- A mutex can be initialized with every attribute object that a program built whose priority
-- ceiling is 0, and its protocol is then PRIO_NONE or PRIO_INHERIT, so never PRIO_PROTECT; with
-- another ceiling the call aborts.
pub built_attr-Converts :
    (c : PthreadNumbers) (a : MutexAttr)
    → Built a
    → ((a.linux_prioceiling ≡ 0) × Converts c a)
      ⊎ ((a.linux_prioceiling ≢ 0) × (linux_to_native_mutexattr c a ≡ abort))
built_attr-Converts c a b = elim (==-cases a.linux_prioceiling 0) [
  | inl e ↦ inl (e.0, converts c a (Built-IsMutexAttr b) e.0)
  | inr e ↦ inr (e.0, aborts c a (Built-IsMutexAttr b) e.0)
]
