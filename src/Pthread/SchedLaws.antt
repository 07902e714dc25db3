-- ===== src/Pthread/SchedLaws.antt =====
-- What a program sets in a thread attribute it gets back.
use libc6_shim.Prelude.{ℕ, List, ◌≡◌, refl, inl, inr, Option-cases, ap}
use libc6_shim.Outcome.{Outcome, ok, or_abort, ok_unique, ◌>>=◌}
use libc6_shim.Flags.{Entry, swap}
use libc6_shim.Switch.{select, DistinctTargets}
use libc6_shim.Switch.Laws.{select-swap}
use libc6_shim.Pthread.{
  PthreadNumbers, inheritsched_cases, scope_cases, sched_cases, linux_to_native_inheritsched,
  native_to_linux_inheritsched, linux_to_native_scope, native_to_linux_scope,
  linux_to_native_sched_policy, native_to_linux_sched_policy,
}
use libc6_shim.Pthread.Sched.{
  AttrHost, write_converted, attr_getinheritsched, attr_setinheritsched, attr_getschedpolicy,
  attr_setschedpolicy, attr_getscope, attr_setscope,
}

-- A field of the native attributes: what is set without an error is read back.
abbrev pub ReadsBack : {A : Type 0} → (A → ℕ × ℕ) → (A → ℕ → ℕ × A) → Type 0
ReadsBack {A} get set = (a b : A) (v : ℕ) → set a v ≡ (0, b) → get b ≡ (0, v)

pub record IsAttrHost {A : Type 0} (host : AttrHost A) : Type 0 where
  pub inheritsched_kept : ReadsBack host.getinheritsched host.setinheritsched
  pub policy_kept : ReadsBack host.getschedpolicy host.setschedpolicy
  pub scope_kept : ReadsBack host.getscope host.setscope

-- The native numbers of one `switch` differ.
pub record IsPthreadNumbers (c : PthreadNumbers) : Type 0 where
  pub inheritsched_differ : DistinctTargets (inheritsched_cases c)
  pub policy_differ : DistinctTargets (sched_cases c)
  pub scope_differ : DistinctTargets (scope_cases c)

pub data Field : Type 0 where
  inheritsched : Field
  schedpolicy : Field
  scope : Field

abbrev pub attr_set : {A : Type 0} → PthreadNumbers → AttrHost A → Field → A → ℕ → Outcome (ℕ × A)
attr_set c host inheritsched = attr_setinheritsched c host
attr_set c host schedpolicy = attr_setschedpolicy c host
attr_set c host scope = attr_setscope c host

abbrev pub attr_get : {A : Type 0} → PthreadNumbers → AttrHost A → Field → A → ℕ → Outcome (ℕ × ℕ)
attr_get c host inheritsched = attr_getinheritsched c host
attr_get c host schedpolicy = attr_getschedpolicy c host
attr_get c host scope = attr_getscope c host

-- The setter through a `switch`, then the getter through the one with its sides exchanged.
convert_back :
    {A : Type 0} (t : List Entry) (get : A → ℕ × ℕ) (set : A → ℕ → ℕ × A) (a b : A) (v old : ℕ)
    → DistinctTargets t
    → ReadsBack get set
    → (or_abort (select t v) >>= λ x. ok (set a x)) ≡ ok (0, b)
    → write_converted (λ w. or_abort (select (swap t) w)) (get b) old ≡ ok (0, v)
unfolding write_converted
convert_back t get set a b v old d k e = elim (Option-cases (select t v)) [
  | inl n ↦ cc (e, ap (λ o. or_abort o >>= λ x. ok (set a x)) n)
  | inr y ↦ rw (k a b y.0 (ok_unique refl (rw y.1 at e)), select-swap t v y.0 d y.1) refl
]

-- Where the native numbers of each `switch` differ, and the native attribute object keeps what is
-- set without an error: a value that one of the three setters took without an error is what the getter then writes.
pub attr_round_trip :
    {A : Type 0} (c : PthreadNumbers) (host : AttrHost A) (f : Field) (a b : A) (v old : ℕ)
    → IsPthreadNumbers c
    → IsAttrHost host
    → attr_set c host f a v ≡ ok (0, b)
    → attr_get c host f b old ≡ ok (0, v)
unfolding attr_setinheritsched attr_setschedpolicy attr_setscope attr_getinheritsched
    attr_getschedpolicy attr_getscope linux_to_native_inheritsched native_to_linux_inheritsched
    linux_to_native_scope native_to_linux_scope linux_to_native_sched_policy
    native_to_linux_sched_policy
attr_round_trip c host inheritsched a b v old n k e =
    convert_back (inheritsched_cases c) host.getinheritsched host.setinheritsched a b v old
      n.inheritsched_differ k.inheritsched_kept e
attr_round_trip c host schedpolicy a b v old n k e =
    convert_back (sched_cases c) host.getschedpolicy host.setschedpolicy a b v old n.policy_differ
      k.policy_kept e
attr_round_trip c host scope a b v old n k e =
    convert_back (scope_cases c) host.getscope host.setscope a b v old n.scope_differ k.scope_kept e
