-- ===== src/Pthread/AttrLaws.antt =====
-- The two flags of a condition attribute do not disturb each other.
use libc6_shim.Prelude.{
  ℕ, Bool, true, false, not, if◌then◌else◌, some, bit_and, ◌==◌, ◌≡◌, ◌≢◌, ◌⊎◌, inl, inr, refl, ap,
  ◌∙◌, ne→==, arith,
}
use libc6_shim.Bits.{
  bit_not32, bit_and_comm, bit_or_comm, bit_and_self, bit_or-bit_and_absorb, bit_and-bit_or,
  bit_and_assoc, bit_or-zero, bit_and-zero,
}
use libc6_shim.Outcome.{ok}
use libc6_shim.Flags.{has}
use libc6_shim.Pthread.{PthreadNumbers}
use libc6_shim.Pthread.Attr.{
  put, condattr_getclock, condattr_setclock, condattr_getpshared, condattr_setpshared,
  cond_init_attr,
}

-- The flag is what was put there.
has-put :
    (on : Bool) (attr f : ℕ) → f ≢ 0 → bit_and (bit_not32 f) f ≡ 0 → has (put on attr f) f ≡ on
has-put true attr f ne e =
    rw
      (
        bit_and-bit_or attr f f,
        bit_or_comm (bit_and attr f) (bit_and f f),
        bit_and_self f,
        bit_and_comm attr f,
        bit_or-bit_and_absorb f attr,
      )
      (ap not (ne→== f 0 ne))
has-put false attr f ne e = rw (bit_and_assoc attr (bit_not32 f) f, e, bit_and-zero attr) refl

-- Another flag is as before.
has-put_other :
    (on : Bool) (attr f g : ℕ)
    → bit_and f g ≡ 0
    → bit_and (bit_not32 f) g ≡ g
    → has (put on attr f) g ≡ has attr g
has-put_other true attr f g e k = rw (bit_and-bit_or attr f g, e, bit_or-zero (bit_and attr g)) refl
has-put_other false attr f g e k = rw (bit_and_assoc attr (bit_not32 f) g, k) refl

abbrev pub IsBit : ℕ → Type 0
IsBit v = (v ≡ 0) ⊎ (v ≡ 1)

read-IsBit : (v : ℕ) → IsBit v → (b : Bool) → b ≡ (v == 1) → (if b then 1 else 0) ≡ v
read-IsBit v (inl e) b h = rw (h, e) refl
read-IsBit v (inr e) b h = rw (h, e) refl

-- For a clock that is REALTIME or MONOTONIC and a sharing that is PRIVATE or SHARED, and whatever the
-- object held before: after the clock and then the sharing are set, the getters return both, and a
-- condition variable is initialized with exactly these.
pub condattr_keeps_both :
    (c : PthreadNumbers) (attr clock pshared : ℕ)
    → IsBit clock
    → IsBit pshared
    → (a : ℕ) × (b : ℕ) × (condattr_setclock c attr clock ≡ (0, a))
      × (condattr_setpshared a pshared ≡ ok b)
      × (condattr_getclock b ≡ clock)
      × (condattr_getpshared b ≡ pshared)
      × (cond_init_attr (some b)
          ≡ record { given = true; shared = pshared == 1; monotonic = clock == 1 })
unfolding condattr_setclock condattr_setpshared condattr_getclock condattr_getpshared cond_init_attr
condattr_keeps_both c attr clock pshared p q = (
  put on attr 1,
  put shared (put on attr 1) 2,
  set_clock clock p,
  set_shared pshared q (put on attr 1),
  read-IsBit clock p _ clock_flag,
  read-IsBit pshared q _ (has-put shared (put on attr 1) 2 (omega arith) refl),
  rw (clock_flag, has-put shared (put on attr 1) 2 (omega arith) refl) refl,
)
  where
    on : Bool
    on = clock == 1

    shared : Bool
    shared = pshared == 1

    clock_flag : has (put shared (put on attr 1) 2) 1 ≡ on
    clock_flag =
        has-put_other shared (put on attr 1) 2 1 refl refl ∙ has-put on attr 1 (omega arith) refl

    set_clock : (v : ℕ) → IsBit v → condattr_setclock c attr v ≡ (0, put (v == 1) attr 1)
    set_clock v (inl e) = rw e refl
    set_clock v (inr e) = rw e refl

    set_shared : (v : ℕ) → IsBit v → (a : ℕ) → condattr_setpshared a v ≡ ok (put (v == 1) a 2)
    set_shared v (inl e) a = rw e refl
    set_shared v (inr e) a = rw e refl
