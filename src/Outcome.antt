-- ===== src/Outcome.antt =====
-- Calls that may end the process. `PANIC`, `UNIMPLEMENTED` and a failed `assert` of shim.h all come
-- to `abort()`, from which nothing returns.
use libc6_shim.Prelude.{◌≡◌, ◌⊎◌, inl, inr, refl, Bool, true, false, Option, none, some}

pub data Outcome {ℓ} (A : Type ℓ) : Type ℓ where
  ok : A → Outcome A
  abort : Outcome A

-- What follows a call runs if that returned.
infixl 5 ◌>>=◌ ◌>>◌
abbrev pub ◌>>=◌ {ℓ κ} : {B : Type κ} {A : Type ℓ} → Outcome A → (A → Outcome B) → Outcome B
abort >>= next = abort
ok a >>= next = next a

abbrev pub ◌>>◌ {κ} : {B : Type κ} → Outcome (Unit {0}) → Outcome B → Outcome B
check >> next = check >>= λ done. next

-- `assert(b)`: the builds keep assertions.
abbrev pub assert : Bool → Outcome (Unit {0})
assert true = ok tt
assert false = abort

-- The `default:` of a `switch` that panics.
abbrev pub or_abort {ℓ} : {A : Type ℓ} → Option A → Outcome A
or_abort (some a) = ok a
or_abort none = abort

-- To split on the outcome of a call and keep the equation.
pub Outcome-cases {ℓ} : {A : Type ℓ} (m : Outcome A) → (m ≡ abort) ⊎ ((a : A) × (m ≡ ok a))
Outcome-cases abort = inl refl
Outcome-cases (ok a) = inr (a, refl)

-- Two results of one call are the same.
pub ok_unique {ℓ} : {A : Type ℓ} {m : Outcome A} {a b : A} → m ≡ ok a → m ≡ ok b → a ≡ b
ok_unique p q = cc
