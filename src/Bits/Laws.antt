-- ===== src/Bits/Laws.antt =====
-- `|` and `&` form a distributive lattice. Each law goes from the halves to the numbers, so it is
-- proved by induction on a bound `n` of its arguments.
use libc6_shim.Prelude.{
  ℕ, zero, suc, ◌+◌, ◌/◌, ◌%◌, ◌≤◌, min, max, bit_and, bit_or, ◌≡◌, refl, arith,
}
use libc6_shim.Bits.Step.{bit_or_step, bit_and_step}

pub bit_or-half :
    (a b : ℕ) → (bit_or a b / 2 ≡ bit_or (a / 2) (b / 2)) × (bit_or a b % 2 ≡ max (a % 2) (b % 2))
bit_or-half a b = omega (arith, bit_or_step a b)

pub bit_and-half :
    (a b : ℕ)
    → (bit_and a b / 2 ≡ bit_and (a / 2) (b / 2)) × (bit_and a b % 2 ≡ min (a % 2) (b % 2))
bit_and-half a b = omega (arith, bit_and_step a b)

or-zero-below : (n a : ℕ) → a ≤ n → bit_or a 0 ≡ a
or-zero-below n zero h = refl
or-zero-below zero (suc a) h = elim h [ ]
or-zero-below (suc n) (suc a) h =
    omega (arith, bit_or_step (suc a) 0, or-zero-below n (suc a / 2) (omega arith))

pub bit_or-zero : (a : ℕ) → bit_or a 0 ≡ a
bit_or-zero a = or-zero-below a a (omega arith)

and-zero-below : (n a : ℕ) → a ≤ n → bit_and a 0 ≡ 0
and-zero-below n zero h = refl
and-zero-below zero (suc a) h = elim h [ ]
and-zero-below (suc n) (suc a) h =
    omega (arith, bit_and_step (suc a) 0, and-zero-below n (suc a / 2) (omega arith))

pub bit_and-zero : (a : ℕ) → bit_and a 0 ≡ 0
bit_and-zero a = and-zero-below a a (omega arith)

and-comm-below : (n a b : ℕ) → a ≤ n → b ≤ n → bit_and a b ≡ bit_and b a
and-comm-below zero zero zero h k = refl
and-comm-below zero (suc a) b h k = elim h [ ]
and-comm-below zero zero (suc b) h k = elim k [ ]
and-comm-below (suc n) a b h k = omega (
  arith,
  bit_and_step a b,
  bit_and_step b a,
  and-comm-below n (a / 2) (b / 2) (omega arith) (omega arith),
)

pub bit_and_comm : (a b : ℕ) → bit_and a b ≡ bit_and b a
bit_and_comm a b = and-comm-below (a + b) a b (omega arith) (omega arith)

or-comm-below : (n a b : ℕ) → a ≤ n → b ≤ n → bit_or a b ≡ bit_or b a
or-comm-below zero zero zero h k = refl
or-comm-below zero (suc a) b h k = elim h [ ]
or-comm-below zero zero (suc b) h k = elim k [ ]
or-comm-below (suc n) a b h k = omega (
  arith,
  bit_or_step a b,
  bit_or_step b a,
  or-comm-below n (a / 2) (b / 2) (omega arith) (omega arith),
)

pub bit_or_comm : (a b : ℕ) → bit_or a b ≡ bit_or b a
bit_or_comm a b = or-comm-below (a + b) a b (omega arith) (omega arith)

or-assoc-below :
    (n a b c : ℕ) → a ≤ n → b ≤ n → c ≤ n → bit_or (bit_or a b) c ≡ bit_or a (bit_or b c)
or-assoc-below zero zero zero zero h k l = refl
or-assoc-below zero (suc a) b c h k l = elim h [ ]
or-assoc-below zero zero (suc b) c h k l = elim k [ ]
or-assoc-below zero zero zero (suc c) h k l = elim l [ ]
or-assoc-below (suc n) a b c h k l =
    rw
      (
        bit_or_step (bit_or a b) c,
        bit_or_step a (bit_or b c),
        (bit_or-half a b).0,
        (bit_or-half a b).1,
        (bit_or-half b c).0,
        (bit_or-half b c).1,
        or-assoc-below n (a / 2) (b / 2) (c / 2) (omega arith) (omega arith) (omega arith),
      )
      (omega arith)

pub bit_or_assoc : (a b c : ℕ) → bit_or (bit_or a b) c ≡ bit_or a (bit_or b c)
bit_or_assoc a b c = or-assoc-below (a + b + c) a b c (omega arith) (omega arith) (omega arith)

and-or-below :
    (n a b c : ℕ)
    → a ≤ n
    → b ≤ n
    → c ≤ n
    → bit_and (bit_or a b) c ≡ bit_or (bit_and a c) (bit_and b c)
and-or-below zero zero zero zero h k l = refl
and-or-below zero (suc a) b c h k l = elim h [ ]
and-or-below zero zero (suc b) c h k l = elim k [ ]
and-or-below zero zero zero (suc c) h k l = elim l [ ]
and-or-below (suc n) a b c h k l =
    rw
      (
        bit_and_step (bit_or a b) c,
        bit_or_step (bit_and a c) (bit_and b c),
        (bit_or-half a b).0,
        (bit_or-half a b).1,
        (bit_and-half a c).0,
        (bit_and-half a c).1,
        (bit_and-half b c).0,
        (bit_and-half b c).1,
        and-or-below n (a / 2) (b / 2) (c / 2) (omega arith) (omega arith) (omega arith),
      )
      (omega arith)

-- `(a | b) & c` is `(a & c) | (b & c)`.
pub bit_and-bit_or : (a b c : ℕ) → bit_and (bit_or a b) c ≡ bit_or (bit_and a c) (bit_and b c)
bit_and-bit_or a b c = and-or-below (a + b + c) a b c (omega arith) (omega arith) (omega arith)

-- `c & (a | b)` is `(c & a) | (c & b)`.
pub bit_and-bit_or_right : (c a b : ℕ) → bit_and c (bit_or a b) ≡ bit_or (bit_and c a) (bit_and c b)
bit_and-bit_or_right c a b =
    rw (bit_and_comm c (bit_or a b), bit_and_comm c a, bit_and_comm c b) (bit_and-bit_or a b c)

-- `a | (a & b)` is `a`.
absorb-below : (n a b : ℕ) → a ≤ n → b ≤ n → bit_or a (bit_and a b) ≡ a
absorb-below zero zero zero h k = refl
absorb-below zero (suc a) b h k = elim h [ ]
absorb-below zero zero (suc b) h k = elim k [ ]
absorb-below (suc n) a b h k =
    rw
      (
        bit_or_step a (bit_and a b),
        (bit_and-half a b).0,
        (bit_and-half a b).1,
        absorb-below n (a / 2) (b / 2) (omega arith) (omega arith),
      )
      (omega arith)

pub bit_or-bit_and_absorb : (a b : ℕ) → bit_or a (bit_and a b) ≡ a
bit_or-bit_and_absorb a b = absorb-below (a + b) a b (omega arith) (omega arith)

and-le-below : (n a b : ℕ) → a ≤ n → b ≤ n → bit_and a b ≤ b
and-le-below zero zero zero h k = omega arith
and-le-below zero (suc a) b h k = elim h [ ]
and-le-below zero zero (suc b) h k = elim k [ ]
and-le-below (suc n) a b h k =
    omega (arith, bit_and_step a b, and-le-below n (a / 2) (b / 2) (omega arith) (omega arith))

pub bit_and-le : (a b : ℕ) → bit_and a b ≤ b
bit_and-le a b = and-le-below (a + b) a b (omega arith) (omega arith)

and-assoc-below :
    (n a b c : ℕ) → a ≤ n → b ≤ n → c ≤ n → bit_and (bit_and a b) c ≡ bit_and a (bit_and b c)
and-assoc-below zero zero zero zero h k l = refl
and-assoc-below zero (suc a) b c h k l = elim h [ ]
and-assoc-below zero zero (suc b) c h k l = elim k [ ]
and-assoc-below zero zero zero (suc c) h k l = elim l [ ]
and-assoc-below (suc n) a b c h k l =
    rw
      (
        bit_and_step (bit_and a b) c,
        bit_and_step a (bit_and b c),
        (bit_and-half a b).0,
        (bit_and-half a b).1,
        (bit_and-half b c).0,
        (bit_and-half b c).1,
        and-assoc-below n (a / 2) (b / 2) (c / 2) (omega arith) (omega arith) (omega arith),
      )
      (omega arith)

pub bit_and_assoc : (a b c : ℕ) → bit_and (bit_and a b) c ≡ bit_and a (bit_and b c)
bit_and_assoc a b c = and-assoc-below (a + b + c) a b c (omega arith) (omega arith) (omega arith)
