-- ===== src/Bits/Width.antt =====
-- Sums, complements within a width, and masks of one bit.
use native.Mathlib.Nat.{pow-suc}
use libc6_shim.Prelude.{
  ℕ, zero, suc, ◌+◌, ◌-◌, ◌/◌, ◌^◌, ◌≤◌, ◌<◌, bit_and, bit_or, ◌≡◌, refl, ◌∙◌, ap, ◌⊎◌, inl, inr,
  arith,
}
use libc6_shim.Bits.Step.{bit_or_step, bit_and_step}
use libc6_shim.Bits.Laws.{bit_and-zero, bit_and_comm, bit_or-zero, bit_or_comm}

or-add-and-below : (n a b : ℕ) → a ≤ n → b ≤ n → bit_or a b + bit_and a b ≡ a + b
or-add-and-below zero zero zero h k = refl
or-add-and-below zero (suc a) b h k = elim h [ ]
or-add-and-below zero zero (suc b) h k = elim k [ ]
or-add-and-below (suc n) a b h k = omega (
  arith,
  bit_or_step a b,
  bit_and_step a b,
  or-add-and-below n (a / 2) (b / 2) (omega arith) (omega arith),
)

pub bit_or-add-bit_and : (a b : ℕ) → bit_or a b + bit_and a b ≡ a + b
bit_or-add-bit_and a b = or-add-and-below (a + b) a b (omega arith) (omega arith)

-- `a & a` and `a | a` are `a`.
pub bit_and_self : (a : ℕ) → bit_and a a ≡ a
bit_and_self a = self-below a a (omega arith)
  where
    self-below : (n b : ℕ) → b ≤ n → bit_and b b ≡ b
    self-below n zero h = refl
    self-below zero (suc b) h = elim h [ ]
    self-below (suc n) (suc b) h =
        omega (arith, bit_and_step (suc b) (suc b), self-below n (suc b / 2) (omega arith))

pub zero-bit_and : (a : ℕ) → bit_and 0 a ≡ 0
zero-bit_and a = bit_and_comm 0 a ∙ bit_and-zero a

pub zero-bit_or : (a : ℕ) → bit_or 0 a ≡ a
zero-bit_or a = bit_or_comm 0 a ∙ bit_or-zero a

-- A mask and its complement split a word of `w` bits.
pub bit_and_split :
    (w x m : ℕ) → x < 2 ^ w → m < 2 ^ w → bit_and x m + bit_and x (2 ^ w - 1 - m) ≡ x
bit_and_split zero zero zero h k = refl
bit_and_split zero zero (suc m) h k = absurd (omega arith)
bit_and_split zero (suc x) m h k = absurd (omega arith)
bit_and_split (suc w) x m h k = omega (
  arith,
  pow-suc 2 w,
  bit_and_step x m,
  bit_and_step x (2 ^ suc w - 1 - m),
  ap (bit_and (x / 2)) halves,
  bit_and_split w (x / 2) (m / 2) (omega (arith, pow-suc 2 w)) (omega (arith, pow-suc 2 w)),
)
  where
    halves : (2 ^ suc w - 1 - m) / 2 ≡ 2 ^ w - 1 - m / 2
    halves = omega (arith, pow-suc 2 w)

-- A mask of one bit meets a word in nothing or in itself.
pub bit_and-pow_two : (k x : ℕ) → (bit_and x (2 ^ k) ≡ 0) ⊎ (bit_and x (2 ^ k) ≡ 2 ^ k)
bit_and-pow_two zero x = omega (arith, bit_and_step x 1, bit_and-zero (x / 2))
bit_and-pow_two (suc k) x = go (bit_and-pow_two k (x / 2))
  where
    half : (2 ^ suc k) / 2 ≡ 2 ^ k
    half = omega (arith, pow-suc 2 k)

    go :
        (bit_and (x / 2) (2 ^ k) ≡ 0) ⊎ (bit_and (x / 2) (2 ^ k) ≡ 2 ^ k)
        → (bit_and x (2 ^ suc k) ≡ 0) ⊎ (bit_and x (2 ^ suc k) ≡ 2 ^ suc k)
    go (inl e) =
        inl (omega (arith, pow-suc 2 k, bit_and_step x (2 ^ suc k), ap (bit_and (x / 2)) half))
    go (inr e) =
        inr (omega (arith, pow-suc 2 k, bit_and_step x (2 ^ suc k), ap (bit_and (x / 2)) half))

-- `~ m` of a word of 32 bits.
abbrev pub bit_not32 : ℕ → ℕ
bit_not32 m = 2 ^ 32 - 1 - m

-- No bit outside the mask: the word is its own part under the mask.
pub bit_and_of_not32 :
    (x m : ℕ) → x < 2 ^ 32 → m < 2 ^ 32 → bit_and x (bit_not32 m) ≡ 0 → bit_and x m ≡ x
bit_and_of_not32 x m h k e = omega (arith, bit_and_split 32 x m h k)
