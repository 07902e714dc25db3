-- ===== src/Bits/Step.antt =====
-- One equation for the lowest digit of `bit_or` and of `bit_and`, from the digit recursion that the
-- native operations stand for.
use Prim.Native.Nat.{digits, bitwise, bit_and-bitwise, bit_or-bitwise}
use native.Mathlib.Nat.{le_refl}
use libc6_shim.Prelude.{
  sym, ℕ, zero, suc, ◌+◌, ◌*◌, ◌/◌, ◌%◌, ◌≤◌, min, max, bit_and, bit_or, ◌≡◌, refl, arith,
}

module _ (keep : ℕ → ℕ) (op : ℕ → ℕ → ℕ) where
  -- Fuel beyond the first operand changes no digit.
  more_fuel : (b a m n : ℕ) → a ≤ m → m ≤ n → digits keep op m a b ≡ digits keep op n a b
  more_fuel b zero zero zero h k = refl
  more_fuel b zero zero (suc n) h k = refl
  more_fuel b zero (suc m) (suc n) h k = refl
  more_fuel b zero (suc m) zero h k = elim k [ ]
  more_fuel b (suc a) zero n h k = elim h [ ]
  more_fuel b (suc a) (suc m) zero h k = elim k [ ]
  more_fuel b (suc a) (suc m) (suc n) h k =
      rw (more_fuel (b / 2) (suc a / 2) m n (omega arith) (omega arith))

  lowest_digit :
      (b a : ℕ)
      → op (suc a % 2) (b % 2) + 2 * bitwise keep op (suc a / 2) (b / 2) ≡ bitwise keep op (suc a) b
  lowest_digit b a =
      omega (arith, more_fuel (b / 2) (suc a / 2) (suc a / 2) a (le_refl _) (omega arith))

pub bit_and_step : (a b : ℕ) → bit_and a b ≡ min (a % 2) (b % 2) + 2 * bit_and (a / 2) (b / 2)
bit_and_step zero b = simp bit_and-bitwise (omega arith)
bit_and_step (suc a) b = simp bit_and-bitwise (sym (lowest_digit (λ rest. 0) min b a))

pub bit_or_step : (a b : ℕ) → bit_or a b ≡ max (a % 2) (b % 2) + 2 * bit_or (a / 2) (b / 2)
bit_or_step zero b = simp bit_or-bitwise (omega arith)
bit_or_step (suc a) b = simp bit_or-bitwise (sym (lowest_digit (λ rest. rest) max b a))
