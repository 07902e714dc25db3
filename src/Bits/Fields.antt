-- ===== src/Bits/Fields.antt =====
-- Words that are put together from fields: masks of low and high bits, and parts that share no bits.
use libc6_shim.Prelude.{
  ℕ, zero, suc, ◌+◌, ◌-◌, ◌*◌, ◌/◌, ◌%◌, ◌^◌, ◌≤◌, ◌<◌, bit_and, bit_or, ◌≡◌, subst, arith,
}
use native.Mathlib.Nat.{mod-lt, div-add-mod'}
use libc6_shim.Bits.Step.{bit_and_step}
use libc6_shim.Bits.Laws.{bit_and-zero}
use libc6_shim.Bits.Width.{bit_or-add-bit_and, bit_and_split, zero-bit_and}

power_doubles : (b k : ℕ) → b * 2 ^ suc k ≡ 2 * (b * 2 ^ k)
power_doubles b k = grind arith

-- Below the bit `k`, and from it on, there is nothing in common.
pub bit_and-apart : (k a b : ℕ) → a < 2 ^ k → bit_and a (b * 2 ^ k) ≡ 0
bit_and-apart zero a b h =
    let none_below : a ≡ 0 = omega (arith, h) in rw none_below (zero-bit_and (b * 2 ^ 0))
bit_and-apart (suc k) a b h =
    let doubled : b * 2 ^ suc k ≡ 2 * (b * 2 ^ k) = power_doubles b k in
    let halved : (b * 2 ^ suc k) / 2 ≡ b * 2 ^ k = omega (arith, doubled) in
    let half : bit_and (a / 2) ((b * 2 ^ suc k) / 2) ≡ 0 =
      rw halved (bit_and-apart k (a / 2) b (omega (arith, h))) in
    omega (arith, doubled, half, bit_and_step a (b * 2 ^ suc k))

-- There `|` is a sum.
pub bit_or-apart : (k a b : ℕ) → a < 2 ^ k → bit_or a (b * 2 ^ k) ≡ a + b * 2 ^ k
bit_or-apart k a b h = omega (arith, bit_or-add-bit_and a (b * 2 ^ k), bit_and-apart k a b h)

pow_pos : (k : ℕ) → 0 < 2 ^ k
pow_pos zero = omega arith
pow_pos (suc k) = omega (arith, pow_pos k)

pow_le : (k w : ℕ) → k ≤ w → 2 ^ k ≤ 2 ^ w
pow_le zero w h = pow_pos w
pow_le (suc k) zero h = elim h [ ]
pow_le (suc k) (suc w) h = omega (arith, pow_le k w (omega (arith, h)))

-- `x & (2 ^ k - 1)`, for a word of the digits `q` and `r`.
bit_and-digits : (k q r : ℕ) → r < 2 ^ k → bit_and (q * 2 ^ k + r) (2 ^ k - 1) ≡ r
bit_and-digits zero q r h =
    let no_rest : r ≡ 0 = omega (arith, h) in rw no_rest (bit_and-zero (q * 2 ^ 0 + 0))
bit_and-digits (suc k) q r h =
    let doubled : q * 2 ^ suc k ≡ 2 * (q * 2 ^ k) = power_doubles q k in
    let halved : (q * 2 ^ suc k + r) / 2 ≡ q * 2 ^ k + r / 2 = omega (arith, doubled) in
    let mask : (2 ^ suc k - 1) / 2 ≡ 2 ^ k - 1 = omega arith in
    let half : bit_and ((q * 2 ^ suc k + r) / 2) ((2 ^ suc k - 1) / 2) ≡ r / 2 =
      rw (halved, mask) (bit_and-digits k q (r / 2) (omega (arith, h))) in
    omega (arith, doubled, half, bit_and_step (q * 2 ^ suc k + r) (2 ^ suc k - 1))

pub bit_and-low : (k x : ℕ) → bit_and x (2 ^ k - 1) ≡ x % 2 ^ k
bit_and-low k x =
    subst (λ y. bit_and y (2 ^ k - 1) ≡ x % 2 ^ k) (div-add-mod' x (2 ^ k))
      (bit_and-digits k (x / 2 ^ k) (x % 2 ^ k) (mod-lt x (pow_pos k)))

-- The mask of the bits from `k` on, in a word of `w` bits.
pub bit_and-high : (w k x : ℕ) → k ≤ w → x < 2 ^ w → bit_and x (2 ^ w - 2 ^ k) ≡ (x / 2 ^ k) * 2 ^ k
bit_and-high w k x h b =
    let split : bit_and x (2 ^ k - 1) + bit_and x (2 ^ w - 1 - (2 ^ k - 1)) ≡ x =
      bit_and_split w x (2 ^ k - 1) b (omega (arith, pow_le k w h, pow_pos k)) in
    let mask : 2 ^ w - 1 - (2 ^ k - 1) ≡ 2 ^ w - 2 ^ k = omega (arith, pow_le k w h, pow_pos k) in
    let high : x % 2 ^ k + bit_and x (2 ^ w - 2 ^ k) ≡ x =
      subst (λ y. x % 2 ^ k + bit_and x y ≡ x) mask
        (subst (λ y. y + bit_and x (2 ^ w - 1 - (2 ^ k - 1)) ≡ x) (bit_and-low k x) split) in
    omega (arith, high, div-add-mod' x (2 ^ k))
