-- ===== src/Flags/Has.antt =====
-- Which flags a conversion sets, where its targets may overlap.
use libc6_shim.Prelude.{
  ℕ, bit_and, bit_or, Bool, true, false, not, ◌&&◌, ◌||◌, List, [], ◌∷◌, ◌==◌, ◌≡◌, ◌≢◌, refl, inl,
  inr, Bool-cases, ==-cases, ne→==, arith,
}
use libc6_shim.Bits.{
  bit_and-bit_or, bit_or-add-bit_and, bit_and-le, zero-bit_and, zero-bit_or, bit_and_self,
  bit_and_comm,
}
use libc6_shim.Flags.{Entry, has, translate}

or-not_zero : (x y : ℕ) → not (bit_or x y == 0) ≡ not (x == 0) || not (y == 0)
or-not_zero x y = elim (==-cases x 0) [
  | inl (e, test) ↦ rw (e, zero-bit_or y) refl
  | inr (ne, test) ↦
      let positive : bit_or x y ≢ 0 = omega (arith, ne, bit_or-add-bit_and x y, bit_and-le x y) in
      rw (test, ne→== (bit_or x y) 0 positive) refl
]

-- `(a | b) & c` is not 0 exactly if one of the two is not.
pub has-bit_or : (a b c : ℕ) → has (bit_or a b) c ≡ has a c || has b c
has-bit_or a b c = rw (bit_and-bit_or a b c) (or-not_zero (bit_and a c) (bit_and b c))

-- Some entry whose source is set has the flag among its targets.
abbrev pub sets : List Entry → ℕ → ℕ → Bool
sets [] x f = false
sets (e ∷ t) x f = (has x e.source && has e.target f) || sets t x f

has-translate_acc :
    (t : List Entry) (x acc f : ℕ) → has (translate t x acc) f ≡ has acc f || sets t x f
unfolding translate
has-translate_acc [] x acc f = ground arith
has-translate_acc (e ∷ t) x acc f = elim (Bool-cases (has x e.source)) [
  | inl on ↦
      ground (arith, on, has-translate_acc t x (bit_or acc e.target) f, has-bit_or acc e.target f)
  | inr off ↦ ground (arith, off, has-translate_acc t x acc f)
]

pub has-translate : (t : List Entry) (x f : ℕ) → has (translate t x 0) f ≡ sets t x f
has-translate t x f = ground (arith, has-translate_acc t x 0 f, zero-bit_and f)

pub has_self : (a : ℕ) → a ≢ 0 → has a a ≡ true
has_self a h = rw (bit_and_self a, ne→== a 0 h) refl

-- Masks without a common bit.
pub has_apart : (a b : ℕ) → bit_and a b ≡ 0 → (has a b ≡ false) × (has b a ≡ false)
has_apart a b h = (rw h refl, rw (bit_and_comm b a, h) refl)
