-- ===== src/Flags/Known.antt =====
-- The checks `assert((flags & ~KNOWN) == 0)` before a conversion.
use libc6_shim.Prelude.{
  refl, ℕ, zero, suc, ◌^◌, ◌<◌, bit_and, bit_or, Bool, true, false, ◌&&◌, ◌==◌, List, [], ◌∷◌, some,
  get_elem?, ◌≡◌, ◌∙◌, arith,
}
use libc6_shim.Bits.{
  bit_not32, bit_and_split, bit_and-le, bit_and-bit_or_right, bit_or-bit_and_absorb, bit_and_self,
  bit_or_comm, bit_and_comm, bit_and_of_not32,
}
use libc6_shim.Bits.{bit_and-pow_two}
use libc6_shim.Flags.{
  targets, Entry, translate, swap, sources, Apart, AtomSources, SeparateTargets, or_list, Within,
  TargetsWithin,
}
use libc6_shim.Prelude.{Bool-cases, inl, inr}
use libc6_shim.Bits.{zero-bit_and, bit_and-bit_or}
use libc6_shim.Flags.{has}
use libc6_shim.Flags.Laws.{chosen, translate-cons, bit_and-translate-Apart}
use libc6_shim.Flags.RoundTrip.{translate-swap}

-- A constant of a `|` lies within it.
pub Within-or_list : (fs : List ℕ) (i f : ℕ) → get_elem? fs i ≡ some f → Within f (or_list fs)
Within-or_list [] i f h = cc
Within-or_list (g ∷ fs) zero f h =
    let e : g ≡ f = cc in
    rw (e, bit_and-bit_or_right f f (or_list fs), bit_and_self f)
      (bit_or-bit_and_absorb f (or_list fs))
Within-or_list (g ∷ fs) (suc i) f h =
    rw (bit_and-bit_or_right f g (or_list fs), Within-or_list fs i f h, bit_or_comm (bit_and f g) f)
      (bit_or-bit_and_absorb f g)

-- What lies within a mask of 32 bits passes the check against it.
pub bit_and-bit_not32 : (x m : ℕ) → m < 2 ^ 32 → Within x m → bit_and x (bit_not32 m) ≡ 0
bit_and-bit_not32 x m h w =
    omega (arith, w, bit_and-le x m, bit_and_split 32 x m (omega (arith, w, bit_and-le x m)) h)

Apart-bit_not32 : (t : List Entry) (m : ℕ) → m < 2 ^ 32 → TargetsWithin t m → Apart (bit_not32 m) t
Apart-bit_not32 [] m h w = tt
Apart-bit_not32 (e ∷ t) m h w = (
  bit_and_comm (bit_not32 m) e.target ∙ bit_and-bit_not32 e.target m h w.0,
  Apart-bit_not32 t m h w.1,
)

-- What a conversion returns passes the check of the conversion back.
pub translate-known :
    (t : List Entry) (x m : ℕ)
    → m < 2 ^ 32
    → TargetsWithin t m
    → bit_and (translate t x 0) (bit_not32 m) ≡ 0
translate-known t x m h w = bit_and-translate-Apart (bit_not32 m) t x (Apart-bit_not32 t m h w)

-- A word that passes the check comes back as it was.
pub translate-swap_known :
    (t : List Entry) (x : ℕ)
    → x < 2 ^ 32
    → sources t < 2 ^ 32
    → AtomSources t
    → SeparateTargets t
    → bit_and x (bit_not32 (sources t)) ≡ 0
    → translate (swap t) (translate t x 0) 0 ≡ x
translate-swap_known t x h k a s e = translate-swap t x a s ∙ bit_and_of_not32 x (sources t) h k e

-- The bits at the given positions are the sources of the entries.
abbrev pub has_bits : List ℕ → List Entry → Bool
has_bits [] [] = true
has_bits [] (e ∷ t) = false
has_bits (k ∷ ks) [] = false
has_bits (k ∷ ks) (e ∷ t) = (e.source == 2 ^ k) && has_bits ks t

pub AtomSources-of_bits : (ks : List ℕ) (t : List Entry) → has_bits ks t ≡ true → AtomSources t
AtomSources-of_bits [] [] h = tt
AtomSources-of_bits [] (e ∷ t) h = cc
AtomSources-of_bits (k ∷ ks) [] h = cc
AtomSources-of_bits (k ∷ ks) (e ∷ t) h =
    let source : e.source ≡ 2 ^ k = ground arith in
    (rw source (bit_and-pow_two k), AtomSources-of_bits ks t (ground arith))

Within-bit_or : (x m f : ℕ) → Within x m → Within x (bit_or f m)
Within-bit_or x m f h =
    rw (bit_and-bit_or_right x f m, h, bit_or_comm (bit_and x f) x) (bit_or-bit_and_absorb x f)

TargetsWithin-bit_or : (t : List Entry) (m f : ℕ) → TargetsWithin t m → TargetsWithin t (bit_or f m)
TargetsWithin-bit_or [] m f h = tt
TargetsWithin-bit_or (e ∷ t) m f h =
    (Within-bit_or e.target m f h.0, TargetsWithin-bit_or t m f h.1)

-- The mask of all targets.
pub TargetsWithin-targets : (t : List Entry) → TargetsWithin t (targets t)
TargetsWithin-targets [] = tt
TargetsWithin-targets (e ∷ t) = (
  rw (bit_and-bit_or_right e.target e.target (targets t), bit_and_self e.target)
      (bit_or-bit_and_absorb e.target (targets t)),
  TargetsWithin-bit_or t (targets t) e.target (TargetsWithin-targets t),
)

-- What a conversion sets lies within any mask of its targets.
pub Within-translate : (t : List Entry) (x m : ℕ) → TargetsWithin t m → Within (translate t x 0) m
Within-translate [] x m h = unfold translate in zero-bit_and m
Within-translate (e ∷ t) x m h =
    rw
      (
        translate-cons e t x,
        bit_and-bit_or (chosen e x) (translate t x 0) m,
        Within-translate t x m h.1,
      )
      (elim (Bool-cases (has x e.source)) [
        | inl set ↦ rw (set, h.0) refl
        | inr unset ↦ rw (unset, zero-bit_and m) refl
      ])
