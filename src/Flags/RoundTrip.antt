-- ===== src/Flags/RoundTrip.antt =====
-- A conversion, and the one with its sides exchanged, undo one another.
use libc6_shim.Prelude.{
  ℕ, bit_and, bit_or, not, List, [], ◌∷◌, ◌==◌, if◌then◌else◌, ◌≡◌, ◌≢◌, refl, sym, inl, inr,
  Bool-cases, arith,
}
use libc6_shim.Bits.{
  bit_or_assoc, bit_or-zero, zero-bit_or, bit_and-bit_or, zero-bit_and, bit_and_self,
  bit_and-bit_or_right, bit_and-zero,
}
use libc6_shim.Flags.{
  Entry, has, translate, swap, sources, Apart, IsAtom, AtomSources, SeparateTargets, ◌⇒◌,
}
use libc6_shim.Flags.Laws.{chosen, translate-cons, bit_and-translate-Apart}

-- `y` has the targets of exactly those entries whose source `x` has.
abbrev pub Agrees : List Entry → ℕ → ℕ → Type 0
Agrees [] y x = Unit {0}
Agrees (e ∷ t) y x = (has y e.target ≡ has x e.source) × Agrees t y x

-- What an entry contributes is found again under its target, if that is not empty.
bit_and-chosen :
    (e : Entry) (x : ℕ) → e.target ≢ 0 → not (bit_and (chosen e x) e.target == 0) ≡ has x e.source
bit_and-chosen e x h = elim (Bool-cases (has x e.source)) [
  | inl set ↦ rw (set, bit_and_self e.target) (ground arith)
  | inr unset ↦ rw (unset, zero-bit_and e.target)
]

zero-Apart : (u : List Entry) → Apart 0 u
zero-Apart [] = tt
zero-Apart (d ∷ u) = (zero-bit_and d.target, zero-Apart u)

Apart-bit_or : (a b : ℕ) (t : List Entry) → Apart a t → Apart b t → Apart (bit_or a b) t
Apart-bit_or a b [] h k = tt
Apart-bit_or a b (e ∷ t) h k =
    (rw (bit_and-bit_or a b e.target, h.0, k.0) refl, Apart-bit_or a b t h.1 k.1)

Apart-chosen : (e : Entry) (x : ℕ) (t : List Entry) → Apart e.target t → Apart (chosen e x) t
Apart-chosen e x t h = elim (Bool-cases (has x e.source)) [
  | inl set ↦ rw set h
  | inr unset ↦ rw unset (zero-Apart t)
]

head-Agrees :
    (e : Entry) (t : List Entry) (x z : ℕ)
    → SeparateTargets (e ∷ t)
    → Apart z (e ∷ t)
    → has (bit_or z (translate (e ∷ t) x 0)) e.target ≡ has x e.source
head-Agrees e t x z s a =
    rw
      (
        translate-cons e t x,
        bit_and-bit_or z (bit_or (chosen e x) (translate t x 0)) e.target,
        a.0,
        zero-bit_or (bit_and (bit_or (chosen e x) (translate t x 0)) e.target),
        bit_and-bit_or (chosen e x) (translate t x 0) e.target,
        bit_and-translate-Apart e.target t x s.1,
        bit_or-zero (bit_and (chosen e x) e.target),
      )
      (bit_and-chosen e x s.0)

pub translate-Agrees :
    (t : List Entry) (x z : ℕ)
    → SeparateTargets t
    → Apart z t
    → Agrees t (bit_or z (translate t x 0)) x
translate-Agrees [] x z s a = tt
translate-Agrees (e ∷ t) x z s a = (
  head-Agrees e t x z s a,
  rw (translate-cons e t x, ← bit_or_assoc z (chosen e x) (translate t x 0))
      (translate-Agrees t x (bit_or z (chosen e x)) s.2
        (Apart-bit_or z (chosen e x) t a.1 (Apart-chosen e x t s.1))),
)

-- What is set is what was tested, flag by flag.
pub translate-tracks : (t : List Entry) (x : ℕ) → SeparateTargets t → Agrees t (translate t x 0) x
translate-tracks t x s =
    rw (← zero-bit_or (translate t x 0)) (translate-Agrees t x 0 s (zero-Apart t))

-- Under an atom a word has all of it or nothing.
atom-chosen : (a x : ℕ) → IsAtom a → (if has x a then a else 0) ≡ bit_and x a
atom-chosen a x h = elim (h x) [ inl e ↦ ground (arith, e) | inr e ↦ ground (arith, e) ]

pub swap-collects :
    (t : List Entry) (x y : ℕ)
    → AtomSources t
    → Agrees t y x
    → translate (swap t) y 0 ≡ bit_and x (sources t)
swap-collects [] x y h g = unfold translate in sym (bit_and-zero x)
swap-collects (e ∷ t) x y h g =
    rw
      (
        translate-cons (e.target ⇒ e.source) (swap t) y,
        swap-collects t x y h.1 g.1,
        g.0,
        atom-chosen e.source x h.0,
        bit_and-bit_or_right x e.source (sources t),
      )
      refl

-- There and back a conversion keeps exactly the flags that it knows.
pub translate-swap :
    (t : List Entry) (x : ℕ)
    → AtomSources t
    → SeparateTargets t
    → translate (swap t) (translate t x 0) 0 ≡ bit_and x (sources t)
translate-swap t x h s = swap-collects t x (translate t x 0) h agrees
  where
    agrees : Agrees t (translate t x 0) x
    agrees = translate-tracks t x s
