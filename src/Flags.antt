-- ===== src/Flags.antt =====
-- The shape that all flag conversions of the shim share: a word is built up from nothing, one
-- `if (linux_flags & LINUX_X) flags |= X;` after the other.
pub mod Laws
pub mod RoundTrip
pub mod Known
pub mod Has
pub mod Each
use libc6_shim.Prelude.{
  ℕ, bit_and, bit_or, Bool, not, List, [], ◌∷◌, ◌==◌, if◌then◌else◌, ◌≡◌, ◌≢◌, ◌⊎◌,
}

-- One `if` of such a conversion: the flag that it tests, and the one that it sets.
pub record Entry : Type 0 where
  pub source : ℕ
  pub target : ℕ

infix 60 ◌⇒◌
abbrev pub ◌⇒◌ : ℕ → ℕ → Entry
a ⇒ b = record { source = a; target = b }

-- `x & f` as a condition.
abbrev pub has : ℕ → ℕ → Bool
has x f = not (bit_and x f == 0)

-- The `if`s in order, from the flags that are set already.
unfoldable pub translate : List Entry → ℕ → ℕ → ℕ
translate [] x acc = acc
translate (e ∷ t) x acc = translate t x (if has x e.source then bit_or acc e.target else acc)

-- The entries with their sides exchanged: the conversion back.
abbrev pub swap : List Entry → List Entry
swap [] = []
swap (e ∷ t) = (e.target ⇒ e.source) ∷ swap t

-- All the flags that a conversion tests, and all that it sets.
abbrev pub sources : List Entry → ℕ
sources [] = 0
sources (e ∷ t) = bit_or e.source (sources t)

abbrev pub targets : List Entry → ℕ
targets [] = 0
targets (e ∷ t) = bit_or e.target (targets t)

-- A mask that no word meets in part, as that of one bit.
abbrev pub IsAtom : ℕ → Type 0
IsAtom a = (x : ℕ) → (bit_and x a ≡ 0) ⊎ (bit_and x a ≡ a)

abbrev pub AtomSources : List Entry → Type 0
AtomSources [] = Unit {0}
AtomSources (e ∷ t) = IsAtom e.source × AtomSources t

-- The flags that are set are none of them empty, and share no bit.
abbrev pub Apart : ℕ → List Entry → Type 0
Apart b [] = Unit {0}
Apart b (e ∷ t) = (bit_and b e.target ≡ 0) × Apart b t

abbrev pub SeparateTargets : List Entry → Type 0
SeparateTargets [] = Unit {0}
SeparateTargets (e ∷ t) = (e.target ≢ 0) × Apart e.target t × SeparateTargets t

-- Constants joined by `|`, as in the KNOWN_ masks.
abbrev pub or_list : List ℕ → ℕ
or_list [] = 0
or_list (f ∷ fs) = bit_or f (or_list fs)

-- All bits of the word are bits of the mask.
abbrev pub Within : ℕ → ℕ → Type 0
Within x m = bit_and x m ≡ x

abbrev pub TargetsWithin : List Entry → ℕ → Type 0
TargetsWithin [] m = Unit {0}
TargetsWithin (e ∷ t) m = Within e.target m × TargetsWithin t m
