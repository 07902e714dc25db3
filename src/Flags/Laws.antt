-- ===== src/Flags/Laws.antt =====
-- What `translate` computes, flag by flag.
use libc6_shim.Prelude.{
  ℕ, bit_and, bit_or, List, [], ◌∷◌, if◌then◌else◌, ◌≡◌, sym, ◌∙◌, inl, inr, Bool-cases,
}
use libc6_shim.Bits.{
  bit_or_assoc, bit_or-zero, zero-bit_or, bit_and-bit_or, zero-bit_and, bit_and_comm,
}
use libc6_shim.Flags.{Entry, has, translate, Apart}

-- What one entry contributes.
abbrev pub chosen : Entry → ℕ → ℕ
chosen e x = if has x e.source then e.target else 0

pub add_chosen :
    (e : Entry) (x acc : ℕ)
    → (if has x e.source then bit_or acc e.target else acc) ≡ bit_or acc (chosen e x)
add_chosen e x acc = elim (Bool-cases (has x e.source)) [
  | inl set ↦ rw set
  | inr unset ↦ rw unset (sym (bit_or-zero acc))
]

-- The order of the flags that were set before does not matter.
pub translate-acc : (t : List Entry) (x acc : ℕ) → translate t x acc ≡ bit_or acc (translate t x 0)
unfolding translate
translate-acc [] x acc = sym (bit_or-zero acc)
translate-acc (e ∷ t) x acc =
    rw
      (
        add_chosen e x acc,
        add_chosen e x 0,
        zero-bit_or (chosen e x),
        translate-acc t x (bit_or acc (chosen e x)),
        translate-acc t x (chosen e x),
      )
      (bit_or_assoc acc (chosen e x) (translate t x 0))

pub translate-cons :
    (e : Entry) (t : List Entry) (x : ℕ)
    → translate (e ∷ t) x 0 ≡ bit_or (chosen e x) (translate t x 0)
translate-cons e t x =
    let open_ : translate (e ∷ t) x 0 ≡ translate t x (chosen e x) =
      unfold translate in rw (add_chosen e x 0, zero-bit_or (chosen e x)) in
    open_ ∙ translate-acc t x (chosen e x)

-- A flag that shares no bit with the targets is not set.
pub bit_and-translate-Apart :
    (b : ℕ) (t : List Entry) (x : ℕ) → Apart b t → bit_and (translate t x 0) b ≡ 0
bit_and-translate-Apart b [] x h = unfold translate in zero-bit_and b
bit_and-translate-Apart b (e ∷ t) x h =
    rw
      (
        translate-cons e t x,
        bit_and-bit_or (chosen e x) (translate t x 0) b,
        bit_and-translate-Apart b t x h.1,
        bit_or-zero (bit_and (chosen e x) b),
      )
      (elim (Bool-cases (has x e.source)) [
        | inl set ↦ rw set (bit_and_comm e.target b ∙ h.0)
        | inr unset ↦ rw unset (zero-bit_and b)
      ])
