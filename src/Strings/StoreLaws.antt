-- ===== src/Strings/StoreLaws.antt =====
-- Writes within an array, and the string that is there afterwards.
use libc6_shim.Prelude.{
  ℕ, zero, suc, ◌+◌, ◌≤◌, ◌<◌, ◌≡◌, inl, inr, refl, ap, List, [], ◌∷◌, ◌++◌, some, take, drop,
  length, le→leb, Bool-cases, length-append, length-take, length-drop, ◌==◌, ne→==, arith,
}
use libc6_shim.CString.{CString}
use libc6_shim.CArray.{c_str, IsString, c_str-IsString}
use libc6_shim.Strings.{store}

-- The string of an array begins the array.
take-c_str : (d : List ℕ) → take (length (c_str d)) d ≡ c_str d
unfolding c_str
take-c_str [] = refl
take-c_str (b ∷ bs) = elim (Bool-cases (b == 0)) [
  | inl e ↦ rw e refl
  | inr e ↦ rw e (ap (λ r. b ∷ r) (take-c_str bs))
]

length-c_str : (d : List ℕ) → length (c_str d) ≤ length d
unfolding c_str
length-c_str [] = omega arith
length-c_str (b ∷ bs) = ground (arith, length-c_str bs)

c_str-until : (s rest : List ℕ) → IsString s → c_str (s ++ (0 ∷ rest)) ≡ s
unfolding c_str
c_str-until [] rest h = refl
c_str-until (x ∷ s) rest (ne, h) = rw (ne→== x 0 ne, c_str-until s rest h) refl

c_str-append :
    (t s rest : List ℕ) → IsString t → IsString s → c_str (t ++ ((s ++ (0 ∷ [])) ++ rest)) ≡ t ++ s
unfolding c_str
c_str-append [] [] rest h k = refl
c_str-append [] (x ∷ s) rest h (ne, k) =
    rw (ne→== x 0 ne) (ap (λ r. x ∷ r) (c_str-append [] s rest h k))
c_str-append (x ∷ t) s rest (ne, h) k =
    rw (ne→== x 0 ne) (ap (λ r. x ∷ r) (c_str-append t s rest h k))

pub store-Stores :
    (bytes dest : List ℕ)
    → length bytes ≤ length dest
    → store 0 bytes dest ≡ some (bytes ++ drop (length bytes) dest)
unfolding store
store-Stores bytes dest h =
    let at_start : 0 + length bytes ≡ length bytes = omega arith in
    rw (at_start, le→leb (length bytes) (length dest) h) refl

-- A string that is put behind the one in the array.
pub store-appends :
    (s dest : List ℕ)
    → IsString s
    → length s + length (c_str dest) < length dest
    → (d : List ℕ) × (store (length (c_str dest)) (s ++ (0 ∷ [])) dest ≡ some d)
      × (length d ≡ length dest)
      × (c_str d ≡ c_str dest ++ s)
unfolding store
store-appends s dest h fits =
    let t = c_str dest in
    let bytes = s ++ (0 ∷ []) in
    let size : length bytes ≡ length s + 1 = length-append s (0 ∷ []) in
    let rest = drop (length t + length bytes) dest in
    (
      take (length t) dest ++ (bytes ++ rest),
      rw (le→leb (length t + length bytes) (length dest) (omega (arith, size, fits))) refl,
      omega (
        arith,
        length-append (take (length t) dest) (bytes ++ rest),
        length-append bytes rest,
        length-take (length t) dest,
        length-drop (length t + length bytes) dest,
        length-c_str dest,
        size,
        fits,
      ),
      rw (take-c_str dest) (c_str-append t s rest (c_str-IsString dest) h),
    )

pub take-IsString : (n : ℕ) (s : CString) → IsString s → IsString (take n s)
take-IsString zero s h = tt
take-IsString (suc n) [] h = tt
take-IsString (suc n) (x ∷ s) (ne, h) = (ne, take-IsString n s h)

-- A string from the start of an array.
pub store-copies :
    (s dest : List ℕ)
    → IsString s
    → length s < length dest
    → (d : List ℕ) × (store 0 (s ++ (0 ∷ [])) dest ≡ some d)
      × (length d ≡ length dest)
      × (c_str d ≡ s)
store-copies s dest h fits =
    let bytes = s ++ (0 ∷ []) in
    let size : length bytes ≡ length s + 1 = length-append s (0 ∷ []) in
    let rest = drop (length bytes) dest in
    (
      bytes ++ rest,
      store-Stores bytes dest (omega (arith, size, fits)),
      omega (arith, length-append bytes rest, length-drop (length bytes) dest, size, fits),
      c_str-append [] s rest tt h,
    )
