-- ===== src/CArray.antt =====
-- Character arrays of C: the string that an array holds, and the bounded copies into one.
use libc6_shim.Prelude.{
  ℕ, zero, suc, ◌-◌, ◌≤◌, ◌<◌, List, [], ◌∷◌, ◌++◌, ◌==◌, if◌then◌else◌, take, length, ◌≡◌, ◌≢◌,
  refl, ap, arith,
}
use libc6_shim.CString.{CString}

-- The characters before the first nul. An array without one holds no string; where the source
-- would read past its end, this stops there.
unfoldable pub c_str : List ℕ → CString
c_str [] = []
c_str (b ∷ bs) = let rest = c_str bs in if b == 0 then [] else b ∷ rest

-- The array after bytes have been written at its start; it does not grow.
unfoldable pub overwrite : List ℕ → List ℕ → List ℕ
overwrite [] bytes = []
overwrite (d ∷ ds) [] = d ∷ ds
overwrite (d ∷ ds) (b ∷ bs) = b ∷ overwrite ds bs

-- `strlcpy(dest, s, sizeof(dest))` and `snprintf` of a whole text: what does not fit is cut off,
-- and a nul follows.
unfoldable pub copy_bounded : List ℕ → CString → List ℕ
copy_bounded dest s = overwrite dest (take (length dest - 1) s ++ (0 ∷ []))

-- No character is nul.
abbrev pub IsString : CString → Type 0
IsString [] = Unit {0}
IsString (x ∷ s) = (x ≢ 0) × IsString s

pub c_str-IsString : (bs : List ℕ) → IsString (c_str bs)
unfolding c_str
c_str-IsString [] = tt
c_str-IsString (b ∷ bs) = ground (arith, c_str-IsString bs)

pub take-all : (n : ℕ) (s : CString) → length s ≤ n → take n s ≡ s
take-all zero [] h = refl
take-all zero (x ∷ s) h = elim h [ ]
take-all (suc n) [] h = refl
take-all (suc n) (x ∷ s) h = ap (λ r. x ∷ r) (take-all n s (omega arith))

pub c_str-overwrite :
    (dest : List ℕ) (s : CString)
    → IsString s
    → length s < length dest
    → c_str (overwrite dest (s ++ (0 ∷ []))) ≡ s
unfolding c_str overwrite
c_str-overwrite [] s h k = elim k [ ]
c_str-overwrite (d ∷ ds) [] h k = refl
c_str-overwrite (d ∷ ds) (x ∷ s) h k = ground (arith, c_str-overwrite ds s h.1 (omega arith))

-- A string that fits is there afterwards.
pub c_str-copy_bounded :
    (dest : List ℕ) (s : CString)
    → IsString s
    → length s < length dest
    → c_str (copy_bounded dest s) ≡ s
unfolding copy_bounded
c_str-copy_bounded dest s h k =
    rw (take-all (length dest - 1) s (omega arith)) (c_str-overwrite dest s h k)

pub length-overwrite : (dest bytes : List ℕ) → length (overwrite dest bytes) ≡ length dest
unfolding overwrite
length-overwrite [] bytes = refl
length-overwrite (d ∷ ds) [] = refl
length-overwrite (d ∷ ds) (b ∷ bs) = ap suc (length-overwrite ds bs)

pub length-copy_bounded : (dest : List ℕ) (s : CString) → length (copy_bounded dest s) ≡ length dest
unfolding copy_bounded
length-copy_bounded dest s = length-overwrite dest (take (length dest - 1) s ++ (0 ∷ []))
