-- ===== src/CString.antt =====
-- C strings as the list of their characters, without the final nul, and the tests of <string.h>.
use Prim.Native.String.{String}
use Prim.Native.Char.{code}
use libc6_shim.Prelude.{
  ◌≢◌, ◌⊎◌, inl, inr, Bool-cases, subst, ◌↔◌, ℕ, List, [], ◌∷◌, ◌++◌, drop, length, ◌==◌, Bool,
  true, false, ◌&&◌, ◌≡◌, refl, arith,
}

abbrev pub CString : Type 0
CString = List ℕ

abbrev pub codes : String → CString
codes String.[] = []
codes (String.◌∷◌ c s) = code c ∷ codes s

-- `strcmp(s, t) == 0`
unfoldable pub str_eq : CString → CString → Bool
str_eq [] [] = true
str_eq [] (y ∷ t) = false
str_eq (x ∷ s) [] = false
str_eq (x ∷ s) (y ∷ t) = x == y && str_eq s t

-- `str_starts_with` of util.c: `strncmp(str, substr, strlen(substr)) == 0`.
unfoldable pub str_starts_with : CString → CString → Bool
str_starts_with s [] = true
str_starts_with [] (y ∷ t) = false
str_starts_with (x ∷ s) (y ∷ t) = x == y && str_starts_with s t

pub str_eq_refl : (s : CString) → str_eq s s ≡ true
unfolding str_eq
str_eq_refl [] = refl
str_eq_refl (x ∷ s) = ground (arith, str_eq_refl s)

pub str_eq→eq : (s t : CString) → str_eq s t ≡ true → s ≡ t
unfolding str_eq
str_eq→eq [] [] h = refl
str_eq→eq [] (y ∷ t) h = cc
str_eq→eq (x ∷ s) [] h = cc
str_eq→eq (x ∷ s) (y ∷ t) h = ground (arith, str_eq→eq s t)

pub str_eq-cases :
    (s t : CString) → ((s ≡ t) × (str_eq s t ≡ true)) ⊎ ((s ≢ t) × (str_eq s t ≡ false))
str_eq-cases s t = elim (Bool-cases (str_eq s t)) [
  | inl same ↦ inl (str_eq→eq s t same, same)
  | inr other ↦ inr (λ e. cc (other, subst (λ x. str_eq s x ≡ true) e (str_eq_refl s)), other)
]

pub str_eq_iff : (s t : CString) → (str_eq s t ≡ true) ↔ (s ≡ t)
str_eq_iff s t = (str_eq→eq s t, λ e. rw e (str_eq_refl t))

pub starts-append : (s t : CString) → str_starts_with (s ++ t) s ≡ true
unfolding str_starts_with
starts-append [] t = refl
starts-append (x ∷ s) t = ground (arith, starts-append s t)

pub drop-append : (s t : CString) → drop (length s) (s ++ t) ≡ t
drop-append [] t = refl
drop-append (x ∷ s) t = drop-append s t
