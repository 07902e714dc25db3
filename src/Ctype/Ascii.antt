-- ===== src/Ctype/Ascii.antt =====
-- The classes of the C locale, by the code of the character: what the table of src/libc/ctype.c is
-- compared with.
use libc6_shim.Prelude.{ℕ, ◌+◌, leb, ltb, ◌==◌, Bool, not, ◌&&◌, ◌||◌, if◌then◌else◌}

abbrev pub between : ℕ → ℕ → ℕ → Bool
between lo hi c = leb lo c && leb c hi

abbrev pub is_upper : ℕ → Bool
is_upper c = between b'A' b'Z' c

abbrev pub is_lower : ℕ → Bool
is_lower c = between b'a' b'z' c

abbrev pub is_digit : ℕ → Bool
is_digit c = between b'0' b'9' c

abbrev pub is_alpha : ℕ → Bool
is_alpha c = is_upper c || is_lower c

abbrev pub is_xdigit : ℕ → Bool
is_xdigit c = is_digit c || (between b'A' b'F' c || between b'a' b'f' c)

abbrev pub is_blank : ℕ → Bool
is_blank c = c == b' ' || c == 9

abbrev pub is_space : ℕ → Bool
is_space c = c == b' ' || between 9 13 c

abbrev pub is_print : ℕ → Bool
is_print c = between b' ' b'~' c

abbrev pub is_graph : ℕ → Bool
is_graph c = between b'!' b'~' c

abbrev pub is_cntrl : ℕ → Bool
is_cntrl c = ltb c 32 || c == 127

abbrev pub is_alnum : ℕ → Bool
is_alnum c = is_alpha c || is_digit c

abbrev pub is_punct : ℕ → Bool
is_punct c = is_graph c && not (is_alnum c)

abbrev bit : Bool → ℕ → ℕ
bit b mask = if b then mask else 0

-- The word that glibc's macros test, on a machine with the low byte first.
abbrev pub classes : ℕ → ℕ
classes c =
    bit (is_upper c) 0x100
    + bit (is_lower c) 0x200
    + bit (is_alpha c) 0x400
    + bit (is_digit c) 0x800
    + bit (is_xdigit c) 0x1000
    + bit (is_space c) 0x2000
    + bit (is_print c) 0x4000
    + bit (is_graph c) 0x8000
    + bit (is_blank c) 0x1
    + bit (is_cntrl c) 0x2
    + bit (is_punct c) 0x4
    + bit (is_alnum c) 0x8
