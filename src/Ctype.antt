-- ===== src/Ctype.antt =====
-- src/libc/ctype.c: the tables behind the macros of <ctype.h>, which a program indexes by a character
-- from -128, a negative `char`, to 255; -1 is EOF. The pointers are to the entry for 0.
pub mod Ascii
pub mod Laws
mod Tests
use libc6_shim.Prelude.{ℕ, zero, suc, ◌+◌, ◌%◌, ◌^◌, List, [], ◌∷◌, ◌==◌, if◌then◌else◌}
use libc6_shim.Process.{minus_one}

unfoldable pub shim_ctype_b_table : List ℕ
shim_ctype_b_table =
    0x0000 ∷ 0x0000 ∷ 0x0000 ∷ 0x0000 ∷ 0x0000 ∷ 0x0000 ∷ 0x0000 ∷ 0x0000 ∷ 0x0000 ∷ 0x0000 ∷ 0x0000
    ∷ 0x0000 ∷ 0x0000 ∷ 0x0000 ∷ 0x0000 ∷ 0x0000 ∷ 0x0000 ∷ 0x0000 ∷ 0x0000 ∷ 0x0000 ∷ 0x0000
    ∷ 0x0000 ∷ 0x0000 ∷ 0x0000 ∷ 0x0000 ∷ 0x0000 ∷ 0x0000 ∷ 0x0000 ∷ 0x0000 ∷ 0x0000 ∷ 0x0000
    ∷ 0x0000 ∷ 0x0000 ∷ 0x0000 ∷ 0x0000 ∷ 0x0000 ∷ 0x0000 ∷ 0x0000 ∷ 0x0000 ∷ 0x0000 ∷ 0x0000
    ∷ 0x0000 ∷ 0x0000 ∷ 0x0000 ∷ 0x0000 ∷ 0x0000 ∷ 0x0000 ∷ 0x0000 ∷ 0x0000 ∷ 0x0000 ∷ 0x0000
    ∷ 0x0000 ∷ 0x0000 ∷ 0x0000 ∷ 0x0000 ∷ 0x0000 ∷ 0x0000 ∷ 0x0000 ∷ 0x0000 ∷ 0x0000 ∷ 0x0000
    ∷ 0x0000 ∷ 0x0000 ∷ 0x0000 ∷ 0x0000 ∷ 0x0000 ∷ 0x0000 ∷ 0x0000 ∷ 0x0000 ∷ 0x0000 ∷ 0x0000
    ∷ 0x0000 ∷ 0x0000 ∷ 0x0000 ∷ 0x0000 ∷ 0x0000 ∷ 0x0000 ∷ 0x0000 ∷ 0x0000 ∷ 0x0000 ∷ 0x0000
    ∷ 0x0000 ∷ 0x0000 ∷ 0x0000 ∷ 0x0000 ∷ 0x0000 ∷ 0x0000 ∷ 0x0000 ∷ 0x0000 ∷ 0x0000 ∷ 0x0000
    ∷ 0x0000 ∷ 0x0000 ∷ 0x0000 ∷ 0x0000 ∷ 0x0000 ∷ 0x0000 ∷ 0x0000 ∷ 0x0000 ∷ 0x0000 ∷ 0x0000
    ∷ 0x0000 ∷ 0x0000 ∷ 0x0000 ∷ 0x0000 ∷ 0x0000 ∷ 0x0000 ∷ 0x0000 ∷ 0x0000 ∷ 0x0000 ∷ 0x0000
    ∷ 0x0000 ∷ 0x0000 ∷ 0x0000 ∷ 0x0000 ∷ 0x0000 ∷ 0x0000 ∷ 0x0000 ∷ 0x0000 ∷ 0x0000 ∷ 0x0000
    ∷ 0x0000 ∷ 0x0000 ∷ 0x0000 ∷ 0x0000 ∷ 0x0000 ∷ 0x0000 ∷ 0x0000 ∷ 0x0002 ∷ 0x0002 ∷ 0x0002
    ∷ 0x0002 ∷ 0x0002 ∷ 0x0002 ∷ 0x0002 ∷ 0x0002 ∷ 0x0002 ∷ 0x2003 ∷ 0x2002 ∷ 0x2002 ∷ 0x2002
    ∷ 0x2002 ∷ 0x0002 ∷ 0x0002 ∷ 0x0002 ∷ 0x0002 ∷ 0x0002 ∷ 0x0002 ∷ 0x0002 ∷ 0x0002 ∷ 0x0002
    ∷ 0x0002 ∷ 0x0002 ∷ 0x0002 ∷ 0x0002 ∷ 0x0002 ∷ 0x0002 ∷ 0x0002 ∷ 0x0002 ∷ 0x0002 ∷ 0x6001
    ∷ 0xc004 ∷ 0xc004 ∷ 0xc004 ∷ 0xc004 ∷ 0xc004 ∷ 0xc004 ∷ 0xc004 ∷ 0xc004 ∷ 0xc004 ∷ 0xc004
    ∷ 0xc004 ∷ 0xc004 ∷ 0xc004 ∷ 0xc004 ∷ 0xc004 ∷ 0xd808 ∷ 0xd808 ∷ 0xd808 ∷ 0xd808 ∷ 0xd808
    ∷ 0xd808 ∷ 0xd808 ∷ 0xd808 ∷ 0xd808 ∷ 0xd808 ∷ 0xc004 ∷ 0xc004 ∷ 0xc004 ∷ 0xc004 ∷ 0xc004
    ∷ 0xc004 ∷ 0xc004 ∷ 0xd508 ∷ 0xd508 ∷ 0xd508 ∷ 0xd508 ∷ 0xd508 ∷ 0xd508 ∷ 0xc508 ∷ 0xc508
    ∷ 0xc508 ∷ 0xc508 ∷ 0xc508 ∷ 0xc508 ∷ 0xc508 ∷ 0xc508 ∷ 0xc508 ∷ 0xc508 ∷ 0xc508 ∷ 0xc508
    ∷ 0xc508 ∷ 0xc508 ∷ 0xc508 ∷ 0xc508 ∷ 0xc508 ∷ 0xc508 ∷ 0xc508 ∷ 0xc508 ∷ 0xc004 ∷ 0xc004
    ∷ 0xc004 ∷ 0xc004 ∷ 0xc004 ∷ 0xc004 ∷ 0xd608 ∷ 0xd608 ∷ 0xd608 ∷ 0xd608 ∷ 0xd608 ∷ 0xd608
    ∷ 0xc608 ∷ 0xc608 ∷ 0xc608 ∷ 0xc608 ∷ 0xc608 ∷ 0xc608 ∷ 0xc608 ∷ 0xc608 ∷ 0xc608 ∷ 0xc608
    ∷ 0xc608 ∷ 0xc608 ∷ 0xc608 ∷ 0xc608 ∷ 0xc608 ∷ 0xc608 ∷ 0xc608 ∷ 0xc608 ∷ 0xc608 ∷ 0xc608
    ∷ 0xc004 ∷ 0xc004 ∷ 0xc004 ∷ 0xc004 ∷ 0x0002 ∷ 0x0000 ∷ 0x0000 ∷ 0x0000 ∷ 0x0000 ∷ 0x0000
    ∷ 0x0000 ∷ 0x0000 ∷ 0x0000 ∷ 0x0000 ∷ 0x0000 ∷ 0x0000 ∷ 0x0000 ∷ 0x0000 ∷ 0x0000 ∷ 0x0000
    ∷ 0x0000 ∷ 0x0000 ∷ 0x0000 ∷ 0x0000 ∷ 0x0000 ∷ 0x0000 ∷ 0x0000 ∷ 0x0000 ∷ 0x0000 ∷ 0x0000
    ∷ 0x0000 ∷ 0x0000 ∷ 0x0000 ∷ 0x0000 ∷ 0x0000 ∷ 0x0000 ∷ 0x0000 ∷ 0x0000 ∷ 0x0000 ∷ 0x0000
    ∷ 0x0000 ∷ 0x0000 ∷ 0x0000 ∷ 0x0000 ∷ 0x0000 ∷ 0x0000 ∷ 0x0000 ∷ 0x0000 ∷ 0x0000 ∷ 0x0000
    ∷ 0x0000 ∷ 0x0000 ∷ 0x0000 ∷ 0x0000 ∷ 0x0000 ∷ 0x0000 ∷ 0x0000 ∷ 0x0000 ∷ 0x0000 ∷ 0x0000
    ∷ 0x0000 ∷ 0x0000 ∷ 0x0000 ∷ 0x0000 ∷ 0x0000 ∷ 0x0000 ∷ 0x0000 ∷ 0x0000 ∷ 0x0000 ∷ 0x0000
    ∷ 0x0000 ∷ 0x0000 ∷ 0x0000 ∷ 0x0000 ∷ 0x0000 ∷ 0x0000 ∷ 0x0000 ∷ 0x0000 ∷ 0x0000 ∷ 0x0000
    ∷ 0x0000 ∷ 0x0000 ∷ 0x0000 ∷ 0x0000 ∷ 0x0000 ∷ 0x0000 ∷ 0x0000 ∷ 0x0000 ∷ 0x0000 ∷ 0x0000
    ∷ 0x0000 ∷ 0x0000 ∷ 0x0000 ∷ 0x0000 ∷ 0x0000 ∷ 0x0000 ∷ 0x0000 ∷ 0x0000 ∷ 0x0000 ∷ 0x0000
    ∷ 0x0000 ∷ 0x0000 ∷ 0x0000 ∷ 0x0000 ∷ 0x0000 ∷ 0x0000 ∷ 0x0000 ∷ 0x0000 ∷ 0x0000 ∷ 0x0000
    ∷ 0x0000 ∷ 0x0000 ∷ 0x0000 ∷ 0x0000 ∷ 0x0000 ∷ 0x0000 ∷ 0x0000 ∷ 0x0000 ∷ 0x0000 ∷ 0x0000
    ∷ 0x0000 ∷ 0x0000 ∷ 0x0000 ∷ 0x0000 ∷ 0x0000 ∷ 0x0000 ∷ 0x0000 ∷ 0x0000 ∷ 0x0000 ∷ 0x0000
    ∷ 0x0000 ∷ 0x0000 ∷ 0x0000 ∷ []

-- The entry that the pointers shim___ctype_b, shim___ctype_tolower and shim___ctype_toupper are to.
abbrev pub origin : ℕ
origin = 128

-- `for (int i = …; …; i++) table[i] = entry(i)`, for the `n` entries from `i` on.
unfoldable pub fill : (ℕ → ℕ) → ℕ → ℕ → List ℕ
fill entry i zero = []
fill entry i (suc n) = entry i ∷ fill entry (suc i) n

-- `i == 127 ? -1 : tolower((uint8_t)(i + 128))`; the native function is a parameter.
unfoldable pub case_entry : (ℕ → ℕ) → ℕ → ℕ
case_entry to_case i = if i == 127 then minus_one else to_case ((i + 128) % 2 ^ 8)

-- The tables that the two statements of the loop of `ctype_init` fill.
unfoldable pub shim_ctype_tolower_table : (ℕ → ℕ) → List ℕ
shim_ctype_tolower_table tolower = fill (case_entry tolower) 0 384

unfoldable pub shim_ctype_toupper_table : (ℕ → ℕ) → List ℕ
shim_ctype_toupper_table toupper = fill (case_entry toupper) 0 384
