-- ===== src/Ctype/Tests.antt =====
-- The tables at characters of either sign.
use libc6_shim.Prelude.{
  ℕ, ◌+◌, ◌-◌, ◌≡◌, refl, get_elem?, some, leb, ltb, ◌&&◌, if◌then◌else◌, arith,
}
use libc6_shim.Ctype.{shim_ctype_b_table, origin}
use libc6_shim.Ctype.Ascii.{classes}
use libc6_shim.Ctype.Laws.{ctype_b-eq-classes}

-- A tab is a blank, a space and a control character.
ctype_b_tab : get_elem? shim_ctype_b_table (origin + 9) ≡ some 0x2003
unfolding shim_ctype_b_table
ctype_b_tab = refl

ctype_b-eq-classes_example :
    get_elem? shim_ctype_b_table 193 ≡ some (if ltb 193 origin then 0 else classes (193 - origin))
ctype_b-eq-classes_example = ctype_b-eq-classes 193 (omega arith)

abbrev to_lower : ℕ → ℕ
to_lower c = if leb b'A' c && leb c b'Z' then c + 32 else c

abbrev to_upper : ℕ → ℕ
to_upper c = if leb b'a' c && leb c b'z' then c - 32 else c
