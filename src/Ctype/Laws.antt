-- ===== src/Ctype/Laws.antt =====
-- What the macros of <ctype.h> read from the tables.
use libc6_shim.Prelude.{
  ℕ, zero, suc, ◌+◌, ◌-◌, ◌%◌, ◌≤◌, ◌<◌, ◌≡◌, ◌≢◌, refl, ◌∙◌, ap, List, some, get_elem?, ltb, ne→==,
  ◌^◌, if◌then◌else◌, arith,
}
use libc6_shim.Process.{minus_one}
use libc6_shim.Ctype.Ascii.{classes}
use libc6_shim.Ctype.{
  shim_ctype_b_table, origin, fill, case_entry, shim_ctype_tolower_table, shim_ctype_toupper_table,
}

-- The entry for a negative character is 0, as is that of a character above 127.
abbrev b_entry : ℕ → ℕ
b_entry i = if ltb i origin then 0 else classes (i - origin)

get_elem?-fill :
    (entry : ℕ → ℕ) (i n k : ℕ) → k < n → get_elem? (fill entry i n) k ≡ some (entry (i + k))
unfolding fill
get_elem?-fill entry i zero k h = elim h [ ]
get_elem?-fill entry i (suc n) zero h = ap (λ (t : ℕ). some (entry t)) (omega arith)
get_elem?-fill entry i (suc n) (suc k) h =
    get_elem?-fill entry (suc i) n k (omega arith) ∙ ap (λ (t : ℕ). some (entry t)) (omega arith)

get_elem?-table : (entry : ℕ → ℕ) (n k : ℕ) → k < n → get_elem? (fill entry 0 n) k ≡ some (entry k)
get_elem?-table entry n k h =
    get_elem?-fill entry 0 n k h ∙ ap (λ (t : ℕ). some (entry t)) (omega arith)

table-eq-fill : shim_ctype_b_table ≡ fill b_entry 0 384
unfolding shim_ctype_b_table fill
table-eq-fill = refl

b_lookup : (i : ℕ) → i < 384 → get_elem? shim_ctype_b_table i ≡ some (b_entry i)
b_lookup i h = rw table-eq-fill (get_elem?-table b_entry 384 i h)

case_entry_lem :
    (to_case : ℕ → ℕ) (i c : ℕ) → (i + 128) % 2 ^ 8 ≡ c → i ≢ 127 → case_entry to_case i ≡ to_case c
unfolding case_entry
case_entry_lem to_case i c e ne = rw (ne→== i 127 ne) (rw e refl)

eof : (to_case : ℕ → ℕ) → case_entry to_case 127 ≡ minus_one
unfolding case_entry
eof to_case = refl

-- The class table holds for every index, which is 128 above the character, exactly the bits of the
-- classes that the C locale gives the character, and 0 for every negative `char` and EOF.
pub ctype_b-eq-classes :
    (i : ℕ)
    → i < 384
    → get_elem? shim_ctype_b_table i ≡ some (if ltb i origin then 0 else classes (i - origin))
ctype_b-eq-classes i h = rw table-eq-fill (get_elem?-table b_entry 384 i h)

-- What a table holds for the character `c`, for the negative `char` -d, which is read as an
-- `unsigned char`, and for EOF.
abbrev pub CaseTable : (ℕ → ℕ) → List ℕ → ℕ → ℕ → Type 0
CaseTable to_case table c d =
    (get_elem? table (origin + c) ≡ some (to_case c))
    × (get_elem? table (origin - d) ≡ some (to_case (256 - d)))
    × (get_elem? table (origin - 1) ≡ some minus_one)

fill-CaseTable :
    (to_case : ℕ → ℕ) (c d : ℕ)
    → c < 256
    → 1 < d
    → d ≤ 128
    → CaseTable to_case (fill (case_entry to_case) 0 384) c d
fill-CaseTable to_case c d h low high = (
  get_elem?-table (case_entry to_case) 384 (origin + c) (omega arith)
      ∙ ap some (case_entry_lem to_case (origin + c) c (omega arith) (omega arith)),
  get_elem?-table (case_entry to_case) 384 (origin - d) (omega arith)
      ∙ ap some (case_entry_lem to_case (origin - d) (256 - d) (omega arith) (omega arith)),
  get_elem?-table (case_entry to_case) 384 127 (omega arith) ∙ ap some (eof to_case),
)

-- The tables that `ctype_init` fills answer as the native tolower and toupper do: for a character c
-- from 0 to 255, and for a negative `char` -d but -1 as for the same character as an
-- `unsigned char`; for EOF, which is -1, both hold -1.
pub case_tables_answer :
    (tolower toupper : ℕ → ℕ) (c d : ℕ)
    → c < 256
    → 1 < d
    → d ≤ 128
    → CaseTable tolower (shim_ctype_tolower_table tolower) c d
      × CaseTable toupper (shim_ctype_toupper_table toupper) c d
unfolding shim_ctype_tolower_table shim_ctype_toupper_table
case_tables_answer tolower toupper c d h low high =
    (fill-CaseTable tolower c d h low high, fill-CaseTable toupper c d h low high)
