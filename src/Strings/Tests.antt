-- ===== src/Strings/Tests.antt =====
-- The checked copies at concrete inputs.
use libc6_shim.Prelude.{ℕ, ◌+◌, ◌%◌, ◌^◌, List, ◌++◌, replicate, take, length, ltb, leb, arith}
use libc6_shim.CString.{codes}
use libc6_shim.CArray.{c_str}
use libc6_shim.Outcome.{ok, ◌>>=◌}
use libc6_shim.Strings.{
  shim_memset_chk, shim_memcpy_chk, shim_memmove_chk, shim_strncpy_chk, shim_strcpy_chk,
  shim_stpcpy_chk, shim_strcat_chk, shim_strncat_chk,
}
use libc6_shim.Strings.Laws.{Writes, Stores, checked_copies}

-- An array of eight bytes that holds "ab".
abbrev buffer : List ℕ
buffer = codes "ab" ++ replicate 6 0

checked_copies_example :
    Writes
      (ltb (length (codes "cde")) 8)
      (codes "cde")
      buffer
      (shim_strcpy_chk buffer (codes "cde") 8)
    × Writes
        (ltb (length (codes "cde")) 8)
        (codes "cde")
        buffer
        (shim_stpcpy_chk buffer (codes "cde") 8 >>= λ r. ok r.0)
    × Writes
        (ltb (length (codes "cde") + length (c_str buffer)) 8)
        (c_str buffer ++ codes "cde")
        buffer
        (shim_strcat_chk buffer (codes "cde") 8)
    × Writes
        (ltb (length (codes "cde") + length (c_str buffer)) 8)
        (c_str buffer ++ take 2 (codes "cde"))
        buffer
        (shim_strncat_chk buffer (codes "cde") 2 8)
    × Stores (leb 3 8) (replicate 3 (7 % 2 ^ 8)) buffer (shim_memset_chk buffer 7 3 8)
    × Stores (leb 3 8) (take 3 (codes "wxyz")) buffer (shim_memcpy_chk buffer (codes "wxyz") 3 8)
    × Stores (leb 3 8) (take 3 (codes "wxyz")) buffer (shim_memmove_chk buffer (codes "wxyz") 3 8)
    × Stores
        (leb 2 8)
        (take 2 (codes "cde" ++ replicate 2 0))
        buffer
        (shim_strncpy_chk buffer (codes "cde") 2 8)
checked_copies_example =
    checked_copies buffer (codes "cde") (codes "wxyz") 2 7 3 8
      (omega arith, (omega arith, (omega arith, tt))) (omega arith) (omega arith)
