-- ===== src/Strings.antt =====
-- src/libc/string.c: the checked copies, which abort where the plain ones would write too far, and
-- the texts of errors.
pub mod StoreLaws
pub mod Laws
mod Tests
use libc6_shim.Prelude.{
  ℕ, ◌+◌, ◌%◌, ◌^◌, List, [], ◌∷◌, ◌++◌, Option, none, some, take, drop, replicate, length, ltb,
  leb, if◌then◌else◌,
}
use libc6_shim.CString.{CString}
use libc6_shim.CArray.{c_str}
use libc6_shim.Outcome.{Outcome, ok, ◌>>◌, assert}
use libc6_shim.Errno.{Errnos, linux_to_native_errno}
use libc6_shim.Process.{Process}

-- A write at an offset of an array, as the functions of <string.h> do; `none` where it would go past
-- the end, which the language leaves undefined.
unfoldable pub store : ℕ → List ℕ → List ℕ → Option (List ℕ)
store offset bytes dest =
    if leb (offset + length bytes) (length dest)
    then some (take offset dest ++ (bytes ++ drop (offset + length bytes) dest))
    else none

-- A source is the string, or for `memcpy` and `memmove` the array, that the pointer leads to.
abbrev pub memset : List ℕ → ℕ → ℕ → Option (List ℕ)
memset dest c len = store 0 (replicate len (c % 2 ^ 8)) dest

abbrev pub memcpy : List ℕ → List ℕ → ℕ → Option (List ℕ)
memcpy dest src len = if leb len (length src) then store 0 (take len src) dest else none

abbrev pub strcpy : List ℕ → CString → Option (List ℕ)
strcpy dest src = store 0 (src ++ (0 ∷ [])) dest

-- What is left of the `n` bytes is filled with nuls.
abbrev pub strncpy : List ℕ → CString → ℕ → Option (List ℕ)
strncpy dest src n = store 0 (take n (src ++ replicate n 0)) dest

abbrev pub strcat : List ℕ → CString → Option (List ℕ)
strcat dest src = store (length (c_str dest)) (src ++ (0 ∷ [])) dest

abbrev pub strncat : List ℕ → CString → ℕ → Option (List ℕ)
strncat dest src n = store (length (c_str dest)) (take n src ++ (0 ∷ [])) dest

unfoldable pub shim_memset_chk : List ℕ → ℕ → ℕ → ℕ → Outcome (Option (List ℕ))
shim_memset_chk dest c len destlen = do assert (leb len destlen); ok (memset dest c len)

unfoldable pub shim_memcpy_chk : List ℕ → List ℕ → ℕ → ℕ → Outcome (Option (List ℕ))
shim_memcpy_chk dst src len destlen = do assert (leb len destlen); ok (memcpy dst src len)

-- The array that a source may overlap with is not the model's: the bytes of the source are those
-- before the call.
unfoldable pub shim_memmove_chk : List ℕ → List ℕ → ℕ → ℕ → Outcome (Option (List ℕ))
shim_memmove_chk dest src len destlen = do assert (leb len destlen); ok (memcpy dest src len)

unfoldable pub shim_strcpy_chk : List ℕ → CString → ℕ → Outcome (Option (List ℕ))
shim_strcpy_chk dest src destlen = do assert (ltb (length src) destlen); ok (strcpy dest src)

-- Besides what it writes, `stpcpy` gives the offset of the nul.
unfoldable pub shim_stpcpy_chk : List ℕ → CString → ℕ → Outcome (Option (List ℕ) × ℕ)
shim_stpcpy_chk dest src destlen = do
  assert (ltb (length src) destlen)
  ok (strcpy dest src, length src)

unfoldable pub shim_strncpy_chk : List ℕ → CString → ℕ → ℕ → Outcome (Option (List ℕ))
shim_strncpy_chk s1 s2 n s1len = do assert (leb n s1len); ok (strncpy s1 s2 n)

unfoldable pub shim_strcat_chk : List ℕ → CString → ℕ → Outcome (Option (List ℕ))
shim_strcat_chk dest src destlen = do
  assert (ltb (length src + length (c_str dest)) destlen)
  ok (strcat dest src)

unfoldable pub shim_strncat_chk : List ℕ → CString → ℕ → ℕ → Outcome (Option (List ℕ))
shim_strncat_chk dest src n destlen = do
  assert (ltb (length src + length (c_str dest)) destlen)
  ok (strncat dest src n)

-- The native functions that describe an error, by its native number.
module _ {W : Type 0} (c : Errnos) (perror : CString → Process W → Process W)
    (strerror : ℕ → CString) where
  unfoldable pub shim_perror : CString → Process W → Process W
  shim_perror string p = perror string (record p { errno = linux_to_native_errno c p.errno })

  -- `shim_strerror_r` and `shim___xpg_strerror_r` write the same text to a buffer.
  unfoldable pub shim_strerror : ℕ → CString
  shim_strerror errnum = strerror (linux_to_native_errno c errnum)
