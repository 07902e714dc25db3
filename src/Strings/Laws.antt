-- ===== src/Strings/Laws.antt =====
-- The checked copies write the right bytes, and none outside the array.
use libc6_shim.Prelude.{
  ℕ, ◌%◌, ◌^◌, ◌+◌, ◌≤◌, ◌≡◌, ◌⊎◌, inl, inr, refl, List, ◌++◌, Bool, true, false, Option, some,
  take, drop, length, ltb, ltb→lt, le→leb, Bool-cases, leb, leb→le, replicate, length-replicate,
  length-take, arith,
}
use libc6_shim.CString.{CString}
use libc6_shim.CArray.{c_str, IsString}
use libc6_shim.Outcome.{Outcome, ok, abort, ◌>>=◌}
use libc6_shim.Strings.{
  shim_memset_chk, shim_memcpy_chk, shim_memmove_chk, shim_strcpy_chk, shim_stpcpy_chk,
  shim_strcat_chk, shim_strncat_chk, shim_strncpy_chk,
}
use libc6_shim.Strings.StoreLaws.{store-Stores, store-appends, store-copies, take-IsString}

-- The call aborts if the check fails; otherwise it stays within the array, and leaves there the bytes
-- and what was behind them.
abbrev pub Stores : Bool → List ℕ → List ℕ → Outcome (Option (List ℕ)) → Type 0
Stores fits bytes dest call =
    ((fits ≡ false) × (call ≡ abort))
    ⊎ ((fits ≡ true) × (call ≡ ok (some (bytes ++ drop (length bytes) dest))))

-- The same for a string, which is there afterwards, in an array of the same length.
abbrev pub Writes : Bool → CString → List ℕ → Outcome (Option (List ℕ)) → Type 0
Writes fits s dest call =
    ((fits ≡ false) × (call ≡ abort))
    ⊎ ((fits ≡ true)
        × (d : List ℕ) × (call ≡ ok (some d))
        × (length d ≡ length dest)
        × (c_str d ≡ s))

guarded :
    (fits : Bool) (s : CString) (dest : List ℕ) (call : Outcome (Option (List ℕ)))
    → ((fits ≡ false) → call ≡ abort)
    → ((fits ≡ true)
        → (d : List ℕ) × (call ≡ ok (some d)) × (length d ≡ length dest) × (c_str d ≡ s))
    → Writes fits s dest call
guarded true s dest call stops runs =
    let (d, runs_to, same, is) = runs refl in inr (refl, d, runs_to, same, is)
guarded false s dest call stops runs = inl (refl, stops refl)

strings-Writes :
    (dest : List ℕ) (src : CString) (n destlen : ℕ)
    → IsString src
    → destlen ≤ length dest
    → Writes (ltb (length src) destlen) src dest (shim_strcpy_chk dest src destlen)
      × Writes
          (ltb (length src) destlen)
          src
          dest
          (shim_stpcpy_chk dest src destlen >>= λ r. ok r.0)
      × Writes
          (ltb (length src + length (c_str dest)) destlen)
          (c_str dest ++ src)
          dest
          (shim_strcat_chk dest src destlen)
      × Writes
          (ltb (length src + length (c_str dest)) destlen)
          (c_str dest ++ take n src)
          dest
          (shim_strncat_chk dest src n destlen)
unfolding shim_strcpy_chk shim_stpcpy_chk shim_strcat_chk shim_strncat_chk
strings-Writes dest src n destlen h room = (
  guarded (ltb (length src) destlen) src dest _ (λ e. rw e refl)
      (λ e.
        let (d, stored, same, is) = store-copies src dest h (omega (arith, room, ltb→lt _ _ e)) in
        (d, rw (e, stored) refl, same, is)),
  guarded (ltb (length src) destlen) src dest _ (λ e. rw e refl)
      (λ e.
        let (d, stored, same, is) = store-copies src dest h (omega (arith, room, ltb→lt _ _ e)) in
        (d, rw (e, stored) refl, same, is)),
  guarded (ltb (length src + length (c_str dest)) destlen) (c_str dest ++ src) dest _
      (λ e. rw e refl)
      (λ e.
        let (d, stored, same, is) = store-appends src dest h (omega (arith, room, ltb→lt _ _ e)) in
        (d, rw (e, stored) refl, same, is)),
  guarded (ltb (length src + length (c_str dest)) destlen) (c_str dest ++ take n src) dest _
      (λ e. rw e refl)
      (λ e.
        let (d, stored, same, is) =
          store-appends (take n src) dest (take-IsString n src h)
            (omega (arith, room, ltb→lt _ _ e, length-take n src)) in
        (d, rw (e, stored) refl, same, is)),
)

memory-Stores :
    (dest src : List ℕ) (c len destlen : ℕ)
    → destlen ≤ length dest
    → len ≤ length src
    → Stores (leb len destlen) (replicate len (c % 2 ^ 8)) dest (shim_memset_chk dest c len destlen)
      × Stores (leb len destlen) (take len src) dest (shim_memcpy_chk dest src len destlen)
      × Stores (leb len destlen) (take len src) dest (shim_memmove_chk dest src len destlen)
unfolding shim_memset_chk shim_memcpy_chk shim_memmove_chk
memory-Stores dest src c len destlen room there = elim (Bool-cases (leb len destlen)) [
  | inl fits ↦
      let set =
        store-Stores (replicate len (c % 2 ^ 8)) dest
          (omega (arith, room, leb→le _ _ fits, length-replicate len (c % 2 ^ 8))) in
      let copied =
        store-Stores (take len src) dest
          (omega (arith, room, leb→le _ _ fits, length-take len src)) in
      let enough = le→leb len (length src) there in
      (
        inr (fits, rw (fits, set) refl),
        inr (fits, rw (fits, enough, copied) refl),
        inr (fits, rw (fits, enough, copied) refl),
      )
  | inr no_room ↦ (
    inl (no_room, rw no_room refl),
    inl (no_room, rw no_room refl),
    inl (no_room, rw no_room refl),
  )
]

strncpy-Stores :
    (dest : List ℕ) (src : CString) (n destlen : ℕ)
    → destlen ≤ length dest
    → Stores
        (leb n destlen)
        (take n (src ++ replicate n 0))
        dest
        (shim_strncpy_chk dest src n destlen)
unfolding shim_strncpy_chk
strncpy-Stores dest src n destlen room = elim (Bool-cases (leb n destlen)) [
  | inl fits ↦
      let copied =
        store-Stores (take n (src ++ replicate n 0)) dest
          (omega (arith, room, leb→le _ _ fits, length-take n (src ++ replicate n 0))) in
      inr (fits, rw (fits, copied) refl)
  | inr no_room ↦ inl (no_room, rw no_room refl)
]

-- The checked copies, told the length of the destination or less. Those of strings but strncpy abort where the
-- source, together with what is in the destination for the two that append, is not shorter than that;
-- otherwise they stay within the array, and the string there is the source, or what was there with the
-- source appended, of which strncat takes no more than `n` bytes. strncpy aborts where `n` is greater
-- than the length; otherwise it stays within the array, and only its first `n` bytes change, to the
-- first `n` of the source and nuls behind it. Those of bytes, from an array of at
-- least `len`, abort where `len` is greater; otherwise they stay within the array, and only its first
-- `len` bytes change, to those of the source or the low
-- byte of the number that is given.
pub checked_copies :
    (dest : List ℕ) (src : CString) (array : List ℕ) (n c len destlen : ℕ)
    → IsString src
    → destlen ≤ length dest
    → len ≤ length array
    → Writes (ltb (length src) destlen) src dest (shim_strcpy_chk dest src destlen)
      × Writes
          (ltb (length src) destlen)
          src
          dest
          (shim_stpcpy_chk dest src destlen >>= λ r. ok r.0)
      × Writes
          (ltb (length src + length (c_str dest)) destlen)
          (c_str dest ++ src)
          dest
          (shim_strcat_chk dest src destlen)
      × Writes
          (ltb (length src + length (c_str dest)) destlen)
          (c_str dest ++ take n src)
          dest
          (shim_strncat_chk dest src n destlen)
      × Stores
          (leb len destlen)
          (replicate len (c % 2 ^ 8))
          dest
          (shim_memset_chk dest c len destlen)
      × Stores (leb len destlen) (take len array) dest (shim_memcpy_chk dest array len destlen)
      × Stores (leb len destlen) (take len array) dest (shim_memmove_chk dest array len destlen)
      × Stores
          (leb n destlen)
          (take n (src ++ replicate n 0))
          dest
          (shim_strncpy_chk dest src n destlen)
checked_copies dest src array n c len destlen h room there =
    let (copies, copies_to_end, appends, appends_part) = strings-Writes dest src n destlen h room in
    let (sets, moves, moves_over) = memory-Stores dest array c len destlen room there in
    (
      copies,
      copies_to_end,
      appends,
      appends_part,
      sets,
      moves,
      moves_over,
      strncpy-Stores dest src n destlen room,
    )
