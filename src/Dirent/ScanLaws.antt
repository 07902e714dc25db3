-- ===== src/Dirent/ScanLaws.antt =====
-- scandir gives exactly the selected entries.
use libc6_shim.Prelude.{
  ℕ, suc, ◌+◌, ◌*◌, ◌%◌, ◌^◌, ◌≤◌, ◌<◌, true, false, List, [], ◌∷◌, ◌++◌, Option, none, some,
  length, length-append, Bool-cases, leb, lt→ltb, leb→le, if◌then◌else◌, ◌≡◌, inl, inr, refl, sym,
  ap, ◌∙◌, arith,
}
use mathlib.Core.List.{append_assoc, append-nil}
use libc6_shim.Outcome.{ok}
use libc6_shim.Dirent.{NativeDirent, LinuxDirent, copy_direntry}
use libc6_shim.Dirent.Scan.{
  Out, empty_out, int_leb, grown, store, Select, is_selected, scan, sorted, shim_scandir,
}

-- What the program asks for: the copies of the entries that it selects, in order.
abbrev pub wanted : Select → LinuxDirent → List NativeDirent → List LinuxDirent
wanted select garbage [] = []
wanted select garbage (e ∷ es) =
    let rest = wanted select garbage es in
    if is_selected select (copy_direntry garbage e) then copy_direntry garbage e ∷ rest else rest

-- The copies that are not selected, in order.
abbrev pub unwanted : Select → LinuxDirent → List NativeDirent → List LinuxDirent
unwanted select garbage [] = []
unwanted select garbage (e ∷ es) =
    let linux_entry = copy_direntry garbage e in
    let rest = unwanted select garbage es in
    if is_selected select linux_entry then rest else linux_entry ∷ rest

-- The same with the comparison: `qsort` is called unless there is nothing to sort.
abbrev pub sort_wanted :
    {C : Type 0}
    → (C → List LinuxDirent → List LinuxDirent)
    → Option C
    → List LinuxDirent
    → List LinuxDirent
sort_wanted qsort none l = l
sort_wanted qsort (some compar) [] = []
sort_wanted qsort (some compar) (e ∷ l) = qsort compar (e ∷ l)

record IsOut (out : Out) : Type 0 where
  counted : out.nitems ≡ length out.arr
  room : out.nitems ≤ out.len
  least : 32 ≤ out.len
  most : out.len ≤ 32 + 2 * out.nitems

leb-false : (a b : ℕ) → leb a b ≡ false → b < a
leb-false a b h = ground arith

-- Where the numbers fit an `int`, the array is long enough after the test.
grown-fits :
    (out : Out)
    → IsOut out
    → out.nitems < 2 ^ 29
    → (out.nitems < grown out) × (grown out ≤ 32 + 2 * suc out.nitems) × (32 ≤ grown out)
unfolding grown
grown-fits out h small = elim (Bool-cases (int_leb out.len out.nitems)) [
  | inl e ↦ rw e (full (plain e))
  | inr e ↦ rw e (free (plain_not e))
]
  where
    plain : int_leb out.len out.nitems ≡ true → out.len ≤ out.nitems
    plain e = omega (
      arith,
      h.most,
      small,
      leb→le ((out.len + 2 ^ 31) % 2 ^ 32) ((out.nitems + 2 ^ 31) % 2 ^ 32) e,
    )

    plain_not : int_leb out.len out.nitems ≡ false → out.nitems < out.len
    plain_not e = omega (
      arith,
      h.room,
      h.most,
      small,
      leb-false ((out.len + 2 ^ 31) % 2 ^ 32) ((out.nitems + 2 ^ 31) % 2 ^ 32) e,
    )

    full :
        out.len ≤ out.nitems
        → (out.nitems < (out.len * 2) % 2 ^ 32)
          × ((out.len * 2) % 2 ^ 32 ≤ 32 + 2 * suc out.nitems)
          × (32 ≤ (out.len * 2) % 2 ^ 32)
    full le = (
      omega (arith, h.room, h.least, small, le),
      omega (arith, h.room, h.least, small, le),
      omega (arith, h.room, h.least, small, le),
    )

    free :
        out.nitems < out.len
        → (out.nitems < out.len) × (out.len ≤ 32 + 2 * suc out.nitems) × (32 ≤ out.len)
    free lt = (lt, omega (arith, h.most), h.least)

store-IsOut :
    (e : LinuxDirent) (out : Out)
    → IsOut out
    → out.nitems < 2 ^ 29
    → (next : Out) × (store e out ≡ ok next)
      × IsOut next
      × (next.arr ≡ out.arr ++ (e ∷ []))
      × (next.nitems ≡ suc out.nitems)
      × (next.freed ≡ out.freed)
unfolding store
store-IsOut e out h small = (
  record {
    arr = out.arr ++ (e ∷ []);
    len = grown out;
    nitems = suc out.nitems % 2 ^ 32;
    freed = out.freed;
  },
  rw (lt→ltb out.nitems (grown out) fits.0) refl,
  record {
    counted = rw (length-append out.arr (e ∷ [])) (omega (arith, h.counted, small));
    room = omega (arith, fits.0, small);
    least = fits.2;
    most = omega (arith, fits.1, small);
  },
  refl,
  omega (arith, small),
  refl,
)
  where
    fits : (out.nitems < grown out) × (grown out ≤ 32 + 2 * suc out.nitems) × (32 ≤ grown out)
    fits = grown-fits out h small

scan-lem :
    (select : Select) (garbage : LinuxDirent) (es : List NativeDirent) (out : Out)
    → IsOut out
    → out.nitems + length es < 2 ^ 29
    → (end : Out) × (scan select garbage es out ≡ ok end)
      × IsOut end
      × (end.arr ≡ out.arr ++ wanted select garbage es)
      × (end.freed ≡ out.freed ++ unwanted select garbage es)
unfolding scan
scan-lem select garbage [] out h small =
    (out, refl, h, sym (append-nil out.arr), sym (append-nil out.freed))
scan-lem select garbage (e ∷ es) out h small =
    elim (Bool-cases (is_selected select (copy_direntry garbage e))) [
      | inl picked ↦
          let stored = store-IsOut (copy_direntry garbage e) out h (omega (arith, small)) in
          let taken =
            scan-lem select garbage es stored.0 stored.2 (omega (arith, small, stored.4)) in
          (
            taken.0,
            rw (picked, stored.1) taken.1,
            taken.2,
            rw picked (
                taken.3
                ∙ (ap (λ l. l ++ wanted select garbage es) stored.3
                    ∙ append_assoc out.arr (copy_direntry garbage e ∷ [])
                        (wanted select garbage es))),
            rw picked (taken.4 ∙ ap (λ l. l ++ unwanted select garbage es) stored.5),
          )
      | inr passed ↦
          let entry = copy_direntry garbage e in
          let left_out =
            scan-lem select garbage es (record out { freed = out.freed ++ (entry ∷ []) })
              (record { counted = h.counted; room = h.room; least = h.least; most = h.most })
              (omega (arith, small)) in
          (
            left_out.0,
            rw passed left_out.1,
            left_out.2,
            rw passed left_out.3,
            rw passed
                (left_out.4 ∙ append_assoc out.freed (entry ∷ []) (unwanted select garbage es)),
          )
    ]

sorted-fields :
    {C : Type 0} (qsort : C → List LinuxDirent → List LinuxDirent) (compar : Option C)
    (arr freed : List LinuxDirent) (len n : ℕ)
    → n ≡ length arr
    → sorted qsort compar (record { arr = arr; len = len; nitems = n; freed = freed })
      ≡ sort_wanted qsort compar arr
sorted-fields qsort none arr freed len n e = refl
sorted-fields qsort (some compar) [] freed len n e = rw e refl
sorted-fields qsort (some compar) (x ∷ arr) freed len n e =
    rw (e, lt→ltb 0 (suc (length arr)) (omega arith)) refl

sorted-lem :
    {C : Type 0} (qsort : C → List LinuxDirent → List LinuxDirent) (compar : Option C) (out : Out)
    → IsOut out
    → sorted qsort compar out ≡ sort_wanted qsort compar out.arr
sorted-lem qsort compar out h =
    sorted-fields qsort compar out.arr out.freed out.len out.nitems h.counted

empty-IsOut : IsOut empty_out
empty-IsOut = omega arith

-- For fewer than 2 ^ 29 entries, with or without a comparison: the array is written only where it
-- is allocated; the program gets the copies of the entries that it selects, in order, which
-- `compar` then sorts; the result is how many they are; the other copies are freed, each once; and
-- the directory is closed.
pub scandir_selects :
    {C : Type 0} (qsort : C → List LinuxDirent → List LinuxDirent) (es : List NativeDirent)
    (select : Select) (compar : Option C) (garbage : LinuxDirent)
    → length es < 2 ^ 29
    → shim_scandir qsort (some es) select compar garbage
      ≡ ok (record {
        result = length (wanted select garbage es);
        namelist = some (sort_wanted qsort compar (wanted select garbage es));
        freed = unwanted select garbage es;
        is_closed = true;
      })
unfolding shim_scandir
scandir_selects qsort es select compar garbage small =
    let k = scan-lem select garbage es empty_out empty-IsOut (omega (arith, small)) in
    rw (k.1, sorted-lem qsort compar k.0 k.2, k.2.counted, k.3, k.4) refl
