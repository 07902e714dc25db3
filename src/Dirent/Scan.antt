-- ===== src/Dirent/Scan.antt =====
-- `shim_scandir_impl` and `shim_scandir64_impl`: the selected entries in an array that grows.
use libc6_shim.Prelude.{
  ℕ, suc, ◌+◌, ◌*◌, ◌%◌, ◌^◌, Bool, true, false, List, [], ◌∷◌, ◌++◌, Option, none, some, ltb, leb,
  if◌then◌else◌,
}
use libc6_shim.Outcome.{Outcome, ok, ◌>>=◌, ◌>>◌, assert}
use libc6_shim.Process.{minus_one}
use libc6_shim.Dirent.{NativeDirent, LinuxDirent, copy_direntry}

-- `b >= a` of two `int`s, by their bit patterns.
abbrev pub int_leb : ℕ → ℕ → Bool
int_leb a b = leb ((a + 2 ^ 31) % 2 ^ 32) ((b + 2 ^ 31) % 2 ^ 32)

-- The array, as far as it is written, the elements allocated for it, `nitems`, and the entries that
-- were given to `free`.
pub record Out : Type 0 where
  pub arr : List LinuxDirent
  pub len : ℕ
  pub nitems : ℕ
  pub freed : List LinuxDirent

abbrev pub empty_out : Out
empty_out = record { arr = []; len = 32; nitems = 0; freed = [] }

-- The length after the test for a full array.
unfoldable pub grown : Out → ℕ
grown out = if int_leb out.len out.nitems then (out.len * 2) % 2 ^ 32 else out.len

-- `out.arr[nitems] = linux_entry; nitems++;`, where a write past the array has no result.
unfoldable pub store : LinuxDirent → Out → Outcome Out
store linux_entry out = do
  assert (ltb out.nitems (grown out))
  ok (record {
    arr = out.arr ++ (linux_entry ∷ []);
    len = grown out;
    nitems = suc out.nitems % 2 ^ 32;
    freed = out.freed;
  })

abbrev pub Select : Type 0
Select = Option (LinuxDirent → Bool)

-- `select != NULL ? select(linux_entry) : 1`
abbrev pub is_selected : Select → LinuxDirent → Bool
is_selected none linux_entry = true
is_selected (some select) linux_entry = select linux_entry

-- The loop over the entries that the native `readdir` gives; `garbage` is what `malloc` leaves.
unfoldable pub scan : Select → LinuxDirent → List NativeDirent → Out → Outcome Out
scan select garbage [] out = ok out
scan select garbage (e ∷ es) out =
    let linux_entry = copy_direntry garbage e in
    if is_selected select linux_entry
    then (store linux_entry out >>= λ next. scan select garbage es next)
    else scan select garbage es (record out { freed = out.freed ++ (linux_entry ∷ []) })

-- The result, `*linux_namelist` if it is written, the entries that were freed, and whether `closedir`
-- was called.
pub record ScanResult : Type 0 where
  pub result : ℕ
  pub namelist : Option (List LinuxDirent)
  pub freed : List LinuxDirent
  pub is_closed : Bool

-- `qsort` takes a comparison of any type `C` and the array.
module _ {C : Type 0} (qsort : C → List LinuxDirent → List LinuxDirent) where
  abbrev pub sorted : Option C → Out → List LinuxDirent
  sorted none out = out.arr
  sorted (some compar) out = if ltb 0 out.nitems then qsort compar out.arr else out.arr

  -- `none` is an `opendir` that failed.
  unfoldable pub shim_scandir :
      Option (List NativeDirent) → Select → Option C → LinuxDirent → Outcome ScanResult
  shim_scandir none select compar garbage =
      ok (record { result = minus_one; namelist = none; freed = []; is_closed = false })
  shim_scandir (some es) select compar garbage = do
    out ← scan select garbage es empty_out
    ok (record {
      result = out.nitems;
      namelist = some (sorted compar out);
      freed = out.freed;
      is_closed = true;
    })
