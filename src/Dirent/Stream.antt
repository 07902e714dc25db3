-- ===== src/Dirent/Stream.antt =====
-- The calls on a directory stream, over the native ones: a DIR* is a number, and NULL is 0.
use libc6_shim.Prelude.{ℕ, Bool, true, false, List, Option, none, some, ◌==◌, if◌then◌else◌}
use libc6_shim.CString.{CString, codes, str_eq}
use libc6_shim.CArray.{c_str}
use libc6_shim.Outcome.{Outcome, ok, ◌>>=◌}
use libc6_shim.Dirent.{NativeDirent, LinuxDirent, copy_direntry}
use libc6_shim.Dirent.Heap.{Heap}
use libc6_shim.Dirent.Directory.{ShimDirectory, create_shim_dir, shim_readdir, destroy_shim_dir}
use libc6_shim.Dirent.Scan.{Select, ScanResult, shim_scandir}

pub record StreamHost (W : Type 0) : Type 0 where
  pub opendir : CString → W → ℕ × W
  pub fdopendir : ℕ → W → ℕ × W
  pub readdir : ℕ → W → Option NativeDirent × W
  pub closedir : ℕ → W → ℕ × W
  pub dirfd : ℕ → W → ℕ × W
  pub rewinddir : ℕ → W → W
  pub seekdir : ℕ → ℕ → W → W
  pub telldir : ℕ → W → ℕ × W
  pub init_mutex : W → ℕ × W
  pub destroy_mutex : W → ℕ × W
  pub strcoll : CString → CString → ℕ

-- The field `dir` of a `shim_directory`, and the others.
pub record Stream : Type 0 where
  pub dir : ℕ
  pub directory : ShimDirectory

-- The memory of the program, and the system.
pub record Streams (W : Type 0) : Type 0 where
  pub heap : Heap
  pub world : W

module _ {W : Type 0} (host : StreamHost W) where
  -- `create_shim_dir(dir)`
  unfoldable pub wrap : ℕ × W → Heap → Outcome (Option Stream × Streams W)
  wrap (dir, w) h =
      let (init_err, w1) = host.init_mutex w in
      create_shim_dir init_err h >>= λ d.
      ok (some (record { dir = dir; directory = d.0 }), record { heap = d.1; world = w1 })

  -- `dir != NULL ? create_shim_dir(dir) : NULL`
  unfoldable pub wrap_unless_null : ℕ × W → Heap → Outcome (Option Stream × Streams W)
  unfolding wrap
  wrap_unless_null (dir, w) h =
      if dir == 0 then ok (none, record { heap = h; world = w }) else wrap (dir, w) h

  unfoldable pub shim_fdopendir : ℕ → Streams W → Outcome (Option Stream × Streams W)
  unfolding wrap_unless_null
  shim_fdopendir fd s = wrap_unless_null (host.fdopendir fd s.world) s.heap

  -- For /sys/devices/ the result of `opendir` is not tested.
  unfoldable pub shim_opendir : CString → Streams W → Outcome (Option Stream × Streams W)
  unfolding wrap wrap_unless_null
  shim_opendir filename s =
      if str_eq filename (codes "/sys/devices/")
      then wrap (host.opendir (codes "/libexec") s.world) s.heap
      else wrap_unless_null (host.opendir filename s.world) s.heap

  -- The two calls, of which the second is the wide one; 0 is the NULL at the end.
  unfoldable pub read_stream : Bool → LinuxDirent → Stream → Streams W → ℕ × Stream × Streams W
  read_stream wide garbage stream s =
      let (entry, w) = host.readdir stream.dir s.world in
      let (linux_entry, directory, h) = shim_readdir wide garbage entry stream.directory s.heap in
      (linux_entry, record stream { directory = directory }, record { heap = h; world = w })

  -- What the call leaves in the object `linux_entry`, and whether `*result` points to it.
  unfoldable pub shim_readdir_r : LinuxDirent → Stream → W → LinuxDirent × Bool × W
  shim_readdir_r linux_entry stream w =
      let (given, w1) = host.readdir stream.dir w in
      elim given [
        | none ↦ (linux_entry, false, w1)
        | some e ↦ (copy_direntry linux_entry e, true, w1)
      ]

  unfoldable pub shim_closedir : Stream → Streams W → Outcome (ℕ × Streams W)
  shim_closedir stream s =
      let (err, w) = host.closedir stream.dir s.world in
      let (destroy_err, w1) = host.destroy_mutex w in
      destroy_shim_dir destroy_err stream.directory s.heap >>= λ h.
      ok (err, record { heap = h; world = w1 })

  unfoldable pub shim_dirfd : Stream → W → ℕ × W
  shim_dirfd stream w = host.dirfd stream.dir w

  unfoldable pub shim_rewinddir : Stream → W → W
  shim_rewinddir stream w = host.rewinddir stream.dir w

  unfoldable pub shim_seekdir : Stream → ℕ → W → W
  shim_seekdir stream loc w = host.seekdir stream.dir loc w

  unfoldable pub shim_telldir : Stream → W → ℕ × W
  shim_telldir stream w = host.telldir stream.dir w

  -- `shim_alphasort_impl` and `shim_alphasort64_impl`
  unfoldable pub shim_alphasort : LinuxDirent → LinuxDirent → ℕ
  shim_alphasort d1 d2 = host.strcoll (c_str d1.d_name) (c_str d2.d_name)

-- The code is that of scandir, over `linux_dirent64`, which is the same on x86-64.
unfoldable pub shim_scandir64 :
    {C : Type 0}
    → (C → List LinuxDirent → List LinuxDirent)
    → Option (List NativeDirent)
    → Select
    → Option C
    → LinuxDirent
    → Outcome ScanResult
shim_scandir64 qsort entries select compar garbage =
    shim_scandir qsort entries select compar garbage
