-- ===== src/Dirent/Directory.antt =====
-- `struct shim_directory`: its list of entries, and the calls that read and close it. The list is
-- only touched with its mutex held, so each operation is one step.
use libc6_shim.Prelude.{ℕ, List, [], ◌∷◌, Option, none, some, Bool, ◌==◌, if◌then◌else◌}
use libc6_shim.Outcome.{Outcome, ok, ◌>>=◌, ◌>>◌, assert}
use libc6_shim.Dirent.{NativeDirent, LinuxDirent, copy_direntry}
use libc6_shim.Dirent.Heap.{directory, entry_node, dirent, Heap, malloc, free}

-- A `shim_dir_entry` at its address; 0 is NULL.
pub record ShimDirEntry : Type 0 where
  pub node : ℕ
  pub linux_entry : ℕ
  pub linux_entry64 : ℕ

pub record ShimDirectory : Type 0 where
  pub self : ℕ
  pub head : List ShimDirEntry

-- The directory as it is allocated, with no entries.
unfoldable pub empty_shim_dir : Heap → ShimDirectory × Heap
unfolding malloc
empty_shim_dir h = let (self, h1) = malloc directory h in (record { self = self; head = [] }, h1)

-- `init_err` is the result of pthread_mutex_init.
unfoldable pub create_shim_dir : ℕ → Heap → Outcome (ShimDirectory × Heap)
unfolding empty_shim_dir
create_shim_dir init_err h = assert (init_err == 0) >> ok (empty_shim_dir h)

-- `insert_entry`, and `insert_entry64` when `wide`. `garbage` is what `malloc` leaves in the object.
unfoldable pub insert_entry :
    Bool → LinuxDirent → NativeDirent → ShimDirectory → Heap → ℕ × ShimDirectory × Heap
unfolding malloc
insert_entry wide garbage entry d h =
    let (linux_entry, h1) = malloc (dirent (copy_direntry garbage entry)) h in
    let (node, h2) = malloc entry_node h1 in
    let shim_entry : ShimDirEntry = record {
      node = node;
      linux_entry = if wide then 0 else linux_entry;
      linux_entry64 = if wide then linux_entry else 0;
    } in
    (linux_entry, record d { head = shim_entry ∷ d.head }, h2)

-- `shim_readdir_impl` and `shim_readdir64_impl`, after the native `readdir` gave its entry or NULL.
unfoldable pub shim_readdir :
    Bool → LinuxDirent → Option NativeDirent → ShimDirectory → Heap → ℕ × ShimDirectory × Heap
shim_readdir wide garbage none d h = (0, d, h)
shim_readdir wide garbage (some entry) d h = insert_entry wide garbage entry d h

abbrev pub free_unless_null : ℕ → Heap → Outcome Heap
free_unless_null a h = if a == 0 then ok h else free a h

-- The loop of `destroy_shim_dir`.
unfoldable pub free_entries : List ShimDirEntry → Heap → Outcome Heap
free_entries [] h = ok h
free_entries (e ∷ es) h = do
  h1 ← free_unless_null e.linux_entry h
  h2 ← free_unless_null e.linux_entry64 h1
  h3 ← free e.node h2
  free_entries es h3

-- `destroy_err` is the result of pthread_mutex_destroy.
unfoldable pub destroy_shim_dir : ℕ → ShimDirectory → Heap → Outcome Heap
destroy_shim_dir destroy_err d h = do
  h1 ← free_entries d.head h
  assert (destroy_err == 0)
  free d.self h1
