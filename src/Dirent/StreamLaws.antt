-- ===== src/Dirent/StreamLaws.antt =====
-- A directory stream from opendir to closedir.
use libc6_shim.Prelude.{
  ℕ, ◌≡◌, ◌≢◌, ◌⊎◌, inl, inr, refl, Bool, Bool-cases, List, [], ◌∷◌, Option, none, some, ==-cases,
  ne→==,
}
use libc6_shim.CString.{CString, codes, str_eq}
use libc6_shim.Outcome.{Outcome, ok, abort, Outcome-cases}
use libc6_shim.Dirent.{LinuxDirent}
use libc6_shim.Dirent.Heap.{Heap}
use libc6_shim.Dirent.Directory.{
  ShimDirectory, empty_shim_dir, create_shim_dir, free_entries, destroy_shim_dir,
}
use libc6_shim.Dirent.DirectoryLaws.{ReadCall, read_all, close_frees_all}
use libc6_shim.Dirent.Stream.{
  StreamHost, Stream, Streams, wrap, wrap_unless_null, shim_opendir, read_stream, shim_closedir,
}

-- A call of readdir, or readdir64 if it is wide, with what malloc leaves in the object.
pub record Read : Type 0 where
  pub wide : Bool
  pub garbage : LinuxDirent

module _ {W : Type 0} (host : StreamHost W) where
  abbrev pub read_stream_all : List Read → Stream → Streams W → Stream × Streams W
  read_stream_all [] stream s = (stream, s)
  read_stream_all (r ∷ rs) stream s =
      let x = read_stream host r.wide r.garbage stream s in read_stream_all rs x.1 x.2

  -- What the stream does to the memory is what reads of the entries that the system gives do.
  reads-follow :
      (rs : List Read) (stream : Stream) (s : Streams W)
      → (given : List ReadCall) × ((read_stream_all rs stream s).0.dir ≡ stream.dir)
        × ((read_stream_all rs stream s).0.directory
            ≡ (read_all given (stream.directory, s.heap)).0)
        × ((read_stream_all rs stream s).1.heap ≡ (read_all given (stream.directory, s.heap)).1)
  unfolding read_stream
  reads-follow [] stream s = ([], refl, refl, refl)
  reads-follow (r ∷ rs) stream s =
      let x = read_stream host r.wide r.garbage stream s in
      let (given, d, a, b) = reads-follow rs x.1 x.2 in
      let call : ReadCall = record {
        wide = r.wide;
        garbage = r.garbage;
        given = (host.readdir stream.dir s.world).0;
      } in
      (call ∷ given, d, a, b)

  -- The memory after a failed opendir, or after a stream was read and closed, against that before.
  abbrev pub Session : List Read → Heap → Option Stream × Streams W → Type 0
  Session rs h (none, s) = s.heap ≡ h
  Session rs h (some stream, s) =
      let after = read_stream_all rs stream s in
      let closed = host.closedir stream.dir after.1.world in
      let destroyed = host.destroy_mutex closed.1 in
      ((destroyed.0 ≢ 0) × (shim_closedir host after.0 after.1 ≡ abort))
      ⊎ ((end : Heap) × (shim_closedir host after.0 after.1
            ≡ ok (closed.0, record { heap = end; world = destroyed.1 }))
          × (end.blocks ≡ h.blocks))

  -- The call that opens a stream: it aborts because its mutex cannot be initialized, or it returns.
  abbrev pub Opens : List Read → Heap → Outcome (Option Stream × Streams W) → Type 0
  Opens rs h call =
      ((w : W) × ((host.init_mutex w).0 ≢ 0) × (call ≡ abort))
      ⊎ ((opened : Option Stream × Streams W) × (call ≡ ok opened) × Session rs h opened)

  -- A mutex that cannot be destroyed.
  destroy-fails :
      (err : ℕ) (d : ShimDirectory) (h : Heap) → err ≢ 0 → destroy_shim_dir err d h ≡ abort
  unfolding destroy_shim_dir
  destroy-fails err d h ne = elim (Outcome-cases (free_entries d.head h)) [
    | inl stuck ↦ rw stuck refl
    | inr (h1, freed) ↦ rw (freed, ne→== err 0 ne) refl
  ]

  -- Closing the stream, once its reads are known to be reads of a new directory.
  close_known :
      (h : Heap) (given : List ReadCall) (stream : Stream) (s : Streams W) (dir : ℕ)
      → stream.dir ≡ dir
      → stream.directory ≡ (read_all given (empty_shim_dir h)).0
      → s.heap ≡ (read_all given (empty_shim_dir h)).1
      → let closed = host.closedir dir s.world in
        let destroyed = host.destroy_mutex closed.1 in
        ((destroyed.0 ≢ 0) × (shim_closedir host stream s ≡ abort))
        ⊎ ((end : Heap) × (shim_closedir host stream s
              ≡ ok (closed.0, record { heap = end; world = destroyed.1 }))
            × (end.blocks ≡ h.blocks))
  unfolding shim_closedir
  close_known h given stream s dir d directory heap =
      let (end, freed, same) = close_frees_all h given in
      elim (==-cases (host.destroy_mutex (host.closedir dir s.world).1).0 0) [
        | inl z ↦ inr (end, rw (d, directory, heap, z.0, freed) refl, same)
        | inr nz ↦ inl (nz.0, rw (d, destroy-fails _ stream.directory s.heap nz.0) refl)
      ]

  wrap-Opens : (rs : List Read) (x : ℕ × W) (h : Heap) → Opens rs h (wrap host x h)
  unfolding wrap create_shim_dir
  wrap-Opens rs (dir, w) h = elim (==-cases (host.init_mutex w).0 0) [
    | inr nz ↦ inl (w, nz.0, rw nz.1 refl)
    | inl z ↦
        let directory = empty_shim_dir h in
        let stream : Stream = record { dir = dir; directory = directory.0 } in
        let s : Streams W = record { heap = directory.1; world = (host.init_mutex w).1 } in
        let (given, d, a, b) = reads-follow rs stream s in
        let after = read_stream_all rs stream s in
        inr ((some stream, s), rw z.1 refl, close_known h given after.0 after.1 dir d a b)
  ]

  wrap_unless_null-Opens :
      (rs : List Read) (x : ℕ × W) (h : Heap) → Opens rs h (wrap_unless_null host x h)
  unfolding wrap_unless_null
  wrap_unless_null-Opens rs (dir, w) h = elim (==-cases dir 0) [
    | inl null ↦ inr ((none, record { heap = h; world = w }), rw null.1 refl, refl)
    | inr given ↦ rw given.1 (wrap-Opens rs (dir, w) h)
  ]

  -- For any path, and any number of calls of readdir and readdir64 after it: opendir aborts, because
  -- pthread_mutex_init fails; or it gives NULL and leaves the memory as it was; or it gives a stream.
  -- For a stream closedir returns, with the result of the native closedir of the stream's DIR*, unless
  -- pthread_mutex_destroy fails, where it aborts; and then the memory holds what it held before
  -- opendir, no more and no less.
  pub open_read_close :
      (filename : CString) (rs : List Read) (s : Streams W)
      → Opens rs s.heap (shim_opendir host filename s)
  unfolding shim_opendir
  open_read_close filename rs s = elim (Bool-cases (str_eq filename (codes "/sys/devices/"))) [
    | inl there ↦ rw there (wrap-Opens rs (host.opendir (codes "/libexec") s.world) s.heap)
    | inr other ↦ rw other (wrap_unless_null-Opens rs (host.opendir filename s.world) s.heap)
  ]
