-- ===== src/Dirent/DirectoryLaws.antt =====
-- A directory stream keeps what it gave to the program, and frees all of it when it is closed.
use libc6_shim.Prelude.{
  ℕ, suc, ◌≤◌, Bool, true, false, List, [], ◌∷◌, Option, none, some, ◌≡◌, ◌≢◌, ◌⊎◌, inl, inr, refl,
  ap, ◌∙◌, ne→==, eq→==, arith,
}
use libc6_shim.Outcome.{ok}
use libc6_shim.Dirent.{NativeDirent, LinuxDirent, copy_direntry}
use libc6_shim.Dirent.Heap.{
  Cell, directory, entry_node, dirent, Block, Heap, malloc, remove, free, load,
}
use libc6_shim.Dirent.Directory.{
  ShimDirEntry, ShimDirectory, empty_shim_dir, insert_entry, shim_readdir, free_unless_null,
  free_entries, destroy_shim_dir,
}

-- A call of readdir or readdir64, with what the native one gives it.
pub record ReadCall : Type 0 where
  pub wide : Bool
  pub garbage : LinuxDirent
  pub given : Option NativeDirent

abbrev pub Opened : Type 0
Opened = ShimDirectory × Heap

abbrev pub read_once : ReadCall → Opened → Opened
read_once r o = let x = shim_readdir r.wide r.garbage r.given o.0 o.1 in (x.1, x.2)

abbrev pub read_all : List ReadCall → Opened → Opened
read_all [] o = o
read_all (r ∷ rs) o = read_all rs (read_once r o)

abbrev block : ℕ → Cell → Block
block a cell = record { address = a; cell = cell }

-- The allocations above `below` are a node and its entry for each element of the list.
abbrev IsOwned : List Block → List ShimDirEntry → List Block → Type 0
IsOwned below [] bs = bs ≡ below
IsOwned below (e ∷ es) bs =
    (a : ℕ) × (cell : Cell) × (rest : List Block) × (bs
      ≡ block e.node entry_node ∷ block a cell ∷ rest)
    × (e.node ≡ suc a)
    × (a ≢ 0)
    × (((e.linux_entry ≡ a) × (e.linux_entry64 ≡ 0))
        ⊎ ((e.linux_entry ≡ 0) × (e.linux_entry64 ≡ a)))
    × IsOwned below es rest

free_under :
    (l a n : ℕ) (c d : Cell) (rest : List Block)
    → n ≡ suc a
    → a ≢ 0
    → free_unless_null a (record { last = l; blocks = block n c ∷ block a d ∷ rest })
      ≡ ok (record { last = l; blocks = block n c ∷ rest })
unfolding free remove
free_under l a n c d rest e ne =
    rw (ne→== a 0 ne, ne→== n a (omega (arith, e)), eq→== a a refl) refl

free_top :
    (l n : ℕ) (c : Cell) (rest : List Block)
    → free n (record { last = l; blocks = block n c ∷ rest })
      ≡ ok (record { last = l; blocks = rest })
unfolding free remove
free_top l n c rest = rw (eq→== n n refl) refl

free_entries-lem :
    (below : List Block) (es : List ShimDirEntry) (l : ℕ) (bs : List Block)
    → IsOwned below es bs
    → free_entries es (record { last = l; blocks = bs }) ≡ ok (record { last = l; blocks = below })
unfolding free_entries
free_entries-lem below [] l bs h = ap (λ x. ok (record { last = l; blocks = x })) h
free_entries-lem below (e ∷ es) l bs (a, cell, rest, shape, next, ne, inl k, more) =
    rw
      (
        shape,
        k.0,
        k.1,
        free_under l a e.node entry_node cell rest next ne,
        free_top l e.node entry_node rest,
      )
      (free_entries-lem below es l rest more)
free_entries-lem below (e ∷ es) l bs (a, cell, rest, shape, next, ne, inr k, more) =
    rw
      (
        shape,
        k.0,
        k.1,
        free_under l a e.node entry_node cell rest next ne,
        free_top l e.node entry_node rest,
      )
      (free_entries-lem below es l rest more)

readdir-IsOwned :
    (below : List Block) (wide : Bool) (g : LinuxDirent) (given : Option NativeDirent)
    (d : ShimDirectory) (h : Heap)
    → IsOwned below d.head h.blocks
    → IsOwned below (shim_readdir wide g given d h).1.head (shim_readdir wide g given d h).2.blocks
      × ((shim_readdir wide g given d h).1.self ≡ d.self)
unfolding shim_readdir insert_entry malloc
readdir-IsOwned below wide g none d h k = (k, refl)
readdir-IsOwned below true g (some e) d h k = (
  (suc h.last, dirent (copy_direntry g e), h.blocks, refl, refl, omega arith, inr (refl, refl), k),
  refl,
)
readdir-IsOwned below false g (some e) d h k = (
  (suc h.last, dirent (copy_direntry g e), h.blocks, refl, refl, omega arith, inl (refl, refl), k),
  refl,
)

read_once-IsOwned :
    (below : List Block) (r : ReadCall) (o : Opened)
    → IsOwned below o.0.head o.1.blocks
    → IsOwned below (read_once r o).0.head (read_once r o).1.blocks
      × ((read_once r o).0.self ≡ o.0.self)
read_once-IsOwned below r o h = readdir-IsOwned below r.wide r.garbage r.given o.0 o.1 h

read_all-IsOwned :
    (below : List Block) (rs : List ReadCall) (o : Opened)
    → IsOwned below o.0.head o.1.blocks
    → IsOwned below (read_all rs o).0.head (read_all rs o).1.blocks
      × ((read_all rs o).0.self ≡ o.0.self)
read_all-IsOwned below [] o h = (h, refl)
read_all-IsOwned below (r ∷ rs) o h =
    let k = read_once-IsOwned below r o h in
    let m = read_all-IsOwned below rs (read_once r o) k.0 in (m.0, m.1 ∙ k.1)

-- After any reads, in either width, closing a stream frees the stream, every node and every entry,
-- each once, and nothing else: the allocations are those from before it was opened.
pub close_frees_all :
    (h : Heap) (rs : List ReadCall)
    → (h2 : Heap) × (destroy_shim_dir 0
          (read_all rs (empty_shim_dir h)).0
          (read_all rs (empty_shim_dir h)).1
        ≡ ok h2)
      × (h2.blocks ≡ h.blocks)
unfolding destroy_shim_dir empty_shim_dir malloc
close_frees_all h rs = (
  record { last = o.1.last; blocks = h.blocks },
  rw
      (
        free_entries-lem (block (suc h.last) directory ∷ h.blocks) o.0.head o.1.last o.1.blocks k.0,
        k.1,
      )
      (free_top o.1.last (suc h.last) directory h.blocks),
  refl,
)
  where
    o : Opened
    o = read_all rs (empty_shim_dir h)

    k :
        IsOwned (block (suc h.last) directory ∷ h.blocks) o.0.head o.1.blocks
        × (o.0.self ≡ suc h.last)
    k = read_all-IsOwned (block (suc h.last) directory ∷ h.blocks) rs (empty_shim_dir h) refl

-- Allocations above an address leave what is there.
readdir-load :
    (wide : Bool) (g : LinuxDirent) (given : Option NativeDirent) (d : ShimDirectory) (h : Heap)
    (a : ℕ)
    → a ≤ h.last
    → (load a (shim_readdir wide g given d h).2.blocks ≡ load a h.blocks)
      × (a ≤ (shim_readdir wide g given d h).2.last)
unfolding shim_readdir insert_entry malloc load
readdir-load wide g none d h a le = (refl, le)
readdir-load wide g (some e) d h a le = (
  rw (ne→== (suc (suc h.last)) a (omega arith), ne→== (suc h.last) a (omega arith)) refl,
  omega arith,
)

read_all-load :
    (rs : List ReadCall) (o : Opened) (a : ℕ)
    → a ≤ o.1.last
    → load a (read_all rs o).1.blocks ≡ load a o.1.blocks
read_all-load [] o a le = refl
read_all-load (r ∷ rs) o a le =
    let k = readdir-load r.wide r.garbage r.given o.0 o.1 a le in
    read_all-load rs (read_once r o) a k.1 ∙ k.0

-- What readdir returns points to a copy of the native entry, and still does after any further
-- reads of the stream: they use other memory.
pub entry_stays :
    (wide : Bool) (garbage : LinuxDirent) (e : NativeDirent) (d : ShimDirectory) (h : Heap)
    (rs : List ReadCall)
    → load
        (shim_readdir wide garbage (some e) d h).0
        (read_all rs (
          (shim_readdir wide garbage (some e) d h).1,
          (shim_readdir wide garbage (some e) d h).2,
        )).1.blocks
      ≡ some (dirent (copy_direntry garbage e))
unfolding shim_readdir insert_entry malloc load
entry_stays wide g e d h rs =
    read_all-load rs _ (suc h.last) (omega arith)
    ∙ rw (ne→== (suc (suc h.last)) (suc h.last) (omega arith), eq→== (suc h.last) (suc h.last) refl)
        refl
