-- ===== src/Dirent/Tests.antt =====
-- The theorems at concrete inputs.
use libc6_shim.Prelude.{ℕ, List, [], ◌∷◌, none, some, true, false, replicate, leb, ◌≡◌, refl, arith}
use libc6_shim.CString.{codes, str_eq}
use libc6_shim.Outcome.{ok}
use libc6_shim.Dirent.{NativeDirent, LinuxDirent, copy_direntry}
use libc6_shim.Dirent.Heap.{Heap, Cell, load}
use libc6_shim.Dirent.Directory.{ShimDirectory, empty_shim_dir, create_shim_dir, shim_readdir}
use libc6_shim.Dirent.DirectoryLaws.{ReadCall, read_all, entry_stays}
use libc6_shim.Dirent.Stream.{StreamHost, Streams, shim_opendir}
use libc6_shim.Dirent.StreamLaws.{Read, Opens, open_read_close}
use libc6_shim.Dirent.Scan.{Select, shim_scandir}
use libc6_shim.Dirent.ScanLaws.{scandir_selects}

abbrev entry : ℕ → NativeDirent
entry ino = record { d_ino = ino; d_off = 0; d_reclen = 32; d_type = 8; d_name = codes "a.txt" }

abbrev fresh : LinuxDirent
fresh = record { d_ino = 0; d_off = 0; d_reclen = 0; d_type = 0; d_name = replicate 256 7 }

abbrev empty_heap : Heap
empty_heap = record { last = 0; blocks = [] }

-- readdir, readdir64, and readdir at the end of the stream.
abbrev three_reads : List ReadCall
three_reads =
    record { wide = false; garbage = fresh; given = some (entry 5) }
    ∷ record { wide = true; garbage = fresh; given = some (entry 6) }
    ∷ record { wide = false; garbage = fresh; given = none }
    ∷ []

abbrev stream : ShimDirectory
stream = record { self = 1; head = [] }

entry_stays_example :
    load
      (shim_readdir false fresh (some (entry 5)) stream empty_heap).0
      (read_all three_reads (
        (shim_readdir false fresh (some (entry 5)) stream empty_heap).1,
        (shim_readdir false fresh (some (entry 5)) stream empty_heap).2,
      )).1.blocks
    ≡ some (Cell.dirent (copy_direntry fresh (entry 5)))
entry_stays_example = entry_stays false fresh (entry 5) stream empty_heap three_reads

abbrev late : Select
late = some (λ e. leb 6 e.d_ino)

-- With no comparison; the type of comparisons is ℕ.
scandir_selects_example :
    shim_scandir {C = ℕ} (λ compar l. l) (some (entry 5 ∷ entry 6 ∷ entry 7 ∷ [])) late none fresh
    ≡ ok (record {
      result = 2;
      namelist = some (copy_direntry fresh (entry 6) ∷ copy_direntry fresh (entry 7) ∷ []);
      freed = copy_direntry fresh (entry 5) ∷ [];
      is_closed = true;
    })
unfolding copy_direntry
scandir_selects_example =
    scandir_selects {C = ℕ} (λ compar l. l) (entry 5 ∷ entry 6 ∷ entry 7 ∷ []) late none fresh
      (omega arith)

-- The system is what is left of the open directory, which is DIR* 7.
abbrev directories : StreamHost (List NativeDirent)
directories = record {
  opendir = λ path w. (7, entry 5 ∷ entry 6 ∷ []);
  fdopendir = λ fd w. (0, w);
  readdir = λ dir w. elim w [ [] ↦ (none, []) | e ∷ rest ↦ (some e, rest) ];
  closedir = λ dir w. (0, []);
  dirfd = λ dir w. (dir, w);
  rewinddir = λ dir w. w;
  seekdir = λ dir loc w. w;
  telldir = λ dir w. (0, w);
  init_mutex = λ w. (0, w);
  destroy_mutex = λ w. (0, w);
  strcoll = λ a b. 0;
}

abbrev idle : Streams (List NativeDirent)
idle = record { heap = empty_heap; world = [] }

abbrev reads : List Read
reads =
    record { wide = false; garbage = fresh }
    ∷ record { wide = true; garbage = fresh }
    ∷ record { wide = false; garbage = fresh }
    ∷ []

open_read_close_example :
    Opens directories reads empty_heap (shim_opendir directories (codes "/usr") idle)
open_read_close_example = open_read_close directories (codes "/usr") reads idle

-- That directory is opened, so the statement is about a stream.
usr_opens :
    shim_opendir directories (codes "/usr") idle
    ≡ ok (
      some (record { dir = 7; directory = (empty_shim_dir empty_heap).0 }),
      record { heap = (empty_shim_dir empty_heap).1; world = entry 5 ∷ entry 6 ∷ [] },
    )
unfolding shim_opendir str_eq create_shim_dir
usr_opens = refl
