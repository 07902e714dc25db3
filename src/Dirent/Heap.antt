-- ===== src/Dirent/Heap.antt =====
-- The heap as far as the file uses it: `malloc` gives a fresh address, which is not NULL, and `free`
-- of an address that is not allocated aborts.
use libc6_shim.Prelude.{ℕ, suc, List, [], ◌∷◌, Option, none, some, ◌==◌, if◌then◌else◌}
use libc6_shim.Outcome.{Outcome, ok, abort, ◌>>=◌}
use libc6_shim.Dirent.{LinuxDirent}

-- What an allocation holds: a `shim_directory`, a `shim_dir_entry`, or an entry for the program.
pub data Cell : Type 0 where
  directory : Cell
  entry_node : Cell
  dirent : LinuxDirent → Cell

pub record Block : Type 0 where
  pub address : ℕ
  pub cell : Cell

-- The last address given, and the allocations.
pub record Heap : Type 0 where
  pub last : ℕ
  pub blocks : List Block

unfoldable pub malloc : Cell → Heap → ℕ × Heap
malloc cell h = (
  suc h.last,
  record { last = suc h.last; blocks = record { address = suc h.last; cell = cell } ∷ h.blocks },
)

unfoldable pub remove : ℕ → List Block → Outcome (List Block)
remove a [] = abort
remove a (b ∷ bs) =
    let rest = remove a bs in if b.address == a then ok bs else (rest >>= λ r. ok (b ∷ r))

unfoldable pub free : ℕ → Heap → Outcome Heap
free a h = remove a h.blocks >>= λ bs. ok (record h { blocks = bs })

-- What is at an address.
unfoldable pub load : ℕ → List Block → Option Cell
load a [] = none
load a (b ∷ bs) = if b.address == a then some b.cell else load a bs
