-- ===== src/Memory.antt =====
-- The heap of C, cell by cell: `malloc` takes the next address, which is never NULL (0), and what
-- follows a NULL or an address that holds nothing aborts.
use libc6_shim.Prelude.{ℕ, suc, ◌<◌, ◌≡◌, Option, none, some, ◌==◌, if◌then◌else◌}
use libc6_shim.Outcome.{Outcome, ok, abort, or_abort}

pub record Memory (C : Type 0) : Type 0 where
  pub last : ℕ
  pub cells : ℕ → Option C

-- Nothing lies above the last address.
abbrev pub IsFresh : {C : Type 0} → Memory C → Type 0
IsFresh m = (a : ℕ) → m.last < a → m.cells a ≡ none

abbrev pub put : {C : Type 0} → ℕ → Option C → Memory C → Memory C
put p c m = record m { cells = λ a. if a == p then c else m.cells a }

abbrev pub malloc : {C : Type 0} → C → Memory C → ℕ × Memory C
malloc c m = (
  suc m.last,
  record { last = suc m.last; cells = λ a. if a == suc m.last then some c else m.cells a },
)

-- `*p`
abbrev pub load : {C : Type 0} → ℕ → Memory C → Outcome C
load p m = if p == 0 then abort else or_abort (m.cells p)

-- `free(NULL)` does nothing.
abbrev pub free : {C : Type 0} → ℕ → Memory C → Outcome (Memory C)
free p m = if p == 0 then ok m else elim (m.cells p) [ none ↦ abort | some c ↦ ok (put p none m) ]
