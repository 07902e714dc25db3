-- ===== src/Switch.antt =====
-- `switch` statements that map one constant to another: the cases in order, as entries.
pub mod Laws
use libc6_shim.Prelude.{ℕ, Option, none, some, List, [], ◌∷◌, ◌==◌, if◌then◌else◌, ◌≢◌}
use libc6_shim.Flags.{Entry}

-- The case that the value takes; `none` is the `default:`.
unfoldable pub select : List Entry → ℕ → Option ℕ
select [] v = none
select (e ∷ t) v = if v == e.source then some e.target else select t v

-- No case returns `w`, and no two cases return the same: what the compiler demands of the labels
-- of the `switch` back.
abbrev pub NotTarget : ℕ → List Entry → Type 0
NotTarget w [] = Unit {0}
NotTarget w (e ∷ t) = (w ≢ e.target) × NotTarget w t

abbrev pub DistinctTargets : List Entry → Type 0
DistinctTargets [] = Unit {0}
DistinctTargets (e ∷ t) = NotTarget e.target t × DistinctTargets t

-- The labels, on the other side.
abbrev pub NotLabel : ℕ → List Entry → Type 0
NotLabel v [] = Unit {0}
NotLabel v (e ∷ t) = (v ≢ e.source) × NotLabel v t
