-- ===== src/Langinfo/Laws.antt =====
-- The items that nl_langinfo tells apart.
use libc6_shim.Prelude.{
  ℕ, ◌≡◌, List, [], ◌∷◌, Option, none, some, Bool, true, not, ◌&&◌, ◌==◌, arith,
}
use libc6_shim.Outcome.{ok, or_abort}
use libc6_shim.Flags.{Entry}
use libc6_shim.Switch.{select, NotTarget, DistinctTargets}
use libc6_shim.Switch.Laws.{select-swap}
use libc6_shim.Langinfo.{NlItems, nl_item_cases, linux_to_native_nl_item}

-- The condition on the targets as a test.
unfoldable pub no_target : ℕ → List Entry → Bool
no_target w [] = true
no_target w (e ∷ t) = not (w == e.target) && no_target w t

unfoldable pub distinct : List Entry → Bool
unfolding no_target
distinct [] = true
distinct (e ∷ t) = no_target e.target t && distinct t

NotTarget-of_test : (w : ℕ) (t : List Entry) → no_target w t ≡ true → NotTarget w t
unfolding no_target
NotTarget-of_test w [] h = tt
NotTarget-of_test w (e ∷ t) h = (ground arith, NotTarget-of_test w t (ground arith))

pub DistinctTargets-of_test : (t : List Entry) → distinct t ≡ true → DistinctTargets t
unfolding distinct
DistinctTargets-of_test [] h = tt
DistinctTargets-of_test (e ∷ t) h =
    (NotTarget-of_test e.target t (ground arith), DistinctTargets-of_test t (ground arith))

selected : (o : Option ℕ) (w : ℕ) → or_abort o ≡ ok w → o ≡ some w
selected none w h = cc
selected (some v) w h = cc

-- Where the native items differ, two Linux items that are converted to the same native item are
-- the same: no item is answered with the text of another.
pub langinfo_tells_apart :
    (c : NlItems) (a b item : ℕ)
    → DistinctTargets (nl_item_cases c)
    → linux_to_native_nl_item c a ≡ ok item
    → linux_to_native_nl_item c b ≡ ok item
    → a ≡ b
unfolding linux_to_native_nl_item
langinfo_tells_apart c a b item d p q = cc (
  select-swap (nl_item_cases c) a item d (selected (select (nl_item_cases c) a) item p),
  select-swap (nl_item_cases c) b item d (selected (select (nl_item_cases c) b) item q),
)
