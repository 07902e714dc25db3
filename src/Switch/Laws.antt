-- ===== src/Switch/Laws.antt =====
-- What a `switch` over constants takes, and how the one with its sides exchanged undoes it.
use libc6_shim.Prelude.{ℕ, none, some, List, [], ◌∷◌, ◌≡◌, ◌≢◌, refl, arith}
use libc6_shim.Flags.{Entry, swap}
use libc6_shim.Switch.{select, NotTarget, DistinctTargets, NotLabel}

-- What is selected is one of the targets.
select-ne : (t : List Entry) (v w : ℕ) → NotTarget w t → select t v ≢ some w
unfolding select
select-ne [] v w h = λ e. cc
select-ne (d ∷ t) v w h = ground (arith, select-ne t v w h.1)

-- The `switch` back takes a result to the label that it came from.
pub select-swap :
    (t : List Entry) (v w : ℕ)
    → DistinctTargets t
    → select t v ≡ some w
    → select (swap t) w ≡ some v
unfolding select
select-swap [] v w h e = cc
select-swap (d ∷ t) v w h e = ground (arith, select-swap t v w h.1, select-ne t v d.target h.0)

-- The default is taken by what is no label.
pub select-none : (t : List Entry) (v : ℕ) → NotLabel v t → select t v ≡ none
unfolding select
select-none [] v h = refl
select-none (d ∷ t) v h = ground (arith, select-none t v h.1)

-- The other way round: what takes the default is no label.
pub NotLabel-of_none : (t : List Entry) (v : ℕ) → select t v ≡ none → NotLabel v t
unfolding select
NotLabel-of_none [] v h = tt
NotLabel-of_none (d ∷ t) v h = ground (arith, NotLabel-of_none t v)
