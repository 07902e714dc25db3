-- ===== src/Flags/Each.antt =====
-- What a conversion whose targets share no bit does to each single flag.
use libc6_shim.Prelude.{ℕ, Bool, false, ◌&&◌, ◌||◌, List, [], ◌∷◌, ◌≡◌, refl, arith}
use libc6_shim.Flags.{Entry, has, translate, Apart, SeparateTargets}
use libc6_shim.Flags.Has.{sets, has-translate, has_self, has_apart}

-- Each target is set among the `flags` exactly if its source is in `x`.
abbrev pub EachFlag : List Entry → ℕ → ℕ → Type 0
EachFlag [] x flags = Unit {0}
EachFlag (e ∷ t) x flags = (has flags e.target ≡ has x e.source) × EachFlag t x flags

-- A flag that is apart from all targets is not set.
sets-Apart : (t : List Entry) (x f : ℕ) → Apart f t → sets t x f ≡ false
sets-Apart [] x f h = refl
sets-Apart (e ∷ t) x f h = ground (arith, has_apart f e.target h.0, sets-Apart t x f h.1)

-- No target is set by the entries that came earlier.
abbrev NoneEarlier : (ℕ → Bool) → List Entry → Type 0
NoneEarlier earlier [] = Unit {0}
NoneEarlier earlier (e ∷ t) = (earlier e.target ≡ false) × NoneEarlier earlier t

each_sets :
    (earlier : ℕ → Bool) (t : List Entry) (x flags : ℕ)
    → SeparateTargets t
    → ((f : ℕ) → has flags f ≡ earlier f || sets t x f)
    → NoneEarlier earlier t
    → EachFlag t x flags
each_sets earlier [] x flags h e b = tt
each_sets earlier (e ∷ t) x flags h all b = (
  ground (arith, all e.target, b.0, has_self e.target h.0, sets-Apart t x e.target h.1),
  each_sets (λ f. earlier f || (has x e.source && has e.target f)) t x flags h.2
      (λ f. ground (arith, all f)) (later t h.1 b.1),
)
  where
    later :
        (u : List Entry)
        → Apart e.target u
        → NoneEarlier earlier u
        → NoneEarlier (λ f. earlier f || (has x e.source && has e.target f)) u
    later [] a b = tt
    later (g ∷ u) a b = (ground (arith, b.0, has_apart e.target g.target a.0), later u a.1 b.1)

pub translate-EachFlag :
    (t : List Entry) (x : ℕ) → SeparateTargets t → EachFlag t x (translate t x 0)
translate-EachFlag t x h =
    each_sets (λ f. false) t x (translate t x 0) h (λ f. has-translate t x f) (none_before t)
  where
    none_before : (u : List Entry) → NoneEarlier (λ f. false) u
    none_before [] = tt
    none_before (e ∷ u) = (refl, none_before u)
