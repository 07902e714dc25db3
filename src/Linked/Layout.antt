-- ===== src/Linked/Layout.antt =====
-- How a list of nodes lies in memory, and what the operations on one node are to do.
use libc6_shim.Prelude.{
  ℕ, suc, ◌+◌, ◌≤◌, ◌<◌, ◌≡◌, ◌⊎◌, List, [], ◌∷◌, Option, none, ltb, leb, ◌&&◌, if◌then◌else◌, Bool,
}
use libc6_shim.Outcome.{Outcome, ok}
use libc6_shim.Memory.{Memory, IsFresh}
use libc6_shim.Linked.{NodeOps}

-- How a node lies in memory: what it stands for, of type `V`, how many addresses it takes behind
-- the address `lo`, and what they hold.
pub record Layout (C V : Type 0) : Type 0 where
  pub size : V → ℕ
  pub cells : ℕ → ℕ → V → ℕ → Option C

module _ {C V : Type 0} (l : Layout C V) where
  -- The node of `v` behind `lo`, with its pointer to the next.
  abbrev pub HasNode : Memory C → ℕ → ℕ → V → Type 0
  HasNode m lo next v = (a : ℕ) → lo < a → a ≤ lo + l.size v → m.cells a ≡ l.cells lo next v a

  -- The list from `p`: its nodes lie one behind the other and fill the addresses from `lo` to `hi`.
  abbrev pub IsChain : Memory C → ℕ → ℕ → ℕ → List V → Type 0
  IsChain m lo hi p [] = (p ≡ 0) × (hi ≡ lo)
  IsChain m lo hi p (v ∷ vs) =
      (next : ℕ) × (p ≡ suc lo) × HasNode m lo next v × IsChain m (lo + l.size v) hi next vs

  -- The two memories agree up to an address.
  abbrev pub SameUpTo : ℕ → Memory C → Memory C → Type 0
  SameUpTo lo m n = (a : ℕ) → a ≤ lo → n.cells a ≡ m.cells a

  -- What the copy of an item leaves: a node behind the old memory.
  pub record Copied (m n : Memory C) (v : V) : Type 0 where
    pub next : ℕ
    pub last : n.last ≡ m.last + l.size v
    pub node : HasNode n m.last next v
    pub below : SameUpTo m.last m n
    pub fresh : IsFresh n

  pub record Linked (m n : Memory C) (lo next : ℕ) (v : V) : Type 0 where
    pub last : n.last ≡ m.last
    pub node : HasNode n lo next v
    pub outside : (a : ℕ) → (a ≤ lo) ⊎ (lo + l.size v < a) → n.cells a ≡ m.cells a

  abbrev pub within : ℕ → ℕ → ℕ → Bool
  within lo hi a = ltb lo a && leb a hi

  abbrev pub Freed : ℕ → ℕ → Memory C → Memory C → Type 0
  Freed lo hi m n = (a : ℕ) → n.cells a ≡ (if within lo hi a then none else m.cells a)

-- The laws of the operations, where an item is converted to what its node stands for.
pub record IsNodeOps {N C V : Type 0} (ops : NodeOps N C) (l : Layout C V) (convert : N → Outcome V)
    : Type 0 where
  pub positive : (v : V) → 0 < l.size v
  pub copies :
      (n : N) (v : V) (m : Memory C)
      → IsFresh m
      → convert n ≡ ok v
      → (m1 : Memory C) × (ops.copy n m ≡ ok (suc m.last, m1)) × Copied l m m1 v
  pub links :
      (m : Memory C) (lo old next : ℕ) (v : V)
      → HasNode l m lo old v
      → (m1 : Memory C) × (ops.set_next (suc lo) next m ≡ ok m1) × Linked l m m1 lo next v
  pub frees :
      (m : Memory C) (lo next : ℕ) (v : V)
      → HasNode l m lo next v
      → (m1 : Memory C) × (ops.free_node (suc lo) m ≡ ok (next, m1))
        × Freed l lo (lo + l.size v) m m1

-- All items are converted.
abbrev pub Converts : {N V : Type 0} → (N → Outcome V) → List N → List V → Type 0
Converts convert [] [] = Unit {0}
Converts convert [] (v ∷ vs) = ⊥
Converts convert (n ∷ ns) [] = ⊥
Converts convert (n ∷ ns) (v ∷ vs) = (convert n ≡ ok v) × Converts convert ns vs
