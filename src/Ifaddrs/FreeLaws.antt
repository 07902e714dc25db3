-- ===== src/Ifaddrs/FreeLaws.antt =====
-- The release of an entry of the interface list.
use libc6_shim.Prelude.{ℕ, suc, ◌+◌, ◌≤◌, ◌<◌, ne→==, ◌≡◌, refl, Option, none, some, arith}
use libc6_shim.CString.{CString}
use libc6_shim.Outcome.{ok}
use libc6_shim.Memory.{Memory, put}
use libc6_shim.Linked.Layout.{Freed}
use libc6_shim.Ifaddrs.{InterfaceNumbers, LinuxInterfaceAddress}
use libc6_shim.Ifaddrs.Copy.{Cell, free_ifaddrs}
use libc6_shim.Ifaddrs.NodeLayout.{size_of, node_of, node_cells, ifaddrs_layout}

module _ (c : InterfaceNumbers) (garbage : ℕ) where
  -- Each allocation of a node is found at its address, and freed.
  pub frees_parts :
      (t : CString) (flags : ℕ) (a b : Option LinuxInterfaceAddress) (m : Memory Cell) (lo next : ℕ)
      → ((p : ℕ) → lo < p → p ≤ lo + size_of a b → m.cells p ≡ node_cells t flags a b lo next p)
      → (m1 : Memory Cell) × (free_ifaddrs c garbage (suc lo) m ≡ ok (next, m1))
        × Freed ifaddrs_layout lo (lo + size_of a b) m m1
  unfolding free_ifaddrs
  frees_parts t flags none none m lo next h =
      let here : m.cells (suc lo) ≡ some (Cell.node (node_of t flags none none lo next)) =
        ground (arith, h (suc lo)) in
      let named : m.cells (lo + 2) ≡ some (Cell.name t) = ground (arith, h (lo + 2)) in
      (
        put (suc lo) none (put (lo + 2) none m),
        rw
            (
              ne→== (suc lo) 0 (omega arith),
              here,
              ne→== (lo + 2) 0 (omega arith),
              named,
              ne→== (suc lo) (lo + 2) (omega arith),
              here,
            )
            refl,
        λ x. ground arith,
      )
  frees_parts t flags none (some b) m lo next h =
      let here : m.cells (suc lo) ≡ some (Cell.node (node_of t flags none (some b) lo next)) =
        ground (arith, h (suc lo)) in
      let named : m.cells (lo + 2) ≡ some (Cell.name t) = ground (arith, h (lo + 2)) in
      let masked : m.cells (lo + 3) ≡ some (Cell.addr b) = ground (arith, h (lo + 3)) in
      (
        put (suc lo) none (put (lo + 3) none (put (lo + 2) none m)),
        rw
            (
              ne→== (suc lo) 0 (omega arith),
              here,
              ne→== (lo + 2) 0 (omega arith),
              named,
              ne→== (lo + 3) 0 (omega arith),
              ne→== (lo + 3) (lo + 2) (omega arith),
              masked,
              ne→== (suc lo) (lo + 3) (omega arith),
              ne→== (suc lo) (lo + 2) (omega arith),
              here,
            )
            refl,
        λ x. ground arith,
      )
  frees_parts t flags (some a) none m lo next h =
      let here : m.cells (suc lo) ≡ some (Cell.node (node_of t flags (some a) none lo next)) =
        ground (arith, h (suc lo)) in
      let named : m.cells (lo + 2) ≡ some (Cell.name t) = ground (arith, h (lo + 2)) in
      let there : m.cells (lo + 3) ≡ some (Cell.addr a) = ground (arith, h (lo + 3)) in
      (
        put (suc lo) none (put (lo + 3) none (put (lo + 2) none m)),
        rw
            (
              ne→== (suc lo) 0 (omega arith),
              here,
              ne→== (lo + 2) 0 (omega arith),
              named,
              ne→== (lo + 3) 0 (omega arith),
              ne→== (lo + 3) (lo + 2) (omega arith),
              there,
              ne→== (suc lo) (lo + 3) (omega arith),
              ne→== (suc lo) (lo + 2) (omega arith),
              here,
            )
            refl,
        λ x. ground arith,
      )
  frees_parts t flags (some a) (some b) m lo next h =
      let here : m.cells (suc lo) ≡ some (Cell.node (node_of t flags (some a) (some b) lo next)) =
        ground (arith, h (suc lo)) in
      let named : m.cells (lo + 2) ≡ some (Cell.name t) = ground (arith, h (lo + 2)) in
      let there : m.cells (lo + 3) ≡ some (Cell.addr a) = ground (arith, h (lo + 3)) in
      let masked : m.cells (lo + 4) ≡ some (Cell.addr b) = ground (arith, h (lo + 4)) in
      (
        put (suc lo) none (put (lo + 4) none (put (lo + 3) none (put (lo + 2) none m))),
        rw
            (
              ne→== (suc lo) 0 (omega arith),
              here,
              ne→== (lo + 2) 0 (omega arith),
              named,
              ne→== (lo + 3) 0 (omega arith),
              ne→== (lo + 3) (lo + 2) (omega arith),
              there,
              ne→== (lo + 4) 0 (omega arith),
              ne→== (lo + 4) (lo + 3) (omega arith),
              ne→== (lo + 4) (lo + 2) (omega arith),
              masked,
              ne→== (suc lo) (lo + 4) (omega arith),
              ne→== (suc lo) (lo + 3) (omega arith),
              ne→== (suc lo) (lo + 2) (omega arith),
              here,
            )
            refl,
        λ x. ground arith,
      )
