-- ===== src/Netdb/CopyLaws.antt =====
-- That the operations of Netdb/Copy keep to the layout of the nodes.
use libc6_shim.Prelude.{
  ℕ, subst, sym, suc, ◌+◌, ◌≤◌, ◌≡◌, inl, inr, refl, ap, ◌∙◌, eq→==, ne→==, Option, none, some,
  arith,
}
use libc6_shim.CString.{CString}
use libc6_shim.Outcome.{ok, abort, Outcome-cases, ok_unique}
use libc6_shim.Memory.{Memory, IsFresh, malloc, put}
use libc6_shim.Linked.Layout.{HasNode, Copied, Linked, IsNodeOps, Freed}
use libc6_shim.Socket.{SocketNumbers, native_to_linux_sock_type}
use libc6_shim.Netdb.{Addrinfo, copy_addr}
use libc6_shim.Netdb.Copy.{copy_name, Cell, copy_addrinfo, set_ai_next, free_addrinfo, addrinfo_ops}
use libc6_shim.Netdb.NodeLayout.{
  LinuxAddrinfo, to_linux_addrinfo, node_size, node_of, canonname_of, tail_cells, addrinfo_layout,
}

node_size_two : (name : Option CString) (lo : ℕ) → suc lo ≤ lo + node_size name
node_size_two none lo = omega arith
node_size_two (some t) lo = omega arith

module _ (s : SocketNumbers) (garbage : ℕ) where
  -- The memory behind the assignments of `copy_addrinfo`.
  abbrev copied : LinuxAddrinfo → Option CString → Memory Cell → Memory Cell
  copied v name m =
      let (node, m1) = malloc Cell.raw m in
      let (canonname, m2) = copy_name name m1 in
      let (address, m3) = malloc (Cell.addr v.address) m2 in
      put node (some (Cell.info (node_of v address canonname garbage))) m3

  copied-Copied :
      (v : LinuxAddrinfo) (name : Option CString) (m : Memory Cell)
      → IsFresh m
      → v.canonname ≡ name
      → Copied addrinfo_layout m (copied v name m) v
  copied-Copied v none m fresh e = record {
    next = garbage;
    last = rw e omega arith;
    node = λ a p q. rw e ground (arith, p, ap node_size e, q);
    below = λ a h. ground (arith, h);
    fresh = λ a h. ground (arith, h, fresh a);
  }
  copied-Copied v (some t) m fresh e = record {
    next = garbage;
    last = rw e omega arith;
    node = λ a p q. rw e ground (arith, p, ap node_size e, q);
    below = λ a h. ground (arith, h);
    fresh = λ a h. ground (arith, h, fresh a);
  }

  copies_addrinfo :
      (n : Addrinfo) (v : LinuxAddrinfo) (m : Memory Cell)
      → IsFresh m
      → to_linux_addrinfo s n ≡ ok v
      → (m1 : Memory Cell) × (copy_addrinfo s garbage n m ≡ ok (suc m.last, m1))
        × Copied addrinfo_layout m m1 v
  unfolding copy_addrinfo
  copies_addrinfo n v m fresh h = elim (Outcome-cases (native_to_linux_sock_type s n.ai_socktype)) [
    | inl no_type ↦ cc (h, no_type)
    | inr (type, typed) ↦ elim (Outcome-cases (copy_addr n.ai_addr)) [
      | inl no_addr ↦
          let stuck : to_linux_addrinfo s n ≡ abort = rw (typed, no_addr) refl in cc (h, stuck)
      | inr ((family, addrlen, a), there) ↦
          let w : LinuxAddrinfo = record {
            family = family;
            socktype = type;
            protocol = n.ai_protocol;
            addrlen = addrlen;
            address = a;
            canonname = n.ai_canonname;
          } in
          let converted : to_linux_addrinfo s n ≡ ok w = rw (typed, there) refl in
          (
            copied v n.ai_canonname m,
            subst (λ x. copy_addrinfo s garbage n m ≡ ok (suc m.last, copied x n.ai_canonname m))
                (ok_unique converted h) (rw (typed, there) refl),
            copied-Copied v n.ai_canonname m fresh
                (sym (ap (λ x. x.canonname) (ok_unique converted h))),
          )
    ]
  ]

  links_addrinfo :
      (m : Memory Cell) (lo old next : ℕ) (v : LinuxAddrinfo)
      → HasNode addrinfo_layout m lo old v
      → (m1 : Memory Cell) × (set_ai_next s garbage (suc lo) next m ≡ ok m1)
        × Linked addrinfo_layout m m1 lo next v
  unfolding set_ai_next
  links_addrinfo m lo old next v node =
      let here : m.cells (suc lo)
          ≡ some (
              Cell.info
                (node_of v (lo + node_size v.canonname) (canonname_of v.canonname lo) old)) =
        node (suc lo) (omega arith) (node_size_two v.canonname lo)
        ∙ rw (eq→== (suc lo) (lo + 1) (omega arith)) refl in
      (
        put (suc lo)
            (some (
              Cell.info
                (node_of v (lo + node_size v.canonname) (canonname_of v.canonname lo) next)))
            m,
        rw (ne→== (suc lo) 0 (omega arith), here) refl,
        record {
          last = refl;
          node = λ a p q. ground (arith, p, q, node a);
          outside = λ a h. ground (arith, h);
        },
      )

  -- Each allocation of a node is found at its address, and freed.
  frees_by_name :
      (name : Option CString) (m : Memory Cell) (lo next : ℕ) (v : LinuxAddrinfo)
      → v.canonname ≡ name
      → HasNode addrinfo_layout m lo next v
      → (m1 : Memory Cell) × (free_addrinfo s garbage (suc lo) m ≡ ok (next, m1))
        × Freed addrinfo_layout lo (lo + node_size name) m m1
  unfolding free_addrinfo
  frees_by_name none m lo next v e node =
      let here : m.cells (suc lo) ≡ some (Cell.info (node_of v (lo + 2) 0 next)) =
        ground (arith, ap node_size e, ap (λ n. canonname_of n lo) e, node (suc lo)) in
      let there : m.cells (lo + 2) ≡ some (Cell.addr v.address) =
        ground
          (arith, ap node_size e, ap (λ n. tail_cells n lo v.address (lo + 2)) e, node (lo + 2)) in
      (
        put (suc lo) none (put (lo + 2) none m),
        rw
            (
              ne→== (suc lo) 0 (omega arith),
              here,
              ne→== (lo + 2) 0 (omega arith),
              there,
              ne→== (suc lo) (lo + 2) (omega arith),
              here,
            )
            refl,
        λ a. ground arith,
      )
  frees_by_name (some t) m lo next v e node =
      let here : m.cells (suc lo) ≡ some (Cell.info (node_of v (lo + 3) (lo + 2) next)) =
        ground (arith, ap node_size e, ap (λ n. canonname_of n lo) e, node (suc lo)) in
      let named : m.cells (lo + 2) ≡ some (Cell.name t) =
        ground
          (arith, ap node_size e, ap (λ n. tail_cells n lo v.address (lo + 2)) e, node (lo + 2)) in
      let there : m.cells (lo + 3) ≡ some (Cell.addr v.address) =
        ground
          (arith, ap node_size e, ap (λ n. tail_cells n lo v.address (lo + 3)) e, node (lo + 3)) in
      (
        put (suc lo) none (put (lo + 3) none (put (lo + 2) none m)),
        rw
            (
              ne→== (suc lo) 0 (omega arith),
              here,
              ne→== (lo + 2) 0 (omega arith),
              named,
              ne→== (lo + 3) (lo + 2) (omega arith),
              ne→== (lo + 3) 0 (omega arith),
              there,
              ne→== (suc lo) (lo + 3) (omega arith),
              ne→== (suc lo) (lo + 2) (omega arith),
              here,
            )
            refl,
        λ a. ground arith,
      )

  frees_addrinfo :
      (m : Memory Cell) (lo next : ℕ) (v : LinuxAddrinfo)
      → HasNode addrinfo_layout m lo next v
      → (m1 : Memory Cell) × (free_addrinfo s garbage (suc lo) m ≡ ok (next, m1))
        × Freed addrinfo_layout lo (lo + node_size v.canonname) m m1
  unfolding free_addrinfo
  frees_addrinfo m lo next v node = frees_by_name v.canonname m lo next v refl node

  pub addrinfo-IsNodeOps : IsNodeOps (addrinfo_ops s garbage) addrinfo_layout (to_linux_addrinfo s)
  addrinfo-IsNodeOps = record {
    positive = λ v. omega (arith, node_size_two v.canonname 0);
    copies = copies_addrinfo;
    links = links_addrinfo;
    frees = frees_addrinfo;
  }
