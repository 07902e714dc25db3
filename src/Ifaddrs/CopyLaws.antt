-- ===== src/Ifaddrs/CopyLaws.antt =====
-- That the operations of Ifaddrs/Copy keep to the layout of the nodes.
use libc6_shim.Prelude.{
  ℕ, suc, ◌+◌, ◌∙◌, eq→==, ne→==, ◌≡◌, inl, inr, refl, subst, Option, none, some, arith,
}
use libc6_shim.CString.{CString}
use libc6_shim.Outcome.{ok, abort, Outcome-cases, ok_unique}
use libc6_shim.Memory.{Memory, IsFresh, malloc, put}
use libc6_shim.Linked.Layout.{HasNode, Copied, Linked, IsNodeOps}
use libc6_shim.Ifaddrs.{
  InterfaceNumbers, Ifaddrs, LinuxInterfaceAddress, native_to_linux_if_flags, copy_address,
  copy_netmask, copy_optional,
}
use libc6_shim.Ifaddrs.Copy.{Cell, place, copy_ifaddrs, set_ifa_next, ifaddrs_ops}
use libc6_shim.Ifaddrs.NodeLayout.{LinuxIfaddrs, to_linux_ifaddrs, node_of, ifaddrs_layout}
use libc6_shim.Ifaddrs.FreeLaws.{frees_parts}

module _ (c : InterfaceNumbers) (garbage : ℕ) where
  -- The memory behind the assignments of `copy_ifaddrs`.
  abbrev copied :
      CString
      → ℕ
      → Option LinuxInterfaceAddress
      → Option LinuxInterfaceAddress
      → Memory Cell
      → Memory Cell
  copied t flags a b m =
      let (node, m1) = malloc Cell.raw m in
      let (name, m2) = malloc (Cell.name t) m1 in
      let (addr, m3) = place a m2 in
      let (netmask, m4) = place b m3 in
      put node
        (some (
          Cell.node (record {
            ifa_next = garbage;
            ifa_name = name;
            ifa_flags = flags;
            ifa_addr = addr;
            ifa_netmask = netmask;
            ifa_dstaddr = 0;
          })))
        m4

  copied-Copied :
      (t : CString) (flags : ℕ) (a b : Option LinuxInterfaceAddress) (m : Memory Cell)
      → IsFresh m
      → Copied ifaddrs_layout m
          (copied t flags a b m)
          (record { name = t; flags = flags; address = a; netmask = b })
  copied-Copied t flags none none m fresh = record {
    next = garbage;
    last = omega arith;
    node = λ a p q. ground (arith, p, q);
    below = λ a h. ground (arith, h);
    fresh = λ a h. ground (arith, h, fresh a);
  }
  copied-Copied t flags none (some b) m fresh = record {
    next = garbage;
    last = omega arith;
    node = λ a p q. ground (arith, p, q);
    below = λ a h. ground (arith, h);
    fresh = λ a h. ground (arith, h, fresh a);
  }
  copied-Copied t flags (some a) none m fresh = record {
    next = garbage;
    last = omega arith;
    node = λ a p q. ground (arith, p, q);
    below = λ a h. ground (arith, h);
    fresh = λ a h. ground (arith, h, fresh a);
  }
  copied-Copied t flags (some a) (some b) m fresh = record {
    next = garbage;
    last = omega arith;
    node = λ a p q. ground (arith, p, q);
    below = λ a h. ground (arith, h);
    fresh = λ a h. ground (arith, h, fresh a);
  }

  copies_ifaddrs :
      (n : Ifaddrs) (v : LinuxIfaddrs) (m : Memory Cell)
      → IsFresh m
      → to_linux_ifaddrs c n ≡ ok v
      → (m1 : Memory Cell) × (copy_ifaddrs c garbage n m ≡ ok (suc m.last, m1))
        × Copied ifaddrs_layout m m1 v
  unfolding copy_ifaddrs
  copies_ifaddrs n v m fresh h = elim (Outcome-cases (copy_optional copy_address n.ifa_addr)) [
    | inl no_address ↦ cc (h, no_address)
    | inr (a, there) ↦ elim (Outcome-cases (copy_optional copy_netmask n.ifa_netmask)) [
      | inl no_netmask ↦
          let stuck : to_linux_ifaddrs c n ≡ abort = rw (there, no_netmask) refl in cc (h, stuck)
      | inr (b, masked) ↦
          let flags = native_to_linux_if_flags c n.ifa_flags in
          let w : LinuxIfaddrs = record {
            name = n.ifa_name;
            flags = flags;
            address = a;
            netmask = b;
          } in
          let converted : to_linux_ifaddrs c n ≡ ok w = rw (there, masked) refl in
          subst
            (λ x.
              (m1 : Memory Cell) × (copy_ifaddrs c garbage n m ≡ ok (suc m.last, m1))
              × Copied ifaddrs_layout m m1 x)
            (ok_unique converted h)
            (
              copied n.ifa_name flags a b m,
              rw (there, masked) refl,
              copied-Copied n.ifa_name flags a b m fresh,
            )
    ]
  ]

  links_ifaddrs :
      (m : Memory Cell) (lo old next : ℕ) (v : LinuxIfaddrs)
      → HasNode ifaddrs_layout m lo old v
      → (m1 : Memory Cell) × (set_ifa_next c garbage (suc lo) next m ≡ ok m1)
        × Linked ifaddrs_layout m m1 lo next v
  unfolding set_ifa_next
  links_ifaddrs m lo old next v node =
      let here : m.cells (suc lo)
          ≡ some (Cell.node (node_of v.name v.flags v.address v.netmask lo old)) =
        node (suc lo) (omega arith) (omega arith)
        ∙ rw (eq→== (suc lo) (lo + 1) (omega arith)) refl in
      (
        put (suc lo) (some (Cell.node (node_of v.name v.flags v.address v.netmask lo next))) m,
        rw (ne→== (suc lo) 0 (omega arith), here) refl,
        record {
          last = refl;
          node = λ a p q. ground (arith, p, q, node a);
          outside = λ a h. ground (arith, h);
        },
      )

  pub ifaddrs-IsNodeOps : IsNodeOps (ifaddrs_ops c garbage) ifaddrs_layout (to_linux_ifaddrs c)
  ifaddrs-IsNodeOps = record {
    positive = λ v. omega arith;
    copies = copies_ifaddrs;
    links = links_ifaddrs;
    frees =
        λ m lo next v node. frees_parts c garbage v.name v.flags v.address v.netmask m lo next node;
  }
