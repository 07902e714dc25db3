-- ===== src/Linked/Laws.antt =====
-- What the loops of Linked do, from what the operations on one node do.
use libc6_shim.Prelude.{
  ℕ, zero, suc, ◌+◌, ◌≤◌, ◌<◌, ◌≡◌, ◌⊎◌, inl, inr, refl, ◌∙◌, subst, ap, List, [], ◌∷◌, Option,
  none, some, length, leb, leb→le, ne→==, if◌then◌else◌, Bool-cases, false, arith,
}
use libc6_shim.Outcome.{Outcome, ok}
use libc6_shim.Memory.{Memory, IsFresh}
use libc6_shim.Linked.{NodeOps, copy_rest, copy_list, free_list}
use libc6_shim.Linked.Layout.{
  Layout, HasNode, IsChain, SameUpTo, within, Freed, IsNodeOps, Converts,
}

module _ {N C V : Type 0} (ops : NodeOps N C) (l : Layout C V) (convert : N → Outcome V)
    (is : IsNodeOps ops l convert) where
  HasNode-same :
      (m n : Memory C) (lo next : ℕ) (v : V)
      → HasNode l m lo next v
      → ((a : ℕ) → lo < a → a ≤ lo + l.size v → n.cells a ≡ m.cells a)
      → HasNode l n lo next v
  HasNode-same m n lo next v h same a p q = same a p q ∙ h a p q

  -- What the loop leaves: a list whose first node was there, and all else as it was.
  pub record Built (m n : Memory C) (lo : ℕ) (vs : List V) : Type 0 where
    pub chain : IsChain l n lo n.last (suc lo) vs
    pub below : SameUpTo l lo m n
    pub fresh : IsFresh n

  copy_rest-Built :
      (ns : List N) (vs : List V) (v : V) (lo old : ℕ) (m : Memory C)
      → Converts convert ns vs
      → IsFresh m
      → m.last ≡ lo + l.size v
      → HasNode l m lo old v
      → (n : Memory C) × (copy_rest ops (suc lo) ns m ≡ ok n) × Built m n lo (v ∷ vs)
  unfolding copy_rest
  copy_rest-Built [] [] v lo old m c fresh end node =
      let (m1, links, k) = is.links m lo old 0 v node in
      (
        m1,
        links,
        record {
          chain = (0, refl, k.node, (refl, k.last ∙ end));
          below = λ a h. k.outside a (inl h);
          fresh = λ a h.
              k.outside a (inr (omega (arith, h, k.last, end)))
              ∙ fresh a (omega (arith, h, k.last));
        },
      )
  copy_rest-Built [] (w ∷ vs) v lo old m c fresh end node = elim c [ ]
  copy_rest-Built (n ∷ ns) [] v lo old m c fresh end node = elim c [ ]
  copy_rest-Built (n ∷ ns) (w ∷ vs) v lo old m c fresh end node =
      let (m1, copies, k1) = is.copies n w m fresh c.0 in
      let node1 : HasNode l m1 lo old v =
        HasNode-same m m1 lo old v node (λ a p q. k1.below a (omega (arith, q, end))) in
      let (m2, links, k2) = is.links m1 lo old (suc m.last) v node1 in
      let node2 : HasNode l m2 m.last k1.next w =
        HasNode-same m1 m2 m.last k1.next w k1.node
          (λ a p q. k2.outside a (inr (omega (arith, p, end)))) in
      let fresh2 : IsFresh m2 = λ a h.
        k2.outside a (inr (omega (arith, h, k2.last, k1.last, end)))
        ∙ k1.fresh a (omega (arith, h, k2.last)) in
      let (n1, rest, b) =
        copy_rest-Built ns vs w m.last k1.next m2 c.1 fresh2 (k2.last ∙ k1.last) node2 in
      (
        n1,
        rw (copies, links) rest,
        record {
          chain = (
            suc m.last,
            refl,
            HasNode-same m2 n1 lo (suc m.last) v k2.node
                (λ a p q. b.below a (omega (arith, q, end))),
            subst (λ x. IsChain l n1 x n1.last (suc m.last) (w ∷ vs)) end b.chain,
          );
          below = λ a h.
              b.below a (omega (arith, h, end))
              ∙ (k2.outside a (inl h) ∙ k1.below a (omega (arith, h, end)));
          fresh = b.fresh;
        },
      )

  -- The list that the copy leaves, and the memory below it.
  pub copy_list-Built :
      (ns : List N) (vs : List V) (v : V) (n : N) (m : Memory C)
      → Converts convert (n ∷ ns) (v ∷ vs)
      → IsFresh m
      → (m1 : Memory C) × (copy_list ops (n ∷ ns) m ≡ ok (suc m.last, m1))
        × Built m m1 m.last (v ∷ vs)
  unfolding copy_list
  copy_list-Built ns vs v n m c fresh =
      let (m1, copies, k) = is.copies n v m fresh c.0 in
      let (m2, rest, b) = copy_rest-Built ns vs v m.last k.next m1 c.1 k.fresh k.last k.node in
      (
        m2,
        rw (copies, rest) refl,
        record { chain = b.chain; below = λ a h. b.below a h ∙ k.below a h; fresh = b.fresh },
      )

  chain_ordered : (m : Memory C) (lo hi p : ℕ) (vs : List V) → IsChain l m lo hi p vs → lo ≤ hi
  chain_ordered m lo hi p [] c = omega (arith, c.1)
  chain_ordered m lo hi p (v ∷ vs) (next, at, node, more) =
      omega (arith, chain_ordered m (lo + l.size v) hi next vs more)

  -- A list behind an address does not see what happens before it.
  IsChain-same :
      (m n : Memory C) (lo hi p : ℕ) (vs : List V)
      → IsChain l m lo hi p vs
      → ((a : ℕ) → lo < a → n.cells a ≡ m.cells a)
      → IsChain l n lo hi p vs
  IsChain-same m n lo hi p [] c same = c
  IsChain-same m n lo hi p (v ∷ vs) (next, at, node, more) same = (
    next,
    at,
    HasNode-same m n lo next v node (λ a q r. same a q),
    IsChain-same m n (lo + l.size v) hi next vs more (λ a q. same a (omega (arith, q))),
  )

  within_none : (lo hi a : ℕ) → (hi ≡ lo) ⊎ (hi < a) → within l lo hi a ≡ false
  within_none lo hi a h = ground (arith, h)

  within_low : (lo hi a : ℕ) → a ≤ lo → within l lo hi a ≡ false
  within_low lo hi a h = ground (arith, h)

  within_join :
      (lo mid hi a : ℕ) (x : Option C)
      → lo ≤ mid
      → mid ≤ hi
      → (if within l mid hi a then none else (if within l lo mid a then none else x))
        ≡ (if within l lo hi a then none else x)
  within_join lo mid hi a x h k = ground (arith, h, k)

  -- The loop that frees ends, and frees the list and nothing else.
  pub free_list-Freed :
      (vs : List V) (fuel : ℕ) (m : Memory C) (lo hi p : ℕ)
      → IsChain l m lo hi p vs
      → length vs < fuel
      → (n : Memory C) × (free_list ops fuel p m ≡ some (ok n)) × Freed l lo hi m n
  unfolding free_list
  free_list-Freed vs zero m lo hi p c enough = elim enough [ ]
  free_list-Freed [] (suc fuel) m lo hi p c enough =
      (m, rw c.0 refl, λ a. rw (within_none lo hi a (inl c.1)) refl)
  free_list-Freed (v ∷ vs) (suc fuel) m lo hi p (next, at, node, more) enough =
      let (m1, frees, gone) = is.frees m lo next v node in
      let more1 : IsChain l m1 (lo + l.size v) hi next vs =
        IsChain-same m m1 (lo + l.size v) hi next vs more
          (λ a q. gone a ∙ rw (within_none lo (lo + l.size v) a (inr q)) refl) in
      let (n, rest, gone_too) =
        free_list-Freed vs fuel m1 (lo + l.size v) hi next more1 (omega (arith, enough)) in
      (
        n,
        rw (at, ne→== (suc lo) 0 (omega arith), frees) rest,
        λ a.
            gone_too a
            ∙ (ap (λ x. if within l (lo + l.size v) hi a then none else x) (gone a)
                ∙ within_join lo (lo + l.size v) hi a (m.cells a) (omega arith)
                    (chain_ordered m (lo + l.size v) hi next vs more)),
      )

  -- A list that was copied, and is then given back: the loop that frees ends, and every address
  -- holds what it held before.
  pub free-copy :
      (ns : List N) (vs : List V) (v : V) (n : N) (m : Memory C) (fuel : ℕ)
      → Converts convert (n ∷ ns) (v ∷ vs)
      → IsFresh m
      → length (v ∷ vs) < fuel
      → (p : ℕ) × (m1 : Memory C) × (m2 : Memory C) × (copy_list ops (n ∷ ns) m ≡ ok (p, m1))
        × IsChain l m1 m.last m1.last p (v ∷ vs)
        × (free_list ops fuel p m1 ≡ some (ok m2))
        × ((a : ℕ) → m2.cells a ≡ m.cells a)
  free-copy ns vs v n m fuel c fresh enough =
      let (m1, copies, b) = copy_list-Built ns vs v n m c fresh in
      let (m2, frees, gone) =
        free_list-Freed (v ∷ vs) fuel m1 m.last m1.last (suc m.last) b.chain enough in
      (
        suc m.last,
        m1,
        m2,
        copies,
        b.chain,
        frees,
        λ a. elim (Bool-cases (leb a m.last)) [
          | inl low ↦
              gone a
              ∙ rw (within_low m.last m1.last a (leb→le a m.last low))
                  (b.below a (leb→le a m.last low))
          | inr high ↦ gone a ∙ elim (Bool-cases (leb a m1.last)) [
            | inl inside ↦ ground (arith, fresh a, high, inside)
            | inr above ↦ ground (arith, fresh a, b.fresh a, high, above)
          ]
        ],
      )
