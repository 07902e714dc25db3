-- ===== src/Mman/Laws.antt =====
-- What a mapping asks of the native system.
use libc6_shim.Prelude.{
  ℕ, bit_and, [], ◌∷◌, Bool, true, false, not, ◌&&◌, ◌||◌, ◌==◌, if◌then◌else◌, ◌≡◌, ◌∙◌, ◌⊎◌, inl,
  inr, refl, Bool-cases, ==-cases, eq→==, arith,
}
use libc6_shim.Bits.{zero-bit_and}
use libc6_shim.Outcome.{ok}
use libc6_shim.Process.{Process, minus_one}
use libc6_shim.Flags.{◌⇒◌, has, translate, SeparateTargets}
use libc6_shim.Flags.Has.{has-bit_or, has-translate, has_self, has_apart}
use libc6_shim.Mman.{
  MmanNumbers, MmanHost, Mapping, linux_map_shared, linux_map_private, linux_map_fixed,
  linux_map_anon, linux_map_32bit, known_linux_mmap_flags, mmap_entries, warn, shim_mmap64,
}

-- The flags of FreeBSD share no bits and are not empty.
abbrev pub IsMapFlags : MmanNumbers → Type 0
IsMapFlags c = SeparateTargets (
    (1 ⇒ c.map_shared)
    ∷ (2 ⇒ c.map_private)
    ∷ (4 ⇒ c.map_fixed)
    ∷ (8 ⇒ c.map_anon)
    ∷ (16 ⇒ c.map_32bit)
    ∷ [])

-- The native flags and descriptor of a mapping.
pub record Requests (c : MmanNumbers) (linux_flags fd flags native_fd : ℕ) : Type 0 where
  pub shared : has flags c.map_shared ≡ has linux_flags linux_map_shared
  pub private_ : has flags c.map_private ≡ has linux_flags linux_map_private
  pub fixed : has flags c.map_fixed ≡ has linux_flags linux_map_fixed
  pub low : has flags c.map_32bit ≡ has linux_flags linux_map_32bit
  pub anonymous :
      has flags c.map_anon
      ≡ has linux_flags linux_map_anon || (has linux_flags linux_map_private && fd == minus_one)
  pub no_file : (has flags c.map_anon ≡ false) ⊎ (native_fd ≡ minus_one)

-- What is set of a mask `f`, by what each native flag has of it.
tracks :
    (c : MmanNumbers) (x fd f : ℕ) (s p i a l : Bool)
    → has c.map_shared f ≡ s
    → has c.map_private f ≡ p
    → has c.map_fixed f ≡ i
    → has c.map_anon f ≡ a
    → has c.map_32bit f ≡ l
    → has (translate (mmap_entries c fd) x 0) f
      ≡ (has x linux_map_shared && s)
        || ((has x linux_map_private && (p || (fd == minus_one && a)))
            || ((has x linux_map_fixed && i)
                || ((has x linux_map_anon && a) || ((has x linux_map_32bit && l) || false))))
tracks c x fd f s p i a l hs hp hi ha hl =
    rw
      (
        has-translate (mmap_entries c fd) x f,
        has-bit_or c.map_private (if fd == minus_one then c.map_anon else 0) f,
        hs,
        hp,
        hi,
        ha,
        hl,
      )
      (elim (Bool-cases (fd == minus_one)) [
        | inl e ↦ rw (e, ha) refl
        | inr e ↦ rw (e, zero-bit_and f) refl
      ])

translate-Requests :
    (c : MmanNumbers) (x fd : ℕ)
    → IsMapFlags c
    → Requests c x fd
        (translate (mmap_entries c fd) x 0)
        (if has x linux_map_anon then minus_one else fd)
translate-Requests c x fd
      (
        s0,
        (sp, (si, (sa, (sl, u1)))),
        (p0, (pi, (pa, (pl, u2))), (i0, (ia, (il, u3)), (a0, (al, u4), (l0, u5, u6)))),
      ) =
    let shared = c.map_shared in
    let private_ = c.map_private in
    let fixed = c.map_fixed in
    let anon = c.map_anon in
    let low = c.map_32bit in
    let anonymous : has (translate (mmap_entries c fd) x 0) anon
        ≡ has x linux_map_anon || (has x linux_map_private && fd == minus_one) =
      tracks c x fd anon false false false true false (has_apart shared anon sa).0
        (has_apart private_ anon pa).0 (has_apart fixed anon ia).0 (has_self anon a0)
        (has_apart anon low al).1
      ∙ ground arith in
    record {
      shared =
          tracks c x fd shared true false false false false (has_self shared s0)
            (has_apart shared private_ sp).1 (has_apart shared fixed si).1
            (has_apart shared anon sa).1 (has_apart shared low sl).1
          ∙ ground arith;
      private_ =
          tracks c x fd private_ false true false false false (has_apart shared private_ sp).0
            (has_self private_ p0) (has_apart private_ fixed pi).1 (has_apart private_ anon pa).1
            (has_apart private_ low pl).1
          ∙ ground arith;
      fixed =
          tracks c x fd fixed false false true false false (has_apart shared fixed si).0
            (has_apart private_ fixed pi).0 (has_self fixed i0) (has_apart fixed anon ia).1
            (has_apart fixed low il).1
          ∙ ground arith;
      low =
          tracks c x fd low false false false false true (has_apart shared low sl).0
            (has_apart private_ low pl).0 (has_apart fixed low il).0 (has_apart anon low al).0
            (has_self low l0)
          ∙ ground arith;
      anonymous = anonymous;
      no_file = elim (Bool-cases (has x linux_map_anon)) [
        | inl set ↦ inr (rw set refl)
        | inr unset ↦ elim (==-cases fd minus_one) [
          | inl (e, test) ↦ inr (rw (unset, e) refl)
          | inr (ne, test) ↦ inl (anonymous ∙ ground (arith, unset, test))
        ]
      ];
    }

-- For a word of known flags, a mapping that is not both MAP_FIXED and MAP_32BIT, and a descriptor of
-- -1 or 0 if MAP_ANON is set, mmap makes one native call, and returns its result, with a message if it failed. The call asks
-- for a shared, private, fixed or low mapping exactly if the program does; for an anonymous one exactly if
-- the program does, or maps no file privately; and it never names a file for an anonymous mapping.
pub mmap-Requests :
    {W : Type 0} (c : MmanNumbers) (host : MmanHost W) (mapping : Mapping) (linux_flags fd : ℕ)
    (p : Process W)
    → IsMapFlags c
    → bit_and linux_flags known_linux_mmap_flags ≡ linux_flags
    → (has linux_flags linux_map_anon ≡ false) ⊎ ((fd ≡ minus_one) ⊎ (fd ≡ 0))
    → (has linux_flags linux_map_32bit ≡ false) ⊎ (has linux_flags linux_map_fixed ≡ false)
    → (flags : ℕ) × (native_fd : ℕ) × (shim_mmap64 c host mapping linux_flags fd p
        ≡ ok (warn c host (host.mmap mapping flags native_fd p)))
      × Requests c linux_flags fd flags native_fd
unfolding shim_mmap64
mmap-Requests c host mapping linux_flags fd p h known no_file placed =
    let first : (bit_and linux_flags known_linux_mmap_flags == linux_flags) ≡ true =
      eq→== _ _ known in
    let second : (not (has linux_flags linux_map_anon) || (fd == minus_one || fd == 0)) ≡ true =
      ground (arith, no_file) in
    let third : (not (has linux_flags linux_map_32bit) || bit_and linux_flags linux_map_fixed == 0)
        ≡ true =
      ground (arith, placed) in
    (
      translate (mmap_entries c fd) linux_flags 0,
      if has linux_flags linux_map_anon then minus_one else fd,
      rw (first, second, third) refl,
      translate-Requests c linux_flags fd h,
    )
