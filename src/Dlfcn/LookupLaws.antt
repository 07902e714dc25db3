-- ===== src/Dlfcn/LookupLaws.antt =====
-- Which function dlsym and dlvsym find.
use libc6_shim.Prelude.{
  ◌-◌, ◌^◌, ℕ, ◌≤◌, ◌≡◌, ◌≢◌, ◌⊎◌, refl, ◌++◌, length, true, false, inl, inr, ==-cases, arith,
}
use libc6_shim.CString.{CString, codes, str_eq-cases}
use libc6_shim.CArray.{take-all}
use libc6_shim.Dlfcn.{
  DlNumbers, DlHost, native_handle, shim_symbol, is_malloc_hook, native_lookup, lookup_symbol,
  shim_dlsym, shim_dlvsym,
}

shim_symbol_whole :
    (symbol : CString) → length symbol ≤ 94 → shim_symbol symbol ≡ codes "shim_" ++ symbol
shim_symbol_whole symbol h = take-all 99 (codes "shim_" ++ symbol) (omega (arith, h))

-- What glibc's handles stand for: NULL for the default search, -1 for the objects behind the caller.
abbrev pub IsHandle : DlNumbers → ℕ → ℕ → Type 0
IsHandle c linux_handle handle =
    ((linux_handle ≡ 0) × (handle ≡ c.rtld_default))
    ⊎ ((linux_handle ≡ 2 ^ 64 - 1) × (handle ≡ c.rtld_next))
    ⊎ ((linux_handle ≢ 0) × (linux_handle ≢ 2 ^ 64 - 1) × (handle ≡ linux_handle))

abbrev pub IsHook : CString → Type 0
IsHook symbol =
    (symbol ≡ codes "__malloc_hook")
    ⊎ (symbol ≡ codes "__realloc_hook")
    ⊎ (symbol ≡ codes "__free_hook")
    ⊎ (symbol ≡ codes "__memalign_hook")

native_handle-IsHandle :
    (c : DlNumbers) (linux_handle : ℕ) → IsHandle c linux_handle (native_handle c linux_handle)
native_handle-IsHandle c l = elim (==-cases l 0) [
  | inl zero_ ↦ inl (zero_.0, rw zero_.1 refl)
  | inr nz ↦ elim (==-cases l (2 ^ 64 - 1)) [
    | inl next ↦ inr (inl (next.0, rw (nz.1, next.1) refl))
    | inr ne ↦ inr (inr (nz.0, ne.0, rw (nz.1, ne.1) refl))
  ]
]

is_malloc_hook-IsHook :
    (symbol : CString)
    → (IsHook symbol × (is_malloc_hook symbol ≡ true))
      ⊎ ((¬ IsHook symbol) × (is_malloc_hook symbol ≡ false))
is_malloc_hook-IsHook s = elim (str_eq-cases s (codes "__malloc_hook")) [
  | inl a ↦ inl (inl a.0, rw a.1 refl)
  | inr a ↦ elim (str_eq-cases s (codes "__realloc_hook")) [
    | inl b ↦ inl (inr (inl b.0), rw (a.1, b.1) refl)
    | inr b ↦ elim (str_eq-cases s (codes "__free_hook")) [
      | inl d ↦ inl (inr (inr (inl d.0)), rw (a.1, b.1, d.1) refl)
      | inr d ↦ elim (str_eq-cases s (codes "__memalign_hook")) [
        | inl f ↦ inl (inr (inr (inr f.0)), rw (a.1, b.1, d.1, f.1) refl)
        | inr f ↦ inr (
          λ h. elim h [
            | inl x ↦ a.0 x
            | inr y ↦ elim y [ inl x ↦ b.0 x | inr z ↦ elim z [ inl x ↦ d.0 x | inr x ↦ f.0 x ] ]
          ],
          rw (a.1, b.1, d.1, f.1) refl,
        )
      ]
    ]
  ]
]

module _ {W : Type 0} (c : DlNumbers) (host : DlHost W) where
  -- The two lookups of a symbol, from the state after the wrapper was looked for.
  abbrev pub Substitutes : ℕ → CString → CString → W → ℕ × W → Type 0
  Substitutes linux_handle symbol version w (wrapper, w1) =
      let dlsym = shim_dlsym c host linux_handle symbol w in
      let dlvsym = shim_dlvsym c host linux_handle symbol version w in
      ((wrapper ≢ 0) × (dlsym ≡ (wrapper, w1)) × (dlvsym ≡ (wrapper, w1)))
      ⊎ ((wrapper ≡ 0) × IsHook symbol × (dlsym ≡ (0, w1)) × (dlvsym ≡ (0, w1)))
      ⊎ ((wrapper ≡ 0)
          × (¬ IsHook symbol)
          × (handle : ℕ) × IsHandle c linux_handle handle
          × (dlsym ≡ host.dlsym handle symbol (host.dlerror w1))
          × (dlvsym ≡ host.dlvsym handle symbol version (host.dlerror w1)))

  -- Where a symbol of at most 94 characters has a wrapper, which is the symbol with "shim_" before it,
  -- dlsym and dlvsym give the wrapper, for every handle and version. Where it has none they give NULL
  -- for `__malloc_hook`, `__realloc_hook`, `__free_hook` and `__memalign_hook`, and what the system
  -- finds for all other symbols, in the default search for the handle 0, behind the caller for -1, and
  -- in the handle itself for any other.
  pub lookups_substitute :
      (linux_handle : ℕ) (symbol version : CString) (w : W)
      → length symbol ≤ 94
      → Substitutes linux_handle symbol version w (host.dlsym 0 (codes "shim_" ++ symbol) w)
  unfolding shim_dlsym shim_dlvsym lookup_symbol native_lookup
  lookups_substitute linux_handle symbol version w h =
      let whole = shim_symbol_whole symbol h in
      let wrapper = (host.dlsym 0 (codes "shim_" ++ symbol) w).0 in
      elim (==-cases wrapper 0) [
        | inr there ↦ inl (there.0, rw (whole, there.1) refl, rw (whole, there.1) refl)
        | inl missing ↦ elim (is_malloc_hook-IsHook symbol) [
          | inl hook ↦ inr (
              inl (
                missing.0,
                hook.0,
                rw (whole, missing.1, hook.1) refl,
                rw (whole, missing.1, hook.1) refl,
              ))
          | inr other ↦ inr (
              inr (
                missing.0,
                other.0,
                native_handle c linux_handle,
                native_handle-IsHandle c linux_handle,
                rw (whole, missing.1, other.1) refl,
                rw (whole, missing.1, other.1) refl,
              ))
        ]
      ]
