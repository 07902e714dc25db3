-- ===== src/Locale/NewLaws.antt =====
-- A new locale, made from a name or as a copy, leaves the locales in use as they are.
use libc6_shim.Prelude.{
  ℕ, suc, ◌≢◌, sym, some, false, ==-cases, ◌≡◌, inl, inr, refl, ap, ◌∙◌, subst, ◌==◌, Bool-cases,
  ◌||◌, arith,
}
use libc6_shim.CString.{CString, codes, str_eq}
use libc6_shim.Outcome.{ok, abort, Outcome-cases, ok_unique}
use libc6_shim.Memory.{IsFresh, load, malloc}
use libc6_shim.Locale.{
  LinuxLocale, LocaleNumbers, LocaleHost, LocaleState, base_locale, shim_newlocale, shim_duplocale,
  dummy_locales, dummy_names,
}
use libc6_shim.Locale.Steps.{KeepsCurrent, HasNative, HaveNative, InSync}

-- Nothing lies above the last address of the heap, every locale has a native one, and that of the
-- thread's locale is the thread's native one.
abbrev pub GoodState : {W : Type 0} → LocaleNumbers → (W → ℕ) → LocaleState W → Type 0
GoodState c current s = IsFresh s.memory × HaveNative s × InSync c current s

module _ {W : Type 0} (c : LocaleNumbers) (host : LocaleHost W) (current : W → ℕ)
    (keeps : KeepsCurrent host current) where
  malloc-HaveNative :
      (l : LinuxLocale) (w : W) (s : LocaleState W)
      → HasNative (record s { memory = (malloc l s.memory).1; world = w }) (suc s.memory.last)
      → HaveNative s
      → HaveNative (record s { memory = (malloc l s.memory).1; world = w })
  malloc-HaveNative l w s (k, there, native) natives a j cell =
      elim (==-cases a (suc s.memory.last)) [
        | inl (e, test) ↦
            let same : k ≡ j = cc (there, cell, e) in subst (λ x. x.native_locale ≢ 0) same native
        | inr (ne, test) ↦ natives a j (old test cell)
      ]
    where
      old :
          (a == suc s.memory.last) ≡ false
          → (malloc l s.memory).1.cells a ≡ some j
          → s.memory.cells a ≡ some j
      old test cell = ground (arith, test, cell)

  -- A new allocation is none of the locales in use.
  grows :
      (l : LinuxLocale) (w : W) (s : LocaleState W)
      → HasNative (record s { memory = (malloc l s.memory).1; world = w }) (suc s.memory.last)
      → current w ≡ current s.world
      → GoodState c current s
      → GoodState c current (record s { memory = (malloc l s.memory).1; world = w })
  grows l w s made same (fresh, natives, inl (global, sync)) = (
    λ a h. ground (arith, h, fresh a),
    malloc-HaveNative l w s made natives,
    inl (global, same ∙ sync),
  )
  grows l w s made same (fresh, natives, inr (other, k, used, sync)) = (
    λ a h. ground (arith, h, fresh a),
    malloc-HaveNative l w s made natives,
    inr (other, k, ground (arith, used, fresh (suc s.memory.last)), same ∙ sync),
  )

  pub new-IsGood :
      (mask : ℕ) (name : CString) (base p : ℕ) (s t : LocaleState W)
      → shim_newlocale c host mask name base s ≡ ok (p, t)
      → HasNative t p
      → GoodState c current s
      → GoodState c current t
  unfolding shim_newlocale
  new-IsGood mask name base p s t run made good = elim (Bool-cases (mask == 64 || mask == 8127)) [
    | inr bad ↦
        let stuck : shim_newlocale c host mask name base s ≡ abort = rw bad refl in cc (run, stuck)
    | inl known ↦ elim (Bool-cases (str_eq name (codes "C"))) [
      | inr bad ↦
          let stuck : shim_newlocale c host mask name base s ≡ abort = rw (known, bad) refl in
          cc (run, stuck)
      | inl named ↦ elim (Outcome-cases (base_locale c host base s.memory)) [
        | inl bad ↦
            let stuck : shim_newlocale c host mask name base s ≡ abort =
              rw (known, named, bad) refl in
            cc (run, stuck)
        | inr (b, based) ↦
            let (native, w) = host.newlocale c.lc_all_mask name b s.world in
            let l : LinuxLocale = record {
              locales = dummy_locales;
              ctype_b = c.ctype_b;
              ctype_tolower = c.ctype_tolower;
              ctype_toupper = c.ctype_toupper;
              names = dummy_names;
              native_locale = native;
            } in
            let done : shim_newlocale c host mask name base s
                ≡ ok (suc s.memory.last, record s { memory = (malloc l s.memory).1; world = w }) =
              rw (known, named, based) refl in
            subst (GoodState c current) (ap (λ x. x.1) (ok_unique done run)) (
              grows l w s (subst (λ x. HasNative x.1 x.0) (sym (ok_unique done run)) made)
                (keeps.news c.lc_all_mask name b s.world) good)
      ]
    ]
  ]

  pub duplicate-IsGood :
      (locale p : ℕ) (s t : LocaleState W)
      → shim_duplocale c host locale s ≡ ok (p, t)
      → HasNative t p
      → GoodState c current s
      → GoodState c current t
  unfolding shim_duplocale
  duplicate-IsGood locale p s t run made good = elim (Outcome-cases (load locale s.memory)) [
    | inl bad ↦ let stuck : shim_duplocale c host locale s ≡ abort = rw bad refl in cc (run, stuck)
    | inr (l, there) ↦
        let (native, w) = host.duplocale l.native_locale s.world in
        let copy : LinuxLocale = record l { native_locale = native } in
        let done : shim_duplocale c host locale s
            ≡ ok (suc s.memory.last, record s { memory = (malloc copy s.memory).1; world = w }) =
          rw there refl in
        subst (GoodState c current) (ap (λ x. x.1) (ok_unique done run)) (
          grows copy w s (subst (λ x. HasNative x.1 x.0) (sym (ok_unique done run)) made)
            (keeps.dups l.native_locale s.world) good)
  ]
