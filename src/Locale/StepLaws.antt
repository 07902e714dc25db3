-- ===== src/Locale/StepLaws.antt =====
-- The thread's locale and the native one, over any sequence of calls.
use libc6_shim.Prelude.{
  ℕ, ◌≡◌, ◌≢◌, inl, inr, refl, ap, ◌∙◌, sym, subst, none, some, ◌==◌, ==-cases, ne→==, false,
  Option-cases, arith,
}
use libc6_shim.Outcome.{ok, abort, Outcome-cases, ok_unique}
use libc6_shim.Memory.{Memory, IsFresh, load, put}
use libc6_shim.Locale.{
  LinuxLocale, LocaleNumbers, LocaleHost, LocaleState, linux_global_locale, use_native,
  shim_uselocale, shim_freelocale,
}
use libc6_shim.Locale.Steps.{
  KeepsCurrent, HaveNative, Step, new, duplicate, use_, free_, Steps, start, then_, InSync,
}
use libc6_shim.Locale.NewLaws.{GoodState, new-IsGood, duplicate-IsGood}

-- What can be loaded is there, and not at NULL.
load-parts :
    (p : ℕ) (m : Memory LinuxLocale) (l : LinuxLocale)
    → load p m ≡ ok l
    → ((p == 0) ≡ false) × (m.cells p ≡ some l)
load-parts p m l h = elim (==-cases p 0) [
  | inl (e, test) ↦ let stuck : load p m ≡ abort = rw test refl in cc (h, stuck)
  | inr (ne, test) ↦ elim (Option-cases (m.cells p)) [
    | inl empty ↦ let stuck : load p m ≡ abort = rw (test, empty) refl in cc (h, stuck)
    | inr (k, there) ↦
        let done : load p m ≡ ok k = rw (test, there) refl in
        (test, there ∙ ap (λ x. some x) (ok_unique done h))
  ]
]

load-cells :
    (p : ℕ) (m : Memory LinuxLocale) (l : LinuxLocale) → load p m ≡ ok l → m.cells p ≡ some l
load-cells p m l h = (load-parts p m l h).1

module _ {W : Type 0} (c : LocaleNumbers) (host : LocaleHost W) (current : W → ℕ)
    (keeps : KeepsCurrent host current) (global_not_null : c.lc_global_locale ≢ 0) where
  use_native-IsGood :
      (locale : ℕ) (s t : LocaleState W)
      → use_native c host locale s ≡ ok t
      → GoodState c current s
      → GoodState c current t
  unfolding use_native
  use_native-IsGood locale s t run (fresh, natives, sync) =
      elim (==-cases locale linux_global_locale) [
        | inl (e, test) ↦
            let done : use_native c host locale s
                ≡ ok (record s {
                  thread_locale = locale;
                  world = host.uselocale c.lc_global_locale s.world;
                }) =
              rw test refl in
            subst (GoodState c current) (ok_unique done run)
              (fresh, natives, inl (e, keeps.uses c.lc_global_locale s.world global_not_null))
        | inr (ne, test) ↦ elim (Outcome-cases (load locale s.memory)) [
          | inl bad ↦
              let stuck : use_native c host locale s ≡ abort = rw (test, bad) refl in
              cc (run, stuck)
          | inr (l, there) ↦
              let done : use_native c host locale s
                  ≡ ok (record s {
                    thread_locale = locale;
                    world = host.uselocale l.native_locale s.world;
                  }) =
                rw (test, there) refl in
              subst (GoodState c current) (ok_unique done run) (
                fresh,
                natives,
                inr (
                  ne,
                  l,
                  load-cells locale s.memory l there,
                  keeps.uses l.native_locale s.world
                      (natives locale l (load-cells locale s.memory l there)),
                ),
              )
        ]
      ]

  use-IsGood :
      (locale prev : ℕ) (s t : LocaleState W)
      → shim_uselocale c host locale s ≡ ok (prev, t)
      → GoodState c current s
      → GoodState c current t
  unfolding shim_uselocale
  use-IsGood locale prev s t run good = elim (==-cases locale 0) [
    | inl (e, test) ↦
        let done : shim_uselocale c host locale s ≡ ok (s.thread_locale, s) = rw test refl in
        subst (GoodState c current) (ap (λ x. x.1) (ok_unique done run)) good
    | inr (ne, test) ↦ elim (Outcome-cases (use_native c host locale s)) [
      | inl bad ↦
          let stuck : shim_uselocale c host locale s ≡ abort = rw (test, bad) refl in
          cc (run, stuck)
      | inr (after, used) ↦
          let done : shim_uselocale c host locale s ≡ ok (s.thread_locale, after) =
            rw (test, used) refl in
          subst (GoodState c current) (ap (λ x. x.1) (ok_unique done run))
            (use_native-IsGood locale s after used good)
    ]
  ]

  free-IsGood :
      (locale : ℕ) (s t : LocaleState W)
      → locale ≢ s.thread_locale
      → shim_freelocale c host locale s ≡ ok t
      → GoodState c current s
      → GoodState c current t
  unfolding shim_freelocale
  free-IsGood locale s t other run (fresh, natives, sync) =
      elim (Outcome-cases (load locale s.memory)) [
        | inl bad ↦
            let stuck : shim_freelocale c host locale s ≡ abort = rw bad refl in cc (run, stuck)
        | inr (l, there) ↦
            let (not_null, cell) = load-parts locale s.memory l there in
            let done : shim_freelocale c host locale s
                ≡ ok (record s {
                  memory = put locale none s.memory;
                  world = host.freelocale l.native_locale s.world;
                }) =
              rw (there, not_null, cell) refl in
            subst (GoodState c current) (ok_unique done run) (
              λ a h. ground (arith, h, fresh a),
              λ a j h. natives a j (ground (arith, h)),
              elim sync [
                | inl (global, same) ↦ inl (global, keeps.frees l.native_locale s.world ∙ same)
                | inr (ne, k, used, same) ↦ inr (
                  ne,
                  k,
                  rw (ne→== s.thread_locale locale (λ e. other (sym e))) used,
                  keeps.frees l.native_locale s.world ∙ same,
                )
              ],
            )
      ]

  -- From a state where nothing lies above the last address of the heap, every locale has a native one,
  -- and the native locale of the thread is the one of `thread_locale`, any sequence of newlocale,
  -- duplocale, uselocale and freelocale keeps the heap so and the two locales in step, if the native
  -- newlocale and duplocale do not give NULL, which the shim does not test, and the program does not
  -- free the locale that it uses: LC_GLOBAL_LOCALE for the global one, or the native locale of the
  -- struct, which is there. This takes of the native calls that uselocale sets the locale of the thread
  -- where it is not NULL, that LC_GLOBAL_LOCALE is not, and that the others keep the thread's locale.
  pub Steps-InSync :
      (s t : LocaleState W)
      → Steps c host s t
      → IsFresh s.memory
      → HaveNative s
      → InSync c current s
      → IsFresh t.memory × InSync c current t
  Steps-InSync s t steps fresh natives sync =
      let (fresh_after, natives_after, sync_after) =
        Steps-IsGood s t steps (fresh, natives, sync) in
      (fresh_after, sync_after)
    where
      Step-InSync :
          (u t : LocaleState W) → Step c host u t → GoodState c current u → GoodState c current t
      Step-InSync u t (new mask name base p s1 t1 run made) good =
          new-IsGood c host current keeps mask name base p u t run made good
      Step-InSync u t (duplicate locale p s1 t1 run made) good =
          duplicate-IsGood c host current keeps locale p u t run made good
      Step-InSync u t (use_ locale prev s1 t1 run) good = use-IsGood locale prev u t run good
      Step-InSync u t (free_ locale s1 t1 other run) good = free-IsGood locale u t other run good

      Steps-IsGood :
          (s t : LocaleState W) → Steps c host s t → GoodState c current s → GoodState c current t
      Steps-IsGood s t (start s1) good = good
      Steps-IsGood s t (then_ s1 u t1 before step) good =
          Step-InSync u t step (Steps-IsGood s u before good)
