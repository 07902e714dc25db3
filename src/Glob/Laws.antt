-- ===== src/Glob/Laws.antt =====
-- What glob finds, and that globfree can give it back.
use libc6_shim.Prelude.{
  ℕ, ◌^◌, List, [], ◌∷◌, ◌≢◌, ◌⊎◌, none, ==-cases, bit_and, bit_or, ◌≡◌, ◌∙◌, refl, ap, sym, some,
  inl, inr, Bool-cases,
}
use libc6_shim.Bits.{bit_not32, bit_and-bit_or, bit_and_assoc, bit_and_comm, zero-bit_and}
use libc6_shim.CString.{CString}
use libc6_shim.Outcome.{ok, abort}
use libc6_shim.Process.{Process}
use libc6_shim.Flags.{Entry, ◌⇒◌, has, translate, SeparateTargets}
use libc6_shim.Flags.Each.{EachFlag, translate-EachFlag}
use libc6_shim.Switch.{select}
use libc6_shim.Glob.{
  GlobNumbers, LinuxGlob, NativeGlob, GlobHost, linux_glob_magchar, linux_glob_altdirfunc,
  known_linux_glob_flags, glob_entries, glob_errors, linux_to_native_glob_flags, found_flags,
  shim_glob, shim_globfree,
}

-- The mark of a pattern with special characters is a known flag, whether it is set or cleared.
found_flags-known :
    (c : GlobNumbers) (linux_flags gl_flags : ℕ)
    → bit_and linux_flags (bit_not32 known_linux_glob_flags) ≡ 0
    → bit_and (found_flags c linux_flags gl_flags) (bit_not32 known_linux_glob_flags) ≡ 0
found_flags-known c x g h = elim (Bool-cases (has g c.glob_magchar)) [
  | inl magic ↦ rw magic (
      bit_and-bit_or x linux_glob_magchar (bit_not32 known_linux_glob_flags)
      ∙ (ap (λ y. bit_or y (bit_and linux_glob_magchar (bit_not32 known_linux_glob_flags))) h
          ∙ refl))
  | inr plain ↦ rw plain (
      bit_and_assoc x (bit_not32 linux_glob_magchar) (bit_not32 known_linux_glob_flags)
      ∙ (ap (λ y. bit_and x y)
            (bit_and_comm (bit_not32 linux_glob_magchar) (bit_not32 known_linux_glob_flags))
          ∙ (sym (bit_and_assoc x (bit_not32 known_linux_glob_flags) (bit_not32 linux_glob_magchar))
              ∙ (ap (λ y. bit_and y (bit_not32 linux_glob_magchar)) h
                  ∙ zero-bit_and (bit_not32 linux_glob_magchar)))))
]

-- The flags by name: ERR, MARK, NOSORT, DOOFFS, NOCHECK, APPEND, NOESCAPE, MAGCHAR, ALTDIRFUNC,
-- BRACE, NOMAGIC and TILDE.
abbrev pub glob_names : GlobNumbers → List Entry
glob_names c =
    (2 ^ 0 ⇒ c.glob_err)
    ∷ (2 ^ 1 ⇒ c.glob_mark)
    ∷ (2 ^ 2 ⇒ c.glob_nosort)
    ∷ (2 ^ 3 ⇒ c.glob_dooffs)
    ∷ (2 ^ 4 ⇒ c.glob_nocheck)
    ∷ (2 ^ 5 ⇒ c.glob_append)
    ∷ (2 ^ 6 ⇒ c.glob_noescape)
    ∷ (2 ^ 8 ⇒ c.glob_magchar)
    ∷ (2 ^ 9 ⇒ c.glob_altdirfunc)
    ∷ (2 ^ 10 ⇒ c.glob_brace)
    ∷ (2 ^ 11 ⇒ c.glob_nomagic)
    ∷ (2 ^ 12 ⇒ c.glob_tilde)
    ∷ []

-- What the program gets for a native result: success, NOSPACE, ABORTED or NOMATCH.
abbrev pub IsGlobResult : GlobNumbers → ℕ → ℕ → Type 0
IsGlobResult c err result =
    ((err ≡ 0) × (result ≡ 0))
    ⊎ ((err ≡ c.glob_nospace) × (result ≡ 1))
    ⊎ ((err ≡ c.glob_aborted) × (result ≡ 2))
    ⊎ ((err ≡ c.glob_nomatch) × (result ≡ 3))

abbrev pub IsOtherError : GlobNumbers → ℕ → Type 0
IsOtherError c err =
    (err ≢ 0) × (err ≢ c.glob_nospace) × (err ≢ c.glob_aborted) × (err ≢ c.glob_nomatch)

glob_errors-cases :
    (c : GlobNumbers) (err : ℕ)
    → ((result : ℕ) × (select (glob_errors c) err ≡ some result) × IsGlobResult c err result)
      ⊎ ((select (glob_errors c) err ≡ none) × IsOtherError c err)
unfolding select
glob_errors-cases c err = elim (==-cases err 0) [
  | inl z ↦ inl (0, rw z.1 refl, inl (z.0, refl))
  | inr nz ↦ elim (==-cases err c.glob_nospace) [
    | inl s ↦ inl (1, rw (nz.1, s.1) refl, inr (inl (s.0, refl)))
    | inr ns ↦ elim (==-cases err c.glob_aborted) [
      | inl a ↦ inl (2, rw (nz.1, ns.1, a.1) refl, inr (inr (inl (a.0, refl))))
      | inr na ↦ elim (==-cases err c.glob_nomatch) [
        | inl m ↦ inl (3, rw (nz.1, ns.1, na.1, m.1) refl, inr (inr (inr (m.0, refl))))
        | inr nm ↦ inr (rw (nz.1, ns.1, na.1, nm.1) refl, (nz.0, ns.0, na.0, nm.0))
      ]
    ]
  ]
]

module _ {W : Type 0} (c : GlobNumbers) (host : GlobHost W) (garbage : NativeGlob)
    (pattern : CString) (linux_flags : ℕ) (pglob : LinuxGlob) (p r : Process W) where
  -- What globfree, in the state `r`, does with the struct that glob left for `out`.
  abbrev pub Freed : LinuxGlob → NativeGlob → Type 0
  Freed g out =
      (free_flags : ℕ) × EachFlag (glob_names c) g.gl_flags free_flags
      × (shim_globfree c host garbage g r
          ≡ ok (
              host.globfree
                (record {
                  gl_pathc = out.gl_pathc;
                  gl_pathv = out.gl_pathv;
                  gl_matchc = 0;
                  gl_offs = out.gl_offs;
                  gl_flags = free_flags;
                })
                r))

  -- What glob makes of what the native call with these flags gives.
  abbrev pub Answers : ℕ → Type 0
  Answers flags =
      let (err, out, q) = host.glob pattern flags (record garbage { gl_offs = pglob.gl_offs }) p in
      let call = shim_glob c host garbage pattern linux_flags 0 pglob p in
      ((result : ℕ) × (g : LinuxGlob) × IsGlobResult c err result
        × (call ≡ ok (result, g, q))
        × Freed g out)
      ⊎ (IsOtherError c err × (call ≡ abort))

  -- Where the native flags are not empty and share no bits: with known flags but ALTDIRFUNC, and no
  -- function for errors, glob makes the native call with each flag set exactly if the Linux flag of
  -- that name is. It returns 0, 1, 2 or 3 for the native results 0, NOSPACE, ABORTED and NOMATCH, and
  -- aborts for any other. What it leaves in the program's struct can be given to globfree at once or
  -- later, which does not abort, and passes the paths, their number and offset that the native glob had
  -- given, with the flags of the struct, converted likewise.
  pub glob_then_globfree :
      SeparateTargets (glob_names c)
      → bit_and linux_flags (bit_not32 known_linux_glob_flags) ≡ 0
      → bit_and linux_flags linux_glob_altdirfunc ≡ 0
      → (flags : ℕ) × EachFlag (glob_names c) linux_flags flags × Answers flags
  unfolding shim_glob shim_globfree linux_to_native_glob_flags
  glob_then_globfree separate known plain =
      let flags = translate (glob_entries c) linux_flags 0 in
      let x = host.glob pattern flags (record garbage { gl_offs = pglob.gl_offs }) p in
      (
        flags,
        translate-EachFlag (glob_entries c) linux_flags separate,
        elim (glob_errors-cases c x.0) [
          | inl s ↦ inl (
            s.0,
            record {
              gl_pathc = x.1.gl_pathc;
              gl_pathv = x.1.gl_pathv;
              gl_offs = x.1.gl_offs;
              gl_flags = found_flags c linux_flags x.1.gl_flags;
            },
            s.2,
            rw (plain, known, s.1) refl,
            (
              translate (glob_entries c) (found_flags c linux_flags x.1.gl_flags) 0,
              translate-EachFlag (glob_entries c) (found_flags c linux_flags x.1.gl_flags) separate,
              rw (found_flags-known c linux_flags x.1.gl_flags known) refl,
            ),
          )
          | inr o ↦ inr (o.1, rw (plain, known, o.0) refl)
        ],
      )
