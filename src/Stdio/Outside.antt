-- ===== src/Stdio/Outside.antt =====
-- The files that the calls on paths reach: what lies under the native /proc and /sys makes no
-- difference to fopen, to open of fcntl.c or to access of unistd.c.
use libc6_shim.Prelude.{ℕ, ◌≡◌, refl, ap, none, some, Option-cases, inl, inr}
use libc6_shim.CString.{CString, codes, str_starts_with}
use libc6_shim.Process.{Process}
use libc6_shim.Redirect.{init_redirects, redirect, emul_cpuinfo}
use libc6_shim.Redirect.Laws.{IsOutside, redirect-IsOutside}
use libc6_shim.Fcntl.{FcntlNumbers}
use libc6_shim.Fcntl.Open.{NativeOpen, open_known, shim_open}
use libc6_shim.Unistd.{UnistdHost, shim_access}
use libc6_shim.Stdio.{StdioHost, open_redirected, open_params, shim_fopen}

null-IsOutside : IsOutside (codes "/dev/null")
unfolding str_starts_with
null-IsOutside = (refl, refl)

-- Two functions of a path that agree outside /proc/ and /sys/.
abbrev pub AgreeOutside : {A : Type 0} → (CString → A) → (CString → A) → Type 0
AgreeOutside f g = (q : CString) → IsOutside q → f q ≡ g q

module _ (emul : CString) (emulated : IsOutside (emul_cpuinfo emul)) where
  -- What follows a redirection asks for the file that it names.
  redirected_agree :
      {A : Type 0} (f g : CString → A) (refused : A) (path : CString)
      → AgreeOutside f g
      → (elim (redirect (init_redirects emul) path) [ none ↦ refused | some q ↦ f q ])
        ≡ (elim (redirect (init_redirects emul) path) [ none ↦ refused | some q ↦ g q ])
  redirected_agree f g refused path agree =
      elim (Option-cases (redirect (init_redirects emul) path)) [
        | inl e ↦ rw e refl
        | inr e ↦ rw e.1 (agree e.0 (redirect-IsOutside emul path emulated e.1))
      ]

module _ {W : Type 0} (emul : CString) (emulated : IsOutside (emul_cpuinfo emul)) where
  access_agrees :
      (c : FcntlNumbers) (host : UnistdHost W) (access : CString → ℕ → Process W → ℕ × Process W)
      (path : CString) (mode : ℕ) (p : Process W)
      → AgreeOutside host.access access
      → shim_access c host (init_redirects emul) path mode p
        ≡ shim_access c (record host { access = access }) (init_redirects emul) path mode p
  unfolding shim_access
  access_agrees c host access path mode p agree =
      redirected_agree emul emulated (λ q. host.access q mode p) (λ q. access q mode p) _ path
        (λ q h. ap (λ f. f mode p) (agree q h))

  open_known_agrees :
      (c : FcntlNumbers) (f g : NativeOpen W) (q : CString) (flags mode : ℕ) (p : Process W)
      → f q ≡ g q
      → open_known c f q flags mode p ≡ open_known c g q flags mode p
  unfolding open_known
  open_known_agrees c f g q flags mode p e = rw e refl

  open_agrees :
      (c : FcntlNumbers) (f g : NativeOpen W) (path : CString) (flags mode : ℕ) (p : Process W)
      → AgreeOutside f g
      → shim_open c f (init_redirects emul) path flags mode p
        ≡ shim_open c g (init_redirects emul) path flags mode p
  unfolding shim_open
  open_agrees c f g path flags mode p agree =
      redirected_agree emul emulated _ _ _ path
        (λ q h. rw (open_known_agrees c f g q flags mode p (agree q h)) refl)

  open_redirected_agrees :
      (eacces : ℕ) (host : StdioHost W) (fopen : CString → CString → Process W → ℕ × Process W)
      (path mode : CString) (p : Process W)
      → AgreeOutside host.fopen fopen
      → open_redirected eacces host (init_redirects emul) path mode p
        ≡ open_redirected eacces (record host { fopen = fopen }) (init_redirects emul) path mode p
  unfolding open_redirected
  open_redirected_agrees eacces host fopen path mode p agree =
      redirected_agree emul emulated (λ q. host.fopen q mode p) (λ q. fopen q mode p) _ path
        (λ q h. ap (λ f. f mode p) (agree q h))

  fopen_agrees :
      (eacces : ℕ) (host : StdioHost W) (fopen : CString → CString → Process W → ℕ × Process W)
      (path mode : CString) (p : Process W)
      → AgreeOutside host.fopen fopen
      → shim_fopen eacces host (init_redirects emul) path mode p
        ≡ shim_fopen eacces (record host { fopen = fopen }) (init_redirects emul) path mode p
  unfolding shim_fopen open_params
  fopen_agrees eacces host fopen path mode p agree =
      rw
        (
          open_redirected_agrees eacces host fopen path mode p agree,
          agree (codes "/dev/null") null-IsOutside,
        )
        refl

  -- Where the path of the Linux emulation does not begin with "/proc/" or "/sys/": with native calls
  -- that agree on every
  -- other path the three give the same results, for every path and from every state.
  pub calls_stay_outside :
      (eacces : ℕ) (c : FcntlNumbers) (files : StdioHost W) (calls : UnistdHost W)
      (open_file open_file' : NativeOpen W) (fopen : CString → CString → Process W → ℕ × Process W)
      (access : CString → ℕ → Process W → ℕ × Process W) (path mode : CString) (flags bits : ℕ)
      (p : Process W)
      → AgreeOutside files.fopen fopen
      → AgreeOutside open_file open_file'
      → AgreeOutside calls.access access
      → (shim_fopen eacces files (init_redirects emul) path mode p
          ≡ shim_fopen eacces (record files { fopen = fopen }) (init_redirects emul) path mode p)
        × (shim_open c open_file (init_redirects emul) path flags bits p
            ≡ shim_open c open_file' (init_redirects emul) path flags bits p)
        × (shim_access c calls (init_redirects emul) path bits p
            ≡ shim_access c (record calls { access = access }) (init_redirects emul) path bits p)
  calls_stay_outside eacces c files calls open_file open_file' fopen access path mode flags bits p a
        b d =
      (
        fopen_agrees eacces files fopen path mode p a,
        open_agrees c open_file open_file' path flags bits p b,
        access_agrees c calls access path bits p d,
      )
