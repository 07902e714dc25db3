-- ===== src/Startup/PointerLaws.antt =====
-- What the function pointers of epoll, inotify and iconv are set to.
use libc6_shim.Prelude.{ℕ, ◌≡◌, ◌≢◌, ◌⊎◌, inl, inr, refl, List, [], ◌∷◌, ==-cases}
use libc6_shim.CString.{CString, codes}
use libc6_shim.Outcome.{Outcome, ok, abort}
use libc6_shim.Startup.Pointers.{
  resolve, load_pointers, NativeFunctions, libepoll_names, libepoll_fallback, libinotify_names,
  libinotify_fallback, libiconv_names, libiconv_fallback, init_libepoll, init_inotify, init_iconv,
}

-- Some function is not there.
abbrev pub Lacks : (CString → ℕ) → List CString → Type 0
Lacks dlsym [] = ⊥
Lacks dlsym (name ∷ names) = (dlsym name ≡ 0) ⊎ Lacks dlsym names

-- All functions are there.
abbrev pub Has : (CString → ℕ) → List CString → Type 0
Has dlsym [] = Unit {0}
Has dlsym (name ∷ names) = (dlsym name ≢ 0) × Has dlsym names

abbrev pub looked_up : (CString → ℕ) → List CString → List ℕ
looked_up dlsym [] = []
looked_up dlsym (name ∷ names) = dlsym name ∷ looked_up dlsym names

-- A call that fills pointers: the library is there, and gives all of them, or lacks one; or it is not
-- there, and the pointers are the ones for that.
abbrev pub Fills : ℕ → (CString → ℕ) → List CString → List ℕ → Outcome (List ℕ) → Type 0
Fills handle dlsym names fallback call =
    ((handle ≢ 0) × Has dlsym names × (call ≡ ok (looked_up dlsym names)))
    ⊎ ((handle ≢ 0) × Lacks dlsym names × (call ≡ abort))
    ⊎ ((handle ≡ 0) × (call ≡ ok fallback))

module _ (dlsym : CString → ℕ) where
  resolve-cases :
      (names : List CString)
      → (Has dlsym names × (resolve dlsym names ≡ ok (looked_up dlsym names)))
        ⊎ (Lacks dlsym names × (resolve dlsym names ≡ abort))
  unfolding resolve
  resolve-cases [] = inl (tt, refl)
  resolve-cases (name ∷ names) = elim (==-cases (dlsym name) 0) [
    | inl missing ↦ inr (inl missing.0, rw missing.1 refl)
    | inr there ↦ elim (resolve-cases names) [
      | inl all ↦ inl ((there.0, all.0), rw (there.1, all.1) refl)
      | inr lacks ↦ inr (inr lacks.0, rw (there.1, lacks.1) refl)
    ]
  ]

  load_pointers-Fills :
      (handle : ℕ) (names : List CString) (fallback : List ℕ)
      → Fills handle dlsym names fallback (load_pointers handle 0 dlsym names fallback)
  unfolding load_pointers
  load_pointers-Fills handle names fallback = elim (==-cases handle 0) [
    | inl null ↦ inr (inr (null.0, rw null.1 refl))
    | inr loaded ↦ elim (resolve-cases names) [
      | inl all ↦ inl (loaded.0, all.0, rw (loaded.1, all.1) refl)
      | inr lacks ↦ inr (inl (loaded.0, lacks.0, rw (loaded.1, lacks.1) refl))
    ]
  ]

-- Where dlinfo succeeds: with its library, each of the three constructors sets its pointers, in the
-- order of their declarations, to the functions of the library of these names, or ends the process,
-- exactly if one is missing. Without it the pointers of epoll are the shim's stand-in five times and
-- then the C library's read, write, close, poll, ppoll and fcntl, those of inotify four times the
-- stand-in, and those of iconv the C library's three functions.
pub pointers_are_set :
    (dlsym : ℕ → CString → ℕ) (f : NativeFunctions) (dummy epoll inotify iconv : ℕ)
    → Fills epoll
        (dlsym epoll)
        (codes "epoll_create"
          ∷ codes "epoll_create1"
          ∷ codes "epoll_ctl"
          ∷ codes "epoll_wait"
          ∷ codes "epoll_pwait"
          ∷ codes "epoll_shim_read"
          ∷ codes "epoll_shim_write"
          ∷ codes "epoll_shim_close"
          ∷ codes "epoll_shim_poll"
          ∷ codes "epoll_shim_ppoll"
          ∷ codes "epoll_shim_fcntl"
          ∷ [])
        (f.dummy ∷ f.dummy ∷ f.dummy ∷ f.dummy ∷ f.dummy ∷ f.read ∷ f.write ∷ f.close ∷ f.poll
          ∷ f.ppoll ∷ f.fcntl ∷ [])
        (init_libepoll f epoll 0 (dlsym epoll))
      × Fills inotify
          (dlsym inotify)
          (codes "inotify_init"
            ∷ codes "inotify_init1"
            ∷ codes "inotify_add_watch"
            ∷ codes "inotify_rm_watch"
            ∷ [])
          (dummy ∷ dummy ∷ dummy ∷ dummy ∷ [])
          (init_inotify dummy inotify 0 (dlsym inotify))
      × Fills iconv
          (dlsym iconv)
          (codes "libiconv_open" ∷ codes "libiconv_close" ∷ codes "libiconv" ∷ [])
          (f.iconv_open ∷ f.iconv_close ∷ f.iconv ∷ [])
          (init_iconv f iconv 0 (dlsym iconv))
unfolding init_libepoll init_inotify init_iconv
pointers_are_set dlsym f dummy epoll inotify iconv = (
  load_pointers-Fills (dlsym epoll) epoll libepoll_names (libepoll_fallback f),
  load_pointers-Fills (dlsym inotify) inotify libinotify_names (libinotify_fallback dummy),
  load_pointers-Fills (dlsym iconv) iconv libiconv_names (libiconv_fallback f),
)
