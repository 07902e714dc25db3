-- ===== src/Startup/Pointers.antt =====
-- The function pointers that src/main.c, src/libc/sys/inotify.c and src/libc/iconv.c fill when the shim is
-- loaded, from a library if that is there.
use libc6_shim.Prelude.{ℕ, List, [], ◌∷◌, ◌==◌, not, if◌then◌else◌}
use libc6_shim.CString.{CString, codes}
use libc6_shim.Outcome.{Outcome, ok, ◌>>=◌, ◌>>◌, assert}

-- `dlsym(library, name)`, and the assertion that it found the function.
unfoldable pub resolve : (CString → ℕ) → List CString → Outcome (List ℕ)
resolve dlsym [] = ok []
resolve dlsym (name ∷ names) = do
  assert (not (dlsym name == 0))
  rest ← resolve dlsym names
  ok (dlsym name ∷ rest)

-- The pointers from the library at `handle`, or the other ones if it was not loaded, where `dlinfo_err`
-- is the result of `dlinfo` for the message.
unfoldable pub load_pointers : ℕ → ℕ → (CString → ℕ) → List CString → List ℕ → Outcome (List ℕ)
load_pointers handle dlinfo_err dlsym names fallback =
    if handle == 0 then (assert (dlinfo_err == 0) >> ok fallback) else resolve dlsym names

-- libepoll_epoll_create and the others, in the order of the uses of `E`.
abbrev pub libepoll_names : List CString
libepoll_names =
    codes "epoll_create"
    ∷ codes "epoll_create1"
    ∷ codes "epoll_ctl"
    ∷ codes "epoll_wait"
    ∷ codes "epoll_pwait"
    ∷ codes "epoll_shim_read"
    ∷ codes "epoll_shim_write"
    ∷ codes "epoll_shim_close"
    ∷ codes "epoll_shim_poll"
    ∷ codes "epoll_shim_ppoll"
    ∷ codes "epoll_shim_fcntl"
    ∷ []

-- The functions of main.c and of the native library.
pub record NativeFunctions : Type 0 where
  pub dummy : ℕ
  pub read : ℕ
  pub write : ℕ
  pub close : ℕ
  pub poll : ℕ
  pub ppoll : ℕ
  pub fcntl : ℕ
  pub iconv_open : ℕ
  pub iconv_close : ℕ
  pub iconv : ℕ

abbrev pub libepoll_fallback : NativeFunctions → List ℕ
libepoll_fallback f =
    f.dummy ∷ f.dummy ∷ f.dummy ∷ f.dummy ∷ f.dummy ∷ f.read ∷ f.write ∷ f.close ∷ f.poll ∷ f.ppoll
    ∷ f.fcntl ∷ []

abbrev pub libinotify_names : List CString
libinotify_names =
    codes "inotify_init"
    ∷ codes "inotify_init1"
    ∷ codes "inotify_add_watch"
    ∷ codes "inotify_rm_watch"
    ∷ []

-- The `dummy` of inotify.c.
abbrev pub libinotify_fallback : ℕ → List ℕ
libinotify_fallback dummy = dummy ∷ dummy ∷ dummy ∷ dummy ∷ []

abbrev pub libiconv_names : List CString
libiconv_names = codes "libiconv_open" ∷ codes "libiconv_close" ∷ codes "libiconv" ∷ []

abbrev pub libiconv_fallback : NativeFunctions → List ℕ
libiconv_fallback f = f.iconv_open ∷ f.iconv_close ∷ f.iconv ∷ []

-- `shim_init`, which calls `dlinfo` at its start, and the constructors of the two other files.
unfoldable pub init_libepoll : NativeFunctions → ℕ → ℕ → (CString → ℕ) → Outcome (List ℕ)
unfolding load_pointers
init_libepoll f handle dlinfo_err dlsym =
    assert (dlinfo_err == 0)
    >> load_pointers handle dlinfo_err dlsym libepoll_names (libepoll_fallback f)

unfoldable pub init_inotify : ℕ → ℕ → ℕ → (CString → ℕ) → Outcome (List ℕ)
unfolding load_pointers
init_inotify dummy handle dlinfo_err dlsym =
    load_pointers handle dlinfo_err dlsym libinotify_names (libinotify_fallback dummy)

unfoldable pub init_iconv : NativeFunctions → ℕ → ℕ → (CString → ℕ) → Outcome (List ℕ)
unfolding load_pointers
init_iconv f handle dlinfo_err dlsym =
    load_pointers handle dlinfo_err dlsym libiconv_names (libiconv_fallback f)
