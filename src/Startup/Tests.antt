-- ===== src/Startup/Tests.antt =====
-- A start with the variables at addresses by the length and the last but one letter of their names.
use libc6_shim.Prelude.{
  ℕ, ◌+◌, ◌*◌, ◌≡◌, ◌≢◌, refl, inl, inr, List, [], ◌∷◌, length, Bool, true, not, ◌==◌, ==-cases,
  ◌&&◌, ◌||◌, ◌⊎◌, if◌then◌else◌, arith,
}
use libc6_shim.CString.{CString}
use libc6_shim.Outcome.{ok}
use libc6_shim.Startup.{
  StartValues, Global, global_values, Words, set_globals, save_arguments, call_init, at_exit,
  libc_start, shim_libc_start_main,
}
use libc6_shim.Startup.Pointers.{
  NativeFunctions, resolve, libepoll_names, libepoll_fallback, libinotify_fallback,
  libiconv_fallback, libinotify_names, libiconv_names, init_libepoll, init_inotify, init_iconv,
}
use libc6_shim.Startup.Laws.{Found, Agree, Consistent, StartGlobals, globals_are_set}
use libc6_shim.Startup.PointerLaws.{Fills, pointers_are_set}

abbrev values : StartValues
values = record {
  argc = 2;
  argv = 900;
  env = 930;
  argv_zero = 950;
  short_program_name = 955;
  stdin = 10;
  stdout = 11;
  stderr = 12;
}

abbrev strip : CString → CString
strip [] = []
strip (x ∷ s) = if x == b'_' then strip s else x ∷ s

abbrev number : CString → ℕ
number [] = 1
number (x ∷ s) = x + 128 * number s

-- The names that differ in their first underscores are names of one variable.
abbrev address : CString → ℕ
address name = number (strip name)

everything-Found : Found address (global_values values)
everything-Found = omega arith

agrees : (CString → ℕ) → Global → List Global → Bool
agrees dlvsym g [] = true
agrees dlvsym g (h ∷ hs) =
    (not (dlvsym h.var == dlvsym g.var) || h.value == g.value) && agrees dlvsym g hs

consistent : (CString → ℕ) → List Global → Bool
unfolding agrees
consistent dlvsym [] = true
consistent dlvsym (g ∷ gs) = agrees dlvsym g gs && consistent dlvsym gs

apart_or_agree : (a b x y : ℕ) → (not (a == b) || x == y) ≡ true → (a ≢ b) ⊎ (x ≡ y)
apart_or_agree a b x y h = elim (==-cases a b) [
  | inl same ↦ inr (ground arith)
  | inr other ↦ inl other.0
]

Agree-of_test :
    (dlvsym : CString → ℕ) (g : Global) (hs : List Global)
    → agrees dlvsym g hs ≡ true
    → Agree dlvsym g hs
unfolding agrees
Agree-of_test dlvsym g [] t = tt
Agree-of_test dlvsym g (h ∷ hs) t = (
  apart_or_agree (dlvsym h.var) (dlvsym g.var) h.value g.value (ground arith),
  Agree-of_test dlvsym g hs (ground arith),
)

Consistent-of_test :
    (dlvsym : CString → ℕ) (gs : List Global) → consistent dlvsym gs ≡ true → Consistent dlvsym gs
unfolding consistent
Consistent-of_test dlvsym [] t = tt
Consistent-of_test dlvsym (g ∷ gs) t =
    (Agree-of_test dlvsym g gs (ground arith), Consistent-of_test dlvsym gs (ground arith))

apart : Consistent address (global_values values)
unfolding consistent
apart = Consistent-of_test address (global_values values) refl

abbrev empty : Words
empty a = 0

globals_are_set_example :
    (n : Words) × (set_globals address (global_values values) empty ≡ ok n)
    × StartGlobals address values n
globals_are_set_example = globals_are_set address values empty everything-Found apart

-- The program's own arguments are those of the constructor.
start_main :
    shim_libc_start_main (save_arguments values) 400 7 8 500 600
    ≡ ok (call_init 500 2 900 930 ∷ at_exit 600 ∷ libc_start 2 900 930 400 ∷ [])
unfolding shim_libc_start_main
start_main = refl

abbrev functions : NativeFunctions
functions = record {
  dummy = 1;
  read = 2;
  write = 3;
  close = 4;
  poll = 5;
  ppoll = 6;
  fcntl = 7;
  iconv_open = 8;
  iconv_close = 9;
  iconv = 10;
}

-- libiconv is not there, and the other libraries have all functions.
abbrev symbols : ℕ → CString → ℕ
symbols handle name = handle + length name

epoll_loaded :
    init_libepoll functions 100 0 (symbols 100)
    ≡ ok (112 ∷ 113 ∷ 109 ∷ 110 ∷ 111 ∷ 115 ∷ 116 ∷ 116 ∷ 115 ∷ 116 ∷ 116 ∷ [])
unfolding init_libepoll resolve
epoll_loaded = refl

pointers_are_set_example :
    Fills 100
      (symbols 100)
      libepoll_names
      (libepoll_fallback functions)
      (init_libepoll functions 100 0 (symbols 100))
    × Fills 200
        (symbols 200)
        libinotify_names
        (libinotify_fallback 20)
        (init_inotify 20 200 0 (symbols 200))
    × Fills 0
        (symbols 0)
        libiconv_names
        (libiconv_fallback functions)
        (init_iconv functions 0 0 (symbols 0))
pointers_are_set_example = pointers_are_set symbols functions 20 100 200 0
