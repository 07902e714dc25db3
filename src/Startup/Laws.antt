-- ===== src/Startup/Laws.antt =====
-- What the program finds in the variables of the C library when it starts.
use libc6_shim.Prelude.{
  ℕ, ◌≡◌, ◌≢◌, ◌⊎◌, inl, inr, refl, sym, List, [], ◌∷◌, ==-cases, ne→==, eq→==,
}
use libc6_shim.CString.{CString, codes}
use libc6_shim.Outcome.{ok}
use libc6_shim.Startup.{Global, StartValues, global_values, Words, write_word, set_globals}

-- Every variable is at an address that holds its value.
abbrev pub Hold : (CString → ℕ) → Words → List Global → Type 0
Hold dlvsym m [] = Unit {0}
Hold dlvsym m (g ∷ gs) = (m (dlvsym g.var) ≡ g.value) × Hold dlvsym m gs

-- Variables at the address of `g`, as the names of one variable, get the value of `g`.
abbrev pub Agree : (CString → ℕ) → Global → List Global → Type 0
Agree dlvsym g [] = Unit {0}
Agree dlvsym g (h ∷ hs) = ((dlvsym h.var ≢ dlvsym g.var) ⊎ (h.value ≡ g.value)) × Agree dlvsym g hs

abbrev pub Consistent : (CString → ℕ) → List Global → Type 0
Consistent dlvsym [] = Unit {0}
Consistent dlvsym (g ∷ gs) = Agree dlvsym g gs × Consistent dlvsym gs

abbrev pub Found : (CString → ℕ) → List Global → Type 0
Found dlvsym [] = Unit {0}
Found dlvsym (g ∷ gs) = (dlvsym g.var ≢ 0) × Found dlvsym gs

module _ (dlvsym : CString → ℕ) where
  written : List Global → Words → Words
  written [] m = m
  written (g ∷ gs) m = written gs (write_word (dlvsym g.var) g.value m)

  set_globals-written :
      (gs : List Global) (m : Words) → Found dlvsym gs → set_globals dlvsym gs m ≡ ok (written gs m)
  unfolding set_globals written
  set_globals-written [] m f = refl
  set_globals-written (g ∷ gs) m f =
      rw (ne→== (dlvsym g.var) 0 f.0)
        (set_globals-written gs (write_word (dlvsym g.var) g.value m) f.1)

  -- A write at the address of `h` keeps the value of `g` if the two agree.
  write_agrees :
      (g h : Global) (m : Words)
      → (dlvsym h.var ≢ dlvsym g.var) ⊎ (h.value ≡ g.value)
      → m (dlvsym g.var) ≡ g.value
      → write_word (dlvsym h.var) h.value m (dlvsym g.var) ≡ g.value
  write_agrees g h m a e = elim (==-cases (dlvsym g.var) (dlvsym h.var)) [
    | inl same ↦ rw same.1 (value_of a same.0)
    | inr other ↦ rw other.1 e
  ]
    where
      value_of :
          (dlvsym h.var ≢ dlvsym g.var) ⊎ (h.value ≡ g.value)
          → dlvsym g.var ≡ dlvsym h.var
          → h.value ≡ g.value
      value_of (inl apart) same = absurd (apart (sym same))
      value_of (inr agrees) same = agrees

  written-kept :
      (gs : List Global) (g : Global) (m : Words)
      → Agree dlvsym g gs
      → m (dlvsym g.var) ≡ g.value
      → written gs m (dlvsym g.var) ≡ g.value
  unfolding written
  written-kept [] g m a e = e
  written-kept (h ∷ hs) g m a e =
      written-kept hs g (write_word (dlvsym h.var) h.value m) a.1 (write_agrees g h m a.0 e)

  written-Hold :
      (gs : List Global) (m : Words) → Consistent dlvsym gs → Hold dlvsym (written gs m) gs
  unfolding written
  written-Hold [] m c = tt
  written-Hold (g ∷ gs) m c = (
    written-kept gs g (write_word (dlvsym g.var) g.value m) c.0
        (rw (eq→== (dlvsym g.var) (dlvsym g.var) refl) refl),
    written-Hold gs (write_word (dlvsym g.var) g.value m) c.1,
  )

  -- What stands at the address of a variable.
  abbrev pub at : Words → CString → ℕ
  at n name = n (dlvsym name)

  -- The variables as a program finds them: the three streams under both names, the environment under
  -- three, no time zone yet, getopt at the first argument and reporting errors, and the program's name.
  pub record StartGlobals (v : StartValues) (n : Words) : Type 0 where
    pub stdin_lem : (at n (codes "stdin") ≡ v.stdin) × (at n (codes "_IO_2_1_stdin_") ≡ v.stdin)
    pub stdout_lem :
        (at n (codes "stdout") ≡ v.stdout) × (at n (codes "_IO_2_1_stdout_") ≡ v.stdout)
    pub stderr_lem :
        (at n (codes "stderr") ≡ v.stderr) × (at n (codes "_IO_2_1_stderr_") ≡ v.stderr)
    pub environ_lem :
        (at n (codes "environ") ≡ v.env)
        × (at n (codes "_environ") ≡ v.env)
        × (at n (codes "__environ") ≡ v.env)
    pub optarg_lem : at n (codes "optarg") ≡ 0
    pub opterr_lem : at n (codes "opterr") ≡ 1
    pub optind_lem : at n (codes "optind") ≡ 1
    pub optopt_lem : at n (codes "optopt") ≡ 0
    pub daylight_lem : (at n (codes "daylight") ≡ 0) × (at n (codes "__daylight") ≡ 0)
    pub timezone_lem : (at n (codes "timezone") ≡ 0) × (at n (codes "__timezone") ≡ 0)
    pub full_name :
        (at n (codes "__progname_full") ≡ v.argv_zero)
        × (at n (codes "program_invocation_name") ≡ v.argv_zero)
    pub short_name :
        (at n (codes "__progname") ≡ v.short_program_name)
        × (at n (codes "program_invocation_short_name") ≡ v.short_program_name)

  Hold-StartGlobals :
      (v : StartValues) (n : Words) → Hold dlvsym n (global_values v) → StartGlobals v n
  Hold-StartGlobals v n
        (
          e0,
          (
            i0,
            (
              o0,
              (
                d0,
                (
                  d1,
                  (
                    v0,
                    (
                      v1,
                      (
                        v2,
                        (
                          e1,
                          (
                            i1,
                            (o1, (oa, (oe, (oi, (oo, (p0, (f0, (f1, (p1, (t0, (t1, unit))))))))))),
                          ),
                        ),
                      ),
                    ),
                  ),
                ),
              ),
            ),
          ),
        ) =
      record {
        stdin_lem = (i1, i0);
        stdout_lem = (o1, o0);
        stderr_lem = (e1, e0);
        environ_lem = (v2, v1, v0);
        optarg_lem = oa;
        opterr_lem = oe;
        optind_lem = oi;
        optopt_lem = oo;
        daylight_lem = (d1, d0);
        timezone_lem = (t1, t0);
        full_name = (f0, f1);
        short_name = (p0, p1);
      }

  -- Where dlvsym finds all the variables that shim_init sets, and gives one address to two of them only if they
  -- get the same value, shim_init gets past them and leaves each variable with its value: the streams, the
  -- environment and the names of the program those of the process, optind and opterr 1, and
  -- optarg, optopt, daylight and timezone 0.
  pub globals_are_set :
      (v : StartValues) (m : Words)
      → Found dlvsym (global_values v)
      → Consistent dlvsym (global_values v)
      → (n : Words) × (set_globals dlvsym (global_values v) m ≡ ok n) × StartGlobals v n
  globals_are_set v m f c = (
    written (global_values v) m,
    set_globals-written (global_values v) m f,
    Hold-StartGlobals v (written (global_values v) m) (written-Hold (global_values v) m c),
  )
