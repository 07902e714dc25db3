-- ===== src/Unistd/LinkLaws.antt =====
-- What programs see of links and paths under /proc and /sys.
use libc6_shim.Prelude.{
  ℕ, ◌-◌, ◌%◌, ◌^◌, ◌<◌, ◌≡◌, ◌≢◌, ◌⊎◌, inl, inr, refl, true, false, [], ◌∷◌, ◌++◌, Option, none,
  some, take, drop, length, min, ne→==, lt→ltb, ◌==◌, Bool-cases, arith, ◌||◌,
}
use libc6_shim.CString.{CString, codes, str_starts_with, str_eq, str_eq_refl, starts-append}
use libc6_shim.CArray.{take-all}
use libc6_shim.Outcome.{ok}
use libc6_shim.Errno.{Errnos}
use libc6_shim.Process.{Process, minus_one}
use libc6_shim.Unistd.Links.{
  Link, LinkHost, Resolution, strsep, proc, link_pid, read_exe, read_proc, resolve_exe,
  resolve_proc, shim_readlink, shim_realpath, program_path, resolve_program, refuse, refuse_path,
}

module _ {W : Type 0} (e : Errnos) (eacces path_max : ℕ) (host : LinkHost W) where
  read_proc-hides :
      (r : CString → ℕ → Process W → Link W) (t : CString → Process W → Resolution W)
      (override : Option CString) (path : CString) (bufsize : ℕ) (p : Process W)
      → (read_proc e eacces path_max
            (record host { readlink = r; realpath = t })
            override
            path
            bufsize
            p
          ≡ read_proc e eacces path_max host override path bufsize p)
        × (resolve_proc e eacces path_max
              (record host { readlink = r; realpath = t })
              override
              path
              p
            ≡ resolve_proc e eacces path_max host override path p)
  unfolding read_proc resolve_proc link_pid read_exe resolve_exe program_path resolve_program refuse
      refuse_path
  read_proc-hides r t none path bufsize p = (refl, refl)
  read_proc-hides r t (some o) path bufsize p = (refl, refl)

  -- The path under /proc or /sys does not reach the native readlink and realpath: whatever those do,
  -- the result is the same.
  pub readlink_hides :
      (r : CString → ℕ → Process W → Link W) (t : CString → Process W → Resolution W)
      (override : Option CString) (path : CString) (bufsize : ℕ) (p : Process W)
      → (str_starts_with path proc ≡ true) ⊎ (str_starts_with path (codes "/sys/") ≡ true)
      → (shim_readlink e eacces path_max
            (record host { readlink = r; realpath = t })
            override
            path
            bufsize
            p
          ≡ shim_readlink e eacces path_max host override path bufsize p)
        × (shim_realpath e eacces path_max
              (record host { readlink = r; realpath = t })
              override
              path
              p
            ≡ shim_realpath e eacces path_max host override path p)
  unfolding shim_readlink shim_realpath refuse refuse_path
  readlink_hides r t override path bufsize p h = elim (Bool-cases (str_starts_with path proc)) [
    | inl under ↦
        let (link, real) = read_proc-hides r t override (drop 6 path) bufsize p in
        (rw under link, rw under real)
    | inr not_proc ↦ elim h [
      | inl under ↦ cc (under, not_proc)
      | inr under ↦ (rw (not_proc, under) refl, rw (not_proc, under) refl)
    ]
  ]

abbrev pub NoSlash : CString → Type 0
NoSlash [] = Unit {0}
NoSlash (x ∷ s) = (x ≢ 47) × NoSlash s

strsep-append : (s rest : CString) → NoSlash s → strsep (s ++ (47 ∷ rest)) ≡ (s, some rest)
unfolding strsep
strsep-append [] rest h = refl
strsep-append (x ∷ s) rest (ne, h) = rw (ne→== x 47 ne, strsep-append s rest h) refl

module _ {W : Type 0} (host : LinkHost W) where
  -- The names under /proc of the process itself, and the state after the name is read.
  pub data IsOwn (p : Process W) : CString → Process W → Type 0 where
    self : IsOwn p (codes "self") p
    pid :
        (node : CString) (n : ℕ) (q : Process W)
        → str_eq node (codes "self") ≡ false
        → host.strtoul node p ≡ (n, q)
        → 0 < n
        → n < 2 ^ 31
        → host.getpid q ≡ n
        → IsOwn p node q

module _ {W : Type 0} (e : Errnos) (eacces path_max : ℕ) (host : LinkHost W) where
  link_pid-IsOwn :
      (node : CString) (p q : Process W)
      → IsOwn host p node q
      → (n : ℕ) × (link_pid e eacces path_max host node p ≡ ok (n, q))
        × ((n == minus_one || n == host.getpid q) ≡ true)
  unfolding link_pid
  link_pid-IsOwn node p q self = (minus_one, rw (str_eq_refl (codes "self")) refl, refl)
  link_pid-IsOwn node p q (pid node1 n q1 other parsed positive small own) =
      let in_range : n % 2 ^ 32 ≡ n = omega (arith, small) in
      (
        n,
        rw (other, parsed, in_range, lt→ltb 0 n positive, lt→ltb n (2 ^ 31) small) refl,
        ground (arith, own),
      )

  -- The two calls behind "/proc/", where the text there is taken apart.
  read_proc-IsOwn :
      (path node text : CString) (bufsize : ℕ) (p q : Process W)
      → strsep text ≡ (node, some (codes "exe"))
      → IsOwn host p node q
      → length path < path_max
      → (read_proc e eacces path_max host (some path) text bufsize p
          ≡ ok (record {
            nchars = min (length path) bufsize;
            buf = some (take (min (length path) bufsize) path);
            process = q;
          }))
        × (resolve_proc e eacces path_max host (some path) text p
            ≡ ok (record { path = some path; process = q }))
  unfolding read_proc resolve_proc read_exe resolve_exe
  read_proc-IsOwn path node text bufsize p q parted own fits =
      let (n, found, is_own) = link_pid-IsOwn node p q own in
      let exe_is : str_eq (strsep (codes "exe")).0 (codes "exe") ≡ true =
        unfold strsep str_eq in refl in
      (
        rw (read_proc, parted, exe_is, parted, found, is_own) refl,
        rw
            (
              resolve_proc,
              parted,
              exe_is,
              parted,
              found,
              is_own,
              lt→ltb (length path) path_max fits,
              take-all (path_max - 1) path (omega (arith, fits)),
            )
            refl,
      )

  -- The path of a process's own program under /proc, as "/proc/self/exe" or by its number, for a name
  -- without a slash: if the shim was told the program's path, readlink gives that, cut to the size of
  -- the buffer, and its length; realpath gives all of it, if it is shorter than PATH_MAX.
  pub own_exe :
      (path node : CString) (bufsize : ℕ) (p q : Process W)
      → NoSlash node
      → IsOwn host p node q
      → length path < path_max
      → (shim_readlink e eacces path_max host (some path) (proc ++ (node ++ codes "/exe")) bufsize p
          ≡ ok (record {
            nchars = min (length path) bufsize;
            buf = some (take (min (length path) bufsize) path);
            process = q;
          }))
        × (shim_realpath e eacces path_max host (some path) (proc ++ (node ++ codes "/exe")) p
            ≡ ok (record { path = some path; process = q }))
  unfolding shim_readlink shim_realpath
  own_exe path node bufsize p q plain own fits =
      let starts = starts-append proc (node ++ codes "/exe") in
      let (link, real) =
        read_proc-IsOwn path node (node ++ codes "/exe") bufsize p q
          (strsep-append node (codes "exe") plain) own fits in
      (rw starts link, rw starts real)
