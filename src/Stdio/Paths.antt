-- ===== src/Stdio/Paths.antt =====
-- The calls that take a path and redirect or refuse it: fopen, open, access, lstat, readlink and
-- realpath, over two sets of native calls that may differ on paths that begin with /proc/ or /sys/.
use libc6_shim.Prelude.{ℕ, Option, none, some, ◌≡◌, inl, inr, refl, Bool-cases, Option-cases}
use libc6_shim.CString.{CString, codes, str_starts_with}
use libc6_shim.Errno.{Errnos}
use libc6_shim.Outcome.{Outcome}
use libc6_shim.Process.{Process}
use libc6_shim.Redirect.{init_redirects, redirect, emul_cpuinfo}
use libc6_shim.Redirect.Laws.{IsOutside, redirect-IsOutside}
use libc6_shim.Fcntl.{FcntlNumbers}
use libc6_shim.Fcntl.Open.{NativeOpen, shim_open}
use libc6_shim.Unistd.{UnistdHost, shim_access}
use libc6_shim.Unistd.Links.{Link, LinkHost, Resolution, proc, shim_readlink, shim_realpath}
use libc6_shim.Unistd.LinkLaws.{readlink_hides}
use libc6_shim.Stat.{StatNumbers, Stat, LinuxStat}
use libc6_shim.Stat.Calls.{FileSystem, shim_lxstat, Statted}
use libc6_shim.Stdio.{StdioHost, shim_fopen}
use libc6_shim.Stdio.Outside.{AgreeOutside, calls_stay_outside}

-- The native calls on paths of one system.
pub record PathCalls (W : Type 0) : Type 0 where
  pub fopen : CString → CString → Process W → ℕ × Process W
  pub open_file : NativeOpen W
  pub access : CString → ℕ → Process W → ℕ × Process W
  pub lstat : Option CString → Process W → ℕ × Stat × Process W
  pub readlink : CString → ℕ → Process W → Link W
  pub realpath : CString → Process W → Resolution W

-- Native calls that agree on every path whose text does not begin with /proc/ or /sys/, and on lstat of
-- NULL.
pub record AreSameOutside {W : Type 0} (a b : PathCalls W) : Type 0 where
  pub fopen : AgreeOutside a.fopen b.fopen
  pub open_file : AgreeOutside a.open_file b.open_file
  pub access : AgreeOutside a.access b.access
  pub lstat : AgreeOutside (λ q. a.lstat (some q)) (λ q. b.lstat (some q))
  pub lstat_null : a.lstat none ≡ b.lstat none
  pub readlink : AgreeOutside a.readlink b.readlink
  pub realpath : AgreeOutside a.realpath b.realpath

-- The calls of the shim over one system, and the rest of the hosts.
pub record Hosts (W : Type 0) : Type 0 where
  pub files : StdioHost W
  pub calls : UnistdHost W
  pub stats : FileSystem W
  pub links : LinkHost W

-- The numbers of the native system.
pub record PathNumbers : Type 0 where
  pub errnos : Errnos
  pub eacces : ℕ
  pub path_max : ℕ
  pub fcntl : FcntlNumbers
  pub stat : StatNumbers

-- What a program passes to the calls, and `proc_self_exe_override`.
pub record PathArguments : Type 0 where
  pub path : CString
  pub mode : CString
  pub flags : ℕ
  pub bits : ℕ
  pub ver : ℕ
  pub buf : LinuxStat
  pub size : ℕ
  pub override : Option CString

-- The results of the calls from one state.
pub record PathResults (W : Type 0) : Type 0 where
  pub fopen : Outcome (ℕ × Process W)
  pub open_file : Outcome (ℕ × Process W)
  pub access : ℕ × Process W
  pub lstat : Statted W
  pub readlink : Outcome (Link W)
  pub realpath : Outcome (Resolution W)

abbrev pub path_results :
    {W : Type 0}
    → PathNumbers
    → CString
    → Hosts W
    → PathArguments
    → Process W
    → PathCalls W
    → PathResults W
path_results c emul h x p s =
    let redirects = init_redirects emul in
    let links = record h.links { readlink = s.readlink; realpath = s.realpath } in
    record {
      fopen = shim_fopen c.eacces (record h.files { fopen = s.fopen }) redirects x.path x.mode p;
      open_file = shim_open c.fcntl s.open_file redirects x.path x.flags x.bits p;
      access = shim_access c.fcntl (record h.calls { access = s.access }) redirects x.path x.bits p;
      lstat =
          shim_lxstat c.stat (record h.stats { lstat = s.lstat }) redirects x.ver x.path x.buf p;
      readlink = shim_readlink c.errnos c.eacces c.path_max links x.override x.path x.size p;
      realpath = shim_realpath c.errnos c.eacces c.path_max links x.override x.path p;
    }

module _ {W : Type 0} (emul : CString) (emulated : IsOutside (emul_cpuinfo emul)) (h : Hosts W)
    (a b : PathCalls W) (same : AreSameOutside a b) where
  lstat_agrees :
      (c : StatNumbers) (ver : ℕ) (path : CString) (buf : LinuxStat) (p : Process W)
      → shim_lxstat c (record h.stats { lstat = a.lstat }) (init_redirects emul) ver path buf p
        ≡ shim_lxstat c (record h.stats { lstat = b.lstat }) (init_redirects emul) ver path buf p
  unfolding shim_lxstat
  lstat_agrees c ver path buf p = elim (Option-cases (redirect (init_redirects emul) path)) [
    | inl refused ↦ rw (refused, same.lstat_null) refl
    | inr f ↦ rw (f.1, same.lstat f.0 (redirect-IsOutside emul path emulated f.1)) refl
  ]

  links_agree :
      (e : Errnos) (eacces path_max : ℕ) (override : Option CString) (path : CString) (size : ℕ)
      (p : Process W)
      → (shim_readlink e eacces path_max
            (record h.links { readlink = a.readlink; realpath = a.realpath })
            override
            path
            size
            p
          ≡ shim_readlink e eacces path_max
              (record h.links { readlink = b.readlink; realpath = b.realpath })
              override
              path
              size
              p)
        × (shim_realpath e eacces path_max
              (record h.links { readlink = a.readlink; realpath = a.realpath })
              override
              path
              p
            ≡ shim_realpath e eacces path_max
                (record h.links { readlink = b.readlink; realpath = b.realpath })
                override
                path
                p)
  unfolding shim_readlink shim_realpath
  links_agree e eacces path_max override path size p =
      let hidden =
        readlink_hides e eacces path_max
          (record h.links { readlink = b.readlink; realpath = b.realpath }) a.readlink a.realpath
          override path size p in
      elim (Bool-cases (str_starts_with path proc)) [
        | inl under ↦ hidden (inl under)
        | inr not_proc ↦ elim (Bool-cases (str_starts_with path (codes "/sys/"))) [
          | inl under ↦ hidden (inr under)
          | inr not_sys ↦ (
            rw (not_proc, not_sys, same.readlink path (not_proc, not_sys)) refl,
            rw (not_proc, not_sys, same.realpath path (not_proc, not_sys)) refl,
          )
        ]
      ]

  -- Where the path of the Linux emulation does not begin with "/proc/" or "/sys/", it makes no
  -- difference to fopen, open, access, lstat, readlink and realpath what the native calls do with a
  -- path that begins so: over native calls that agree on every other text of a path, and lstat also
  -- on NULL, the six give the same results, for every path and from every state. A path is compared by
  -- its text: one that begins otherwise and leads to the same files is one of the others.
  pub paths_stay_outside :
      (c : PathNumbers) (x : PathArguments) (p : Process W)
      → path_results c emul h x p a ≡ path_results c emul h x p b
  paths_stay_outside c x p =
      let (opened, found, allowed) =
        calls_stay_outside emul emulated c.eacces c.fcntl (record h.files { fopen = a.fopen })
          (record h.calls { access = a.access }) a.open_file b.open_file b.fopen b.access x.path
          x.mode x.flags x.bits p same.fopen same.open_file same.access in
      let (read, resolved) = links_agree c.errnos c.eacces c.path_max x.override x.path x.size p in
      rw (opened, found, allowed, lstat_agrees c.stat x.ver x.path x.buf p, read, resolved) refl
