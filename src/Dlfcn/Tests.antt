-- ===== src/Dlfcn/Tests.antt =====
-- dlopen and dlsym with FreeBSD's numbers.
use libc6_shim.Prelude.{ℕ, ◌+◌, ◌-◌, ◌^◌, ◌≡◌, ◌++◌, refl, some, ◌==◌, if◌then◌else◌, arith}
use libc6_shim.CString.{codes, str_eq}
use libc6_shim.Outcome.{ok}
use libc6_shim.Dlfcn.{
  DlNumbers, DlHost, native_lookup, lookup_symbol, shim_dlsym, link_map_of, shim_dladdr1,
}
use libc6_shim.Dlfcn.LookupLaws.{Substitutes, lookups_substitute}

abbrev freebsd : DlNumbers
freebsd = record {
  rtld_local = 0;
  rtld_lazy = 1;
  rtld_now = 2;
  rtld_noload = 0x2000;
  rtld_global = 0x100;
  rtld_nodelete = 0x1000;
  rtld_deepbind = 0x4000;
  rtld_default = 2 ^ 64 - 2;
  rtld_next = 2 ^ 64 - 1;
  rtld_di_linkmap = 2;
  rtld_di_origin = 6;
}

-- The shim wraps `open`; the system counts its open handles.
abbrev libraries : DlHost ℕ
libraries = record {
  dlopen = λ path mode w. (mode + 1, w + 1);
  dlclose = λ handle w. w - 1;
  dlsym = λ handle symbol w.
      (if handle == 0 then (if str_eq symbol (codes "shim_open") then 700 else 0) else 800, w);
  dlvsym = λ handle symbol version w. (900, w);
  dlerror = λ w. w;
  dladdr = λ address w. (1, record { dli_fname = some (codes "libm.so.5") }, w);
  dlinfo = λ handle request w. (0, 50, w);
}

dlsym_open : shim_dlsym freebsd libraries 0 (codes "open") 0 ≡ (700, 0)
unfolding shim_dlsym lookup_symbol native_lookup str_eq
dlsym_open = refl

dlsym_next : shim_dlsym freebsd libraries (2 ^ 64 - 1) (codes "sin") 0 ≡ (800, 0)
unfolding shim_dlsym lookup_symbol native_lookup str_eq
dlsym_next = refl

-- The handle that dladdr1 opens is closed again.
dladdr1_closes : shim_dladdr1 freebsd libraries 5 2 0 ≡ ok (1, some 50, 0)
unfolding shim_dladdr1 link_map_of
dladdr1_closes = refl

lookups_substitute_example :
    Substitutes freebsd libraries 0
      (codes "open")
      (codes "GLIBC_2.2.5")
      0
      (libraries.dlsym 0 (codes "shim_" ++ codes "open") 0)
lookups_substitute_example =
    lookups_substitute freebsd libraries 0 (codes "open") (codes "GLIBC_2.2.5") 0 (omega arith)
