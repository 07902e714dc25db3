-- ===== src/Glob/Tests.antt =====
-- FreeBSD's numbers, and the theorem on glob at a concrete input.
use libc6_shim.Prelude.{ℕ, ◌-◌, ◌^◌, refl, arith}
use libc6_shim.CString.{codes}
use libc6_shim.Process.{Process}
use libc6_shim.Glob.{GlobNumbers, LinuxGlob, NativeGlob, GlobHost}
use libc6_shim.Flags.{SeparateTargets}
use libc6_shim.Flags.Each.{EachFlag}
use libc6_shim.Glob.Laws.{glob_names, Answers, glob_then_globfree}

abbrev freebsd_glob : GlobNumbers
freebsd_glob = record {
  glob_err = 4;
  glob_mark = 8;
  glob_nosort = 0x20;
  glob_dooffs = 2;
  glob_nocheck = 0x10;
  glob_append = 1;
  glob_noescape = 0x2000;
  glob_magchar = 0x100;
  glob_altdirfunc = 0x40;
  glob_brace = 0x80;
  glob_nomagic = 0x200;
  glob_tilde = 0x800;
  glob_nospace = 2 ^ 32 - 1;
  glob_aborted = 2 ^ 32 - 2;
  glob_nomatch = 2 ^ 32 - 3;
}

abbrev uninitialized : NativeGlob
uninitialized = record { gl_pathc = 77; gl_pathv = 78; gl_matchc = 79; gl_offs = 80; gl_flags = 81 }

-- Three paths.
abbrev matches : NativeGlob
matches = record { gl_pathc = 3; gl_pathv = 4096; gl_matchc = 3; gl_offs = 0; gl_flags = 0x100 }

abbrev directory : GlobHost ℕ
directory = record {
  glob = λ pattern flags g p. (0, matches, p);
  globfree = λ g p. record p { world = 0 };
}

abbrev empty : LinuxGlob
empty = record { gl_pathc = 0; gl_pathv = 0; gl_offs = 0; gl_flags = 0 }

abbrev start : Process ℕ
start = record { errno = 0; world = 1 }

freebsd-SeparateTargets : SeparateTargets (glob_names freebsd_glob)
freebsd-SeparateTargets = omega arith

-- GLOB_ERR | GLOB_TILDE
glob_then_globfree_example :
    (flags : ℕ) × EachFlag (glob_names freebsd_glob) 0x1001 flags
    × Answers freebsd_glob directory uninitialized (codes "*.so") 0x1001 empty start start flags
glob_then_globfree_example =
    glob_then_globfree freebsd_glob directory uninitialized (codes "*.so") 0x1001 empty start start
      freebsd-SeparateTargets refl refl
