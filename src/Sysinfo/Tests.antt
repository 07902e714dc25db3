-- ===== src/Sysinfo/Tests.antt =====
-- uname and the checks at concrete inputs.
use libc6_shim.Prelude.{ℕ, ◌≡◌, ◌≢◌, ◌⊎◌, arith, refl, ◌++◌, replicate, []}
use libc6_shim.CString.{codes}
use libc6_shim.CArray.{copy_bounded, overwrite}
use libc6_shim.Outcome.{ok, abort}
use libc6_shim.Process.{Process}
use libc6_shim.Sysinfo.{
  LinuxUtsname, SystemNumbers, SystemHost, shim_uname, shim_eventfd, shim_epoll_create1,
  shim_fdelt_chk,
}
use libc6_shim.Flags.{translate}
use libc6_shim.Sysinfo.Laws.{AreStrings, Tells, uname_lem}

abbrev freebsd : SystemNumbers
freebsd = record {
  efd_semaphore = 4;
  efd_nonblock = 0x4;
  efd_cloexec = 0x10_0000;
  epoll_cloexec = 0x10_0000;
  eacces = 13;
  eperm = 1;
}

abbrev system : SystemHost ℕ
system = record {
  uname = λ p. (
    0,
    record {
      sysname = codes "FreeBSD";
      nodename = codes "host";
      release = codes "14.1-RELEASE";
      version = codes "FreeBSD 14.1";
      machine = codes "amd64";
    },
    p,
  );
  eventfd = λ initval flags p. (flags, p);
  epoll_create1 = λ flags p. (flags, p);
}

abbrev started : Process ℕ
started = record { errno = 0; world = 0 }

abbrev no_name : LinuxUtsname
no_name = record {
  sysname = [];
  nodename = [];
  release = [];
  version = [];
  machine = [];
  domainname = [];
}

uname_machine :
    (shim_uname freebsd system no_name started).1.machine ≡ codes "x86_64" ++ replicate 59 0
unfolding shim_uname copy_bounded overwrite
uname_machine = refl

eventfd_cloexec : shim_eventfd freebsd system 0 0x80000 started ≡ ok (0x10_0000, started)
unfolding shim_eventfd translate
eventfd_cloexec = refl

eventfd_unknown : shim_eventfd freebsd system 0 2 started ≡ abort
unfolding shim_eventfd
eventfd_unknown = refl

epoll_create1_cloexec : shim_epoll_create1 freebsd system 0x80000 started ≡ ok (0x10_0000, started)
unfolding shim_epoll_create1 translate
epoll_create1_cloexec = refl

fdelt_last : shim_fdelt_chk 1023 ≡ ok 15
unfolding shim_fdelt_chk
fdelt_last = refl

system-AreStrings : AreStrings (system.uname started).1
system-AreStrings = record {
  sysname = omega arith;
  nodename = omega arith;
  release = omega arith;
  version = omega arith;
}

uname_lem_example :
    (((shim_uname freebsd system no_name started).0 ≡ 0)
      × Tells (system.uname started).1 (shim_uname freebsd system no_name started).1)
    ⊎ (((shim_uname freebsd system no_name started).0 ≢ 0)
        × ((shim_uname freebsd system no_name started).1 ≡ no_name))
uname_lem_example = uname_lem freebsd system no_name started system-AreStrings
