-- ===== src/Lib.antt =====
-- The c6-shim library lets programs built against glibc run on FreeBSD's libc: each call is wrapped
-- by a function that converts its numbers, flags and structures from Linux to FreeBSD, makes the
-- native call, and converts what comes back. This library models the parts of it that convert, and
-- those that keep state of their own, and proves what makes them correct.
--
-- Parts, and the files that model them:
--
--   src/util.c            Errno (native_to_linux_errno, linux_to_native_errno) and Redirect
--                         (init_redirects, redirect), which the calls on paths begin with
--   src/libc/signal.c     Signal: numbers and structures; Signal/Convert: the conversions;
--                         Signal/Calls: shim_kill, shim_sigaction and the others
--   src/libc/sys/socket.c Socket: levels, types, message flags; Socket/Address and Socket/Message:
--                         addresses and control messages; Socket/Options: socket options;
--                         Socket/Calls: shim_connect, shim_recvmsg and the others
--   src/libc/fcntl.c      Fcntl: the open flags; Fcntl/Open: shim_open, shim_shm_open;
--                         Fcntl/Commands: shim_fcntl
--   src/libc/dirent.c     Dirent: entries; Dirent/Heap: malloc and free; Dirent/Directory: the list
--                         of a directory stream, readdir, destroy_shim_dir; Dirent/Stream: the calls
--                         from opendir to closedir; Dirent/Scan: scandir
--   src/libc/netdb.c      Netdb: flags and hints; Netdb/Copy: one entry of an address list;
--                         Netdb/Calls: shim_getaddrinfo, shim_freeaddrinfo, shim_getnameinfo
--   src/libc/ifaddrs.c    Ifaddrs: flags and addresses; Ifaddrs/Copy: one entry of the list of
--                         interfaces; Ifaddrs/Calls: shim_getifaddrs, shim_freeifaddrs
--   src/libc/sys/stat.c   Stat: the copy of struct stat, device numbers; Stat/Calls: the calls
--   src/libc/sys/mman.c   Mman: mmap, munmap, mremap, msync
--   src/libc/unistd.c     Unistd: access, pipe2, sysconf, getopt; Unistd/Links: readlink, and realpath
--                         of src/libc/stdlib.c
--   src/libc/sys/syscall.c  Syscall: shim_syscall and the calls behind it, which are those of the other
--                         parts; Syscall/Robust: get_robust_list of src/futexes.c
--   src/libc/string.c     Strings: the copies that check the size of their destination
--   src/libc/locale.c     Locale: newlocale, uselocale and the others; Locale/Conv: setlocale;
--                         Locale/Steps: sequences of calls, and Locale/StepLaws
--   src/libc/glob.c       Glob: glob and globfree
--   src/libc/dlfcn.c      Dlfcn: dlopen, dlsym and dlvsym, which give the shim's wrappers, dladdr1
--   src/libc/stdio.c      Stdio: fopen and remove; Stdio/Outside and Stdio/Paths: the files that the calls
--                         on paths reach
--   src/libc/sys/ioctl.c  Ioctl: requests
--   src/libc/ctype.c      Ctype: the tables of characters; Ctype/Ascii: what they are compared with
--   src/libc/langinfo.c   Langinfo: items
--   src/libc/sys/mount.c  Mount: statfs, and statvfs of src/libc/sys/statvfs.c
--   src/libc/sched.c      Sched: policies, and the semaphores of src/libc/semaphore.c and sys/sem.c
--   src/libc/sys/utsname.c  Sysinfo: uname, and calls of eventfd.c, epoll.c, prctl.c, resource.c and
--                         select.c beside it
--   src/main.c            Startup: the variables that are set when the library is loaded, and the start of
--                         the program; Startup/Pointers: the functions of libepoll-shim, and those of
--                         src/libc/sys/inotify.c and src/libc/iconv.c
--   src/libc/time.c       Time: find_offset and shim_tzset, clock numbers; Time/Search: how the
--                         search goes; Time/Clock: reading clocks
--   src/libthr/pthread.c  Pthread: conversions; Pthread/MutexAttr, Pthread/Attr, Pthread/Sched: the
--                         attribute objects; Pthread/MutexInit: mutexes, one thread at a time;
--                         Pthread/Race: init_mutex_if_necessary with threads interleaved;
--                         Pthread/RaceProgress and Pthread/RaceLiveness: that the threads return;
--                         Pthread/Threads: joining threads, and creating them in
--                         the 32-bit build
--
-- A definition has the name of the C function, without the suffix _impl, and for pthread.c also
-- without shim_pthread_. The shared modules are Prelude (names of the libraries, Boolean tests,
-- lists), Bits (laws of & and |), Flags (the conversion of flags, one `if` after the other, and when
-- the conversion back undoes it), Switch (conversions by `switch`), CString and CArray (strings and
-- the arrays that hold them), Outcome (calls that may abort), Process (errno), Memory (malloc and free
-- on an explicit heap) and Linked (the loops that copy and free a linked list, with their laws for any
-- operations on one node, which netdb.c and ifaddrs.c supply). Modules named Laws or ending in Laws
-- hold the theorems, and those whose names end in Tests apply them at concrete inputs with
-- FreeBSD's numbers.
--
-- How C is modelled:
--   - an `int` or a word of flags is its bit pattern, a natural number below 2 ^ 32, so -1 is
--     2 ^ 32 - 1; `ssize_t` has 64 bits, as on amd64. Pointers are numbers, and NULL is 0 or `none`;
--   - PANIC, UNIMPLEMENTED and a failed assert are `abort`; a call that returns is `ok`. The one PANIC
--     that is left out is that of tzset for a localtime_r that gives NULL: it does so only where the
--     year overflows an `int`, and the years of the search are between 1970 and the present one;
--   - the numbers of FreeBSD's headers are fields of a record, a parameter: what a theorem needs of
--     them, as that flags share no bits, is a hypothesis;
--   - the native calls are functions in a record, a parameter, on a state of any type. What a theorem
--     needs of them is a hypothesis; the others hold for any native calls;
--   - threads are steps of a relation, interleaved in any order, where a read or a write of one
--     pointer is one step. Elsewhere a call is one step.
--
-- Loops are recursion on the list that they go through, without fuel. The loops that free a linked
-- list follow pointers, and run on fuel: the theorems give a list of n nodes more than n units of it,
-- and prove that the loop ends. scandir counts entries in an `int`: its theorem is for fewer than
-- 2 ^ 29 of them.
--
-- Not modelled: the parts that only forward (read, write and close, most of stdio.c, the rest of
-- stdlib.c and string.c, the calls of epoll, inotify and iconv), the symbol tables and the generator of
-- the wrappers; nor the files of sys/ that are not named above.
pub mod Prelude
pub mod Bits
pub mod Outcome
pub mod Flags
pub mod Switch
pub mod CString
pub mod CArray
pub mod Errno
pub mod Redirect
pub mod Ctype
pub mod Stdio
pub mod Dlfcn
pub mod Ioctl
pub mod Langinfo
pub mod Startup
pub mod Sysinfo
pub mod Mount
pub mod Sched
pub mod Signal
pub mod Process
pub mod Socket
pub mod Pthread
pub mod Fcntl
pub mod Memory
pub mod Linked
pub mod Netdb
pub mod Ifaddrs
pub mod Stat
pub mod Mman
pub mod Unistd
pub mod Syscall
pub mod Strings
pub mod Locale
pub mod Glob
pub mod Dirent
pub mod Time
