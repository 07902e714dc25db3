-- ===== src/Mman/Tests.antt =====
-- FreeBSD's numbers, and the theorem on mappings at a concrete input.
use libc6_shim.Prelude.{ℕ, ◌≡◌, refl, inl, arith}
use libc6_shim.Outcome.{ok}
use libc6_shim.Process.{Process, minus_one}
use libc6_shim.Mman.{MmanNumbers, MmanHost, Mapping, warn, shim_mmap64}
use libc6_shim.Mman.Laws.{Requests, mmap-Requests}

abbrev pub freebsd_mman : MmanNumbers
freebsd_mman = record {
  map_shared = 1;
  map_private = 2;
  map_fixed = 0x10;
  map_anon = 0x1000;
  map_32bit = 0x8_0000;
  ms_async = 1;
  ms_invalidate = 2;
  ms_sync = 0;
  einval = 22;
  pagesize = 4096;
}

abbrev page : Mapping
page = record { addr = 0; len = 4096; prot = 3; offset = 0 }

-- A system that maps everything at one address.
abbrev pub mapper : MmanHost ℕ
mapper = record {
  mmap = λ mapping flags fd p. (0x8000_0000, p);
  munmap = λ addr len p. (0, p);
  msync = λ addr len flags p. (0, p);
  perror = λ p. p;
}

abbrev start : Process ℕ
start = record { errno = 0; world = 0 }

-- MAP_PRIVATE | MAP_NORESERVE, with the descriptor -1.
mmap-Requests_example :
    (flags : ℕ) × (native_fd : ℕ) × (shim_mmap64 freebsd_mman mapper page 0x4002 minus_one start
      ≡ ok (warn freebsd_mman mapper (mapper.mmap page flags native_fd start)))
    × Requests freebsd_mman 0x4002 minus_one flags native_fd
mmap-Requests_example =
    mmap-Requests freebsd_mman mapper page 0x4002 minus_one start (omega arith) refl (inl refl)
      (inl refl)
