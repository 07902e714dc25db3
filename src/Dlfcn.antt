-- ===== src/Dlfcn.antt =====
-- src/libc/dlfcn.c: opening libraries and looking symbols up, where a symbol that the shim wraps is
-- replaced by its wrapper.
pub mod Laws
pub mod LookupLaws
mod Tests
use libc6_shim.Prelude.{
  ℕ, ◌-◌, ◌^◌, bit_and, bit_or, List, [], ◌∷◌, ◌++◌, Option, none, some, take, Bool, ◌||◌, ◌==◌,
  if◌then◌else◌,
}
use libc6_shim.Bits.{bit_not32}
use libc6_shim.CString.{CString, codes, str_eq}
use libc6_shim.Outcome.{Outcome, ok, abort, ◌>>=◌, ◌>>◌, assert}
use libc6_shim.Flags.{has, or_list}

-- The numbers of FreeBSD's <dlfcn.h>, where handles are pointers.
pub record DlNumbers : Type 0 where
  pub rtld_local : ℕ
  pub rtld_lazy : ℕ
  pub rtld_now : ℕ
  pub rtld_noload : ℕ
  pub rtld_global : ℕ
  pub rtld_nodelete : ℕ
  pub rtld_deepbind : ℕ
  pub rtld_default : ℕ
  pub rtld_next : ℕ
  pub rtld_di_linkmap : ℕ
  pub rtld_di_origin : ℕ

-- The fields of Dl_info that are read: the name of the file, or NULL.
pub record DlInfo : Type 0 where
  pub dli_fname : Option CString

-- The native calls on a system of any type; pointers are numbers. `dlinfo` gives its result and
-- what it stores.
pub record DlHost (W : Type 0) : Type 0 where
  pub dlopen : Option CString → ℕ → W → ℕ × W
  pub dlclose : ℕ → W → W
  pub dlsym : ℕ → CString → W → ℕ × W
  pub dlvsym : ℕ → CString → CString → W → ℕ × W
  pub dlerror : W → W
  pub dladdr : ℕ → W → ℕ × DlInfo × W
  pub dlinfo : ℕ → ℕ → W → ℕ × ℕ × W

abbrev pub linux_rtld_noload : ℕ
linux_rtld_noload = 0x4

abbrev pub linux_rtld_deepbind : ℕ
linux_rtld_deepbind = 0x8

abbrev pub known_linux_dlopen_mode_flags : DlNumbers → ℕ
known_linux_dlopen_mode_flags c = or_list (
    c.rtld_local ∷ c.rtld_lazy ∷ c.rtld_now ∷ linux_rtld_noload ∷ c.rtld_global ∷ c.rtld_nodelete
    ∷ linux_rtld_deepbind ∷ [])

-- `linux_mode & ~(LINUX_RTLD_NOLOAD | LINUX_RTLD_DEEPBIND)`, and the two `if`s.
unfoldable pub dlopen_mode : DlNumbers → ℕ → ℕ
dlopen_mode c linux_mode =
    let kept = bit_and linux_mode (bit_not32 (bit_or linux_rtld_noload linux_rtld_deepbind)) in
    let mode = if has linux_mode linux_rtld_noload then bit_or kept c.rtld_noload else kept in
    if has linux_mode linux_rtld_deepbind then bit_or mode c.rtld_deepbind else mode

-- GLIBC_RTLD_NEXT, the pointer -1, and GLIBC_RTLD_DEFAULT.
abbrev pub glibc_rtld_next : ℕ
glibc_rtld_next = 2 ^ 64 - 1

abbrev pub glibc_rtld_default : ℕ
glibc_rtld_default = 0

abbrev pub native_handle : DlNumbers → ℕ → ℕ
native_handle c linux_handle =
    if linux_handle == glibc_rtld_default
    then c.rtld_default
    else if linux_handle == glibc_rtld_next
    then c.rtld_next
    else linux_handle

-- What `snprintf` leaves in a buffer of 100 bytes.
abbrev pub shim_symbol : CString → CString
shim_symbol symbol = take 99 (codes "shim_" ++ symbol)

abbrev pub is_malloc_hook : CString → Bool
is_malloc_hook symbol =
    str_eq symbol (codes "__malloc_hook")
    || (str_eq symbol (codes "__realloc_hook")
        || (str_eq symbol (codes "__free_hook") || str_eq symbol (codes "__memalign_hook")))

module _ {W : Type 0} (c : DlNumbers) (host : DlHost W) where
  unfoldable pub shim_dlopen : Option CString → ℕ → W → Outcome (ℕ × W)
  shim_dlopen path linux_mode w = do
    assert (bit_and linux_mode (known_linux_dlopen_mode_flags c) == linux_mode)
    ok (host.dlopen path (dlopen_mode c linux_mode) w)

  -- The namespace is not looked at.
  unfoldable pub shim_dlmopen : ℕ → Option CString → ℕ → W → Outcome (ℕ × W)
  shim_dlmopen lmid path mode w = shim_dlopen path mode w

  -- `version == NULL ? dlsym(handle, symbol) : dlvsym(handle, symbol, version)`
  unfoldable pub native_lookup : ℕ → CString → Option CString → W → ℕ × W
  native_lookup handle symbol none w = host.dlsym handle symbol w
  native_lookup handle symbol (some version) w = host.dlvsym handle symbol version w

  -- `_shim_dlvsym`; NULL is 0.
  unfoldable pub lookup_symbol : ℕ → CString → Option CString → W → ℕ × W
  lookup_symbol linux_handle symbol version w =
      let (shim_fn, w1) = host.dlsym 0 (shim_symbol symbol) w in
      if shim_fn == 0
      then (if is_malloc_hook symbol
          then (0, w1)
          else native_lookup (native_handle c linux_handle) symbol version (host.dlerror w1))
      else (shim_fn, w1)

  unfoldable pub shim_dlsym : ℕ → CString → W → ℕ × W
  shim_dlsym handle symbol w = lookup_symbol handle symbol none w

  unfoldable pub shim_dlvsym : ℕ → CString → CString → W → ℕ × W
  shim_dlvsym handle symbol version w = lookup_symbol handle symbol (some version) w

  abbrev pub linux_rtld_di_linkmap : ℕ
  linux_rtld_di_linkmap = 2

  -- The case LINUX_RTLD_DI_LINKMAP: the result, what it stores, and the system.
  unfoldable pub link_map_of : ℕ → CString → W → ℕ × ℕ × W
  link_map_of dladdr_err fname w =
      let (handle, w1) = host.dlopen (some fname) c.rtld_noload w in
      if handle == 0
      then (dladdr_err, 0, w1)
      else let (dlinfo_err, extra_info, w2) = host.dlinfo handle c.rtld_di_linkmap w1 in
        (if dlinfo_err == 0 then dladdr_err else 0, extra_info, host.dlclose handle w2)

  -- `none` for what is stored: nothing is.
  unfoldable pub shim_dladdr1 : ℕ → ℕ → W → Outcome (ℕ × Option ℕ × W)
  shim_dladdr1 address extra_info_type w =
      let (dladdr_err, info, w1) = host.dladdr address w in
      if dladdr_err == 0
      then ok (0, none, w1)
      else if extra_info_type == linux_rtld_di_linkmap
      then elim info.dli_fname [
        | none ↦ abort
        | some fname ↦
            let (r, extra_info, w2) = link_map_of dladdr_err fname w1 in ok (r, some extra_info, w2)
      ]
      else abort

  abbrev pub linux_rtld_di_origin : ℕ
  linux_rtld_di_origin = 6

  unfoldable pub shim_dlinfo : ℕ → ℕ → W → Outcome (ℕ × ℕ × W)
  shim_dlinfo handle request w =
      if request == linux_rtld_di_origin then ok (host.dlinfo handle c.rtld_di_origin w) else abort
