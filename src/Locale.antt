-- ===== src/Locale.antt =====
-- src/libc/locale.c: the locale of a thread, and what localeconv gives.
pub mod Conv
pub mod Steps
pub mod NewLaws
pub mod StepLaws
mod Tests
use libc6_shim.Prelude.{ℕ, ◌-◌, ◌^◌, List, [], ◌∷◌, ◌||◌, ◌==◌, if◌then◌else◌}
use libc6_shim.CString.{CString, codes, str_eq}
use libc6_shim.Outcome.{Outcome, ok, ◌>>=◌, ◌>>◌, assert}
use libc6_shim.Memory.{Memory, malloc, load, free}

-- `struct linux_locale`: the tables that are pointed to are numbers.
pub record LinuxLocale : Type 0 where
  pub locales : List ℕ
  pub ctype_b : ℕ
  pub ctype_tolower : ℕ
  pub ctype_toupper : ℕ
  pub names : List CString
  pub native_locale : ℕ

-- LC_ALL_MASK and LC_GLOBAL_LOCALE of FreeBSD, and the tables of ctype.c.
pub record LocaleNumbers : Type 0 where
  pub lc_all_mask : ℕ
  pub lc_global_locale : ℕ
  pub ctype_b : ℕ
  pub ctype_tolower : ℕ
  pub ctype_toupper : ℕ

pub record LocaleHost (W : Type 0) : Type 0 where
  pub newlocale : ℕ → CString → ℕ → W → ℕ × W
  pub duplocale : ℕ → W → ℕ × W
  pub uselocale : ℕ → W → W
  pub freelocale : ℕ → W → W

-- The heap with the locales, the variable `thread_locale`, and the system.
pub record LocaleState (W : Type 0) : Type 0 where
  pub memory : Memory LinuxLocale
  pub thread_locale : ℕ
  pub world : W

-- LINUX_LC_GLOBAL_LOCALE, the pointer -1.
abbrev pub linux_global_locale : ℕ
linux_global_locale = 2 ^ 64 - 1

-- The loop of `shim_newlocale`, from an index on.
abbrev pub dummy_locales : List ℕ
dummy_locales =
    0xdead_0000 ∷ 0xdead_0001 ∷ 0xdead_0002 ∷ 0xdead_0003 ∷ 0xdead_0004 ∷ 0xdead_0005 ∷ 0xdead_0006
    ∷ 0xdead_0007 ∷ 0xdead_0008 ∷ 0xdead_0009 ∷ 0xdead_000a ∷ 0xdead_000b ∷ 0xdead_000c ∷ []

abbrev pub dummy_names : List CString
dummy_names =
    let n = codes "<dummy locale name>" in n ∷ n ∷ n ∷ n ∷ n ∷ n ∷ n ∷ n ∷ n ∷ n ∷ n ∷ n ∷ n ∷ []

module _ {W : Type 0} (c : LocaleNumbers) (host : LocaleHost W) where
  -- `base != NULL ? base->native_locale : NULL`
  unfoldable pub base_locale : ℕ → Memory LinuxLocale → Outcome ℕ
  base_locale base m = if base == 0 then ok 0 else (load base m >>= λ l. ok l.native_locale)

  unfoldable pub shim_newlocale : ℕ → CString → ℕ → LocaleState W → Outcome (ℕ × LocaleState W)
  shim_newlocale category_mask locale base st = do
    assert (category_mask == 64 || category_mask == 8127)
    assert (str_eq locale (codes "C"))
    native_base ← base_locale base st.memory
    let (native, w) = host.newlocale c.lc_all_mask locale native_base st.world
    let (linux_locale, m) =
        malloc
          (record {
            locales = dummy_locales;
            ctype_b = c.ctype_b;
            ctype_tolower = c.ctype_tolower;
            ctype_toupper = c.ctype_toupper;
            names = dummy_names;
            native_locale = native;
          })
          st.memory
    ok (linux_locale, record st { memory = m; world = w })

  unfoldable pub shim_duplocale : ℕ → LocaleState W → Outcome (ℕ × LocaleState W)
  shim_duplocale locale st = do
    l ← load locale st.memory
    let (native, w) = host.duplocale l.native_locale st.world
    let (duplicate, m) = malloc (record l { native_locale = native }) st.memory
    ok (duplicate, record st { memory = m; world = w })

  -- The assignment to `thread_locale`, and the native call.
  unfoldable pub use_native : ℕ → LocaleState W → Outcome (LocaleState W)
  use_native locale st =
      if locale == linux_global_locale
      then ok
          (record st { thread_locale = locale; world = host.uselocale c.lc_global_locale st.world })
      else (load locale st.memory >>= λ l.
          ok
            (record st { thread_locale = locale; world = host.uselocale l.native_locale st.world }))

  unfoldable pub shim_uselocale : ℕ → LocaleState W → Outcome (ℕ × LocaleState W)
  shim_uselocale locale st =
      if locale == 0
      then ok (st.thread_locale, st)
      else (use_native locale st >>= λ after. ok (st.thread_locale, after))

  unfoldable pub shim_freelocale : ℕ → LocaleState W → Outcome (LocaleState W)
  shim_freelocale locale st = do
    l ← load locale st.memory
    m ← free locale st.memory
    ok (record st { memory = m; world = host.freelocale l.native_locale st.world })
