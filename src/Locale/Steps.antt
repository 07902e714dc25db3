-- ===== src/Locale/Steps.antt =====
-- Sequences of calls on locales, and what is to hold in between.
use libc6_shim.Prelude.{ℕ, ◌≡◌, ◌≢◌, ◌⊎◌, some}
use libc6_shim.CString.{CString}
use libc6_shim.Outcome.{ok}
use libc6_shim.Locale.{
  LinuxLocale, LocaleNumbers, LocaleHost, LocaleState, linux_global_locale, shim_newlocale,
  shim_duplocale, shim_uselocale, shim_freelocale,
}

-- The native calls as documented: `uselocale` sets the locale of the thread to any that is not NULL,
-- and the others leave it.
pub record KeepsCurrent {W : Type 0} (host : LocaleHost W) (current : W → ℕ) : Type 0 where
  pub uses : (l : ℕ) (w : W) → l ≢ 0 → current (host.uselocale l w) ≡ l
  pub news :
      (mask : ℕ) (name : CString) (base : ℕ) (w : W)
      → current (host.newlocale mask name base w).1 ≡ current w
  pub dups : (l : ℕ) (w : W) → current (host.duplocale l w).1 ≡ current w
  pub frees : (l : ℕ) (w : W) → current (host.freelocale l w) ≡ current w

-- The locale at an address has a native one: the native call that made it did not give NULL.
abbrev pub HasNative : {W : Type 0} → LocaleState W → ℕ → Type 0
HasNative s p = (l : LinuxLocale) × (s.memory.cells p ≡ some l) × (l.native_locale ≢ 0)

-- Every locale of the program has a native one.
abbrev pub HaveNative : {W : Type 0} → LocaleState W → Type 0
HaveNative s = (a : ℕ) (l : LinuxLocale) → s.memory.cells a ≡ some l → l.native_locale ≢ 0

module _ {W : Type 0} (c : LocaleNumbers) (host : LocaleHost W) where
  -- One call of the program that returns, where newlocale and duplocale could make a native locale. It
  -- does not free the locale that it uses.
  pub data Step : LocaleState W → LocaleState W → Type 0 where
    new :
        (mask : ℕ) (name : CString) (base p : ℕ) (s t : LocaleState W)
        → shim_newlocale c host mask name base s ≡ ok (p, t)
        → HasNative t p
        → Step s t
    duplicate :
        (locale p : ℕ) (s t : LocaleState W)
        → shim_duplocale c host locale s ≡ ok (p, t)
        → HasNative t p
        → Step s t
    use_ :
        (locale prev : ℕ) (s t : LocaleState W)
        → shim_uselocale c host locale s ≡ ok (prev, t)
        → Step s t
    free_ :
        (locale : ℕ) (s t : LocaleState W)
        → locale ≢ s.thread_locale
        → shim_freelocale c host locale s ≡ ok t
        → Step s t

  -- Any number of calls.
  pub data Steps : LocaleState W → LocaleState W → Type 0 where
    start : (s : LocaleState W) → Steps s s
    then_ : (s t u : LocaleState W) → Steps s t → Step t u → Steps s u

-- The native locale of the thread is the one of `thread_locale`.
abbrev pub InSync : {W : Type 0} → LocaleNumbers → (W → ℕ) → LocaleState W → Type 0
InSync c current s =
    ((s.thread_locale ≡ linux_global_locale) × (current s.world ≡ c.lc_global_locale))
    ⊎ ((s.thread_locale ≢ linux_global_locale)
        × (l : LinuxLocale) × (s.memory.cells s.thread_locale ≡ some l)
        × (current s.world ≡ l.native_locale))
