-- ===== src/Langinfo.antt =====
-- src/libc/langinfo.c: the items of nl_langinfo.
pub mod Laws
mod Tests
use libc6_shim.Prelude.{ℕ, List, [], ◌∷◌}
use libc6_shim.CString.{CString}
use libc6_shim.Outcome.{Outcome, ok, abort, ◌>>=◌, or_abort}
use libc6_shim.Flags.{Entry, ◌⇒◌}
use libc6_shim.Switch.{select}

-- FreeBSD's items.
pub record NlItems : Type 0 where
  pub codeset : ℕ
  pub d_t_fmt : ℕ
  pub d_fmt : ℕ
  pub t_fmt : ℕ
  pub t_fmt_ampm : ℕ
  pub am_str : ℕ
  pub pm_str : ℕ
  pub day_1 : ℕ
  pub day_2 : ℕ
  pub day_3 : ℕ
  pub day_4 : ℕ
  pub day_5 : ℕ
  pub day_6 : ℕ
  pub day_7 : ℕ
  pub abday_1 : ℕ
  pub abday_2 : ℕ
  pub abday_3 : ℕ
  pub abday_4 : ℕ
  pub abday_5 : ℕ
  pub abday_6 : ℕ
  pub abday_7 : ℕ
  pub mon_1 : ℕ
  pub mon_2 : ℕ
  pub mon_3 : ℕ
  pub mon_4 : ℕ
  pub mon_5 : ℕ
  pub mon_6 : ℕ
  pub mon_7 : ℕ
  pub mon_8 : ℕ
  pub mon_9 : ℕ
  pub mon_10 : ℕ
  pub mon_11 : ℕ
  pub mon_12 : ℕ
  pub abmon_1 : ℕ
  pub abmon_2 : ℕ
  pub abmon_3 : ℕ
  pub abmon_4 : ℕ
  pub abmon_5 : ℕ
  pub abmon_6 : ℕ
  pub abmon_7 : ℕ
  pub abmon_8 : ℕ
  pub abmon_9 : ℕ
  pub abmon_10 : ℕ
  pub abmon_11 : ℕ
  pub abmon_12 : ℕ
  pub era : ℕ
  pub era_d_fmt : ℕ
  pub era_d_t_fmt : ℕ
  pub era_t_fmt : ℕ
  pub alt_digits : ℕ
  pub radixchar : ℕ
  pub thousep : ℕ
  pub yesexpr : ℕ
  pub noexpr : ℕ
  pub crncystr : ℕ

-- The cases of the `switch`, with the numbers of Linux.
abbrev pub nl_item_cases : NlItems → List Entry
nl_item_cases c =
    (14 ⇒ c.codeset)
    ∷ (0x20028 ⇒ c.d_t_fmt)
    ∷ (0x20029 ⇒ c.d_fmt)
    ∷ (0x2002a ⇒ c.t_fmt)
    ∷ (0x2002b ⇒ c.t_fmt_ampm)
    ∷ (0x20026 ⇒ c.am_str)
    ∷ (0x20027 ⇒ c.pm_str)
    ∷ (0x20007 ⇒ c.day_1)
    ∷ (0x20008 ⇒ c.day_2)
    ∷ (0x20009 ⇒ c.day_3)
    ∷ (0x2000a ⇒ c.day_4)
    ∷ (0x2000b ⇒ c.day_5)
    ∷ (0x2000c ⇒ c.day_6)
    ∷ (0x2000d ⇒ c.day_7)
    ∷ (0x20000 ⇒ c.abday_1)
    ∷ (0x20001 ⇒ c.abday_2)
    ∷ (0x20002 ⇒ c.abday_3)
    ∷ (0x20003 ⇒ c.abday_4)
    ∷ (0x20004 ⇒ c.abday_5)
    ∷ (0x20005 ⇒ c.abday_6)
    ∷ (0x20006 ⇒ c.abday_7)
    ∷ (0x2001a ⇒ c.mon_1)
    ∷ (0x2001b ⇒ c.mon_2)
    ∷ (0x2001c ⇒ c.mon_3)
    ∷ (0x2001d ⇒ c.mon_4)
    ∷ (0x2001e ⇒ c.mon_5)
    ∷ (0x2001f ⇒ c.mon_6)
    ∷ (0x20020 ⇒ c.mon_7)
    ∷ (0x20021 ⇒ c.mon_8)
    ∷ (0x20022 ⇒ c.mon_9)
    ∷ (0x20023 ⇒ c.mon_10)
    ∷ (0x20024 ⇒ c.mon_11)
    ∷ (0x20025 ⇒ c.mon_12)
    ∷ (0x2000e ⇒ c.abmon_1)
    ∷ (0x2000f ⇒ c.abmon_2)
    ∷ (0x20010 ⇒ c.abmon_3)
    ∷ (0x20011 ⇒ c.abmon_4)
    ∷ (0x20012 ⇒ c.abmon_5)
    ∷ (0x20013 ⇒ c.abmon_6)
    ∷ (0x20014 ⇒ c.abmon_7)
    ∷ (0x20015 ⇒ c.abmon_8)
    ∷ (0x20016 ⇒ c.abmon_9)
    ∷ (0x20017 ⇒ c.abmon_10)
    ∷ (0x20018 ⇒ c.abmon_11)
    ∷ (0x20019 ⇒ c.abmon_12)
    ∷ (0x2002c ⇒ c.era)
    ∷ (0x2002e ⇒ c.era_d_fmt)
    ∷ (0x20030 ⇒ c.era_d_t_fmt)
    ∷ (0x20031 ⇒ c.era_t_fmt)
    ∷ (0x2002f ⇒ c.alt_digits)
    ∷ (0x10000 ⇒ c.radixchar)
    ∷ (0x10001 ⇒ c.thousep)
    ∷ (0x50000 ⇒ c.yesexpr)
    ∷ (0x50001 ⇒ c.noexpr)
    ∷ (0x4000f ⇒ c.crncystr)
    ∷ []

unfoldable pub linux_to_native_nl_item : NlItems → ℕ → Outcome ℕ
linux_to_native_nl_item c linux_item = or_abort (select (nl_item_cases c) linux_item)

-- The native nl_langinfo is a parameter.
unfoldable pub shim_nl_langinfo : NlItems → (ℕ → CString) → ℕ → Outcome CString
shim_nl_langinfo c nl_langinfo linux_item =
    linux_to_native_nl_item c linux_item >>= λ item. ok (nl_langinfo item)

-- UNIMPLEMENTED
unfoldable pub shim_nl_langinfo_l : ℕ → ℕ → Outcome CString
shim_nl_langinfo_l item loc = abort
