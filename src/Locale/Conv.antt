-- ===== src/Locale/Conv.antt =====
-- src/libc/locale.c: the categories of setlocale, and the struct that localeconv points to.
use libc6_shim.Prelude.{ℕ, List, [], ◌∷◌, Option, none, some}
use libc6_shim.CString.{CString}
use libc6_shim.Outcome.{Outcome, ok, ◌>>=◌, or_abort}
use libc6_shim.Flags.{Entry, ◌⇒◌}
use libc6_shim.Switch.{select}

-- FreeBSD's `struct lconv`. The last fields stand there in another order than in Linux's.
pub record Lconv : Type 0 where
  pub decimal_point : CString
  pub thousands_sep : CString
  pub grouping : CString
  pub int_curr_symbol : CString
  pub currency_symbol : CString
  pub mon_decimal_point : CString
  pub mon_thousands_sep : CString
  pub mon_grouping : CString
  pub positive_sign : CString
  pub negative_sign : CString
  pub int_frac_digits : ℕ
  pub frac_digits : ℕ
  pub p_cs_precedes : ℕ
  pub p_sep_by_space : ℕ
  pub n_cs_precedes : ℕ
  pub n_sep_by_space : ℕ
  pub p_sign_posn : ℕ
  pub n_sign_posn : ℕ
  pub int_p_cs_precedes : ℕ
  pub int_n_cs_precedes : ℕ
  pub int_p_sep_by_space : ℕ
  pub int_n_sep_by_space : ℕ
  pub int_p_sign_posn : ℕ
  pub int_n_sign_posn : ℕ

-- `struct shim_lconv`.
pub record LinuxLconv : Type 0 where
  pub decimal_point : CString
  pub thousands_sep : CString
  pub grouping : CString
  pub int_curr_symbol : CString
  pub currency_symbol : CString
  pub mon_decimal_point : CString
  pub mon_thousands_sep : CString
  pub mon_grouping : CString
  pub positive_sign : CString
  pub negative_sign : CString
  pub int_frac_digits : ℕ
  pub frac_digits : ℕ
  pub p_cs_precedes : ℕ
  pub p_sep_by_space : ℕ
  pub n_cs_precedes : ℕ
  pub n_sep_by_space : ℕ
  pub p_sign_posn : ℕ
  pub n_sign_posn : ℕ
  pub int_p_cs_precedes : ℕ
  pub int_p_sep_by_space : ℕ
  pub int_n_cs_precedes : ℕ
  pub int_n_sep_by_space : ℕ
  pub int_p_sign_posn : ℕ
  pub int_n_sign_posn : ℕ

unfoldable pub set_process_lconv : Lconv → LinuxLconv
set_process_lconv native_lconv = record {
  decimal_point = native_lconv.decimal_point;
  thousands_sep = native_lconv.thousands_sep;
  grouping = native_lconv.grouping;
  int_curr_symbol = native_lconv.int_curr_symbol;
  currency_symbol = native_lconv.currency_symbol;
  mon_decimal_point = native_lconv.mon_decimal_point;
  mon_thousands_sep = native_lconv.mon_thousands_sep;
  mon_grouping = native_lconv.mon_grouping;
  positive_sign = native_lconv.positive_sign;
  negative_sign = native_lconv.negative_sign;
  int_frac_digits = native_lconv.int_frac_digits;
  frac_digits = native_lconv.frac_digits;
  p_cs_precedes = native_lconv.p_cs_precedes;
  p_sep_by_space = native_lconv.p_sep_by_space;
  n_cs_precedes = native_lconv.n_cs_precedes;
  n_sep_by_space = native_lconv.n_sep_by_space;
  p_sign_posn = native_lconv.p_sign_posn;
  n_sign_posn = native_lconv.n_sign_posn;
  int_p_cs_precedes = native_lconv.int_p_cs_precedes;
  int_p_sep_by_space = native_lconv.int_p_sep_by_space;
  int_n_cs_precedes = native_lconv.int_n_cs_precedes;
  int_n_sep_by_space = native_lconv.int_n_sep_by_space;
  int_p_sign_posn = native_lconv.int_p_sign_posn;
  int_n_sign_posn = native_lconv.int_n_sign_posn;
}

-- FreeBSD's categories.
pub record CategoryNumbers : Type 0 where
  pub lc_ctype : ℕ
  pub lc_numeric : ℕ
  pub lc_time : ℕ
  pub lc_collate : ℕ
  pub lc_monetary : ℕ
  pub lc_messages : ℕ
  pub lc_all : ℕ

abbrev pub category_cases : CategoryNumbers → List Entry
category_cases c =
    (0 ⇒ c.lc_ctype)
    ∷ (1 ⇒ c.lc_numeric)
    ∷ (2 ⇒ c.lc_time)
    ∷ (3 ⇒ c.lc_collate)
    ∷ (4 ⇒ c.lc_monetary)
    ∷ (5 ⇒ c.lc_messages)
    ∷ (6 ⇒ c.lc_all)
    ∷ []

unfoldable pub linux_to_native_category : CategoryNumbers → ℕ → Outcome ℕ
linux_to_native_category c linux_category = or_abort (select (category_cases c) linux_category)

-- The native calls. A result or a locale of `none` is NULL.
pub record ConvHost (W : Type 0) : Type 0 where
  pub setlocale : ℕ → Option CString → W → Option CString × W
  pub localeconv : W → Lconv

-- The variable `process_lconv`, and the system.
pub record ConvState (W : Type 0) : Type 0 where
  pub process_lconv : LinuxLconv
  pub world : W

unfoldable pub shim_setlocale :
    {W : Type 0}
    → CategoryNumbers
    → ConvHost W
    → ℕ
    → Option CString
    → ConvState W
    → Outcome (Option CString × ConvState W)
shim_setlocale c host linux_category locale st = do
  category ← linux_to_native_category c linux_category
  let (ret, w) = host.setlocale category locale st.world
  ok (
    ret,
    elim ret [
      | none ↦ record st { world = w }
      | some name ↦ record { process_lconv = set_process_lconv (host.localeconv w); world = w }
    ],
  )

unfoldable pub shim_localeconv : {W : Type 0} → ConvState W → LinuxLconv
shim_localeconv st = st.process_lconv
