-- ===== src/Locale/Tests.antt =====
-- A program that makes a locale, uses it, and goes back to the global one.
use libc6_shim.Prelude.{arith, ℕ, refl, inl, none}
use libc6_shim.CString.{codes, str_eq}
use libc6_shim.Outcome.{ok, abort}
use libc6_shim.Memory.{IsFresh}
use libc6_shim.Locale.{
  LocaleNumbers, LocaleHost, LocaleState, linux_global_locale, base_locale, use_native,
  shim_newlocale, shim_uselocale,
}
use libc6_shim.Locale.Steps.{Step, Steps, InSync}
use libc6_shim.Locale.StepLaws.{Steps-InSync}

abbrev freebsd_locale : LocaleNumbers
freebsd_locale = record {
  lc_all_mask = 63;
  lc_global_locale = 0xffff;
  ctype_b = 100;
  ctype_tolower = 200;
  ctype_toupper = 300;
}

-- The state of the system is the locale of the thread; every new locale is number 7.
abbrev system : LocaleHost ℕ
system = record {
  newlocale = λ mask name base w. (7, w);
  duplocale = λ l w. (l, w);
  uselocale = λ l w. l;
  freelocale = λ l w. w;
}

abbrev first : LocaleState ℕ
first = record {
  memory = record { last = 0; cells = λ a. none };
  thread_locale = linux_global_locale;
  world = 0xffff;
}

abbrev after_new : LocaleState ℕ
after_new = elim (shim_newlocale freebsd_locale system 64 (codes "C") 0 first) [
  | ok r ↦ r.1
  | abort ↦ first
]

abbrev after_use : LocaleState ℕ
after_use = elim (shim_uselocale freebsd_locale system 1 after_new) [ ok r ↦ r.1 | abort ↦ first ]

used : Steps freebsd_locale system first after_use
unfolding shim_newlocale shim_uselocale use_native base_locale str_eq
used =
    Steps.then_ first after_new after_use
      (Steps.then_ first first after_new (Steps.start first)
        (Step.new 64 (codes "C") 0 1 first after_new refl (_, refl, omega arith)))
      (Step.use_ 1 linux_global_locale after_new after_use refl)

Steps-InSync_example : IsFresh after_use.memory × InSync freebsd_locale (λ w. w) after_use
Steps-InSync_example =
    Steps-InSync freebsd_locale system (λ w. w)
      (record {
        uses = λ l w h. refl;
        news = λ mask name base w. refl;
        dups = λ l w. refl;
        frees = λ l w. refl;
      })
      (omega arith) first after_use used (λ a h. refl) (λ a l h. cc) (inl (refl, refl))
