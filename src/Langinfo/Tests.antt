-- ===== src/Langinfo/Tests.antt =====
-- nl_langinfo with FreeBSD's items.
use libc6_shim.Prelude.{◌≡◌, refl, [], ◌∷◌}
use libc6_shim.Outcome.{ok}
use libc6_shim.Switch.{select, DistinctTargets}
use libc6_shim.Langinfo.{NlItems, nl_item_cases, linux_to_native_nl_item, shim_nl_langinfo}
use libc6_shim.Langinfo.Laws.{distinct, DistinctTargets-of_test}

abbrev freebsd : NlItems
freebsd = record {
  codeset = 0;
  d_t_fmt = 1;
  d_fmt = 2;
  t_fmt = 3;
  t_fmt_ampm = 4;
  am_str = 5;
  pm_str = 6;
  day_1 = 7;
  day_2 = 8;
  day_3 = 9;
  day_4 = 10;
  day_5 = 11;
  day_6 = 12;
  day_7 = 13;
  abday_1 = 14;
  abday_2 = 15;
  abday_3 = 16;
  abday_4 = 17;
  abday_5 = 18;
  abday_6 = 19;
  abday_7 = 20;
  mon_1 = 21;
  mon_2 = 22;
  mon_3 = 23;
  mon_4 = 24;
  mon_5 = 25;
  mon_6 = 26;
  mon_7 = 27;
  mon_8 = 28;
  mon_9 = 29;
  mon_10 = 30;
  mon_11 = 31;
  mon_12 = 32;
  abmon_1 = 33;
  abmon_2 = 34;
  abmon_3 = 35;
  abmon_4 = 36;
  abmon_5 = 37;
  abmon_6 = 38;
  abmon_7 = 39;
  abmon_8 = 40;
  abmon_9 = 41;
  abmon_10 = 42;
  abmon_11 = 43;
  abmon_12 = 44;
  era = 45;
  era_d_fmt = 46;
  era_d_t_fmt = 47;
  era_t_fmt = 48;
  alt_digits = 49;
  radixchar = 50;
  thousep = 51;
  yesexpr = 52;
  noexpr = 53;
  crncystr = 56;
}

freebsd-DistinctTargets : DistinctTargets (nl_item_cases freebsd)
unfolding distinct
freebsd-DistinctTargets = DistinctTargets-of_test (nl_item_cases freebsd) refl

radix : shim_nl_langinfo freebsd (λ item. item ∷ []) 0x10000 ≡ ok (50 ∷ [])
unfolding shim_nl_langinfo linux_to_native_nl_item select
radix = refl
