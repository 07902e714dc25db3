-- ===== src/Time/Search.antt =====
-- The search of tzset, year by year: what a look finds, and what the search down to 1970 finds.
use libc6_shim.Prelude.{
  ℕ, zero, suc, ◌+◌, ◌*◌, ◌≤◌, ◌<◌, Option, some, ltb, ◌==◌, ◌≡◌, ◌⊎◌, inl, inr, Bool-cases,
  ==-cases, ◌&&◌, refl, sym, ◌∙◌, subst₂, arith,
}
use libc6_shim.Time.{LocalTime, probe, find_from}

-- A month that the search looks at: June or December of a year from 1970 on, not in the future.
pub record IsProbed (current_year current_month year month : ℕ) : Type 0 where
  pub since : 70 ≤ year
  pub until : year ≤ current_year
  pub solstice : (month ≡ 5) ⊎ (month ≡ 11)
  pub past : (year < current_year) ⊎ (month ≤ current_month)

-- A match of the search.
pub record IsMatch (local : ℕ → ℕ → LocalTime) (current_year current_month is_dst year month : ℕ)
    : Type 0 where
  pub probed : IsProbed current_year current_month year month
  pub same : (local year month).tm_isdst ≡ is_dst

-- A match at least as late as a given one, whose offset is the result.
abbrev pub Latest : (ℕ → ℕ → LocalTime) → ℕ → ℕ → ℕ → ℕ → Option ℕ → Type 0
Latest local current_year current_month is_dst since result =
    (year : ℕ) × (month : ℕ) × IsMatch local current_year current_month is_dst year month
    × (since ≤ 12 * year + month)
    × (result ≡ some (local year month).tm_gmtoff)

module _ (local : ℕ → ℕ → LocalTime) (current_year current_month is_dst : ℕ) where
  abbrev Matches : ℕ → ℕ → Type 0
  Matches = IsMatch local current_year current_month is_dst

  abbrev look : ℕ → ℕ → Option ℕ → Option ℕ
  look = probe local current_year current_month is_dst

  -- One look: the month matches, or the search goes on.
  probe-cases :
      (year month : ℕ) (rest : Option ℕ)
      → 70 ≤ year
      → year ≤ current_year
      → (month ≡ 5) ⊎ (month ≡ 11)
      → (Matches year month × (look year month rest ≡ some (local year month).tm_gmtoff))
        ⊎ ((¬ Matches year month) × (look year month rest ≡ rest))
  probe-cases year month rest h k m =
      elim (Bool-cases (year == current_year && ltb current_month month)) [
        | inl future ↦ inr ((λ y. ground (arith, future, y.probed.past)), rw future refl)
        | inr past ↦ elim (==-cases (local year month).tm_isdst is_dst) [
          | inl e ↦ inl (
            record {
              probed = record {
                since = h;
                until = k;
                solstice = m;
                past = ground (arith, past, k);
              };
              same = e.0;
            },
            rw (past, e.1) refl,
          )
          | inr e ↦ inr ((λ y. e.0 y.same), rw (past, e.1) refl)
        ]
      ]

  -- A match that is not the last month of a year is no later than the year's other month.
  not_eleven :
      (y year month : ℕ)
      → year ≤ y
      → Matches year month
      → ¬ Matches y 11
      → 12 * year + month ≤ 12 * y + 5
  not_eleven y year month h m missed = elim (==-cases year y) [
    | inl e ↦ elim m.probed.solstice [
      | inl five ↦ omega (arith, e.0, five)
      | inr eleven ↦ absurd (missed (subst₂ Matches e.0 eleven m))
    ]
    | inr ne ↦ omega (arith, ne.0, h, m.probed.solstice)
  ]

  -- A match in a year without one is in an earlier year.
  not_either :
      (y year month : ℕ) → year ≤ y → Matches year month → ¬ Matches y 11 → ¬ Matches y 5 → year < y
  not_either y year month h m missed missed_too = elim (==-cases year y) [
    | inl e ↦ elim m.probed.solstice [
      | inl five ↦ absurd (missed_too (subst₂ Matches e.0 five m))
      | inr eleven ↦ absurd (missed (subst₂ Matches e.0 eleven m))
    ]
    | inr ne ↦ omega (arith, ne.0, h)
  ]

  pub find_from-Latest :
      (n year month : ℕ)
      → 70 + n ≤ suc current_year
      → year < 70 + n
      → Matches year month
      → Latest local current_year current_month is_dst
          (12 * year + month)
          (find_from local current_year current_month is_dst n)
  unfolding find_from
  find_from-Latest zero year month h k m = absurd (omega (arith, k, m.probed.since))
  find_from-Latest (suc n) year month h k m =
      let rest = find_from local current_year current_month is_dst n in
      elim (probe-cases (70 + n) 11 (look (70 + n) 5 rest) (omega arith) (omega (arith, h))
        (inr refl)) [
          | inl e ↦ (70 + n, 11, e.0, omega (arith, k, m.probed.solstice), e.1)
          | inr first ↦
              elim (probe-cases (70 + n) 5 rest (omega arith) (omega (arith, h)) (inl refl)) [
                | inl e ↦ (
                  70 + n,
                  5,
                  e.0,
                  not_eleven (70 + n) year month (omega (arith, k)) m first.0,
                  first.1 ∙ e.1,
                )
                | inr second ↦
                    let (y, x, found, later, result) =
                      find_from-Latest n year month (omega (arith, h))
                        (not_either (70 + n) year month (omega (arith, k)) m first.0 second.0) m in
                    (y, x, found, later, first.1 ∙ (second.1 ∙ result))
              ]
        ]

  -- The result is the offset of a match, and no match is later.
  abbrev pub NoneLater : ℕ → ℕ → ℕ → Type 0
  NoneLater bound year month = (y x : ℕ) → y < bound → Matches y x → 12 * y + x ≤ 12 * year + month

  pub find_from-exact :
      (n offset : ℕ)
      → 70 + n ≤ suc current_year
      → find_from local current_year current_month is_dst n ≡ some offset
      → (year : ℕ) × (month : ℕ) × Matches year month
        × (offset ≡ (local year month).tm_gmtoff)
        × NoneLater (70 + n) year month
  unfolding find_from
  find_from-exact zero offset h e = cc
  find_from-exact (suc n) offset h e =
      let rest = find_from local current_year current_month is_dst n in
      elim (probe-cases (70 + n) 11 (look (70 + n) 5 rest) (omega arith) (omega (arith, h))
        (inr refl)) [
          | inl f ↦ (70 + n, 11, f.0, cc (e, f.1), λ y x lt m. omega (arith, lt, m.probed.solstice))
          | inr first ↦
              elim (probe-cases (70 + n) 5 rest (omega arith) (omega (arith, h)) (inl refl)) [
                | inl f ↦ (
                  70 + n,
                  5,
                  f.0,
                  cc (e, first.1, f.1),
                  λ y x lt m. not_eleven (70 + n) y x (omega (arith, lt)) m first.0,
                )
                | inr second ↦
                    let (year, month, m, o, latest) =
                      find_from-exact n offset (omega (arith, h))
                        (sym second.1 ∙ (sym first.1 ∙ e)) in
                    (
                      year,
                      month,
                      m,
                      o,
                      λ y x lt k.
                          latest y x
                            (not_either (70 + n) y x (omega (arith, lt)) k first.0 second.0) k,
                    )
              ]
        ]
