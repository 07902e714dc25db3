-- ===== src/Time/Laws.antt =====
-- The offset that tzset finds, and the way of a clock number there and back.
use libc6_shim.Prelude.{
  ℕ, suc, ◌+◌, ◌-◌, ◌*◌, ◌≤◌, ◌<◌, Option-cases, none, some, ap, ◌≡◌, ◌⊎◌, inl, inr, ◌∙◌, arith,
}
use libc6_shim.Time.{LocalTime, find_offset}
use libc6_shim.Time.Search.{IsMatch, Latest, find_from-Latest, find_from-exact}

-- If some June or December from 1970 on, not in the future, has the wanted kind of time, the search
-- finds the offset of a month that has it too and is at least as late: so, of the latest.
pub find_offset-Latest :
    (local : ℕ → ℕ → LocalTime) (current_year current_month is_dst year month : ℕ)
    → IsMatch local current_year current_month is_dst year month
    → Latest local current_year current_month is_dst
        (12 * year + month)
        (find_offset local current_year current_month is_dst)
unfolding find_offset
find_offset-Latest local current_year current_month is_dst year month m =
    let h : 70 ≤ current_year = omega (arith, m.probed.since, m.probed.until) in
    find_from-Latest local current_year current_month is_dst (suc current_year - 70) year month
      (omega (arith, h)) (omega (arith, h, m.probed.until)) m

-- Whatever the search finds, in a year from 1970 on, is the offset of a June or December from 1970
-- on, not in the future, that has the wanted kind of time.
pub find_offset-IsMatch :
    (local : ℕ → ℕ → LocalTime) (current_year current_month is_dst offset : ℕ)
    → 70 ≤ current_year
    → find_offset local current_year current_month is_dst ≡ some offset
    → (year : ℕ) × (month : ℕ) × IsMatch local current_year current_month is_dst year month
      × (offset ≡ (local year month).tm_gmtoff)
unfolding find_offset
find_offset-IsMatch local current_year current_month is_dst offset h e =
    let (year, month, m, o, latest) =
      find_from-exact local current_year current_month is_dst (suc current_year - 70) offset
        (omega (arith, h)) e in
    (year, month, m, o)

exact-IsMatch :
    (local : ℕ → ℕ → LocalTime) (current_year current_month is_dst offset : ℕ)
    → 70 ≤ current_year
    → find_offset local current_year current_month is_dst ≡ some offset
    → (year : ℕ) × (month : ℕ) × (find_offset local current_year current_month is_dst
        ≡ some (local year month).tm_gmtoff)
      × IsMatch local current_year current_month is_dst year month
      × (¬ (
          (y : ℕ) × (x : ℕ) × IsMatch local current_year current_month is_dst y x
          × (12 * year + month < 12 * y + x)))
unfolding find_offset
exact-IsMatch local current_year current_month is_dst offset h e =
    let (year, month, m, o, latest) =
      find_from-exact local current_year current_month is_dst (suc current_year - 70) offset
        (omega (arith, h)) e in
    (
      year,
      month,
      e ∙ ap some o,
      m,
      λ k. absurd (omega (arith, k.3, latest k.0 k.1 (omega (arith, h, k.2.probed.until)) k.2)),
    )

-- In a year from 1970 on, the search finds the offset of the latest of the Junes and Decembers from
-- 1970 on, not in the future, that have the wanted kind of time; or it finds nothing, and there is
-- no such month.
pub find_offset_lem :
    (local : ℕ → ℕ → LocalTime) (current_year current_month is_dst : ℕ)
    → 70 ≤ current_year
    → ((year : ℕ) × (month : ℕ) × (find_offset local current_year current_month is_dst
          ≡ some (local year month).tm_gmtoff)
        × IsMatch local current_year current_month is_dst year month
        × (¬ (
            (y : ℕ) × (x : ℕ) × IsMatch local current_year current_month is_dst y x
            × (12 * year + month < 12 * y + x))))
      ⊎ ((find_offset local current_year current_month is_dst ≡ none)
          × (¬ ((y : ℕ) × (x : ℕ) × IsMatch local current_year current_month is_dst y x)))
find_offset_lem local current_year current_month is_dst h =
    elim (Option-cases (find_offset local current_year current_month is_dst)) [
      | inl nothing ↦ inr (
        nothing,
        λ m.
            cc
              (nothing, (find_offset-Latest local current_year current_month is_dst m.0 m.1 m.2).4),
      )
      | inr found ↦ inl (exact-IsMatch local current_year current_month is_dst found.0 h found.1)
    ]
