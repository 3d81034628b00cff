-- ===== src/Sms/Codec/Unix/Calendar.antt =====
-- The day count of a time stamp, of src/sms/codec.rs.
use smsgate.Base.{
  ℕ, ◌+◌, ◌-◌, ◌≤◌, ◌<◌, ◌≡◌, refl, inl, inr, ltb, ◌==◌, if◌then◌else◌, Bool-cases, Bool, true,
  false, holds_below, holds_below-lt, arith,
}
use smsgate.Sms.Codec.Unix.{is_leap, leaps, max_day, doy, days}

pub record Date : Type 0 where
  pub year : ℕ
  pub month : ℕ
  pub day : ℕ

-- A date of the Gregorian calendar from 1970 on.
pub record IsDate (d : Date) : Type 0 where
  pub from_1970 : 1970 ≤ d.year
  pub month_pos : 1 ≤ d.month
  pub month_le : d.month ≤ 12
  pub day_pos : 1 ≤ d.day
  pub day_le : d.day ≤ max_day (is_leap d.year) d.month

-- The day after: the next of the month, or the first of the next month or year.
unfoldable pub next_day : Date → Date
next_day d =
    if ltb d.day (max_day (is_leap d.year) d.month)
    then record d { day = d.day + 1 }
    else if ltb d.month 12
    then record d { month = d.month + 1; day = 1 }
    else record { year = d.year + 1; month = 1; day = 1 }

abbrev month_fits : Bool → ℕ → Bool
month_fits leap k = doy leap (k + 2) 1 == doy leap (k + 1) (max_day leap (k + 1)) + 1

months_fit : (leap : Bool) → holds_below 11 (month_fits leap) ≡ true
unfolding holds_below doy max_day
months_fit true = refl
months_fit false = refl

doy-suc :
    (leap : Bool) (mo : ℕ)
    → 1 ≤ mo
    → mo < 12
    → doy leap (mo + 1) 1 ≡ doy leap mo (max_day leap mo) + 1
doy-suc leap mo pos small =
    ground (arith, holds_below-lt 11 (mo - 1) (omega arith) (month_fits leap) (months_fit leap))

leaps-suc :
    (year : ℕ) → 1970 ≤ year → leaps (year + 1) ≡ leaps year + (if is_leap year then 1 else 0)
leaps-suc year h = ground arith

doy-day : (leap : Bool) (mo dd : ℕ) → 1 ≤ dd → doy leap mo (dd + 1) ≡ doy leap mo dd + 1
unfolding doy
doy-day leap mo dd pos = omega arith

new_year :
    (year : ℕ) → 1970 ≤ year → days (year + 1) 1 1 ≡ days year 12 (max_day (is_leap year) 12) + 1
unfolding days doy max_day
new_year year h = elim (Bool-cases (is_leap year)) [
  | inl e ↦
      let s : leaps (year + 1) ≡ leaps year + 1 = rw e at (leaps-suc year h) in
      rw e (omega (arith, s))
  | inr e ↦
      let s : leaps (year + 1) ≡ leaps year + 0 = rw e at (leaps-suc year h) in
      rw e (omega (arith, s))
]

-- The day count of a date's next day is one more, for each date from 1970 on: within a month, from a
-- month to the next, and from a year to the next, leap years included.
pub days-next_day :
    (d : Date)
    → IsDate d
    → days (next_day d).year (next_day d).month (next_day d).day ≡ days d.year d.month d.day + 1
unfolding days next_day
days-next_day d v = elim (Bool-cases (ltb d.day (max_day (is_leap d.year) d.month))) [
  | inl e ↦ rw (e, next_day) (omega (arith, doy-day (is_leap d.year) d.month d.day v.day_pos))
  | inr e ↦
      let last : d.day ≡ max_day (is_leap d.year) d.month = ground (arith, v.day_le) in
      elim (Bool-cases (ltb d.month 12)) [
        | inl m ↦
            rw (e, m, next_day, last)
              (omega (arith, doy-suc (is_leap d.year) d.month v.month_pos (ground arith)))
        | inr m ↦
            let december : d.month ≡ 12 = ground (arith, v.month_le) in
            rw (e, m, next_day, last, december) (new_year d.year v.from_1970)
      ]
]
