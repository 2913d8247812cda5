-- ===== src/Sip/PcmWriter/Civil.antt =====
-- `civil_from_days` of mmdvm_sip/src/pcm_writer.rs against the calendar: each day's date is the one
-- that follows the date of the day before.
pub mod Steps
pub mod Next
use wjmmmdvm.Base.{
  ℕ, suc, ◌+◌, ◌-◌, ◌*◌, ◌/◌, ◌%◌, Bool, true, false, not, ◌&&◌, ◌||◌, if◌then◌else◌, ltb, leb,
  ◌==◌, ◌≡◌, refl,
}
use wjmmmdvm.Sip.PcmWriter.{civil_from_days, Date}

-- The Gregorian calendar.
abbrev pub is_leap : ℕ → Bool
is_leap y = (y % 4 == 0) && (not (y % 100 == 0) || (y % 400 == 0))

abbrev pub month_length : Bool → ℕ → ℕ
month_length leap m =
    if m == 2
    then (if leap then 29 else 28)
    else if (m == 4) || ((m == 6) || ((m == 9) || (m == 11)))
    then 30
    else 31

abbrev pub date : ℕ → ℕ → ℕ → Date
date y m d = record { year = y; month = m; day = d }

unfoldable pub next_date : Date → Date
next_date d =
    if ltb d.day (month_length (is_leap d.year) d.month)
    then date d.year d.month (d.day + 1)
    else if ltb d.month 12
    then date d.year (d.month + 1) 1
    else date (d.year + 1) 1 1

-- The parts of the algorithm.
abbrev pub yoe_of : ℕ → ℕ
yoe_of doe = (doe - doe / 1460 + doe / 36524 - doe / 146096) / 365

abbrev pub doy_of : ℕ → ℕ
doy_of doe = doe - (365 * yoe_of doe + yoe_of doe / 4 - yoe_of doe / 100)

unfoldable pub month_of : ℕ → ℕ
month_of doy = let mp = (5 * doy + 2) / 153 in if ltb mp 10 then mp + 3 else mp - 9

unfoldable pub day_of : ℕ → ℕ
day_of doy = doy - (153 * ((5 * doy + 2) / 153) + 2) / 5 + 1

unfoldable pub carry_of : ℕ → ℕ
unfolding month_of
carry_of doy = if leb (month_of doy) 2 then 1 else 0

abbrev pub date_of : ℕ → ℕ → ℕ → Date
date_of era y doy = date (y + era * 400 + carry_of doy) (month_of doy) (day_of doy)

pub civil_form :
    (days : ℕ)
    → let z = days + 719468 in
      let doe = z - z / 146097 * 146097 in
      civil_from_days days ≡ date_of (z / 146097) (yoe_of doe) (doy_of doe)
unfolding civil_from_days month_of day_of carry_of
civil_form days = refl
