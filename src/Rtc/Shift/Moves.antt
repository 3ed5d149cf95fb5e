-- ===== src/Rtc/Shift/Moves.antt =====
-- The services of hw/i386/shadps4-hle.c that add months or years to a tick keep to the calendar.
use qemu_dll_shadps.Base.{
  ℕ, ◌+◌, ◌-◌, ◌*◌, ◌/◌, ◌%◌, ◌≤◌, ◌≡◌, inl, inr, refl, ◌∙◌, subst, ◌⊎◌, min, zero, suc, true,
  false, ◌||◌, ltb, if◌then◌else◌, Bool-cases, ℤ, pos, negsuc, pos_part, ltb_ℤ, ◌+ℤ◌, ◌-ℤ◌, ◌*ℤ◌,
  quot, Result, ok, err, ◌>>=◌, arith,
}
use qemu_dll_shadps.Rtc.Dates.{
  RtcError, invalid_year, RtcDateTime, IsDay, IsTime, IsDateTime, days_in_month,
}
use qemu_dll_shadps.Rtc.Days.{era_of}
use qemu_dll_shadps.Rtc.Days.Months.{each_month}
use qemu_dll_shadps.Rtc.Ticks.{date_to_tick, tick_to_date, max_ticks}
use qemu_dll_shadps.Rtc.Ticks.Inverse.{tick_to_date-date_to_tick, date_to_tick-tick_to_date}
use qemu_dll_shadps.Rtc.Shift.Laws.{shift_months-shift_years}
use qemu_dll_shadps.Rtc.Shift.{move_date, shift_months, shift_years, moved_tick}

days_in_month_some : (year month : ℕ) → (1 ≤ month) × (month ≤ 12) → 28 ≤ days_in_month year month
unfolding days_in_month
days_in_month_some year =
    each_month (λ month. 28 ≤ days_in_month year month) (ground arith) (ground arith) (ground arith)
      (ground arith) (ground arith) (ground arith) (ground arith) (ground arith) (ground arith)
      (ground arith) (ground arith) (ground arith)

-- What moving a date to a month comes to, the months being counted from the year 0 on: a date in that
-- month, on the same day or else the last of the month, at the same time; or no year of the calendar
-- has that month.
pub data IsMove (date : RtcDateTime) (target : ℤ) : Result RtcError RtcDateTime → Type 0 where
  to_date :
      (moved : RtcDateTime)
      → IsDateTime moved
      → (pos (moved.year * 12 + moved.month) ≡ target)
        × (moved.day ≡ min date.day (days_in_month moved.year moved.month))
        × (moved.hour ≡ date.hour)
        × (moved.minute ≡ date.minute)
        × (moved.second ≡ date.second)
        × (moved.microsecond ≡ date.microsecond)
      → IsMove date target (ok moved)
  no_year :
      (ltb_ℤ target (pos (1 * 12 + 1)) ≡ true) ⊎ (ltb_ℤ (pos (9999 * 12 + 12)) target ≡ true)
      → IsMove date target (err invalid_year)

month_outside :
    (year : ℤ) (month : ℕ)
    → (1 ≤ month) × (month ≤ 12)
    → (ltb_ℤ year (pos 1) || ltb_ℤ (pos 9999) year) ≡ true
    → (ltb_ℤ (year *ℤ 12 +ℤ pos month) (pos (1 * 12 + 1)) ≡ true)
      ⊎ (ltb_ℤ (pos (9999 * 12 + 12)) (year *ℤ 12 +ℤ pos month) ≡ true)
unfolding ◌+ℤ◌ ◌*ℤ◌
month_outside (pos zero) month k h = inl (ground arith)
month_outside (pos (suc n)) month k h = inr (ground arith)
month_outside (negsuc n) month k h = inl (ground arith)

month_within :
    (year : ℤ) (month : ℕ)
    → (ltb_ℤ year (pos 1) || ltb_ℤ (pos 9999) year) ≡ false
    → pos (pos_part year * 12 + month) ≡ year *ℤ 12 +ℤ pos month
unfolding ◌+ℤ◌ ◌*ℤ◌
month_within (pos n) month h = ground arith
month_within (negsuc n) month h = ground arith

move_date-IsMove :
    (date : RtcDateTime) (year : ℤ) (month : ℕ)
    → IsDateTime date
    → (1 ≤ month) × (month ≤ 12)
    → IsMove date (year *ℤ 12 +ℤ pos month) (move_date date year (pos month))
unfolding move_date
move_date-IsMove date year month h k =
    elim (Bool-cases (ltb_ℤ year (pos 1) || ltb_ℤ (pos 9999) year)) [
      | inl outside ↦ rw outside (no_year (month_outside year month k outside))
      | inr within ↦
          let some_day = days_in_month_some (pos_part year) month k in
          let last = days_in_month (pos_part year) month in
          let day : IsDay (record date {
            year = pos_part year;
            month = month;
            day = if ltb last date.day then last else date.day;
          }) =
            record { year_in = ground arith; month_in = k; day_in = ground arith } in
          rw within (
            to_date _ (record { of_day = day; of_time = same_time date _ _ _ h.of_time })
              (month_within year month within, ground arith, refl, refl, refl, refl))
    ]
  where
    same_time :
        (date : RtcDateTime) (y m d : ℕ)
        → IsTime date
        → IsTime (record date { year = y; month = m; day = d })
    same_time date y m d t = record {
      hour_in = t.hour_in;
      minute_in = t.minute_in;
      second_in = t.second_in;
      microsecond_in = t.microsecond_in;
    }

month_of_total :
    (total : ℤ)
    → (month : ℕ) × (total -ℤ era_of total 12 *ℤ 12 +ℤ pos 1 ≡ pos month)
      × (1 ≤ month)
      × (month ≤ 12)
      × (era_of total 12 *ℤ 12 +ℤ pos month ≡ total +ℤ pos 1)
unfolding era_of ◌+ℤ◌ ◌-ℤ◌ ◌*ℤ◌ quot
month_of_total (pos n) = (n % 12 + 1, ground arith, omega arith, omega arith, ground arith)
month_of_total (negsuc n) =
    ((n + 12) / 12 * 12 - n, ground arith, omega arith, omega arith, ground arith)

from_next : (n : ℕ) (amount : ℤ) → 1 ≤ n → pos (n - 1) +ℤ amount +ℤ pos 1 ≡ pos n +ℤ amount
unfolding ◌+ℤ◌
from_next n (pos a) h = ground arith
from_next n (negsuc a) h = ground arith

-- The month that is `amount` months after the date's.
abbrev pub months_on : RtcDateTime → ℤ → ℤ
months_on date amount = pos (date.year * 12 + date.month) +ℤ amount

shift_months-IsMove :
    (amount : ℤ) (date : RtcDateTime)
    → IsDateTime date
    → IsMove date (months_on date amount) (shift_months date amount)
unfolding shift_months
shift_months-IsMove amount date h =
    let total : ℤ = pos (date.year * 12 + date.month - 1) +ℤ amount in
    let (month, e, lo, hi, back) = month_of_total total in
    let lo' = h.of_day.month_in.0 in
    let there = back ∙ from_next (date.year * 12 + date.month) amount (omega arith) in
    rw e (
      subst (λ t. IsMove date t (move_date date (era_of total 12) (pos month))) there
        (move_date-IsMove date (era_of total 12) month h (lo, hi)))

shift_years-IsMove :
    (amount : ℤ) (date : RtcDateTime)
    → IsDateTime date
    → IsMove date (months_on date (amount *ℤ 12)) (shift_years date amount)
shift_years-IsMove amount date h =
    subst (IsMove date (months_on date (amount *ℤ 12))) (shift_months-shift_years date amount h)
      (shift_months-IsMove (amount *ℤ 12) date h)

-- What moving a tick by `amount` months comes to, in terms of the dates: the tick's date moved by as
-- many months, whose tick is the result, or there is no such year.
pub data TickMoves (amount : ℤ) (tick : ℕ) : Result RtcError ℕ → Type 0 where
  moves_to :
      (date moved : RtcDateTime) (result : ℕ)
      → tick_to_date tick ≡ ok date
      → IsMove date (months_on date amount) (ok moved)
      → result ≤ max_ticks
      → tick_to_date result ≡ ok moved
      → TickMoves amount tick (ok result)
  leaves :
      (date : RtcDateTime)
      → tick_to_date tick ≡ ok date
      → IsMove date (months_on date amount) (err invalid_year)
      → TickMoves amount tick (err invalid_year)

moved_tick-TickMoves :
    (move : RtcDateTime → Result RtcError RtcDateTime) (amount : ℤ) (tick : ℕ)
    → ((date : RtcDateTime) → IsDateTime date → IsMove date (months_on date amount) (move date))
    → tick ≤ max_ticks
    → TickMoves amount tick (moved_tick move tick)
unfolding moved_tick
moved_tick-TickMoves move amount tick keeps h =
    let (date, found, valid, _) = date_to_tick-tick_to_date tick h in
    rw found (after date found (move date) (keeps date valid))
  where
    after :
        (date : RtcDateTime)
        → tick_to_date tick ≡ ok date
        → (r : Result RtcError RtcDateTime) → IsMove date (months_on date amount) r
        → TickMoves amount tick (r >>= λ moved. date_to_tick moved)
    after date found (ok moved) (to_date _ valid same) =
        let (result, stored, below, back) = tick_to_date-date_to_tick moved valid in
        rw stored (moves_to date moved result found (to_date moved valid same) below back)
    after date found (err x) (no_year out) = leaves date found (no_year out)

-- Adding months to a tick up to the last one, or years as twelve months each, gives the tick of a
-- valid date: the one in the month so many months after that of the tick's date, on the same day of
-- the month or else on that month's last, at the same time of the day. It fails only, with "invalid
-- year", where that month is before January of the year 1 or after December of 9999.
pub moved_tick-shift :
    (tick : ℕ) (amount : ℤ)
    → tick ≤ max_ticks
    → TickMoves amount tick (moved_tick (λ date. shift_months date amount) tick)
      × TickMoves (amount *ℤ 12) tick (moved_tick (λ date. shift_years date amount) tick)
moved_tick-shift tick amount h = (
  moved_tick-TickMoves (λ date. shift_months date amount) amount tick (shift_months-IsMove amount)
      h,
  moved_tick-TickMoves (λ date. shift_years date amount) (amount *ℤ 12) tick
      (shift_years-IsMove amount) h,
)
