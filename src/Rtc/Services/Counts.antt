-- ===== src/Rtc/Services/Counts.antt =====
-- The other clocks' counts of hw/i386/shadps4-hle.c: DOS times, time_t, FILETIME and weekdays.
use qemu_dll_shadps.Base.{
  ℕ, ◌+◌, ◌*◌, ◌/◌, ◌%◌, ◌^◌, ◌≤◌, ◌<◌, ◌≡◌, ◌∙◌, refl, ap, pos, sub_ℕ, ◌+ℤ◌, ◌-ℤ◌, ◌*ℤ◌, quot,
  arith,
}
use qemu_dll_shadps.Rtc.Dates.{RtcDateTime, IsDateTime}
use qemu_dll_shadps.Rtc.Days.{days_from_civil}
use qemu_dll_shadps.Rtc.Days.Calendar.{nth_day, nth_day-civil_from_days}
use qemu_dll_shadps.Rtc.Ticks.Inverse.{date-eq, days_in_month-le}
use qemu_dll_shadps.Rtc.Services.{
  weekday, from_dos_time, to_dos_time, to_time_t, to_filetime, from_time_t, from_filetime,
}

-- A valid date from 1980 to 2107 comes back from its DOS time with its seconds rounded down to an
-- even number and no microseconds.
pub from_dos_time-to_dos_time :
    (date : RtcDateTime)
    → IsDateTime date
    → (1980 ≤ date.year) × (date.year ≤ 2107)
    → from_dos_time (to_dos_time date)
      ≡ record date { second = date.second / 2 * 2; microsecond = 0 }
unfolding from_dos_time to_dos_time
from_dos_time-to_dos_time date h k =
    let month = h.of_day.month_in in
    let day = h.of_day.day_in in
    let le = days_in_month-le date.year date.month month in
    let hour = h.of_time.hour_in in
    let minute = h.of_time.minute_in in
    let second = h.of_time.second_in in
    date-eq (omega arith) (omega arith) (omega arith) (omega arith) (omega arith) (omega arith) refl

-- A count that was made into a tick comes back: a time_t is the same, and a FILETIME loses its
-- tenths of a microsecond.
pub counts_back :
    (count : ℕ)
    → count < 2 ^ 63
    → (to_time_t (from_time_t count) ≡ count)
      × (to_filetime (from_filetime count) ≡ count / 10 * 10)
unfolding to_time_t to_filetime
counts_back count h = ground arith

weekday-sub_ℕ : (n : ℕ) → weekday (sub_ℕ n 719162) ≡ (n + 1) % 7
unfolding weekday ◌+ℤ◌ ◌-ℤ◌ ◌*ℤ◌ quot
weekday-sub_ℕ n = ground arith

-- The weekday of the `n`-th day after Monday 0001-01-01 is `n + 1` modulo 7, where Sunday is 0.
pub weekday-days_from_civil :
    (n : ℕ)
    → weekday (days_from_civil (pos (nth_day n).year) (nth_day n).month (nth_day n).day)
      ≡ (n + 1) % 7
weekday-days_from_civil n = ap weekday (nth_day-civil_from_days n).1 ∙ weekday-sub_ℕ n
