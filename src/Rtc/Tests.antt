-- ===== src/Rtc/Tests.antt =====
-- Dates, ticks, moves and clocks, at concrete data.
mod Texts
mod Stores
use qemu_dll_shadps.Base.{
  ℕ, ◌+◌, ◌-◌, ◌*◌, ◌/◌, ◌%◌, ◌≤◌, ◌≡◌, refl, false, pos, negsuc, sub_ℕ, ◌+ℤ◌, ◌-ℤ◌, ◌*ℤ◌, quot, ok,
  err, ◌>>◌, ◌>>=◌, arith,
}
use qemu_dll_shadps.Rtc.Dates.{RtcDateTime, IsDateTime, is_leap, days_in_month, validate}
use qemu_dll_shadps.Rtc.Days.{era_of, days_from_civil, civil_from_days}
use qemu_dll_shadps.Rtc.Days.Calendar.{as_civil, nth_day, nth_day-civil_from_days}
use qemu_dll_shadps.Rtc.Ticks.{max_ticks, date_to_tick, ticks_of, tick_to_date, date_of}
use qemu_dll_shadps.Rtc.Ticks.Inverse.{tick_to_date-date_to_tick, date_to_tick-tick_to_date}
use qemu_dll_shadps.Rtc.Services.{weekday, from_dos_time, to_dos_time}
use qemu_dll_shadps.Rtc.Services.Counts.{weekday-days_from_civil, from_dos_time-to_dos_time}
use qemu_dll_shadps.Rtc.Shift.{add_ticks, shift_months, shift_years, moved_tick}
use qemu_dll_shadps.Rtc.Shift.Laws.{add_ticks-inverse, shift_months-shift_years}
use qemu_dll_shadps.Rtc.Shift.Moves.{TickMoves, moved_tick-shift}
use qemu_dll_shadps.Rtc.Clocks.{Rtc, reset_rtc, network, user, now, set_clock, set_conf}
use qemu_dll_shadps.Rtc.Clocks.Laws.{
  Others, none_more, sets, configures, reset_rtc-IsRtc, now-set_clock,
}

-- The last microsecond of a leap day.
abbrev leap_day : RtcDateTime
leap_day = record {
  year = 2024;
  month = 2;
  day = 29;
  hour = 23;
  minute = 59;
  second = 59;
  microsecond = 999999;
}

leap_day-IsDateTime : IsDateTime leap_day
unfolding days_in_month is_leap
leap_day-IsDateTime = ground arith

abbrev leap_tick : ℕ
leap_tick = 63844847999999999

leap_tick_is : date_to_tick leap_day ≡ ok leap_tick
unfolding date_to_tick ticks_of validate days_in_month is_leap days_from_civil era_of quot ◌+ℤ◌ ◌-ℤ◌
    ◌*ℤ◌
leap_tick_is = refl

tick_to_date-date_to_tick_example :
    (tick : ℕ) × (date_to_tick leap_day ≡ ok tick)
    × (tick ≤ max_ticks)
    × (tick_to_date tick ≡ ok leap_day)
tick_to_date-date_to_tick_example = tick_to_date-date_to_tick leap_day leap_day-IsDateTime

date_to_tick-tick_to_date_example :
    (date : RtcDateTime) × (tick_to_date max_ticks ≡ ok date)
    × IsDateTime date
    × (date_to_tick date ≡ ok max_ticks)
date_to_tick-tick_to_date_example = date_to_tick-tick_to_date max_ticks (omega arith)

nth_day-civil_from_days_example :
    (civil_from_days (sub_ℕ 1154 719162) ≡ as_civil (nth_day 1154))
    × (days_from_civil (pos (nth_day 1154).year) (nth_day 1154).month (nth_day 1154).day
        ≡ sub_ℕ 1154 719162)
nth_day-civil_from_days_example = nth_day-civil_from_days 1154

weekday-days_from_civil_example :
    weekday (days_from_civil (pos (nth_day 5).year) (nth_day 5).month (nth_day 5).day) ≡ 6 % 7
weekday-days_from_civil_example = weekday-days_from_civil 5

from_dos_time-to_dos_time_example :
    from_dos_time (to_dos_time leap_day) ≡ record leap_day { second = 58; microsecond = 0 }
from_dos_time-to_dos_time_example =
    from_dos_time-to_dos_time leap_day leap_day-IsDateTime (omega arith, omega arith)

added : add_ticks leap_tick (negsuc 3) 86400000000 ≡ ok 63844502399999999
unfolding add_ticks ◌+ℤ◌ ◌*ℤ◌
added = refl

add_ticks-inverse_example :
    add_ticks 63844502399999999 (pos 0 -ℤ negsuc 3) 86400000000 ≡ ok leap_tick
add_ticks-inverse_example = add_ticks-inverse leap_tick 86400000000 (negsuc 3) (omega arith) added

shift_months-shift_years_example :
    shift_months leap_day (negsuc 0 *ℤ 12) ≡ shift_years leap_day (negsuc 0)
shift_months-shift_years_example = shift_months-shift_years leap_day (negsuc 0) leap_day-IsDateTime

moved_tick-shift_example :
    TickMoves (pos 12) leap_tick (moved_tick (λ date. shift_months date (pos 12)) leap_tick)
    × TickMoves (pos 12 *ℤ 12) leap_tick (moved_tick (λ date. shift_years date (pos 12)) leap_tick)
moved_tick-shift_example = moved_tick-shift leap_tick (pos 12) (omega arith)

-- A clock is set, then another one and the configuration; a second goes by.
abbrev later : Rtc
later = set_conf 3 4 (set_clock 1500000 (set_clock 1000000 reset_rtc network leap_tick) user 7)

other_calls : Others network (set_clock 1000000 reset_rtc network leap_tick) later
other_calls = sets 1500000 7 user (omega arith) (configures 3 4 (none_more later))

now-set_clock_example :
    now 1001000000 later network ≡ leap_tick + (1001000000 / 1000 - 1000000 / 1000)
now-set_clock_example =
    now-set_clock 1000000 1001000000 reset_rtc later network leap_tick reset_rtc-IsRtc (omega arith)
      (omega arith) other_calls
