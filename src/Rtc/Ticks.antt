-- ===== src/Rtc/Ticks.antt =====
-- Ticks of a microsecond since 0001-01-01: shadps4_rtc_date_to_tick and shadps4_rtc_tick_to_date of
-- hw/i386/shadps4-hle.c.
pub mod Inverse
use qemu_dll_shadps.Base.{
  ℕ, ◌+◌, ◌*◌, ◌/◌, ◌%◌, ◌^◌, pos, ltb, ◌+ℤ◌, ◌-ℤ◌, bits64, if◌then◌else◌, Result, ok, err, ◌>>◌,
}
use qemu_dll_shadps.Rtc.Dates.{RtcError, invalid_value, RtcDateTime, validate}
use qemu_dll_shadps.Rtc.Days.{Civil, days_from_civil, civil_from_days}

-- SHADPS4_RTC_DAY_TICKS, SHADPS4_RTC_UNIX_EPOCH_TICKS, SHADPS4_RTC_FILETIME_EPOCH_TICKS and
-- SHADPS4_RTC_MAX_TICKS.
abbrev pub day_ticks : ℕ
day_ticks = 86400000000

abbrev pub unix_epoch_ticks : ℕ
unix_epoch_ticks = 62135596800000000

abbrev pub filetime_epoch_ticks : ℕ
filetime_epoch_ticks = 50491123200000000

abbrev pub max_ticks : ℕ
max_ticks = 315537897599999999

-- The tick of a date that is valid.
unfoldable pub ticks_of : RtcDateTime → ℕ
ticks_of date =
    let days : ℕ = bits64 (days_from_civil (pos date.year) date.month date.day +ℤ pos 719162) in
    (days * day_ticks
      + date.hour * 3600000000
      + date.minute * 60000000
      + date.second * 1000000
      + date.microsecond)
    % 2 ^ 64

unfoldable pub date_to_tick : RtcDateTime → Result RtcError ℕ
date_to_tick date = validate date >> ok (ticks_of date)

unfoldable pub date_of : ℕ → RtcDateTime
date_of tick =
    let civil : Civil = civil_from_days (pos (tick / day_ticks) -ℤ pos 719162) in
    let fraction : ℕ = tick % day_ticks in
    record {
      year = bits64 civil.year % 2 ^ 16;
      month = civil.month % 2 ^ 16;
      day = civil.day % 2 ^ 16;
      hour = fraction / 3600000000 % 2 ^ 16;
      minute = fraction % 3600000000 / 60000000 % 2 ^ 16;
      second = fraction % 3600000000 % 60000000 / 1000000 % 2 ^ 16;
      microsecond = fraction % 3600000000 % 60000000 % 1000000;
    }

unfoldable pub tick_to_date : ℕ → Result RtcError RtcDateTime
tick_to_date tick = if ltb max_ticks tick then err invalid_value else ok (date_of tick)
