-- ===== src/Rtc/Services.antt =====
-- The RTC services of hw/i386/shadps4-hle.c that convert between dates, ticks and other clocks'
-- counts. `a0`, `a1`, `a2` are the registers of the call.
pub mod Counts
pub mod Composed
use qemu_dll_shadps.Base.{
  ℕ, ◌+◌, ◌-◌, ◌*◌, ◌/◌, ◌%◌, ◌^◌, Bool, ◌||◌, none, some, ltb, leb, ◌==◌, if◌then◌else◌, le_bytes,
  ℤ, pos, pos_part, signed64, ltb_ℤ, ◌+ℤ◌, ◌-ℤ◌, ◌*ℤ◌, quot, Result, ok, err,
}
use qemu_dll_shadps.Gpu.Guest.{GuestMemory}
use qemu_dll_shadps.Rtc.Dates.{
  RtcError, invalid_pointer, invalid_value, invalid_year, invalid_month, error_code, RtcDateTime,
  is_leap, days_in_month, validate,
}
use qemu_dll_shadps.Rtc.Days.{days_from_civil}
use qemu_dll_shadps.Rtc.Ticks.{
  unix_epoch_ticks, filetime_epoch_ticks, max_ticks, date_to_tick, tick_to_date,
}
use qemu_dll_shadps.Rtc.Memory.{
  read_date, write_date, read_tick, write_tick, user_write, Reply, answer, reading, given,
  unless_null, unless,
}

abbrev pub result_code : Result RtcError (Unit {0}) → ℕ
result_code (ok _) = 0
result_code (err e) = error_code e

-- `(days + 4) % 7`, and 7 more where that is negative.
unfoldable pub weekday : ℤ → ℕ
weekday days =
    let shifted : ℤ = days +ℤ pos 4 in
    let rest : ℤ = shifted -ℤ quot shifted 7 *ℤ 7 in
    pos_part (if ltb_ℤ rest (pos 0) then rest +ℤ pos 7 else rest)

abbrev not_a_year : ℕ → Bool
not_a_year a = ltb_ℤ (signed64 a) (pos 1) || ltb_ℤ (pos 9999) (signed64 a)

-- SHADPS4_HLE_RTC_GET_DAY_OF_WEEK
unfoldable pub get_day_of_week : ℕ → ℕ → ℕ → ℕ
get_day_of_week a0 a1 a2 =
    let date : RtcDateTime = record {
      year = a0 % 2 ^ 16;
      month = a1 % 2 ^ 16;
      day = a2 % 2 ^ 16;
      hour = 0;
      minute = 0;
      second = 0;
      microsecond = 0;
    } in
    if not_a_year a0 then error_code invalid_year else elim (validate date) [
      | err e ↦ error_code e
      | ok _ ↦ weekday (days_from_civil (pos date.year) date.month date.day)
    ]

-- SHADPS4_HLE_RTC_GET_DAYS_IN_MONTH
unfoldable pub get_days_in_month : ℕ → ℕ → ℕ
get_days_in_month a0 a1 =
    if not_a_year a0
    then error_code invalid_year
    else if ltb_ℤ (signed64 a1) (pos 1) || ltb_ℤ (pos 12) (signed64 a1)
    then error_code invalid_month
    else days_in_month a0 a1

-- SHADPS4_HLE_RTC_IS_LEAP_YEAR
unfoldable pub is_leap_year : ℕ → ℕ
is_leap_year a0 = if not_a_year a0 then error_code invalid_year else if is_leap a0 then 1 else 0

-- The date of a DOS time: SHADPS4_HLE_RTC_SET_DOS_TIME.
unfoldable pub from_dos_time : ℕ → RtcDateTime
from_dos_time a1 = record {
  year = a1 / 2 ^ 25 % 2 ^ 7 + 1980;
  month = a1 / 2 ^ 21 % 2 ^ 4;
  day = a1 / 2 ^ 16 % 2 ^ 5;
  hour = a1 / 2 ^ 11 % 2 ^ 5;
  minute = a1 / 2 ^ 5 % 2 ^ 6;
  second = a1 % 2 ^ 5 * 2;
  microsecond = 0;
}

-- The DOS time of a valid date: SHADPS4_HLE_RTC_GET_DOS_TIME. Each field is below the next one's
-- lowest bit, so the bitwise or is a sum.
unfoldable pub to_dos_time : RtcDateTime → ℕ
to_dos_time date =
    (date.second / 2
      + date.minute * 2 ^ 5
      + date.hour * 2 ^ 11
      + date.day * 2 ^ 16
      + date.month * 2 ^ 21
      + (date.year - 1980) * 2 ^ 25)
    % 2 ^ 32

-- The counts that SHADPS4_HLE_RTC_GET_TIME_T and SHADPS4_HLE_RTC_GET_FILETIME store.
unfoldable pub to_time_t : ℕ → ℕ
to_time_t tick = (if ltb tick unix_epoch_ticks then 0 else tick - unix_epoch_ticks) / 1000000

unfoldable pub to_filetime : ℕ → ℕ
to_filetime tick =
    if ltb tick filetime_epoch_ticks then 0 else (tick - filetime_epoch_ticks) * 10 % 2 ^ 64

-- The ticks that SHADPS4_HLE_RTC_SET_TIME_T and SHADPS4_HLE_RTC_SET_FILETIME convert.
abbrev pub from_time_t : ℕ → ℕ
from_time_t a1 = a1 * 1000000 + unix_epoch_ticks

abbrev pub from_filetime : ℕ → ℕ
from_filetime a1 = a1 / 10 + filetime_epoch_ticks

module _ {M : Type 0} (guest : GuestMemory M) where
  -- SHADPS4_HLE_RTC_CHECK_VALID
  unfoldable pub check_valid : M → ℕ → Reply M
  check_valid m a0 =
      reading (read_date guest m a0) m
        λ date. record { value = result_code (validate date); memory = m }

  -- SHADPS4_HLE_RTC_COMPARE_TICK
  unfoldable pub compare_tick : M → ℕ → ℕ → Reply M
  compare_tick m a0 a1 = reading (read_tick guest m a0) m λ left.
      reading (read_tick guest m a1) m
        λ right. record { value = if leb left right then 1 else 0; memory = m }

  -- SHADPS4_HLE_RTC_COPY_TICK
  unfoldable pub copy_tick : M → ℕ → ℕ → Reply M
  copy_tick m a0 a1 =
      reading (read_tick guest m a0) m
        λ tick. unless_null a1 m (answer (write_tick guest m a1 tick))

  -- SHADPS4_HLE_RTC_GET_DOS_TIME
  unfoldable pub get_dos_time : M → ℕ → ℕ → Reply M
  get_dos_time m a0 a1 = reading (read_date guest m a0) m λ date. unless_null a1 m (
      given (validate date) m λ _.
        unless (ltb date.year 1980 || ltb 2107 date.year) invalid_year m
          (answer (user_write guest m a1 (le_bytes 4 (to_dos_time date)))))

  -- A service that reads a date at `a0` and stores at `a1` what is made of its tick.
  abbrev pub with_tick : M → ℕ → ℕ → (ℕ → Bool × M) → Reply M
  with_tick m a0 a1 store =
      reading (read_date guest m a0) m
        λ date. unless_null a1 m (given (date_to_tick date) m λ tick. answer (store tick))

  -- SHADPS4_HLE_RTC_GET_TICK
  unfoldable pub get_tick : M → ℕ → ℕ → Reply M
  get_tick m a0 a1 = with_tick m a0 a1 (write_tick guest m a1)

  -- SHADPS4_HLE_RTC_GET_TIME_T and SHADPS4_HLE_RTC_GET_FILETIME
  unfoldable pub get_time_t : M → ℕ → ℕ → Reply M
  get_time_t m a0 a1 = with_tick m a0 a1 λ tick. user_write guest m a1 (le_bytes 8 (to_time_t tick))

  unfoldable pub get_filetime : M → ℕ → ℕ → Reply M
  get_filetime m a0 a1 =
      with_tick m a0 a1 λ tick. user_write guest m a1 (le_bytes 8 (to_filetime tick))

  -- The end of the services that store the date of a tick at `a0`.
  abbrev pub store_date : M → ℕ → ℕ → Reply M
  store_date m a0 tick = given (tick_to_date tick) m λ date. answer (write_date guest m a0 date)

  -- SHADPS4_HLE_RTC_SET_DOS_TIME
  unfoldable pub set_dos_time : M → ℕ → ℕ → Reply M
  set_dos_time m a0 a1 =
      given (validate (from_dos_time a1)) m λ _. answer (write_date guest m a0 (from_dos_time a1))

  -- SHADPS4_HLE_RTC_SET_TICK
  unfoldable pub set_tick : M → ℕ → ℕ → Reply M
  set_tick m a0 a1 =
      unless_null a0 m (reading (read_tick guest m a1) m λ tick. store_date m a0 tick)

  -- SHADPS4_HLE_RTC_SET_TIME_T and SHADPS4_HLE_RTC_SET_FILETIME, whose 128-bit ticks never wrap.
  abbrev pub set_count : M → ℕ → ℕ → ℕ → Reply M
  set_count m a0 a1 tick = unless_null a0 m (
      unless (ltb_ℤ (signed64 a1) (pos 0) || ltb max_ticks tick) invalid_value m
        (store_date m a0 tick))

  unfoldable pub set_time_t : M → ℕ → ℕ → Reply M
  set_time_t m a0 a1 = set_count m a0 a1 (from_time_t a1)

  unfoldable pub set_filetime : M → ℕ → ℕ → Reply M
  set_filetime m a0 a1 = set_count m a0 a1 (from_filetime a1)
