-- ===== src/Rtc/Days.antt =====
-- Day numbers relative to 1970-01-01: shadps4_rtc_days_from_civil and shadps4_rtc_civil_from_days of
-- hw/i386/shadps4-hle.c. A year and a day number are int64_t; the months, days and the numbers within
-- an era are unsigned, and never wrap on a date that exists.
pub mod Eras
pub mod Months
pub mod Inverse
pub mod Calendar
use qemu_dll_shadps.Base.{
  ℕ, ◌+◌, ◌-◌, ◌*◌, ◌/◌, ℤ, pos, negsuc, pos_part, ltb, leb, ltb_ℤ, ◌+ℤ◌, ◌-ℤ◌, ◌*ℤ◌, quot,
  if◌then◌else◌,
}

-- The year, month and day that shadps4_rtc_civil_from_days yields.
pub record Civil : Type 0 where
  pub year : ℤ
  pub month : ℕ
  pub day : ℕ

-- `(z >= 0 ? z : z - (n - 1)) / n`
unfoldable pub era_of : ℤ → ℕ → ℤ
era_of z n = quot (if ltb_ℤ z (pos 0) then z -ℤ pos (n - 1) else z) n

-- `pos_part` is the cast of a year within its era, which is not negative.
unfoldable pub days_from_civil : ℤ → ℕ → ℕ → ℤ
days_from_civil year month day =
    let y : ℤ = year -ℤ pos (if leb month 2 then 1 else 0) in
    let era : ℤ = era_of y 400 in
    let year_of_era : ℕ = pos_part (y -ℤ era *ℤ 400) in
    let day_of_year : ℕ =
      (153 * (if ltb 2 month then month - 3 else month + 9) + 2) / 5 + day - 1 in
    let day_of_era : ℕ = year_of_era * 365 + year_of_era / 4 - year_of_era / 100 + day_of_year in
    era *ℤ 146097 +ℤ pos day_of_era -ℤ pos 719468

unfoldable pub civil_from_days : ℤ → Civil
civil_from_days days =
    let shifted : ℤ = days +ℤ pos 719468 in
    let era : ℤ = era_of shifted 146097 in
    let day_of_era : ℕ = pos_part (shifted -ℤ era *ℤ 146097) in
    let year_of_era : ℕ =
      (day_of_era - day_of_era / 1460 + day_of_era / 36524 - day_of_era / 146096) / 365 in
    let year : ℤ = pos year_of_era +ℤ era *ℤ 400 in
    let day_of_year : ℕ = day_of_era - (365 * year_of_era + year_of_era / 4 - year_of_era / 100) in
    let month_prime : ℕ = (5 * day_of_year + 2) / 153 in
    let day : ℕ = day_of_year - (153 * month_prime + 2) / 5 + 1 in
    let month : ℕ = if ltb month_prime 10 then month_prime + 3 else month_prime - 9 in
    record { year = year +ℤ pos (if leb month 2 then 1 else 0); month = month; day = day }
