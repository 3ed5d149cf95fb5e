-- ===== src/Rtc/Days/Inverse.antt =====
-- The two conversions of hw/i386/shadps4-hle.c between days and dates undo each other.
use qemu_dll_shadps.Base.{
  ℕ, ◌+◌, ◌-◌, ◌*◌, ◌/◌, ◌%◌, ◌≤◌, ◌≡◌, ◌∙◌, refl, pos, ltb, leb, if◌then◌else◌, arith,
}
use qemu_dll_shadps.Rtc.Dates.{is_leap}
use qemu_dll_shadps.Rtc.Days.Eras.{
  days_before, month_start, march_year, day_number, month_of, civil_of, civil_of-parts, Civil-eq,
  era_year, IsMarchDay, era_year_lem, era_day,
}
use qemu_dll_shadps.Rtc.Days.Months.{IsMonthDay, month_facts, march_facts}

day_number_back :
    (month y doy n start : ℕ)
    → month_start month ≡ start
    → month_start month ≤ doy
    → n ≡ days_before y + doy
    → day_number (y + (if leb month 2 then 1 else 0)) month (doy - start + 1) ≡ n
unfolding day_number
day_number_back month y doy n start s l e =
    let back : march_year (y + (if leb month 2 then 1 else 0)) month ≡ y = ground arith in
    rw back (omega arith)

-- The date of the day `n`: a day of its month, whose number is `n`.
pub record IsDateOf (n : ℕ) : Type 0 where
  pub year : ℕ
  pub month : ℕ
  pub day : ℕ
  pub finds : civil_of n ≡ record { year = pos year; month = month; day = day }
  pub month_day : IsMonthDay year month day
  pub begun : (if leb month 2 then 1 else 0) ≤ year
  pub number : day_number year month day ≡ n

pub civil_of-IsDateOf : (n : ℕ) → IsDateOf n
unfolding day_number days_before
civil_of-IsDateOf n =
    let (yoe, doy, yoe_in, of_march, within) = era_day (n % 146097) (omega arith) in
    let mp = (5 * doy + 2) / 153 in
    let y = yoe + n / 146097 * 400 in
    let e = era_year_lem yoe doy (n % 146097) yoe_in of_march within in
    let same : y % 400 ≡ yoe = omega arith in
    let month_in : (1 ≤ month_of mp) × (month_of mp ≤ 12) = ground arith in
    let facts = march_facts y (month_of mp) month_in doy (rw same of_march) refl in
    record {
      year = y + (if leb (month_of mp) 2 then 1 else 0);
      month = month_of mp;
      day = doy - (153 * mp + 2) / 5 + 1;
      finds = civil_of-parts n yoe doy mp e within refl;
      month_day = (month_in, (facts.0, facts.1));
      begun = omega arith;
      number = day_number_back (month_of mp) y doy n _ facts.2 facts.3 (omega arith);
    }

-- The date that shadps4_rtc_civil_from_days finds on the day of a valid date is that date.
pub civil_of-day_number :
    (year month day : ℕ)
    → 1 ≤ year
    → IsMonthDay year month day
    → civil_of (day_number year month day) ≡ record { year = pos year; month = month; day = day }
unfolding day_number days_before month_start is_leap
civil_of-day_number year month day h k =
    let facts = month_facts year month k.0 day k.1.0 k.1.1 in
    let y = march_year year month in
    let doy = month_start month + day - 1 in
    let n = day_number year month day in
    let yoe = y % 400 in
    let leap_day : IsMarchDay yoe doy = ground arith in
    let within : n % 146097 ≡ 365 * yoe + yoe / 4 - yoe / 100 + doy = omega arith in
    let era : n / 146097 ≡ y / 400 = omega arith in
    let e : era_year (n % 146097) ≡ yoe =
      era_year_lem yoe doy (n % 146097) (omega arith) leap_day within in
    let mp = if ltb 2 month then month - 3 else month + 9 in
    civil_of-parts n yoe doy mp e within facts.1
    ∙ Civil-eq (ground arith) (ground arith) (ground arith)

-- Where the years from 1 to 9999 begin and end.
pub number_range :
    (year month day : ℕ)
    → (1 ≤ year) × (year ≤ 9999)
    → IsMonthDay year month day
    → (306 ≤ day_number year month day) × (day_number year month day ≤ 3652364)
unfolding day_number days_before
number_range year month day h k =
    let facts = month_facts year month k.0 day k.1.0 k.1.1 in ground arith

-- The year of a day from the first to the last of them.
pub year_range :
    (year month day n : ℕ)
    → IsMonthDay year month day
    → day_number year month day ≡ n
    → (if leb month 2 then 1 else 0) ≤ year
    → (306 ≤ n) × (n ≤ 3652364)
    → (1 ≤ year) × (year ≤ 9999)
unfolding day_number days_before
year_range year month day n k e l h =
    let facts = month_facts year month k.0 day k.1.0 k.1.1 in ground arith
