-- ===== src/Rtc/Dates.antt =====
-- The dates of the RTC services (hw/i386/shadps4-hle.c): ShadPS4RtcDateTime and the checks on it.
use qemu_dll_shadps.Base.{
  ℕ, ◌+◌, ◌-◌, ◌%◌, ◌≤◌, ◌<◌, ◌≡◌, ◌⊎◌, inl, inr, Bool, Bool-cases, not, ◌&&◌, ◌||◌, none, some,
  List, [], ◌∷◌, ltb, ◌==◌, if◌then◌else◌, get_elem?, Result, ok, err, arith,
}

-- The SHADPS4_RTC_ERROR codes, in the order of their values.
pub data RtcError : Type 0 where
  datetime_uninitialized invalid_pointer invalid_value bad_parse invalid_year invalid_month :
      RtcError
  invalid_day invalid_hour invalid_minute invalid_second invalid_microsecond : RtcError

unfoldable pub error_code : RtcError → ℕ
error_code datetime_uninitialized = 0x7ffef9fe
error_code invalid_pointer = 0x80b50002
error_code invalid_value = 0x80b50003
error_code bad_parse = 0x80b50007
error_code invalid_year = 0x80b50008
error_code invalid_month = 0x80b50009
error_code invalid_day = 0x80b5000a
error_code invalid_hour = 0x80b5000b
error_code invalid_minute = 0x80b5000c
error_code invalid_second = 0x80b5000d
error_code invalid_microsecond = 0x80b5000e

pub record RtcDateTime : Type 0 where
  pub year : ℕ
  pub month : ℕ
  pub day : ℕ
  pub hour : ℕ
  pub minute : ℕ
  pub second : ℕ
  pub microsecond : ℕ

-- `!(year % 4) && ((year % 100) || !(year % 400))`
unfoldable pub is_leap : ℕ → Bool
is_leap year = (year % 4 == 0) && (not (year % 100 == 0) || (year % 400 == 0))

abbrev pub days_of_month : List ℕ
days_of_month = 31 ∷ 28 ∷ 31 ∷ 30 ∷ 31 ∷ 30 ∷ 31 ∷ 31 ∷ 30 ∷ 31 ∷ 30 ∷ 31 ∷ []

-- Every caller has checked the month, so the table is not left.
unfoldable pub days_in_month : ℕ → ℕ → ℕ
days_in_month year month =
    elim (get_elem? days_of_month (month - 1)) [ none ↦ 0 | some days ↦ days ]
    + (if (month == 2) && is_leap year then 1 else 0)

unfoldable pub validate : RtcDateTime → Result RtcError (Unit {0})
validate date =
    if (date.year == 0) || ltb 9999 date.year
    then err invalid_year
    else if (date.month == 0) || ltb 12 date.month
    then err invalid_month
    else if (date.day == 0) || ltb (days_in_month date.year date.month) date.day
    then err invalid_day
    else if ltb 23 date.hour
    then err invalid_hour
    else if ltb 59 date.minute
    then err invalid_minute
    else if ltb 59 date.second
    then err invalid_second
    else if ltb 999999 date.microsecond
    then err invalid_microsecond
    else ok tt

-- A day of the years 1 to 9999, and a time of the day to the microsecond.
pub record IsDay (date : RtcDateTime) : Type 0 where
  pub year_in : (1 ≤ date.year) × (date.year ≤ 9999)
  pub month_in : (1 ≤ date.month) × (date.month ≤ 12)
  pub day_in : (1 ≤ date.day) × (date.day ≤ days_in_month date.year date.month)

pub record IsTime (date : RtcDateTime) : Type 0 where
  pub hour_in : date.hour < 24
  pub minute_in : date.minute < 60
  pub second_in : date.second < 60
  pub microsecond_in : date.microsecond < 1000000

pub record IsDateTime (date : RtcDateTime) : Type 0 where
  pub of_day : IsDay date
  pub of_time : IsTime date

-- What each answer of `validate` says: the first field that is out of range.
pub data Verdict (date : RtcDateTime) : Result RtcError (Unit {0}) → Type 0 where
  accepted : IsDateTime date → Verdict date (ok tt)
  bad_year : (date.year ≡ 0) ⊎ (9999 < date.year) → Verdict date (err invalid_year)
  bad_month :
      (1 ≤ date.year) × (date.year ≤ 9999)
      → (date.month ≡ 0) ⊎ (12 < date.month)
      → Verdict date (err invalid_month)
  bad_day :
      (1 ≤ date.year) × (date.year ≤ 9999)
      → (1 ≤ date.month) × (date.month ≤ 12)
      → (date.day ≡ 0) ⊎ (days_in_month date.year date.month < date.day)
      → Verdict date (err invalid_day)
  bad_hour : IsDay date → 23 < date.hour → Verdict date (err invalid_hour)
  bad_minute : IsDay date → date.hour < 24 → 59 < date.minute → Verdict date (err invalid_minute)
  bad_second :
      IsDay date
      → (date.hour < 24) × (date.minute < 60)
      → 59 < date.second
      → Verdict date (err invalid_second)
  bad_microsecond :
      IsDay date
      → (date.hour < 24) × (date.minute < 60) × (date.second < 60)
      → 999999 < date.microsecond
      → Verdict date (err invalid_microsecond)

validate_time-Verdict :
    (date : RtcDateTime)
    → IsDay date
    → Verdict date (
        if ltb 23 date.hour
        then err invalid_hour
        else if ltb 59 date.minute
        then err invalid_minute
        else if ltb 59 date.second
        then err invalid_second
        else if ltb 999999 date.microsecond
        then err invalid_microsecond
        else ok tt)
validate_time-Verdict date day = elim (Bool-cases (ltb 23 date.hour)) [
  | inl bad ↦ rw bad (bad_hour day (ground arith))
  | inr hour ↦ rw hour (elim (Bool-cases (ltb 59 date.minute)) [
    | inl bad ↦ rw bad (bad_minute day (ground arith) (ground arith))
    | inr minute ↦ rw minute (elim (Bool-cases (ltb 59 date.second)) [
      | inl bad ↦ rw bad (bad_second day (ground arith) (ground arith))
      | inr second ↦ rw second (elim (Bool-cases (ltb 999999 date.microsecond)) [
        | inl bad ↦ rw bad (bad_microsecond day (ground arith) (ground arith))
        | inr microsecond ↦
            rw microsecond (accepted (record { of_day = day; of_time = ground arith }))
      ])
    ])
  ])
]

-- The test of a date accepts exactly the dates of the years 1 to 9999 with a day of their month and
-- a time of the day; otherwise its error names the first field that is out of range.
pub validate-Verdict : (date : RtcDateTime) → Verdict date (validate date)
unfolding validate
validate-Verdict date = elim (Bool-cases ((date.year == 0) || ltb 9999 date.year)) [
  | inl bad ↦ rw bad (bad_year (ground arith))
  | inr year ↦ rw year (elim (Bool-cases ((date.month == 0) || ltb 12 date.month)) [
    | inl bad ↦ rw bad (bad_month (ground arith) (ground arith))
    | inr month ↦
        rw month
          (elim (Bool-cases
            ((date.day == 0) || ltb (days_in_month date.year date.month) date.day)) [
              | inl bad ↦ rw bad (bad_day (ground arith) (ground arith) (ground arith))
              | inr day ↦ rw day (validate_time-Verdict date (ground arith))
            ])
  ])
]

pub validate-eq-ok : (date : RtcDateTime) → IsDateTime date → validate date ≡ ok tt
unfolding validate
validate-eq-ok date valid = ground arith

pub validate-IsDateTime :
    (date : RtcDateTime) (u : Unit {0}) → validate date ≡ ok u → IsDateTime date
unfolding validate
validate-IsDateTime date u h = ground arith
