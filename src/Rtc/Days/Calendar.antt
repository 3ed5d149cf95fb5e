-- ===== src/Rtc/Days/Calendar.antt =====
-- The calendar, counted day by day: what the day numbers of hw/i386/shadps4-hle.c mean.
use qemu_dll_shadps.Base.{
  ℕ, zero, suc, ◌+◌, ◌≤◌, ◌<◌, ◌≡◌, ◌⊎◌, inl, inr, ◌∙◌, refl, ap, sym, true, false, Bool-cases, pos,
  ltb, sub_ℕ, if◌then◌else◌, arith,
}
use qemu_dll_shadps.Rtc.Dates.{is_leap, days_in_month}
use qemu_dll_shadps.Rtc.Days.{Civil, days_from_civil, civil_from_days}
use qemu_dll_shadps.Rtc.Days.Eras.{
  days_before, month_start, day_number, civil_of, days_from_civil-eq, civil_from_days-eq,
}
use qemu_dll_shadps.Rtc.Days.Months.{IsMonthDay, each_month}
use qemu_dll_shadps.Rtc.Days.Inverse.{civil_of-day_number}

-- A day of the calendar, and the day after it.
pub record Day : Type 0 where
  pub year : ℕ
  pub month : ℕ
  pub day : ℕ

abbrev pub as_civil : Day → Civil
as_civil d = record { year = pos d.year; month = d.month; day = d.day }

unfoldable pub next_day : Day → Day
next_day d =
    if ltb d.day (days_in_month d.year d.month)
    then record d { day = d.day + 1 }
    else if ltb d.month 12
    then record { year = d.year; month = d.month + 1; day = 1 }
    else record { year = d.year + 1; month = 1; day = 1 }

-- `n` days after the first of January of the year 1.
unfoldable pub nth_day : ℕ → Day
nth_day zero = record { year = 1; month = 1; day = 1 }
nth_day (suc n) = next_day (nth_day n)

pub record IsCalendarDay (d : Day) : Type 0 where
  pub from_year_1 : 1 ≤ d.year
  pub month_day : IsMonthDay d.year d.month d.day

-- Every month has a day, and the last one precedes the first of the next month.
abbrev MonthEnd : ℕ → ℕ → Type 0
MonthEnd year month =
    (month < 12
      × (1 ≤ days_in_month year (month + 1))
      × (day_number year (month + 1) 1 ≡ day_number year month (days_in_month year month) + 1))
    ⊎ ((month ≡ 12)
        × (day_number (year + 1) 1 1 ≡ day_number year month (days_in_month year month) + 1))

month_end : (year month : ℕ) → 1 ≤ year → (1 ≤ month) × (month ≤ 12) → MonthEnd year month
unfolding days_in_month day_number days_before month_start is_leap
month_end year month y =
    each_month (MonthEnd year) (ground arith) (ground arith) (ground arith) (ground arith)
      (ground arith) (ground arith) (ground arith) (ground arith) (ground arith) (ground arith)
      (ground arith) (ground arith) month

new_year : (year : ℕ) → 1 ≤ year → IsCalendarDay (record { year = year + 1; month = 1; day = 1 })
unfolding days_in_month
new_year year h = ground arith

day_number-suc :
    (d : Day)
    → IsCalendarDay d
    → day_number d.year d.month (d.day + 1) ≡ day_number d.year d.month d.day + 1
unfolding day_number
day_number-suc d h = ground arith

-- The day after a day of the calendar is one, with the next number.
record IsNext (d next : Day) : Type 0 where
  exists : IsCalendarDay next
  number : day_number next.year next.month next.day ≡ day_number d.year d.month d.day + 1

next_day-IsNext : (d : Day) → IsCalendarDay d → IsNext d (next_day d)
unfolding next_day
next_day-IsNext d h = elim (Bool-cases (ltb d.day (days_in_month d.year d.month))) [
  | inl within ↦ rw within (record { exists = ground arith; number = day_number-suc d h })
  | inr last ↦
      let e : days_in_month d.year d.month ≡ d.day = ground arith in
      rw last (elim (month_end d.year d.month h.from_year_1 h.month_day.0) [
        | inl (before, some_day, next) ↦
            let more : ltb d.month 12 ≡ true = ground arith in
            rw more (record { exists = ground arith; number = next ∙ rw e refl })
        | inr (december, next) ↦
            let more : ltb d.month 12 ≡ false = ground arith in
            rw more (record { exists = new_year d.year h.from_year_1; number = next ∙ rw e refl })
      ])
]

first_day : IsCalendarDay (nth_day 0) × (day_number 1 1 1 ≡ 306)
unfolding nth_day days_in_month day_number days_before month_start
first_day = ground arith

nth_day-IsNth :
    (n : ℕ)
    → IsCalendarDay (nth_day n)
      × (day_number (nth_day n).year (nth_day n).month (nth_day n).day ≡ n + 306)
unfolding nth_day
nth_day-IsNth zero = first_day
nth_day-IsNth (suc n) =
    let (day, number) = nth_day-IsNth n in
    let next = next_day-IsNext (nth_day n) day in (next.exists, next.number ∙ omega arith)

-- The date that shadps4_rtc_civil_from_days gives to day `n - 719162` is the one that counting `n`
-- days from 0001-01-01 comes to, and shadps4_rtc_days_from_civil gives that day to that date.
pub nth_day-civil_from_days :
    (n : ℕ)
    → (civil_from_days (sub_ℕ n 719162) ≡ as_civil (nth_day n))
      × (days_from_civil (pos (nth_day n).year) (nth_day n).month (nth_day n).day ≡ sub_ℕ n 719162)
nth_day-civil_from_days n =
    let (day, number) = nth_day-IsNth n in
    let same : sub_ℕ n 719162 ≡ sub_ℕ (n + 306) 719468 = ground arith in
    let d = nth_day n in
    (
      ap civil_from_days same
          ∙ civil_from_days-eq (n + 306)
          ∙ ap civil_of (sym number)
          ∙ civil_of-day_number d.year d.month d.day day.from_year_1 day.month_day,
      days_from_civil-eq d.year d.month d.day day.from_year_1 day.month_day.1.0
          ∙ ap (λ k. sub_ℕ k 719468) number
          ∙ sym same,
    )
