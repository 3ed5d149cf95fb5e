-- ===== src/Rtc/Days/Months.antt =====
-- The months of a year that begins in March, as the conversions of hw/i386/shadps4-hle.c count them.
use qemu_dll_shadps.Base.{
  ℕ, zero, suc, ◌+◌, ◌-◌, ◌*◌, ◌/◌, ◌%◌, ◌≤◌, ◌<◌, ◌≡◌, ◌⊎◌, true, ltb, leb, if◌then◌else◌, arith,
}
use qemu_dll_shadps.Rtc.Dates.{is_leap, days_in_month}
use qemu_dll_shadps.Rtc.Days.Eras.{month_start, month_of, IsMarchDay}

abbrev pub IsMonthDay : ℕ → ℕ → ℕ → Type 0
IsMonthDay year month day =
    ((1 ≤ month) × (month ≤ 12)) × ((1 ≤ day) × (day ≤ days_in_month year month))

pub each_month {ℓ} :
    (P : ℕ → Type ℓ)
    → P 1
    → P 2
    → P 3
    → P 4
    → P 5
    → P 6
    → P 7
    → P 8
    → P 9
    → P 10
    → P 11
    → P 12
    → (month : ℕ) → (1 ≤ month) × (month ≤ 12)
    → P month
each_month P a b c d e f g h i j k l zero r = absurd (omega arith)
each_month P a b c d e f g h i j k l (suc zero) r = a
each_month P a b c d e f g h i j k l (suc (suc zero)) r = b
each_month P a b c d e f g h i j k l (suc (suc (suc zero))) r = c
each_month P a b c d e f g h i j k l (suc (suc (suc (suc zero)))) r = d
each_month P a b c d e f g h i j k l (suc (suc (suc (suc (suc zero))))) r = e
each_month P a b c d e f g h i j k l (suc (suc (suc (suc (suc (suc zero)))))) r = f
each_month P a b c d e f g h i j k l (suc (suc (suc (suc (suc (suc (suc zero))))))) r = g
each_month P a b c d e f g h i j k l (suc (suc (suc (suc (suc (suc (suc (suc zero)))))))) r = h
each_month P a b c d e f g h i j k l (suc (suc (suc (suc (suc (suc (suc (suc (suc zero))))))))) r =
    i
each_month P a b c d e f g h i j k l
      (suc (suc (suc (suc (suc (suc (suc (suc (suc (suc zero)))))))))) r =
    j
each_month P a b c d e f g h i j k l
      (suc (suc (suc (suc (suc (suc (suc (suc (suc (suc (suc zero))))))))))) r =
    k
each_month P a b c d e f g h i j k l
      (suc (suc (suc (suc (suc (suc (suc (suc (suc (suc (suc (suc zero)))))))))))) r =
    l
each_month P a b c d e f g h i j k l
      (suc (suc (suc (suc (suc (suc (suc (suc (suc (suc (suc (suc (suc m))))))))))))) r =
    absurd (omega arith)

-- What the length of a month says of the days of a year that begins in March.
abbrev pub MonthFacts : ℕ → ℕ → Type 0
MonthFacts year month =
    (day : ℕ)
    → 1 ≤ day
    → day ≤ days_in_month year month
    → ((month_start month + day - 1 < 365)
        ⊎ ((month_start month + day - 1 ≡ 365) × (month ≡ 2) × (is_leap year ≡ true)))
      × ((5 * (month_start month + day - 1) + 2) / 153
          ≡ (if ltb 2 month then month - 3 else month + 9))

pub month_facts : (year month : ℕ) → (1 ≤ month) × (month ≤ 12) → MonthFacts year month
unfolding days_in_month month_start
month_facts year =
    each_month (MonthFacts year) (λ day h k. ground arith) (λ day h k. ground arith)
      (λ day h k. ground arith) (λ day h k. ground arith) (λ day h k. ground arith)
      (λ day h k. ground arith) (λ day h k. ground arith) (λ day h k. ground arith)
      (λ day h k. ground arith) (λ day h k. ground arith) (λ day h k. ground arith)
      (λ day h k. ground arith)

-- What day `doy` of the year `y` that begins in March is in the calendar.
abbrev pub MarchFacts : ℕ → ℕ → Type 0
MarchFacts y month =
    (doy : ℕ)
    → IsMarchDay (y % 400) doy
    → month_of ((5 * doy + 2) / 153) ≡ month
    → (1 ≤ doy - (153 * ((5 * doy + 2) / 153) + 2) / 5 + 1)
      × (doy - (153 * ((5 * doy + 2) / 153) + 2) / 5 + 1
          ≤ days_in_month (y + (if leb month 2 then 1 else 0)) month)
      × (month_start month ≡ (153 * ((5 * doy + 2) / 153) + 2) / 5)
      × (month_start month ≤ doy)

pub march_facts : (y month : ℕ) → (1 ≤ month) × (month ≤ 12) → MarchFacts y month
unfolding days_in_month month_start is_leap
march_facts y =
    each_month (MarchFacts y) (λ doy h k. ground arith) (λ doy h k. ground arith)
      (λ doy h k. ground arith) (λ doy h k. ground arith) (λ doy h k. ground arith)
      (λ doy h k. ground arith) (λ doy h k. ground arith) (λ doy h k. ground arith)
      (λ doy h k. ground arith) (λ doy h k. ground arith) (λ doy h k. ground arith)
      (λ doy h k. ground arith)
