-- ===== src/Rtc/Days/Eras.antt =====
-- The two conversions on the days from 0000-03-01 on, as arithmetic on natural numbers.
use qemu_dll_shadps.Base.{
  ℕ, ◌+◌, ◌-◌, ◌*◌, ◌/◌, ◌%◌, ◌≤◌, ◌<◌, ◌≡◌, ◌⊎◌, refl, ap, ◌∙◌, false, pos, ltb, leb, ◌-ℤ◌, -ℤ-pos,
  -ℤ-sub_ℕ, +ℤ-pos, *ℤ-pos, quot-pos, sub_ℕ-pos, sub_ℕ, if◌then◌else◌, arith,
}
use qemu_dll_shadps.Rtc.Days.{Civil, era_of, days_from_civil, civil_from_days}

era_of-pos : (z n : ℕ) → era_of (pos z) n ≡ pos (z / n)
unfolding era_of
era_of-pos z n = let e : ltb (z + 0) (0 + 0) ≡ false = ground arith in rw e (quot-pos z n)

-- The days before the first of March of a year, counted from 0000-03-01.
unfoldable pub days_before : ℕ → ℕ
days_before y = 365 * y + y / 4 - y / 100 + y / 400

-- The days from the first of March to the first of a month.
unfoldable pub month_start : ℕ → ℕ
month_start month = (153 * (if ltb 2 month then month - 3 else month + 9) + 2) / 5

-- The year that began in March.
abbrev pub march_year : ℕ → ℕ → ℕ
march_year year month = year - (if leb month 2 then 1 else 0)

unfoldable pub day_number : ℕ → ℕ → ℕ → ℕ
day_number year month day = days_before (march_year year month) + month_start month + day - 1

pub days_from_civil-eq :
    (year month day : ℕ)
    → 1 ≤ year
    → 1 ≤ day
    → days_from_civil (pos year) month day ≡ sub_ℕ (day_number year month day) 719468
unfolding days_from_civil day_number days_before month_start
days_from_civil-eq year month day h k =
    let y = march_year year month in
    let shift : pos year -ℤ pos (if leb month 2 then 1 else 0) ≡ pos y =
      -ℤ-pos year _ (ground arith) in
    let within : pos y -ℤ pos (y / 400 * 400) ≡ pos (y - y / 400 * 400) =
      -ℤ-pos y (y / 400 * 400) (omega arith) in
    rw (shift, era_of-pos y 400, *ℤ-pos (y / 400) 400, *ℤ-pos (y / 400) 146097, within, +ℤ-pos)
      (-ℤ-sub_ℕ _ _ ∙ ap (λ n. sub_ℕ n 719468) (omega arith))

-- The year of the era of a day number, and the day of that year.
abbrev pub era_year : ℕ → ℕ
era_year doe = (doe - doe / 1460 + doe / 36524 - doe / 146096) / 365

unfoldable pub civil_of : ℕ → Civil
civil_of n =
    let doe : ℕ = n % 146097 in
    let yoe : ℕ = era_year doe in
    let doy : ℕ = doe - (365 * yoe + yoe / 4 - yoe / 100) in
    let mp : ℕ = (5 * doy + 2) / 153 in
    let month : ℕ = if ltb mp 10 then mp + 3 else mp - 9 in
    record {
      year = pos (yoe + n / 146097 * 400 + (if leb month 2 then 1 else 0));
      month = month;
      day = doy - (153 * mp + 2) / 5 + 1;
    }

pub civil_from_days-eq : (n : ℕ) → civil_from_days (sub_ℕ n 719468) ≡ civil_of n
unfolding civil_from_days civil_of
civil_from_days-eq n =
    let era = n / 146097 in
    let within : pos n -ℤ pos (era * 146097) ≡ pos (n % 146097) =
      -ℤ-pos n (era * 146097) (omega arith) ∙ ap pos (omega arith) in
    rw (sub_ℕ-pos, era_of-pos n 146097, *ℤ-pos era 146097, *ℤ-pos era 400, within, +ℤ-pos, +ℤ-pos)
      refl

-- The month of a year that begins in March, from its number.
abbrev pub month_of : ℕ → ℕ
month_of mp = if ltb mp 10 then mp + 3 else mp - 9

-- What the date is on the day of a year and an era.
pub civil_of-parts :
    (n yoe doy mp : ℕ)
    → era_year (n % 146097) ≡ yoe
    → n % 146097 ≡ 365 * yoe + yoe / 4 - yoe / 100 + doy
    → (5 * doy + 2) / 153 ≡ mp
    → civil_of n ≡ record {
      year = pos (yoe + n / 146097 * 400 + (if leb (month_of mp) 2 then 1 else 0));
      month = month_of mp;
      day = doy - (153 * mp + 2) / 5 + 1;
    }
unfolding civil_of
civil_of-parts n yoe doy mp e f g =
    let doy_is : n % 146097 - (365 * yoe + yoe / 4 - yoe / 100) ≡ doy = omega arith in
    rw (e, doy_is, g) refl

pub Civil-eq :
    {y y' m m' d d' : ℕ}
    → y ≡ y'
    → m ≡ m'
    → d ≡ d'
    → ◌≡◌ {A = Civil}
        (record { year = pos y; month = m; day = d })
        (record { year = pos y'; month = m'; day = d' })
Civil-eq p q r = rw (p, q, r) refl

-- The day of a year that begins in March: the last one exists only in a leap year.
abbrev pub IsMarchDay : ℕ → ℕ → Type 0
IsMarchDay yoe doy =
    (doy < 365) ⊎ ((doy ≡ 365) × ((yoe + 1) % 4 ≡ 0) × ((1 ≤ (yoe + 1) % 100) ⊎ (yoe ≡ 399)))

pub era_year_lem :
    (yoe doy doe : ℕ)
    → yoe < 400
    → IsMarchDay yoe doy
    → doe ≡ 365 * yoe + yoe / 4 - yoe / 100 + doy
    → era_year doe ≡ yoe
era_year_lem yoe doy doe h k e = omega arith

-- Every day of an era is a day of one of its years.
pub era_day :
    (doe : ℕ)
    → doe < 146097
    → (yoe : ℕ) × (doy : ℕ) × (yoe < 400)
      × IsMarchDay yoe doy
      × (doe ≡ 365 * yoe + yoe / 4 - yoe / 100 + doy)
era_day doe h =
    let yoe = era_year doe in
    let doy = doe - (365 * yoe + yoe / 4 - yoe / 100) in
    (yoe, doy, omega arith, omega arith, omega arith)
