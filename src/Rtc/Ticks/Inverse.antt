-- ===== src/Rtc/Ticks/Inverse.antt =====
-- Dates and ticks of hw/i386/shadps4-hle.c stand for each other.
use qemu_dll_shadps.Base.{
  ℕ, ◌+◌, ◌-◌, ◌*◌, ◌/◌, ◌%◌, ◌≤◌, ◌≡◌, ◌∙◌, refl, ap, false, ltb, pos, sub_ℕ, ◌+ℤ◌, ◌-ℤ◌, -ℤ-sub_ℕ,
  ok, arith,
}
use qemu_dll_shadps.Rtc.Dates.{
  RtcDateTime, IsDay, IsTime, IsDateTime, days_in_month, validate-eq-ok,
}
use qemu_dll_shadps.Rtc.Days.Eras.{day_number, civil_of, days_from_civil-eq, civil_from_days-eq}
use qemu_dll_shadps.Rtc.Days.Months.{IsMonthDay, each_month}
use qemu_dll_shadps.Rtc.Days.Inverse.{
  civil_of-day_number, civil_of-IsDateOf, number_range, year_range,
}
use qemu_dll_shadps.Rtc.Ticks.{day_ticks, max_ticks, ticks_of, date_to_tick, date_of, tick_to_date}

-- The time of a day, in ticks.
abbrev pub time_ticks : RtcDateTime → ℕ
time_ticks date =
    date.hour * 3600000000 + date.minute * 60000000 + date.second * 1000000 + date.microsecond

abbrev number_of : RtcDateTime → ℕ
number_of date = day_number date.year date.month date.day

sub_ℕ-back : (n : ℕ) → 306 ≤ n → sub_ℕ n 719468 +ℤ pos 719162 ≡ pos (n - 306)
unfolding ◌+ℤ◌
sub_ℕ-back n h = ground arith

IsDay-IsMonthDay : (date : RtcDateTime) → IsDay date → IsMonthDay date.year date.month date.day
IsDay-IsMonthDay date h = (h.month_in, h.day_in)

pub ticks_of-eq :
    (date : RtcDateTime)
    → IsDateTime date
    → (306 ≤ number_of date)
      × (number_of date ≤ 3652364)
      × (ticks_of date ≡ (number_of date - 306) * day_ticks + time_ticks date)
unfolding ticks_of
ticks_of-eq date h =
    let day = h.of_day in
    let range =
      number_range date.year date.month date.day day.year_in (IsDay-IsMonthDay date day) in
    let e = days_from_civil-eq date.year date.month date.day day.year_in.0 day.day_in.0 in
    let back = sub_ℕ-back (number_of date) range.0 in
    (
      range.0,
      range.1,
      rw (e, back)
          (omega (
            arith, h.of_time.hour_in, h.of_time.minute_in, h.of_time.second_in,
            h.of_time.microsecond_in,
          )),
    )

-- The date of a tick: its day by `civil_of`, and the parts of its time.
abbrev at_time : ℕ → ℕ → ℕ → ℕ → RtcDateTime
at_time year month day fraction = record {
  year = year;
  month = month;
  day = day;
  hour = fraction / 3600000000;
  minute = fraction % 3600000000 / 60000000;
  second = fraction % 60000000 / 1000000;
  microsecond = fraction % 1000000;
}

pub date-eq :
    {y y' m m' d d' h h' i i' s s' u u' : ℕ}
    → y ≡ y'
    → m ≡ m'
    → d ≡ d'
    → h ≡ h'
    → i ≡ i'
    → s ≡ s'
    → u ≡ u'
    → ◌≡◌ {A = RtcDateTime}
        (record { year = y; month = m; day = d; hour = h; minute = i; second = s; microsecond = u })
        (record {
          year = y';
          month = m';
          day = d';
          hour = h';
          minute = i';
          second = s';
          microsecond = u';
        })
date-eq a b c d e f g = rw (a, b, c, d, e, f, g) refl

date_of-eq :
    (tick year month day : ℕ)
    → civil_of (tick / day_ticks + 306) ≡ record { year = pos year; month = month; day = day }
    → (year ≤ 9999) × (month ≤ 12) × (day ≤ 31)
    → date_of tick ≡ at_time year month day (tick % day_ticks)
unfolding date_of
date_of-eq tick year month day e h =
    let n = tick / day_ticks in
    let same : pos n -ℤ pos 719162 ≡ sub_ℕ (n + 306) 719468 = -ℤ-sub_ℕ n 719162 ∙ ground arith in
    rw (same, civil_from_days-eq (n + 306), e)
      (date-eq (omega arith) (omega arith) (omega arith) (omega arith) (omega arith) (omega arith)
        (omega arith))

-- A day is at most the 31st.
pub days_in_month-le : (year month : ℕ) → (1 ≤ month) × (month ≤ 12) → days_in_month year month ≤ 31
unfolding days_in_month
days_in_month-le year =
    each_month (λ month. days_in_month year month ≤ 31) (ground arith) (ground arith) (ground arith)
      (ground arith) (ground arith) (ground arith) (ground arith) (ground arith) (ground arith)
      (ground arith) (ground arith) (ground arith)

-- A date is made of its day and the parts of its time.
at_time-eq :
    (date : RtcDateTime) (tick n : ℕ)
    → IsTime date
    → tick ≡ n * day_ticks + time_ticks date
    → at_time date.year date.month date.day (tick % day_ticks) ≡ date
at_time-eq date tick n time e =
    let h = time.hour_in in
    let m = time.minute_in in
    let s = time.second_in in
    let u = time.microsecond_in in
    date-eq refl refl refl (omega arith) (omega arith) (omega arith) (omega arith)

at_time-IsTime : (year month day tick : ℕ) → IsTime (at_time year month day (tick % day_ticks))
at_time-IsTime year month day tick = record {
  hour_in = omega arith;
  minute_in = omega arith;
  second_in = omega arith;
  microsecond_in = omega arith;
}

-- A valid date has a tick, at most the last one, and the date of that tick is the date itself.
pub tick_to_date-date_to_tick :
    (date : RtcDateTime)
    → IsDateTime date
    → (tick : ℕ) × (date_to_tick date ≡ ok tick)
      × (tick ≤ max_ticks)
      × (tick_to_date tick ≡ ok date)
unfolding date_to_tick tick_to_date
tick_to_date-date_to_tick date h =
    let (lo, hi, e) = ticks_of-eq date h in
    let tick = ticks_of date in
    let day = h.of_day in
    let time = h.of_time in
    let n : tick / day_ticks + 306 ≡ number_of date =
      omega (arith, time.hour_in, time.minute_in, time.second_in, time.microsecond_in) in
    let fits = days_in_month-le date.year date.month day.month_in in
    let found =
      civil_of-day_number date.year date.month date.day day.year_in.0 (IsDay-IsMonthDay date day) in
    let back =
      date_of-eq tick date.year date.month date.day (ap civil_of n ∙ found)
        (day.year_in.1, day.month_in.1, omega (arith, day.day_in)) in
    let same : at_time date.year date.month date.day (tick % day_ticks) ≡ date =
      at_time-eq date tick _ time e in
    let below : ltb max_ticks tick ≡ false = ground arith in
    (
      tick,
      rw (validate-eq-ok date h) refl,
      omega (arith, time.hour_in, time.minute_in, time.second_in, time.microsecond_in),
      rw below (ap ok (back ∙ same)),
    )

-- Every tick up to the last one has a valid date, and the tick of that date is the tick itself.
pub date_to_tick-tick_to_date :
    (tick : ℕ)
    → tick ≤ max_ticks
    → (date : RtcDateTime) × (tick_to_date tick ≡ ok date)
      × IsDateTime date
      × (date_to_tick date ≡ ok tick)
unfolding date_to_tick tick_to_date
date_to_tick-tick_to_date tick h =
    let d = civil_of-IsDateOf (tick / day_ticks + 306) in
    let range : (1 ≤ d.year) × (d.year ≤ 9999) =
      year_range d.year d.month d.day _ d.month_day d.number d.begun (omega arith) in
    let fits = days_in_month-le d.year d.month d.month_day.0 in
    let back =
      date_of-eq tick d.year d.month d.day d.finds
        (range.1, d.month_day.0.1, omega (arith, d.month_day)) in
    let date = at_time d.year d.month d.day (tick % day_ticks) in
    let day : IsDay date = record {
      year_in = range;
      month_in = d.month_day.0;
      day_in = d.month_day.1;
    } in
    let valid : IsDateTime date = record {
      of_day = day;
      of_time = at_time-IsTime d.year d.month d.day tick;
    } in
    let below : ltb max_ticks tick ≡ false = ground arith in
    let (lo, hi, e) = ticks_of-eq date valid in
    let number = d.number in
    (date, rw below (ap ok back), valid, rw (validate-eq-ok date valid) (ap ok (e ∙ omega arith)))
