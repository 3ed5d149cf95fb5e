-- ===== src/Rtc/Text/RoundTrip.antt =====
-- A text of RFC 3339 that hw/i386/shadps4-hle.c prints is parsed to the tick that it was made from.
use qemu_dll_shadps.Base.{
  ℕ, suc, ◌+◌, ◌*◌, ◌/◌, ◌%◌, ◌≤◌, ◌<◌, ◌≡◌, ◌⊎◌, ◌∙◌, refl, sym, ap, true, false, List, [], ◌∷◌,
  ◌++◌, ltb, ◌==◌, length, drop, ℤ, pos, negsuc, pos_part, ◌+ℤ◌, ◌-ℤ◌, ◌*ℤ◌, Bool-cases, inl, inr,
  ok, ok-injective, arith,
}
use qemu_dll_shadps.Rtc.Dates.{RtcDateTime, IsDateTime}
use qemu_dll_shadps.Rtc.Ticks.{max_ticks, date_to_tick}
use qemu_dll_shadps.Rtc.Ticks.Inverse.{date_to_tick-tick_to_date, days_in_month-le}
use qemu_dll_shadps.Rtc.Clocks.{no_timezone, local_tick, out_of_range}
use qemu_dll_shadps.Rtc.Text.{char_at, is_digit, scan_u16, scan_char, scan_any}
use qemu_dll_shadps.Rtc.Text.Parse.{
  scan_date, skip_digits, parse_fraction, parse_offset, parse_zone, utc_tick, parse_rfc3339,
}
use qemu_dll_shadps.Rtc.Text.Format.{digits, magnitude, format_zone, rfc3339_text, format_tick}
use qemu_dll_shadps.Rtc.Text.Numerals.{read_digits-6, scan_u16-2, scan_u16-4}

-- The fields of a date fit their widths.
Fits : RtcDateTime → Type 0
Fits date =
    (date.year < 10000)
    × (date.month < 100)
    × (date.day < 100)
    × (date.hour < 100)
    × (date.minute < 100)
    × (date.second < 100)
    × (date.microsecond < 1000000)

IsDateTime-Fits : (date : RtcDateTime) → IsDateTime date → Fits date
unfolding Fits
IsDateTime-Fits date h =
    let le = days_in_month-le date.year date.month h.of_day.month_in in ground arith

scan_date-rfc3339_text :
    (date : RtcDateTime) (zone : List ℕ)
    → Fits date
    → scan_date (rfc3339_text date zone)
      ≡ ok (record date { microsecond = 0 }, 46 ∷ digits 6 date.microsecond ++ zone)
unfolding scan_date rfc3339_text scan_char scan_any Fits scan_u16 digits
scan_date-rfc3339_text date zone (y, m, d, h, i, s, u) =
    rw
      (
        scan_u16-4 date.year _ y,
        scan_u16-2 date.month _ m,
        scan_u16-2 date.day _ d,
        scan_u16-2 date.hour _ h,
        scan_u16-2 date.minute _ i,
        scan_u16-2 date.second _ s,
      )
      refl

parse_offset-digits :
    (hour minute : ℕ)
    → hour < 24
    → minute < 60
    → parse_offset (digits 2 hour ++ 58 ∷ digits 2 minute) ≡ ok (hour * 60 + minute)
unfolding parse_offset digits is_digit
parse_offset-digits hour minute h k = ground arith

zone_digits : ℕ → List ℕ
zone_digits minutes = digits 2 (minutes / 60) ++ 58 ∷ digits 2 (minutes % 60)

parse_zone-signed :
    (minutes : ℕ)
    → minutes < 1440
    → (parse_zone (43 ∷ zone_digits minutes) ≡ ok (pos minutes))
      × (parse_zone (45 ∷ zone_digits minutes) ≡ ok (pos 0 -ℤ pos minutes))
unfolding parse_zone zone_digits
parse_zone-signed minutes h =
    let e = parse_offset-digits (minutes / 60) (minutes % 60) (omega arith) (omega arith) in
    let same : minutes / 60 * 60 + minutes % 60 ≡ minutes = omega arith in
    (rw (e, same) refl, rw (e, same) refl)

format_zone-cases :
    (timezone : ℤ)
    → ((timezone ≡ pos 0) × (format_zone false timezone ≡ 90 ∷ []))
      ⊎ ((timezone ≡ pos (magnitude timezone))
          × (format_zone false timezone ≡ 43 ∷ zone_digits (magnitude timezone)))
      ⊎ ((timezone ≡ pos 0 -ℤ pos (magnitude timezone))
          × (format_zone false timezone ≡ 45 ∷ zone_digits (magnitude timezone)))
unfolding format_zone zone_digits ◌-ℤ◌
format_zone-cases (pos n) = elim (Bool-cases (n + 0 == 0)) [
  | inl utc ↦ inl (ground arith, rw utc refl)
  | inr some' ↦
      let ahead : ltb (n + 0) (0 + 0) ≡ false = ground arith in
      inr (inl (ap pos (omega arith), rw (some', ahead) refl))
]
format_zone-cases (negsuc n) =
    let some' : (0 + suc n == 0) ≡ false = ground arith in
    let behind : ltb (0 + 0) (0 + suc n) ≡ true = ground arith in
    inr (inr (ground arith, rw (some', behind) refl))

parse_zone-format_zone :
    (timezone : ℤ)
    → no_timezone timezone ≡ false
    → parse_zone (format_zone false timezone) ≡ ok timezone
unfolding parse_zone
parse_zone-format_zone timezone h =
    let below : magnitude timezone < 1440 = ground arith in
    let signed = parse_zone-signed (magnitude timezone) below in
    elim (format_zone-cases timezone) [
      | inl (e, z) ↦ rw (z, e) refl
      | inr (inl (e, z)) ↦ rw z (signed.0 ∙ ap ok (sym e))
      | inr (inr (e, z)) ↦ rw z (signed.1 ∙ ap ok (sym e))
    ]

skip_digits-format_zone :
    (timezone : ℤ) → skip_digits (format_zone false timezone) ≡ format_zone false timezone
unfolding skip_digits format_zone is_digit
skip_digits-format_zone timezone = ground arith

parse_fraction-digits :
    (v : ℕ) (zone : List ℕ)
    → v < 1000000
    → skip_digits zone ≡ zone
    → parse_fraction (46 ∷ digits 6 v ++ zone) ≡ ok (v, zone)
unfolding parse_fraction
parse_fraction-digits v zone h e =
    rw (read_digits-6 v zone h, e) (ap (λ n. ok (n, zone)) (omega arith))

-- The tests of parse_rfc3339 on the places of its separators.
guard_passes :
    (date : RtcDateTime) (zone : List ℕ)
    → let text = rfc3339_text date zone in
      (ltb (length text) 20 ≡ false)
      × (char_at 4 text ≡ 45)
      × (char_at 7 text ≡ 45)
      × (char_at 10 text ≡ 84)
      × (char_at 13 text ≡ 58)
      × (char_at 16 text ≡ 58)
      × (drop 19 text ≡ 46 ∷ digits 6 date.microsecond ++ zone)
unfolding rfc3339_text digits
guard_passes date zone = (ground arith, refl, refl, refl, refl, refl, refl)

parse_rfc3339-rfc3339_text :
    (date : RtcDateTime) (timezone : ℤ)
    → Fits date
    → no_timezone timezone ≡ false
    → parse_rfc3339 (rfc3339_text date (format_zone false timezone)) ≡ utc_tick date timezone
unfolding parse_rfc3339 Fits
parse_rfc3339-rfc3339_text date timezone fits h =
    let zone = format_zone false timezone in
    let (enough, c4, c7, c10, c13, c16, rest) = guard_passes date zone in
    rw
      (
        enough,
        c4,
        c7,
        c10,
        c13,
        c16,
        scan_date-rfc3339_text date zone fits,
        rest,
        parse_fraction-digits date.microsecond zone fits.6 (skip_digits-format_zone timezone),
        parse_zone-format_zone timezone h,
      )
      refl

there_and_back : (n : ℕ) (z : ℤ) → pos n +ℤ z -ℤ z ≡ pos n
unfolding ◌+ℤ◌ ◌-ℤ◌
there_and_back n (pos k) = ground arith
there_and_back n (negsuc k) = ground arith

in_range : (tick : ℕ) → tick ≤ max_ticks → out_of_range (pos tick) ≡ false
in_range tick h = ground arith

not_out_of_range :
    (z : ℤ) → out_of_range z ≡ false → (pos_part z ≤ max_ticks) × (pos (pos_part z) ≡ z)
not_out_of_range (pos n) h = ground arith
not_out_of_range (negsuc n) h = ground arith

-- The tick of a local date.
utc_tick-local :
    (tick local : ℕ) (timezone : ℤ) (date : RtcDateTime)
    → tick ≤ max_ticks
    → date_to_tick date ≡ ok local
    → pos local ≡ local_tick tick timezone
    → utc_tick date timezone ≡ ok tick
unfolding utc_tick
utc_tick-local tick local timezone date h found e =
    let back : pos local -ℤ timezone *ℤ 60000000 ≡ pos tick =
      ap (λ z. z -ℤ timezone *ℤ 60000000) e ∙ there_and_back tick (timezone *ℤ 60000000) in
    let within = in_range tick h in rw (found, back, within) refl

-- The RFC 3339 text that shadps4_rtc_format prints for a tick up to the last one, in a zone less than
-- a day ahead or behind, is parsed by shadps4_rtc_parse_rfc3339 to the tick.
pub parse_rfc3339-format_tick :
    (tick : ℕ) (timezone : ℤ) {text : List ℕ}
    → tick ≤ max_ticks
    → no_timezone timezone ≡ false
    → format_tick false tick timezone ≡ ok text
    → parse_rfc3339 text ≡ ok tick
unfolding format_tick
parse_rfc3339-format_tick tick timezone {text} h k e =
    elim (Bool-cases (out_of_range (local_tick tick timezone))) [
      | inl outside ↦ absurd (ground arith)
      | inr within ↦
          let local = pos_part (local_tick tick timezone) in
          let (below, signed) = not_out_of_range (local_tick tick timezone) within in
          let (date, found, valid, back) = date_to_tick-tick_to_date local below in
          let made : format_tick false tick timezone
              ≡ ok (rfc3339_text date (format_zone false timezone)) =
            rw (within, found) refl in
          let same = ok-injective (sym made ∙ e) in
          ap parse_rfc3339 (sym same)
          ∙ parse_rfc3339-rfc3339_text date timezone (IsDateTime-Fits date valid) k
          ∙ utc_tick-local tick local timezone date h back signed
    ]
