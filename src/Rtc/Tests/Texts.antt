-- ===== src/Rtc/Tests/Texts.antt =====
-- Texts that are printed and parsed.
use qemu_dll_shadps.Base.{
  ℕ, ◌≡◌, refl, false, true, List, codes, str_eq, negsuc, ◌+ℤ◌, ◌-ℤ◌, ◌*ℤ◌, quot, ok, arith,
}
use qemu_dll_shadps.Rtc.Dates.{is_leap, days_in_month, validate}
use qemu_dll_shadps.Rtc.Days.{era_of, days_from_civil, civil_from_days}
use qemu_dll_shadps.Rtc.Ticks.{ticks_of, date_to_tick, tick_to_date, date_of, unix_epoch_ticks}
use qemu_dll_shadps.Rtc.Services.{weekday}
use qemu_dll_shadps.Rtc.Text.{
  is_digit, is_space, skip_space, read_digits, scan_u16, scan_int, scan_any, scan_char, read_word,
  scan_word, find_name, month_from_name,
}
use qemu_dll_shadps.Rtc.Text.Parse.{
  scan_date, parse_fraction, parse_zone, utc_tick, parse_rfc3339, scan_rfc2822, numeric_zone,
  has_char, scan_asctime, parse_datetime,
}
use qemu_dll_shadps.Rtc.Text.Format.{digits, format_zone, rfc3339_text, rfc2822_text, format_tick}
use qemu_dll_shadps.Rtc.Text.RoundTrip.{parse_rfc3339-format_tick}

abbrev evening : List ℕ
evening = codes "1969-12-31T22:30:00.000000-01:30"

evening_text : format_tick false unix_epoch_ticks (negsuc 89) ≡ ok evening
unfolding format_tick tick_to_date date_of civil_from_days era_of quot ◌+ℤ◌ ◌-ℤ◌ ◌*ℤ◌ rfc3339_text
    format_zone digits
evening_text = refl

parse_rfc3339-format_tick_example : parse_rfc3339 evening ≡ ok unix_epoch_ticks
parse_rfc3339-format_tick_example =
    parse_rfc3339-format_tick unix_epoch_ticks (negsuc 89) (omega arith) refl evening_text

-- The mail text of the same tick, and what it is parsed to.
evening_mail :
    format_tick true unix_epoch_ticks (negsuc 89) ≡ ok (codes "Wed, 31 Dec 1969 22:30:00 -0130")
unfolding format_tick tick_to_date date_of civil_from_days era_of quot ◌+ℤ◌ ◌-ℤ◌ ◌*ℤ◌ rfc2822_text
    format_zone digits weekday days_from_civil
evening_mail = refl

evening_mail_parsed : parse_datetime (codes "Wed, 31 Dec 1969 22:30:00 -0130") ≡ ok unix_epoch_ticks
unfolding parse_datetime has_char scan_rfc2822 numeric_zone scan_word read_word skip_space is_space
    scan_char scan_u16 scan_int read_digits is_digit month_from_name find_name str_eq utc_tick
    date_to_tick validate ticks_of days_in_month is_leap days_from_civil era_of quot ◌+ℤ◌ ◌-ℤ◌ ◌*ℤ◌
evening_mail_parsed = refl

-- Hours and minutes of a zone may each have a sign.
negative_zone_parsed :
    parse_datetime (codes "Thu, 01 Jan 1970 00:00:00 +-1-2") ≡ ok 62135600520000000
unfolding parse_datetime has_char scan_rfc2822 numeric_zone scan_word read_word skip_space is_space
    scan_char scan_u16 scan_int read_digits is_digit month_from_name find_name str_eq utc_tick
    date_to_tick validate ticks_of days_in_month is_leap days_from_civil era_of quot ◌+ℤ◌ ◌-ℤ◌ ◌*ℤ◌
negative_zone_parsed = refl

asctime_parsed : parse_datetime (codes "Thu Jan  1 00:00:01 1970") ≡ ok 62135596801000000
unfolding parse_datetime has_char scan_asctime scan_word read_word skip_space is_space scan_char
    scan_u16 read_digits is_digit month_from_name find_name str_eq utc_tick date_to_tick validate
    ticks_of days_in_month is_leap days_from_civil era_of quot ◌+ℤ◌ ◌-ℤ◌ ◌*ℤ◌
asctime_parsed = refl

-- A letter in place of the last digit of the seconds is passed over.
letter_parsed : parse_rfc3339 (codes "1970-01-01T00:00:1xZ") ≡ ok 62135596801000000
unfolding parse_rfc3339 scan_date parse_fraction parse_zone scan_any skip_space is_space scan_char
    scan_u16 read_digits is_digit utc_tick date_to_tick validate ticks_of days_in_month is_leap
    days_from_civil era_of quot ◌+ℤ◌ ◌-ℤ◌ ◌*ℤ◌
letter_parsed = refl
