-- ===== src/Rtc/Text/Parse.antt =====
-- shadps4_rtc_parse_rfc3339 and shadps4_rtc_parse_datetime of hw/i386/shadps4-hle.c.
use qemu_dll_shadps.Base.{
  ℕ, ◌+◌, ◌-◌, ◌*◌, ◌^◌, Bool, false, not, ◌&&◌, ◌||◌, List, [], ◌∷◌, ltb, leb, ◌==◌, if◌then◌else◌,
  length, drop, ℤ, pos, pos_part, ltb_ℤ, ◌+ℤ◌, ◌-ℤ◌, ◌*ℤ◌, Result, ok, err, ◌>>=◌,
}
use qemu_dll_shadps.Rtc.Dates.{RtcError, bad_parse, invalid_value, RtcDateTime}
use qemu_dll_shadps.Rtc.Ticks.{date_to_tick}
use qemu_dll_shadps.Rtc.Clocks.{out_of_range}
use qemu_dll_shadps.Rtc.Text.{
  char_at, is_digit, Digits, read_digits, Scanned, scan_u16, scan_int, scan_any, scan_char,
  scan_word, month_from_name,
}

-- "%4hu-%2hu-%2hu%*c%2hu:%2hu:%2hu"
unfoldable pub scan_date : List ℕ → Scanned RtcDateTime
scan_date text = scan_u16 4 text >>= λ year. scan_char 45 year.1 >>= λ t1.
    scan_u16 2 t1.1 >>= λ month. scan_char 45 month.1 >>= λ t2. scan_u16 2 t2.1 >>= λ day.
    scan_any day.1 >>= λ t3. scan_u16 2 t3.1 >>= λ hour. scan_char 58 hour.1 >>= λ t4.
    scan_u16 2 t4.1 >>= λ minute. scan_char 58 minute.1 >>= λ t5. scan_u16 2 t5.1 >>= λ second. ok (
      record {
        year = year.0;
        month = month.0;
        day = day.0;
        hour = hour.0;
        minute = minute.0;
        second = second.0;
        microsecond = 0;
      },
      second.1,
    )

-- `while (digits++ < 6) microsecond *= 10`
abbrev pub scale_up : ℕ → ℕ → ℕ
scale_up value count = value * 10 ^ (6 - count)

unfoldable pub skip_digits : List ℕ → List ℕ
skip_digits [] = []
skip_digits (c ∷ text) = let rest = skip_digits text in if is_digit c then rest else c ∷ text

-- The fraction of a second: six digits count, and the others are passed over.
unfoldable pub parse_fraction : List ℕ → Scanned ℕ
parse_fraction cursor =
    if char_at 0 cursor == 46
    then (let digits : Digits = read_digits 6 0 0 (drop 1 cursor) in
        if digits.count == 0
        then err bad_parse
        else ok (scale_up digits.value digits.count, skip_digits digits.rest))
    else ok (0, cursor)

abbrev digit_at : ℕ → List ℕ → ℕ
digit_at i text = char_at i text - 48

-- The minutes of "hh:mm" at the end of a text, up to 23:59.
unfoldable pub parse_offset : List ℕ → Result RtcError ℕ
parse_offset cursor =
    if not (is_digit (char_at 0 cursor))
      || (not (is_digit (char_at 1 cursor))
          || (not (char_at 2 cursor == 58)
              || (not (is_digit (char_at 3 cursor))
                  || (not (is_digit (char_at 4 cursor))
                      || (not (char_at 5 cursor == 0)
                          || (ltb 50 (char_at 0 cursor)
                              || ((char_at 0 cursor == 50) && ltb 51 (char_at 1 cursor)
                                  || ltb 53 (char_at 3 cursor))))))))
    then err bad_parse
    else ok (
        (digit_at 0 cursor * 10 + digit_at 1 cursor) * 60
        + digit_at 3 cursor * 10
        + digit_at 4 cursor)

-- The zone, at the end of the text.
unfoldable pub parse_zone : List ℕ → Result RtcError ℤ
parse_zone cursor =
    let c : ℕ = char_at 0 cursor in
    let offset : Result RtcError ℕ = parse_offset (drop 1 cursor) in
    if (c == 90) || (c == 122)
    then (if char_at 1 cursor == 0 then ok (pos 0) else err bad_parse)
    else if c == 43
    then (offset >>= λ minutes. ok (pos minutes))
    else if c == 45
    then (offset >>= λ minutes. ok (pos 0 -ℤ pos minutes))
    else err bad_parse

-- The tick of a date of a zone that is so many minutes ahead.
unfoldable pub utc_tick : RtcDateTime → ℤ → Result RtcError ℕ
utc_tick date minutes = date_to_tick date >>= λ tick.
    let utc : ℤ = pos tick -ℤ minutes *ℤ 60000000 in
    if out_of_range utc then err invalid_value else ok (pos_part utc)

unfoldable pub parse_rfc3339 : List ℕ → Result RtcError ℕ
parse_rfc3339 text =
    let t : ℕ = char_at 10 text in
    if ltb (length text) 20
      || (not (char_at 4 text == 45)
          || (not (char_at 7 text == 45)
              || (not ((t == 84) || ((t == 116) || (t == 32)))
                  || (not (char_at 13 text == 58) || not (char_at 16 text == 58)))))
    then err bad_parse
    else scan_date text >>= λ date. parse_fraction (drop 19 text) >>= λ fraction.
        parse_zone fraction.1 >>= λ zone. utc_tick (record date.0 { microsecond = fraction.0 }) zone

-- "%*3s, %2hu %3s %4hu %2hu:%2hu:%2hu %7s": the date and the zone.
unfoldable pub scan_rfc2822 : List ℕ → Scanned (RtcDateTime × List ℕ)
scan_rfc2822 text = scan_word 3 text >>= λ weekday. scan_char 44 weekday.1 >>= λ t1.
    scan_u16 2 t1.1 >>= λ day. scan_word 3 day.1 >>= λ month. scan_u16 4 month.1 >>= λ year.
    scan_u16 2 year.1 >>= λ hour. scan_char 58 hour.1 >>= λ t2. scan_u16 2 t2.1 >>= λ minute.
    scan_char 58 minute.1 >>= λ t3. scan_u16 2 t3.1 >>= λ second. scan_word 7 second.1 >>= λ zone.
    ok (
      (
        record {
          year = year.0;
          month = month_from_name month.0;
          day = day.0;
          hour = hour.0;
          minute = minute.0;
          second = second.0;
          microsecond = 0;
        },
        zone.0,
      ),
      zone.1,
    )

-- A zone such as "-0130", in minutes. A field of it may have a sign of its own.
unfoldable pub numeric_zone : List ℕ → Result RtcError ℤ
numeric_zone zone =
    let c : ℕ = char_at 0 zone in
    if not ((c == 43) || (c == 45)) || not (length zone == 5)
    then err bad_parse
    else scan_int 2 (drop 1 zone) >>= λ hour. scan_int 2 hour.1 >>= λ minute.
        if ltb_ℤ (pos 23) hour.0 || ltb_ℤ (pos 59) minute.0
        then err bad_parse
        else let offset : ℤ = hour.0 *ℤ 60 +ℤ minute.0 in
          ok (if c == 45 then pos 0 -ℤ offset else offset)

-- "%*3s %3s %2hu %2hu:%2hu:%2hu %4hu"
unfoldable pub scan_asctime : List ℕ → Scanned RtcDateTime
scan_asctime text = scan_word 3 text >>= λ weekday. scan_word 3 weekday.1 >>= λ month.
    scan_u16 2 month.1 >>= λ day. scan_u16 2 day.1 >>= λ hour. scan_char 58 hour.1 >>= λ t1.
    scan_u16 2 t1.1 >>= λ minute. scan_char 58 minute.1 >>= λ t2. scan_u16 2 t2.1 >>= λ second.
    scan_u16 4 second.1 >>= λ year. ok (
      record {
        year = year.0;
        month = month_from_name month.0;
        day = day.0;
        hour = hour.0;
        minute = minute.0;
        second = second.0;
        microsecond = 0;
      },
      year.1,
    )

unfoldable pub has_char : ℕ → List ℕ → Bool
has_char c [] = false
has_char c (d ∷ text) = (d == c) || has_char c text

unfoldable pub parse_datetime : List ℕ → Result RtcError ℕ
parse_datetime text =
    if leb 19 (length text) && ((char_at 4 text == 45) && (char_at 7 text == 45))
    then parse_rfc3339 text
    else if has_char 44 text
    then (scan_rfc2822 text >>= λ scanned.
        numeric_zone scanned.0.1 >>= λ offset. utc_tick scanned.0.0 offset)
    else (scan_asctime text >>= λ date. utc_tick date.0 (pos 0))
