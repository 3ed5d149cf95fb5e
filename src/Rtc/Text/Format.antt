-- ===== src/Rtc/Text/Format.antt =====
-- shadps4_rtc_format and shadps4_rtc_write_string of hw/i386/shadps4-hle.c.
use qemu_dll_shadps.Base.{
  ℕ, zero, suc, ◌+◌, ◌-◌, ◌/◌, ◌%◌, Bool, false, Option, some, List, [], ◌∷◌, ◌++◌, ◌==◌,
  if◌then◌else◌, codes, ℤ, pos, pos_part, neg_part, ltb_ℤ, Result, ok, err, ◌>>=◌,
}
use qemu_dll_shadps.Gpu.Guest.{GuestMemory}
use qemu_dll_shadps.Rtc.Dates.{RtcError, invalid_value, RtcDateTime}
use qemu_dll_shadps.Rtc.Days.{days_from_civil}
use qemu_dll_shadps.Rtc.Ticks.{tick_to_date}
use qemu_dll_shadps.Rtc.Memory.{
  read_tick, user_write, Reply, answer, reading, given, unless_null, unless,
}
use qemu_dll_shadps.Rtc.Services.{weekday}
use qemu_dll_shadps.Rtc.Clocks.{Rtc, user, now, no_timezone, local_tick, out_of_range}
use qemu_dll_shadps.Rtc.Text.{month_names, weekday_names, name_at}

-- `%0<n>u` of a number that has at most `n` digits, as the fields of a date have.
unfoldable pub digits : ℕ → ℕ → List ℕ
digits zero v = []
digits (suc n) v = digits n (v / 10) ++ (48 + v % 10) ∷ []

abbrev pub magnitude : ℤ → ℕ
magnitude z = pos_part z + neg_part z

abbrev pub sign_of : ℤ → ℕ
sign_of timezone = if ltb_ℤ timezone (pos 0) then 45 else 43

-- The zone of a text, with a colon between hours and minutes or without.
unfoldable pub format_zone : Bool → ℤ → List ℕ
format_zone rfc2822 timezone =
    let minutes : ℕ = magnitude timezone in
    if minutes == 0
    then (if rfc2822 then codes "+0000" else codes "Z")
    else if rfc2822
    then sign_of timezone ∷ digits 2 (minutes / 60) ++ digits 2 (minutes % 60)
    else sign_of timezone ∷ digits 2 (minutes / 60) ++ 58 ∷ digits 2 (minutes % 60)

-- "%04u-%02u-%02uT%02u:%02u:%02u.%06u%s"
unfoldable pub rfc3339_text : RtcDateTime → List ℕ → List ℕ
rfc3339_text date zone =
    digits 4 date.year
    ++ 45 ∷ digits 2 date.month
    ++ 45 ∷ digits 2 date.day
    ++ 84 ∷ digits 2 date.hour
    ++ 58 ∷ digits 2 date.minute
    ++ 58 ∷ digits 2 date.second
    ++ 46 ∷ digits 6 date.microsecond
    ++ zone

-- "%.3s, %02u %.3s %04u %02u:%02u:%02u %s"
unfoldable pub rfc2822_text : RtcDateTime → List ℕ → List ℕ
rfc2822_text date zone =
    name_at weekday_names (weekday (days_from_civil (pos date.year) date.month date.day))
    ++ 44 ∷ 32 ∷ digits 2 date.day
    ++ 32 ∷ name_at month_names (date.month - 1)
    ++ 32 ∷ digits 4 date.year
    ++ 32 ∷ digits 2 date.hour
    ++ 58 ∷ digits 2 date.minute
    ++ 58 ∷ digits 2 date.second
    ++ 32 ∷ zone

-- The text of a tick in a zone.
unfoldable pub format_tick : Bool → ℕ → ℤ → Result RtcError (List ℕ)
format_tick rfc2822 tick timezone =
    let local : ℤ = local_tick tick timezone in
    if out_of_range local
    then err invalid_value
    else (tick_to_date (pos_part local) >>= λ date.
        let zone : List ℕ = format_zone rfc2822 timezone in
        ok (if rfc2822 then rfc2822_text date zone else rfc3339_text date zone))

module _ {M : Type 0} (guest : GuestMemory M) where
  -- The text and the NUL after it.
  unfoldable pub write_string : M → ℕ → List ℕ → Bool × M
  write_string m address value =
      if address == 0 then (false, m) else user_write guest m address (value ++ 0 ∷ [])

  -- The tick to format: the one at an address, or the current one.
  unfoldable pub chosen_tick : ℕ → Rtc → M → ℕ → Option ℕ
  chosen_tick ns rtc m tick_address =
      if tick_address == 0 then some (now ns rtc user) else read_tick guest m tick_address

  unfoldable pub format : ℕ → Rtc → M → ℕ → ℕ → ℤ → Bool → Reply M
  format ns rtc m output tick_address timezone rfc2822 = unless_null output m (
      unless (no_timezone timezone) invalid_value m (
        reading (chosen_tick ns rtc m tick_address) m λ tick.
          given (format_tick rfc2822 tick timezone) m
            λ value. answer (write_string m output value)))
