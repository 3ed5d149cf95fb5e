-- ===== src/Rtc/Shift.antt =====
-- Moving a tick (hw/i386/shadps4-hle.c): shadps4_rtc_add, and the services that add months or years.
pub mod Laws
pub mod Moves
use qemu_dll_shadps.Base.{
  ℕ, ◌+◌, ◌-◌, ◌*◌, ◌%◌, ◌^◌, ◌≡◌, ◌||◌, none, some, ltb, ◌==◌, if◌then◌else◌, ℤ, pos, pos_part,
  ltb_ℤ, ◌+ℤ◌, ◌-ℤ◌, ◌*ℤ◌, Result, ok, err, ◌>>=◌,
}
use qemu_dll_shadps.Gpu.Guest.{GuestMemory}
use qemu_dll_shadps.Rtc.Dates.{
  RtcError, invalid_pointer, invalid_value, invalid_year, RtcDateTime, days_in_month,
}
use qemu_dll_shadps.Rtc.Days.{era_of}
use qemu_dll_shadps.Rtc.Ticks.{date_to_tick, tick_to_date}
use qemu_dll_shadps.Rtc.Clocks.{out_of_range}
use qemu_dll_shadps.Rtc.Memory.{read_tick, write_tick, Reply, answer, reading, given, unless_null}

-- The 128-bit sum of shadps4_rtc_add, and its test.
unfoldable pub add_ticks : ℕ → ℤ → ℕ → Result RtcError ℕ
add_ticks tick amount scale =
    let sum : ℤ = pos tick +ℤ amount *ℤ scale in
    if out_of_range sum then err invalid_value else ok (pos_part sum)

-- A date in the month and year that were found, on the last day of the month where it has no such
-- day.
unfoldable pub move_date : RtcDateTime → ℤ → ℤ → Result RtcError RtcDateTime
move_date date year month =
    if ltb_ℤ year (pos 1) || ltb_ℤ (pos 9999) year
    then err invalid_year
    else let y : ℕ = pos_part year in
      let m : ℕ = pos_part month in
      let last : ℕ = days_in_month y m in
      ok (record date { year = y; month = m; day = if ltb last date.day then last else date.day })

unfoldable pub shift_months : RtcDateTime → ℤ → Result RtcError RtcDateTime
shift_months date amount =
    let total : ℤ = pos (date.year * 12 + date.month - 1) +ℤ amount in
    let year : ℤ = era_of total 12 in move_date date year (total -ℤ year *ℤ 12 +ℤ pos 1)

unfoldable pub shift_years : RtcDateTime → ℤ → Result RtcError RtcDateTime
shift_years date amount = move_date date (pos date.year +ℤ amount) (pos date.month)

-- From a tick to the tick of a date that has been moved.
unfoldable pub moved_tick : (RtcDateTime → Result RtcError RtcDateTime) → ℕ → Result RtcError ℕ
moved_tick move tick = tick_to_date tick >>= λ date. move date >>= λ moved. date_to_tick moved

module _ {M : Type 0} (guest : GuestMemory M) where
  unfoldable pub rtc_add : M → ℕ → ℕ → ℤ → ℕ → Reply M
  rtc_add m output input amount scale = reading (read_tick guest m input) m λ tick.
      unless_null output m
        (given (add_ticks tick amount scale) m λ sum. answer (write_tick guest m output sum))

  -- SHADPS4_HLE_RTC_ADD_MONTHS with `shift_months`, SHADPS4_HLE_RTC_ADD_YEARS with `shift_years`.
  unfoldable pub add_to_date :
      (RtcDateTime → ℤ → Result RtcError RtcDateTime) → M → ℕ → ℕ → ℤ → Reply M
  add_to_date shift m a0 a1 amount = unless_null a0 m (
      reading (read_tick guest m a1) m λ tick.
        given (moved_tick (λ date. shift date amount) tick) m
          λ sum. answer (write_tick guest m a0 sum))
