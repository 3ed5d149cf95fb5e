-- ===== src/Rtc/Shift/Laws.antt =====
-- What moving a tick comes to (hw/i386/shadps4-hle.c).
use native.Mathlib.Nat.{zero-mul}
use qemu_dll_shadps.Base.{
  ℕ, zero, suc, ◌+◌, ◌-◌, ◌*◌, ◌≤◌, ◌≡◌, ◌∙◌, ap, if◌then◌else◌, ℤ, pos, negsuc, pos_part, ◌+ℤ◌,
  ◌-ℤ◌, ◌*ℤ◌, quot, Result, ok, err, arith,
}
use qemu_dll_shadps.Rtc.Dates.{RtcError, invalid_value, RtcDateTime, IsDateTime}
use qemu_dll_shadps.Rtc.Days.{era_of}
use qemu_dll_shadps.Rtc.Ticks.{max_ticks}
use qemu_dll_shadps.Rtc.Clocks.{out_of_range}
use qemu_dll_shadps.Rtc.Shift.{add_ticks, move_date, shift_months, shift_years}

abbrev sum_in_range : ℕ → ℤ → Result RtcError ℕ
sum_in_range tick z =
    if out_of_range (pos tick +ℤ z) then err invalid_value else ok (pos_part (pos tick +ℤ z))

back :
    (tick sum : ℕ) (z : ℤ)
    → tick ≤ max_ticks
    → sum_in_range tick z ≡ ok sum
    → sum_in_range sum (pos 0 -ℤ z) ≡ ok tick
unfolding ◌+ℤ◌ ◌-ℤ◌
back tick sum (pos n) h e = ground arith
back tick sum (negsuc n) h e = ground arith

opposite : (a : ℤ) (n : ℕ) → (pos 0 -ℤ a) *ℤ n ≡ pos 0 -ℤ a *ℤ n
unfolding ◌-ℤ◌ ◌*ℤ◌
opposite (pos zero) n = let e = zero-mul n in ground arith
opposite (pos (suc a)) n = let e = zero-mul n in ground arith
opposite (negsuc a) n = let e = zero-mul n in ground arith

-- Adding a number and then its opposite gives the tick back.
pub add_ticks-inverse :
    (tick scale : ℕ) (amount : ℤ) {sum : ℕ}
    → tick ≤ max_ticks
    → add_ticks tick amount scale ≡ ok sum
    → add_ticks sum (pos 0 -ℤ amount) scale ≡ ok tick
unfolding add_ticks
add_ticks-inverse tick scale amount {sum} h e =
    let e' : sum_in_range tick (amount *ℤ scale) ≡ ok sum = e in
    ap (sum_in_range sum) (opposite amount scale) ∙ back tick sum (amount *ℤ scale) h e'

year_of_sum :
    (years : ℤ) (year month : ℕ)
    → (1 ≤ month) × (month ≤ 12)
    → 1 ≤ year
    → (era_of (pos (year * 12 + month - 1) +ℤ years *ℤ 12) 12 ≡ pos year +ℤ years)
      × (pos (year * 12 + month - 1) +ℤ years *ℤ 12 -ℤ (pos year +ℤ years) *ℤ 12 +ℤ pos 1
          ≡ pos month)
unfolding era_of ◌+ℤ◌ ◌*ℤ◌ ◌-ℤ◌ quot
year_of_sum (pos n) year month h k = ground arith
year_of_sum (negsuc n) year month h k = ground arith

-- Adding twelve months for each of some years to a valid date is adding the years, errors included.
pub shift_months-shift_years :
    (date : RtcDateTime) (years : ℤ)
    → IsDateTime date
    → shift_months date (years *ℤ 12) ≡ shift_years date years
unfolding shift_months shift_years
shift_months-shift_years date years h =
    let (year_is, month_is) =
      year_of_sum years date.year date.month h.of_day.month_in h.of_day.year_in.0 in
    rw year_is (ap (move_date date (pos date.year +ℤ years)) month_is)
