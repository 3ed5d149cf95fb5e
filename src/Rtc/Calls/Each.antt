-- ===== src/Rtc/Calls/Each.antt =====
-- Each RTC service of hw/i386/shadps4-hle.c leaves memory below the user's part as it is.
use qemu_dll_shadps.Base.{ℕ, Bool, inl, inr, List, ◌==◌, ℤ, Result, Bool-cases}
use qemu_dll_shadps.Gpu.Guest.{GuestMemory, IsGuest}
use qemu_dll_shadps.Rtc.Dates.{
  RtcError, RtcDateTime, invalid_pointer, invalid_value, invalid_year, datetime_uninitialized,
  validate,
}
use qemu_dll_shadps.Rtc.Ticks.{date_to_tick, tick_to_date}
use qemu_dll_shadps.Rtc.Memory.{
  read_string, read_tick, read_date, write_tick, write_date, user_write,
}
use qemu_dll_shadps.Rtc.Services.{
  from_dos_time, from_time_t, from_filetime, check_valid, compare_tick, copy_tick, get_dos_time,
  with_tick, get_tick, get_time_t, get_filetime, store_date, set_dos_time, set_tick, set_count,
  set_time_t, set_filetime,
}
use qemu_dll_shadps.Rtc.Clocks.{Rtc, Clock, now, current_tick, current_clock}
use qemu_dll_shadps.Rtc.Shift.{rtc_add, add_to_date, moved_tick, add_ticks}
use qemu_dll_shadps.Rtc.Text.Format.{write_string, chosen_tick, format_tick, format}
use qemu_dll_shadps.Rtc.Calls.{parse_text}
use qemu_dll_shadps.Rtc.Calls.Frame.{
  Keeps, Keeps-refl, user_write-Keeps, checked-Keeps, write_date-Keeps, write_tick-Keeps,
  answer-Keeps, reading-Keeps, given-Keeps, unless-Keeps, stores,
}

module _ {M : Type 0} (guest : GuestMemory M) (peek : M → ℕ → ℕ)
    (is_guest : IsGuest guest peek) where
  abbrev pub Same : M → M → Type 0
  Same m m' = Keeps guest peek is_guest m m'

  -- The writes of the services.
  tick_kept : (m : M) (a tick : ℕ) → Same m (write_tick guest m a tick).1
  tick_kept = write_tick-Keeps guest peek is_guest

  date_kept : (m : M) (a : ℕ) (date : RtcDateTime) → Same m (write_date guest m a date).1
  date_kept = write_date-Keeps guest peek is_guest

  pub check_valid-Keeps : (m : M) (a0 : ℕ) → Same m (check_valid guest m a0).memory
  unfolding check_valid
  check_valid-Keeps m a0 =
      reading-Keeps guest peek is_guest (read_date guest m a0) m _
        λ date. Keeps-refl guest peek is_guest m

  pub compare_tick-Keeps : (m : M) (a0 a1 : ℕ) → Same m (compare_tick guest m a0 a1).memory
  unfolding compare_tick
  compare_tick-Keeps m a0 a1 = reading-Keeps guest peek is_guest (read_tick guest m a0) m _ λ left.
      reading-Keeps guest peek is_guest (read_tick guest m a1) m _
        λ right. Keeps-refl guest peek is_guest m

  pub copy_tick-Keeps : (m : M) (a0 a1 : ℕ) → Same m (copy_tick guest m a0 a1).memory
  unfolding copy_tick
  copy_tick-Keeps m a0 a1 = reading-Keeps guest peek is_guest (read_tick guest m a0) m _ λ tick.
      unless-Keeps guest peek is_guest (a1 == 0) invalid_pointer m _
        (answer-Keeps guest peek is_guest m _ (tick_kept m a1 tick))

  pub get_dos_time-Keeps : (m : M) (a0 a1 : ℕ) → Same m (get_dos_time guest m a0 a1).memory
  unfolding get_dos_time
  get_dos_time-Keeps m a0 a1 = reading-Keeps guest peek is_guest (read_date guest m a0) m _ λ date.
      unless-Keeps guest peek is_guest (a1 == 0) invalid_pointer m _ (
        given-Keeps guest peek is_guest (validate date) m _ λ _.
          unless-Keeps guest peek is_guest _ invalid_year m _
            (answer-Keeps guest peek is_guest m _ (user_write-Keeps guest peek is_guest m a1 _)))

  pub with_tick-Keeps :
      (m : M) (a0 a1 : ℕ) (store : ℕ → Bool × M)
      → ((tick : ℕ) → Same m (store tick).1)
      → Same m (with_tick guest m a0 a1 store).memory
  with_tick-Keeps m a0 a1 store h =
      reading-Keeps guest peek is_guest (read_date guest m a0) m _ λ date.
        unless-Keeps guest peek is_guest (a1 == 0) invalid_pointer m _
          (stores guest peek is_guest (date_to_tick date) m store h)

  pub get_tick-Keeps : (m : M) (a0 a1 : ℕ) → Same m (get_tick guest m a0 a1).memory
  unfolding get_tick
  get_tick-Keeps m a0 a1 = with_tick-Keeps m a0 a1 (write_tick guest m a1) (tick_kept m a1)

  pub get_time_t-Keeps : (m : M) (a0 a1 : ℕ) → Same m (get_time_t guest m a0 a1).memory
  unfolding get_time_t
  get_time_t-Keeps m a0 a1 =
      with_tick-Keeps m a0 a1 _ λ tick. user_write-Keeps guest peek is_guest m a1 _

  pub get_filetime-Keeps : (m : M) (a0 a1 : ℕ) → Same m (get_filetime guest m a0 a1).memory
  unfolding get_filetime
  get_filetime-Keeps m a0 a1 =
      with_tick-Keeps m a0 a1 _ λ tick. user_write-Keeps guest peek is_guest m a1 _

  pub set_dos_time-Keeps : (m : M) (a0 a1 : ℕ) → Same m (set_dos_time guest m a0 a1).memory
  unfolding set_dos_time
  set_dos_time-Keeps m a0 a1 =
      stores guest peek is_guest (validate (from_dos_time a1)) m _ λ _. date_kept m a0 _

  pub store_date-Keeps : (m : M) (a0 tick : ℕ) → Same m (store_date guest m a0 tick).memory
  store_date-Keeps m a0 tick =
      stores guest peek is_guest (tick_to_date tick) m (write_date guest m a0) (date_kept m a0)

  pub set_tick-Keeps : (m : M) (a0 a1 : ℕ) → Same m (set_tick guest m a0 a1).memory
  unfolding set_tick
  set_tick-Keeps m a0 a1 = unless-Keeps guest peek is_guest (a0 == 0) invalid_pointer m _ (
      reading-Keeps guest peek is_guest (read_tick guest m a1) m _
        λ tick. store_date-Keeps m a0 tick)

  pub set_count-Keeps : (m : M) (a0 a1 tick : ℕ) → Same m (set_count guest m a0 a1 tick).memory
  set_count-Keeps m a0 a1 tick =
      unless-Keeps guest peek is_guest (a0 == 0) invalid_pointer m _
        (unless-Keeps guest peek is_guest _ invalid_value m _ (store_date-Keeps m a0 tick))

  pub set_time_t-Keeps : (m : M) (a0 a1 : ℕ) → Same m (set_time_t guest m a0 a1).memory
  unfolding set_time_t
  set_time_t-Keeps m a0 a1 = set_count-Keeps m a0 a1 (from_time_t a1)

  pub set_filetime-Keeps : (m : M) (a0 a1 : ℕ) → Same m (set_filetime guest m a0 a1).memory
  unfolding set_filetime
  set_filetime-Keeps m a0 a1 = set_count-Keeps m a0 a1 (from_filetime a1)

  pub rtc_add-Keeps :
      (m : M) (output input : ℕ) (amount : ℤ) (scale : ℕ)
      → Same m (rtc_add guest m output input amount scale).memory
  unfolding rtc_add
  rtc_add-Keeps m output input amount scale =
      reading-Keeps guest peek is_guest (read_tick guest m input) m _ λ tick.
        unless-Keeps guest peek is_guest (output == 0) invalid_pointer m _ (
          stores guest peek is_guest (add_ticks tick amount scale) m (write_tick guest m output)
            (tick_kept m output))

  pub add_to_date-Keeps :
      (shift : RtcDateTime → ℤ → Result RtcError RtcDateTime) (m : M) (a0 a1 : ℕ) (amount : ℤ)
      → Same m (add_to_date guest shift m a0 a1 amount).memory
  unfolding add_to_date
  add_to_date-Keeps shift m a0 a1 amount =
      unless-Keeps guest peek is_guest (a0 == 0) invalid_pointer m _ (
        reading-Keeps guest peek is_guest (read_tick guest m a1) m _ λ tick.
          stores guest peek is_guest (moved_tick (λ date. shift date amount) tick) m
            (write_tick guest m a0) (tick_kept m a0))

  pub parse_text-Keeps :
      (parse : List ℕ → Result RtcError ℕ) (m : M) (a0 a1 : ℕ)
      → Same m (parse_text guest parse m a0 a1).memory
  unfolding parse_text
  parse_text-Keeps parse m a0 a1 = unless-Keeps guest peek is_guest _ invalid_pointer m _ (
      reading-Keeps guest peek is_guest (read_string guest m a1 64) m _
        λ text. stores guest peek is_guest (parse text) m (write_tick guest m a0) (tick_kept m a0))

  pub format-Keeps :
      (ns : ℕ) (rtc : Rtc) (m : M) (output tick_address : ℕ) (timezone : ℤ) (rfc2822 : Bool)
      → Same m (format guest ns rtc m output tick_address timezone rfc2822).memory
  unfolding format write_string
  format-Keeps ns rtc m output tick_address timezone rfc2822 =
      unless-Keeps guest peek is_guest (output == 0) invalid_pointer m _ (
        unless-Keeps guest peek is_guest _ invalid_value m _ (
          reading-Keeps guest peek is_guest (chosen_tick guest ns rtc m tick_address) m _ λ tick.
            stores guest peek is_guest (format_tick rfc2822 tick timezone) m _ λ value.
              checked-Keeps guest peek is_guest m output (user_write guest m output _)
                (user_write-Keeps guest peek is_guest m output _)))

  pub current_tick-Keeps :
      (ns : ℕ) (rtc : Rtc) (clock : Clock) (m : M) (a0 : ℕ)
      → Same m (current_tick guest ns rtc clock m a0).memory
  unfolding current_tick
  current_tick-Keeps ns rtc clock m a0 =
      elim (Bool-cases (write_tick guest m a0 (now ns rtc clock)).0) [
        | inl stored ↦ rw stored (tick_kept m a0 (now ns rtc clock))
        | inr refused ↦ rw refused (tick_kept m a0 (now ns rtc clock))
      ]

  pub current_clock-Keeps :
      (ns : ℕ) (rtc : Rtc) (timezone : ℤ) (m : M) (a0 : ℕ)
      → Same m (current_clock guest ns rtc timezone m a0).memory
  unfolding current_clock
  current_clock-Keeps ns rtc timezone m a0 =
      unless-Keeps guest peek is_guest (a0 == 0) datetime_uninitialized m _ (
        unless-Keeps guest peek is_guest _ invalid_value m _
          (stores guest peek is_guest (tick_to_date _) m (write_date guest m a0) (date_kept m a0)))
