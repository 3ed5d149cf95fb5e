-- ===== src/Rtc/Calls/Safety.antt =====
-- No RTC service of hw/i386/shadps4-hle.c touches memory below the user's part, and each keeps the
-- four clocks.
use qemu_dll_shadps.Base.{
  ℕ, ◌*◌, ◌<◌, ◌≡◌, ◌||◌, inl, inr, true, false, ltb, leb, pos, signed64, Bool-cases, Option-cases,
}
use qemu_dll_shadps.Gpu.Guest.{GuestMemory, IsGuest}
use qemu_dll_shadps.Rtc.Ticks.{day_ticks, unix_epoch_ticks, max_ticks}
use qemu_dll_shadps.Rtc.Memory.{guest_user_min, read_tick}
use qemu_dll_shadps.Rtc.Clocks.{Rtc, Clock, user, network, debug, ad, set_conf, set_current_tick}
use qemu_dll_shadps.Rtc.Clocks.Laws.{IsRtc, set_clock-IsRtc}
use qemu_dll_shadps.Rtc.Shift.{shift_months, shift_years}
use qemu_dll_shadps.Rtc.Text.Parse.{parse_rfc3339, parse_datetime}
use qemu_dll_shadps.Rtc.Calls.{
  Service, Args, int32, rtc_service, rtc_check_valid, rtc_compare_tick, rtc_copy_tick,
  rtc_format_rfc2822, rtc_format_rfc2822_local, rtc_format_rfc3339, rtc_format_rfc3339_local,
  rtc_current_tick, rtc_current_network_tick, rtc_current_debug_tick, rtc_current_ad_tick,
  rtc_current_raw_network_tick, rtc_current_clock, rtc_current_clock_local, rtc_get_day_of_week,
  rtc_get_days_in_month, rtc_get_dos_time, rtc_get_tick, rtc_get_tick_resolution, rtc_get_time_t,
  rtc_get_filetime, rtc_is_leap_year, rtc_parse_datetime, rtc_parse_rfc3339, rtc_set_current_tick,
  rtc_set_current_network_tick, rtc_set_current_debug_tick, rtc_set_current_ad_tick,
  rtc_set_dos_time, rtc_set_tick, rtc_set_time_t, rtc_set_filetime, rtc_set_conf, rtc_add_days,
  rtc_add_hours, rtc_add_microseconds, rtc_add_minutes, rtc_add_months, rtc_add_seconds,
  rtc_add_ticks, rtc_add_weeks, rtc_add_years,
}
use qemu_dll_shadps.Rtc.Calls.Each.{
  Same, check_valid-Keeps, compare_tick-Keeps, copy_tick-Keeps, get_dos_time-Keeps, get_tick-Keeps,
  get_time_t-Keeps, get_filetime-Keeps, set_dos_time-Keeps, set_tick-Keeps, set_time_t-Keeps,
  set_filetime-Keeps, rtc_add-Keeps, add_to_date-Keeps, parse_text-Keeps, format-Keeps,
  current_tick-Keeps, current_clock-Keeps,
}
use qemu_dll_shadps.Rtc.Calls.Frame.{Keeps-refl}

module _ {M : Type 0} (guest : GuestMemory M) (peek : M → ℕ → ℕ)
    (is_guest : IsGuest guest peek) where
  -- Whatever the service, guest memory below the user's part is as before.
  rtc_service-Keeps :
      (ns : ℕ) (service : Service) (args : Args) (rtc : Rtc) (m : M)
      → Same guest peek is_guest m (rtc_service guest ns service args rtc m).memory
  unfolding rtc_service
  rtc_service-Keeps ns rtc_check_valid args rtc m = check_valid-Keeps guest peek is_guest m args.a0
  rtc_service-Keeps ns rtc_compare_tick args rtc m =
      compare_tick-Keeps guest peek is_guest m args.a0 args.a1
  rtc_service-Keeps ns rtc_copy_tick args rtc m =
      copy_tick-Keeps guest peek is_guest m args.a0 args.a1
  rtc_service-Keeps ns rtc_format_rfc2822 args rtc m =
      format-Keeps guest peek is_guest ns rtc m args.a0 args.a1 (int32 args.a2) true
  rtc_service-Keeps ns rtc_format_rfc2822_local args rtc m =
      format-Keeps guest peek is_guest ns rtc m args.a0 args.a1 (pos 0) true
  rtc_service-Keeps ns rtc_format_rfc3339 args rtc m =
      format-Keeps guest peek is_guest ns rtc m args.a0 args.a1 (int32 args.a2) false
  rtc_service-Keeps ns rtc_format_rfc3339_local args rtc m =
      format-Keeps guest peek is_guest ns rtc m args.a0 args.a1 (pos 0) false
  rtc_service-Keeps ns rtc_current_tick args rtc m =
      current_tick-Keeps guest peek is_guest ns rtc user m args.a0
  rtc_service-Keeps ns rtc_current_network_tick args rtc m =
      current_tick-Keeps guest peek is_guest ns rtc network m args.a0
  rtc_service-Keeps ns rtc_current_debug_tick args rtc m =
      current_tick-Keeps guest peek is_guest ns rtc debug m args.a0
  rtc_service-Keeps ns rtc_current_ad_tick args rtc m =
      current_tick-Keeps guest peek is_guest ns rtc ad m args.a0
  rtc_service-Keeps ns rtc_current_raw_network_tick args rtc m =
      current_tick-Keeps guest peek is_guest ns rtc user m args.a0
  rtc_service-Keeps ns rtc_current_clock args rtc m =
      current_clock-Keeps guest peek is_guest ns rtc (int32 args.a1) m args.a0
  rtc_service-Keeps ns rtc_current_clock_local args rtc m =
      current_clock-Keeps guest peek is_guest ns rtc (pos 0) m args.a0
  rtc_service-Keeps ns rtc_get_day_of_week args rtc m = Keeps-refl guest peek is_guest m
  rtc_service-Keeps ns rtc_get_days_in_month args rtc m = Keeps-refl guest peek is_guest m
  rtc_service-Keeps ns rtc_get_dos_time args rtc m =
      get_dos_time-Keeps guest peek is_guest m args.a0 args.a1
  rtc_service-Keeps ns rtc_get_tick args rtc m =
      get_tick-Keeps guest peek is_guest m args.a0 args.a1
  rtc_service-Keeps ns rtc_get_tick_resolution args rtc m = Keeps-refl guest peek is_guest m
  rtc_service-Keeps ns rtc_get_time_t args rtc m =
      get_time_t-Keeps guest peek is_guest m args.a0 args.a1
  rtc_service-Keeps ns rtc_get_filetime args rtc m =
      get_filetime-Keeps guest peek is_guest m args.a0 args.a1
  rtc_service-Keeps ns rtc_is_leap_year args rtc m = Keeps-refl guest peek is_guest m
  rtc_service-Keeps ns rtc_parse_datetime args rtc m =
      parse_text-Keeps guest peek is_guest parse_datetime m args.a0 args.a1
  rtc_service-Keeps ns rtc_parse_rfc3339 args rtc m =
      parse_text-Keeps guest peek is_guest parse_rfc3339 m args.a0 args.a1
  rtc_service-Keeps ns rtc_set_current_tick args rtc m = Keeps-refl guest peek is_guest m
  rtc_service-Keeps ns rtc_set_current_network_tick args rtc m = Keeps-refl guest peek is_guest m
  rtc_service-Keeps ns rtc_set_current_debug_tick args rtc m = Keeps-refl guest peek is_guest m
  rtc_service-Keeps ns rtc_set_current_ad_tick args rtc m = Keeps-refl guest peek is_guest m
  rtc_service-Keeps ns rtc_set_dos_time args rtc m =
      set_dos_time-Keeps guest peek is_guest m args.a0 args.a1
  rtc_service-Keeps ns rtc_set_tick args rtc m =
      set_tick-Keeps guest peek is_guest m args.a0 args.a1
  rtc_service-Keeps ns rtc_set_time_t args rtc m =
      set_time_t-Keeps guest peek is_guest m args.a0 args.a1
  rtc_service-Keeps ns rtc_set_filetime args rtc m =
      set_filetime-Keeps guest peek is_guest m args.a0 args.a1
  rtc_service-Keeps ns rtc_set_conf args rtc m = Keeps-refl guest peek is_guest m
  rtc_service-Keeps ns rtc_add_days args rtc m =
      rtc_add-Keeps guest peek is_guest m args.a0 args.a1 (int32 args.a2) day_ticks
  rtc_service-Keeps ns rtc_add_hours args rtc m =
      rtc_add-Keeps guest peek is_guest m args.a0 args.a1 (int32 args.a2) 3600000000
  rtc_service-Keeps ns rtc_add_microseconds args rtc m =
      rtc_add-Keeps guest peek is_guest m args.a0 args.a1 (signed64 args.a2) 1
  rtc_service-Keeps ns rtc_add_minutes args rtc m =
      rtc_add-Keeps guest peek is_guest m args.a0 args.a1 (signed64 args.a2) 60000000
  rtc_service-Keeps ns rtc_add_months args rtc m =
      add_to_date-Keeps guest peek is_guest shift_months m args.a0 args.a1 (int32 args.a2)
  rtc_service-Keeps ns rtc_add_seconds args rtc m =
      rtc_add-Keeps guest peek is_guest m args.a0 args.a1 (signed64 args.a2) 1000000
  rtc_service-Keeps ns rtc_add_ticks args rtc m =
      rtc_add-Keeps guest peek is_guest m args.a0 args.a1 (signed64 args.a2) 1
  rtc_service-Keeps ns rtc_add_weeks args rtc m =
      rtc_add-Keeps guest peek is_guest m args.a0 args.a1 (int32 args.a2) (7 * day_ticks)
  rtc_service-Keeps ns rtc_add_years args rtc m =
      add_to_date-Keeps guest peek is_guest shift_years m args.a0 args.a1 (int32 args.a2)

  set_current_tick-IsRtc :
      (ns : ℕ) (clock : Clock) (m : M) (a0 : ℕ) (rtc : Rtc)
      → IsRtc rtc
      → IsRtc (set_current_tick guest ns clock m a0 rtc).1
  unfolding set_current_tick
  set_current_tick-IsRtc ns clock m a0 rtc h = elim (Option-cases (read_tick guest m a0)) [
    | inl unread ↦ rw (set_current_tick, unread) h
    | inr (tick, read) ↦ elim (Bool-cases (leb tick unix_epoch_ticks || ltb max_ticks tick)) [
      | inl outside ↦ rw (set_current_tick, read, outside) h
      | inr within ↦ rw (set_current_tick, read, within) (set_clock-IsRtc ns rtc clock tick h)
    ]
  ]

  rtc_service-IsRtc :
      (ns : ℕ) (service : Service) (args : Args) (rtc : Rtc) (m : M)
      → IsRtc rtc
      → IsRtc (rtc_service guest ns service args rtc m).rtc
  unfolding rtc_service set_conf
  rtc_service-IsRtc ns rtc_check_valid args rtc m h = h
  rtc_service-IsRtc ns rtc_compare_tick args rtc m h = h
  rtc_service-IsRtc ns rtc_copy_tick args rtc m h = h
  rtc_service-IsRtc ns rtc_format_rfc2822 args rtc m h = h
  rtc_service-IsRtc ns rtc_format_rfc2822_local args rtc m h = h
  rtc_service-IsRtc ns rtc_format_rfc3339 args rtc m h = h
  rtc_service-IsRtc ns rtc_format_rfc3339_local args rtc m h = h
  rtc_service-IsRtc ns rtc_current_tick args rtc m h = h
  rtc_service-IsRtc ns rtc_current_network_tick args rtc m h = h
  rtc_service-IsRtc ns rtc_current_debug_tick args rtc m h = h
  rtc_service-IsRtc ns rtc_current_ad_tick args rtc m h = h
  rtc_service-IsRtc ns rtc_current_raw_network_tick args rtc m h = h
  rtc_service-IsRtc ns rtc_current_clock args rtc m h = h
  rtc_service-IsRtc ns rtc_current_clock_local args rtc m h = h
  rtc_service-IsRtc ns rtc_get_day_of_week args rtc m h = h
  rtc_service-IsRtc ns rtc_get_days_in_month args rtc m h = h
  rtc_service-IsRtc ns rtc_get_dos_time args rtc m h = h
  rtc_service-IsRtc ns rtc_get_tick args rtc m h = h
  rtc_service-IsRtc ns rtc_get_tick_resolution args rtc m h = h
  rtc_service-IsRtc ns rtc_get_time_t args rtc m h = h
  rtc_service-IsRtc ns rtc_get_filetime args rtc m h = h
  rtc_service-IsRtc ns rtc_is_leap_year args rtc m h = h
  rtc_service-IsRtc ns rtc_parse_datetime args rtc m h = h
  rtc_service-IsRtc ns rtc_parse_rfc3339 args rtc m h = h
  rtc_service-IsRtc ns rtc_set_current_tick args rtc m h =
      set_current_tick-IsRtc ns user m args.a0 rtc h
  rtc_service-IsRtc ns rtc_set_current_network_tick args rtc m h =
      set_current_tick-IsRtc ns network m args.a0 rtc h
  rtc_service-IsRtc ns rtc_set_current_debug_tick args rtc m h =
      set_current_tick-IsRtc ns debug m args.a0 rtc h
  rtc_service-IsRtc ns rtc_set_current_ad_tick args rtc m h =
      set_current_tick-IsRtc ns ad m args.a0 rtc h
  rtc_service-IsRtc ns rtc_set_dos_time args rtc m h = h
  rtc_service-IsRtc ns rtc_set_tick args rtc m h = h
  rtc_service-IsRtc ns rtc_set_time_t args rtc m h = h
  rtc_service-IsRtc ns rtc_set_filetime args rtc m h = h
  rtc_service-IsRtc ns rtc_set_conf args rtc m h = record { clocks = h.clocks }
  rtc_service-IsRtc ns rtc_add_days args rtc m h = h
  rtc_service-IsRtc ns rtc_add_hours args rtc m h = h
  rtc_service-IsRtc ns rtc_add_microseconds args rtc m h = h
  rtc_service-IsRtc ns rtc_add_minutes args rtc m h = h
  rtc_service-IsRtc ns rtc_add_months args rtc m h = h
  rtc_service-IsRtc ns rtc_add_seconds args rtc m h = h
  rtc_service-IsRtc ns rtc_add_ticks args rtc m h = h
  rtc_service-IsRtc ns rtc_add_weeks args rtc m h = h
  rtc_service-IsRtc ns rtc_add_years args rtc m h = h

-- With four clocks, no service of the RTC, whatever its arguments, changes a byte of guest memory
-- below 64 MiB, and each leaves four clocks.
pub rtc_service-frame :
    {M : Type 0} (guest : GuestMemory M) (peek : M → ℕ → ℕ) (is_guest : IsGuest guest peek) (ns : ℕ)
    (service : Service) (args : Args) (rtc : Rtc) (m : M) (x : ℕ)
    → IsRtc rtc
    → x < guest_user_min
    → (peek (rtc_service guest ns service args rtc m).memory x ≡ peek m x)
      × IsRtc (rtc_service guest ns service args rtc m).rtc
rtc_service-frame guest peek is_guest ns service args rtc m x h low = (
  (rtc_service-Keeps guest peek is_guest ns service args rtc m).same x low,
  rtc_service-IsRtc guest peek is_guest ns service args rtc m h,
)
