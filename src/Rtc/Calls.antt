-- ===== src/Rtc/Calls.antt =====
-- The RTC services of hw/i386/shadps4-hle.c by their numbers, as its dispatcher calls them.
pub mod Each
pub mod Safety
pub mod Frame
use qemu_dll_shadps.Base.{
  ℕ, ◌*◌, ◌%◌, ◌^◌, ◌||◌, true, false, List, ◌==◌, ℤ, pos, signed32, signed64, Result,
}
use qemu_dll_shadps.Gpu.Guest.{GuestMemory}
use qemu_dll_shadps.Rtc.Dates.{RtcError, invalid_pointer}
use qemu_dll_shadps.Rtc.Ticks.{day_ticks}
use qemu_dll_shadps.Rtc.Memory.{Reply, write_tick, read_string, answer, reading, given, unless}
use qemu_dll_shadps.Rtc.Services.{
  check_valid, compare_tick, copy_tick, get_day_of_week, get_days_in_month, get_dos_time, get_tick,
  get_time_t, get_filetime, is_leap_year, set_dos_time, set_tick, set_time_t, set_filetime,
}
use qemu_dll_shadps.Rtc.Clocks.{
  Rtc, Clock, user, network, debug, ad, set_clock, set_conf, current_tick, current_clock,
  set_current_tick,
}
use qemu_dll_shadps.Rtc.Shift.{shift_months, shift_years, rtc_add, add_to_date}
use qemu_dll_shadps.Rtc.Text.Parse.{parse_rfc3339, parse_datetime}
use qemu_dll_shadps.Rtc.Text.Format.{format}

-- SHADPS4_HLE_RTC_CHECK_VALID and the numbers after it.
pub data Service : Type 0 where
  rtc_check_valid rtc_compare_tick rtc_copy_tick rtc_format_rfc2822 : Service
  rtc_format_rfc2822_local rtc_format_rfc3339 rtc_format_rfc3339_local : Service
  rtc_current_tick rtc_current_network_tick rtc_current_debug_tick rtc_current_ad_tick : Service
  rtc_current_raw_network_tick rtc_current_clock rtc_current_clock_local : Service
  rtc_get_day_of_week rtc_get_days_in_month rtc_get_dos_time rtc_get_tick : Service
  rtc_get_tick_resolution rtc_get_time_t rtc_get_filetime rtc_is_leap_year : Service
  rtc_parse_datetime rtc_parse_rfc3339 rtc_set_current_tick : Service
  rtc_set_current_network_tick rtc_set_current_debug_tick rtc_set_current_ad_tick : Service
  rtc_set_dos_time rtc_set_tick rtc_set_time_t rtc_set_filetime rtc_set_conf : Service
  rtc_add_days rtc_add_hours rtc_add_microseconds rtc_add_minutes rtc_add_months : Service
  rtc_add_seconds rtc_add_ticks rtc_add_weeks rtc_add_years : Service

-- The registers of the call.
pub record Args : Type 0 where
  pub a0 : ℕ
  pub a1 : ℕ
  pub a2 : ℕ
  pub a3 : ℕ

-- What a service returns, and the RTC and the memory that it leaves.
pub record Served (M : Type 0) : Type 0 where
  pub value : ℕ
  pub rtc : Rtc
  pub memory : M

-- The cast to int32_t.
abbrev pub int32 : ℕ → ℤ
int32 a = signed32 (a % 2 ^ 32)

abbrev pub served_by : {M : Type 0} → Rtc → Reply M → Served M
served_by rtc reply = record { value = reply.value; rtc = rtc; memory = reply.memory }

module _ {M : Type 0} (guest : GuestMemory M) where
  -- SHADPS4_HLE_RTC_PARSE_DATETIME and SHADPS4_HLE_RTC_PARSE_RFC3339, with a buffer of 64 bytes.
  unfoldable pub parse_text : (List ℕ → Result RtcError ℕ) → M → ℕ → ℕ → Reply M
  parse_text parse m a0 a1 = unless ((a0 == 0) || (a1 == 0)) invalid_pointer m (
      reading (read_string guest m a1 64) m
        λ text. given (parse text) m λ tick. answer (write_tick guest m a0 tick))

  -- A service that sets a clock.
  abbrev pub set_by : ℕ → Clock → ℕ → Rtc → M → Served M
  set_by ns clock a0 rtc m =
      let (value, rtc') = set_current_tick guest ns clock m a0 rtc in
      record { value = value; rtc = rtc'; memory = m }

  unfoldable pub rtc_service : ℕ → Service → Args → Rtc → M → Served M
  rtc_service ns rtc_check_valid args rtc m = served_by rtc (check_valid guest m args.a0)
  rtc_service ns rtc_compare_tick args rtc m = served_by rtc (compare_tick guest m args.a0 args.a1)
  rtc_service ns rtc_copy_tick args rtc m = served_by rtc (copy_tick guest m args.a0 args.a1)
  rtc_service ns rtc_format_rfc2822 args rtc m =
      served_by rtc (format guest ns rtc m args.a0 args.a1 (int32 args.a2) true)
  rtc_service ns rtc_format_rfc2822_local args rtc m =
      served_by rtc (format guest ns rtc m args.a0 args.a1 (pos 0) true)
  rtc_service ns rtc_format_rfc3339 args rtc m =
      served_by rtc (format guest ns rtc m args.a0 args.a1 (int32 args.a2) false)
  rtc_service ns rtc_format_rfc3339_local args rtc m =
      served_by rtc (format guest ns rtc m args.a0 args.a1 (pos 0) false)
  rtc_service ns rtc_current_tick args rtc m =
      served_by rtc (current_tick guest ns rtc user m args.a0)
  rtc_service ns rtc_current_network_tick args rtc m =
      served_by rtc (current_tick guest ns rtc network m args.a0)
  rtc_service ns rtc_current_debug_tick args rtc m =
      served_by rtc (current_tick guest ns rtc debug m args.a0)
  rtc_service ns rtc_current_ad_tick args rtc m =
      served_by rtc (current_tick guest ns rtc ad m args.a0)
  rtc_service ns rtc_current_raw_network_tick args rtc m =
      served_by rtc (current_tick guest ns rtc user m args.a0)
  rtc_service ns rtc_current_clock args rtc m =
      served_by rtc (current_clock guest ns rtc (int32 args.a1) m args.a0)
  rtc_service ns rtc_current_clock_local args rtc m =
      served_by rtc (current_clock guest ns rtc (pos 0) m args.a0)
  rtc_service ns rtc_get_day_of_week args rtc m = record {
    value = get_day_of_week args.a0 args.a1 args.a2;
    rtc = rtc;
    memory = m;
  }
  rtc_service ns rtc_get_days_in_month args rtc m = record {
    value = get_days_in_month args.a0 args.a1;
    rtc = rtc;
    memory = m;
  }
  rtc_service ns rtc_get_dos_time args rtc m = served_by rtc (get_dos_time guest m args.a0 args.a1)
  rtc_service ns rtc_get_tick args rtc m = served_by rtc (get_tick guest m args.a0 args.a1)
  rtc_service ns rtc_get_tick_resolution args rtc m = record {
    value = 1000000;
    rtc = rtc;
    memory = m;
  }
  rtc_service ns rtc_get_time_t args rtc m = served_by rtc (get_time_t guest m args.a0 args.a1)
  rtc_service ns rtc_get_filetime args rtc m = served_by rtc (get_filetime guest m args.a0 args.a1)
  rtc_service ns rtc_is_leap_year args rtc m = record {
    value = is_leap_year args.a0;
    rtc = rtc;
    memory = m;
  }
  rtc_service ns rtc_parse_datetime args rtc m =
      served_by rtc (parse_text parse_datetime m args.a0 args.a1)
  rtc_service ns rtc_parse_rfc3339 args rtc m =
      served_by rtc (parse_text parse_rfc3339 m args.a0 args.a1)
  rtc_service ns rtc_set_current_tick args rtc m = set_by ns user args.a0 rtc m
  rtc_service ns rtc_set_current_network_tick args rtc m = set_by ns network args.a0 rtc m
  rtc_service ns rtc_set_current_debug_tick args rtc m = set_by ns debug args.a0 rtc m
  rtc_service ns rtc_set_current_ad_tick args rtc m = set_by ns ad args.a0 rtc m
  rtc_service ns rtc_set_dos_time args rtc m = served_by rtc (set_dos_time guest m args.a0 args.a1)
  rtc_service ns rtc_set_tick args rtc m = served_by rtc (set_tick guest m args.a0 args.a1)
  rtc_service ns rtc_set_time_t args rtc m = served_by rtc (set_time_t guest m args.a0 args.a1)
  rtc_service ns rtc_set_filetime args rtc m = served_by rtc (set_filetime guest m args.a0 args.a1)
  rtc_service ns rtc_set_conf args rtc m = record {
    value = 0;
    rtc = set_conf args.a2 args.a3 rtc;
    memory = m;
  }
  rtc_service ns rtc_add_days args rtc m =
      served_by rtc (rtc_add guest m args.a0 args.a1 (int32 args.a2) day_ticks)
  rtc_service ns rtc_add_hours args rtc m =
      served_by rtc (rtc_add guest m args.a0 args.a1 (int32 args.a2) 3600000000)
  rtc_service ns rtc_add_microseconds args rtc m =
      served_by rtc (rtc_add guest m args.a0 args.a1 (signed64 args.a2) 1)
  rtc_service ns rtc_add_minutes args rtc m =
      served_by rtc (rtc_add guest m args.a0 args.a1 (signed64 args.a2) 60000000)
  rtc_service ns rtc_add_months args rtc m =
      served_by rtc (add_to_date guest shift_months m args.a0 args.a1 (int32 args.a2))
  rtc_service ns rtc_add_seconds args rtc m =
      served_by rtc (rtc_add guest m args.a0 args.a1 (signed64 args.a2) 1000000)
  rtc_service ns rtc_add_ticks args rtc m =
      served_by rtc (rtc_add guest m args.a0 args.a1 (signed64 args.a2) 1)
  rtc_service ns rtc_add_weeks args rtc m =
      served_by rtc (rtc_add guest m args.a0 args.a1 (int32 args.a2) (7 * day_ticks))
  rtc_service ns rtc_add_years args rtc m =
      served_by rtc (add_to_date guest shift_years m args.a0 args.a1 (int32 args.a2))
