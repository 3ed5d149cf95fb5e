-- ===== src/Rtc/Tests/Stores.antt =====
-- A tick in guest memory, its date, and its tick again.
use qemu_dll_shadps.Base.{ℕ, ◌≡◌, refl, some, le_at, le_bytes, ◌+ℤ◌, ◌-ℤ◌, ◌*ℤ◌, quot, arith}
use qemu_dll_shadps.Gpu.Flatten.{guest_read}
use qemu_dll_shadps.Gpu.Guest.{guest_write}
use qemu_dll_shadps.Gpu.Guest.Words.{Holds}
use qemu_dll_shadps.Gpu.Tests.Memories.{Bytes, overlay, memory, peek, memory-IsGuest}
use qemu_dll_shadps.Rtc.Dates.{is_leap, days_in_month, validate}
use qemu_dll_shadps.Rtc.Days.{era_of, days_from_civil, civil_from_days}
use qemu_dll_shadps.Rtc.Ticks.{ticks_of, date_to_tick, tick_to_date, date_of, unix_epoch_ticks}
use qemu_dll_shadps.Rtc.Memory.{user_read, user_write, read_date, write_date, read_tick, write_tick}
use qemu_dll_shadps.Rtc.Clocks.{reset_rtc}
use qemu_dll_shadps.Rtc.Clocks.Laws.{IsRtc, reset_rtc-IsRtc}
use qemu_dll_shadps.Rtc.Calls.{Args, rtc_set_tick, rtc_service}
use qemu_dll_shadps.Rtc.Calls.Safety.{rtc_service-frame}
use qemu_dll_shadps.Rtc.Services.{set_tick, get_tick}
use qemu_dll_shadps.Rtc.Services.Composed.{get_tick-set_tick}

abbrev with_tick_at : Bytes
with_tick_at = overlay (λ x. 0) 0x4001000 (le_bytes 8 unix_epoch_ticks)

tick_set : (set_tick memory with_tick_at 0x4002000 0x4001000).value ≡ 0
unfolding set_tick read_tick user_read guest_read le_at le_bytes tick_to_date date_of
    civil_from_days era_of quot ◌+ℤ◌ ◌-ℤ◌ ◌*ℤ◌ write_date user_write guest_write
tick_set = refl

tick_got :
    (get_tick memory
      (set_tick memory with_tick_at 0x4002000 0x4001000).memory
      0x4002000
      0x4003000).value
    ≡ 0
unfolding set_tick get_tick read_tick user_read guest_read le_at le_bytes tick_to_date date_of
    civil_from_days era_of quot ◌+ℤ◌ ◌-ℤ◌ ◌*ℤ◌ write_date user_write guest_write read_date
    date_to_tick validate days_in_month is_leap ticks_of days_from_civil write_tick
tick_got = refl

get_tick-set_tick_example :
    (tick : ℕ) × (read_tick memory with_tick_at 0x4001000 ≡ some tick)
    × Holds
        (peek
          (get_tick memory
            (set_tick memory with_tick_at 0x4002000 0x4001000).memory
            0x4002000
            0x4003000).memory)
        0x4003000
        (le_bytes 8 tick)
get_tick-set_tick_example =
    get_tick-set_tick memory peek memory-IsGuest with_tick_at 0x4002000 0x4001000 0x4003000 tick_set
      tick_got

abbrev registers : Args
registers = record { a0 = 0x4002000; a1 = 0x4001000; a2 = 0; a3 = 0 }

rtc_service-frame_example :
    (peek (rtc_service memory 1000 rtc_set_tick registers reset_rtc with_tick_at).memory 0x3ffffff
      ≡ peek with_tick_at 0x3ffffff)
    × IsRtc (rtc_service memory 1000 rtc_set_tick registers reset_rtc with_tick_at).rtc
rtc_service-frame_example =
    rtc_service-frame memory peek memory-IsGuest 1000 rtc_set_tick registers reset_rtc with_tick_at
      0x3ffffff reset_rtc-IsRtc (omega arith)
