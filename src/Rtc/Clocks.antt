-- ===== src/Rtc/Clocks.antt =====
-- The clocks of the RTC (hw/i386/shadps4-hle.c): shadps4_rtc_now, the services that read and set a
-- clock, and SHADPS4_HLE_RTC_SET_CONF. `ns` is what qemu_clock_get_ns(QEMU_CLOCK_REALTIME) returns
-- during the call.
pub mod Laws
use qemu_dll_shadps.Base.{
  ℕ, ◌+◌, ◌-◌, ◌*◌, ◌/◌, ◌%◌, ◌^◌, Bool, true, false, ◌||◌, none, some, List, [], ◌∷◌, get_elem?,
  set, ltb, leb, ◌==◌, if◌then◌else◌, ℤ, pos, negsuc, pos_part, signed32, ltb_ℤ, ◌+ℤ◌, ◌*ℤ◌, err,
  ok,
}
use qemu_dll_shadps.Gpu.Guest.{GuestMemory}
use qemu_dll_shadps.Rtc.Dates.{
  RtcError, datetime_uninitialized, invalid_pointer, invalid_value, error_code,
}
use qemu_dll_shadps.Rtc.Ticks.{unix_epoch_ticks, max_ticks, tick_to_date}
use qemu_dll_shadps.Rtc.Memory.{
  read_tick, write_tick, write_date, Reply, refuse, answer, given, unless,
}

-- The members of ShadPS4HLEState that the RTC keeps: a clock's offset is the 64-bit pattern of an
-- int64_t, the other two those of an int32_t.
pub record Rtc : Type 0 where
  pub tick_offset : List ℕ
  pub minutes_west : ℕ
  pub dst_time : ℕ

unfoldable pub reset_rtc : Rtc
reset_rtc = record { tick_offset = 0 ∷ 0 ∷ 0 ∷ 0 ∷ []; minutes_west = 0; dst_time = 0 }

-- The four clocks, by their index.
pub data Clock : Type 0 where
  user network debug ad : Clock

abbrev pub index : Clock → ℕ
index user = 0
index network = 1
index debug = 2
index ad = 3

unfoldable pub offset_of : Rtc → Clock → ℕ
offset_of rtc clock = elim (get_elem? rtc.tick_offset (index clock)) [
  | none ↦ 0
  | some offset ↦ offset
]

unfoldable pub now : ℕ → Rtc → Clock → ℕ
now ns rtc clock = (unix_epoch_ticks + ns / 1000 + offset_of rtc clock) % 2 ^ 64

-- `tick_offset[clock] += tick - now`
unfoldable pub set_clock : ℕ → Rtc → Clock → ℕ → Rtc
set_clock ns rtc clock tick =
    let moved : ℕ = (offset_of rtc clock + (tick + (2 ^ 64 - now ns rtc clock))) % 2 ^ 64 in
    record rtc { tick_offset = set rtc.tick_offset (index clock) moved }

-- SHADPS4_HLE_RTC_SET_CONF
unfoldable pub set_conf : ℕ → ℕ → Rtc → Rtc
set_conf a2 a3 rtc = record rtc { minutes_west = a2 % 2 ^ 32; dst_time = a3 % 2 ^ 32 }

-- `timezone < -1439 || timezone > 1439`, and the tick of another zone.
abbrev pub no_timezone : ℤ → Bool
no_timezone timezone = ltb_ℤ timezone (negsuc 1438) || ltb_ℤ (pos 1439) timezone

abbrev pub local_tick : ℕ → ℤ → ℤ
local_tick tick timezone = pos tick +ℤ timezone *ℤ 60000000

-- A 128-bit sum that is no tick.
abbrev pub out_of_range : ℤ → Bool
out_of_range tick = ltb_ℤ tick (pos 0) || ltb_ℤ (pos max_ticks) tick

module _ {M : Type 0} (guest : GuestMemory M) where
  -- SHADPS4_HLE_RTC_CURRENT_TICK and the others of its case.
  unfoldable pub current_tick : ℕ → Rtc → Clock → M → ℕ → Reply M
  current_tick ns rtc clock m a0 =
      let (stored, m') = write_tick guest m a0 (now ns rtc clock) in
      if stored then record { value = 0; memory = m' } else refuse datetime_uninitialized m'

  -- SHADPS4_HLE_RTC_CURRENT_CLOCK, and with no timezone SHADPS4_HLE_RTC_CURRENT_CLOCK_LOCAL.
  unfoldable pub current_clock : ℕ → Rtc → ℤ → M → ℕ → Reply M
  current_clock ns rtc timezone m a0 =
      let tick : ℤ = local_tick (now ns rtc user) timezone in
      if a0 == 0
      then refuse datetime_uninitialized m
      else unless (no_timezone timezone || out_of_range tick) invalid_value m
          (given (tick_to_date (pos_part tick)) m λ date. answer (write_date guest m a0 date))

  -- SHADPS4_HLE_RTC_SET_CURRENT_TICK and the others of its case: the code, and the clocks after it.
  unfoldable pub set_current_tick : ℕ → Clock → M → ℕ → Rtc → ℕ × Rtc
  set_current_tick ns clock m a0 rtc = elim (read_tick guest m a0) [
    | none ↦ (error_code invalid_pointer, rtc)
    | some tick ↦
        if leb tick unix_epoch_ticks || ltb max_ticks tick
        then (error_code invalid_value, rtc)
        else (0, set_clock ns rtc clock tick)
  ]
