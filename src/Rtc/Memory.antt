-- ===== src/Rtc/Memory.antt =====
-- Dates and ticks in guest memory: shadps4_debug_rw, shadps4_guest_rw and the RTC's reads and writes
-- of hw/i386/shadps4-hle.c. `GuestMemory` stands for QEMU's cpu_memory_rw_debug.
pub mod Stored
use qemu_dll_shadps.Base.{
  ℕ, zero, suc, ◌*◌, ◌+◌, ◌-◌, ◌^◌, Bool, true, false, ◌||◌, Option, Result, ok, err, ◌∷◌, none,
  some, List, [], ◌++◌, ltb, ◌==◌, if◌then◌else◌, length, le_at, le_bytes,
}
use qemu_dll_shadps.Gpu.Flatten.{guest_read}
use qemu_dll_shadps.Gpu.Guest.{GuestMemory, guest_write}
use qemu_dll_shadps.Rtc.Dates.{RtcDateTime, RtcError, invalid_pointer, error_code}

-- SHADPS4_GUEST_USER_MIN, 64 MiB.
abbrev pub guest_user_min : ℕ
guest_user_min = 64 * 1024 * 1024

-- A field of a struct; the struct's bytes are all there.
abbrev pub field : ℕ → ℕ → List ℕ → ℕ
field width offset bytes = elim (le_at width bytes offset) [ none ↦ 0 | some value ↦ value ]

abbrev pub date_from : List ℕ → RtcDateTime
date_from bytes = record {
  year = field 2 0 bytes;
  month = field 2 2 bytes;
  day = field 2 4 bytes;
  hour = field 2 6 bytes;
  minute = field 2 8 bytes;
  second = field 2 10 bytes;
  microsecond = field 4 12 bytes;
}

abbrev pub date_bytes : RtcDateTime → List ℕ
date_bytes date =
    le_bytes 2 date.year
    ++ le_bytes 2 date.month
    ++ le_bytes 2 date.day
    ++ le_bytes 2 date.hour
    ++ le_bytes 2 date.minute
    ++ le_bytes 2 date.second
    ++ le_bytes 4 date.microsecond

module _ {M : Type 0} (guest : GuestMemory M) where
  -- shadps4_guest_rw: shadps4_debug_rw has the checks of shadps4_gpu_guest_rw.
  unfoldable pub user_read : M → ℕ → ℕ → Option (List ℕ)
  user_read m address size =
      if size == 0
      then some []
      else if ltb address guest_user_min
      then none
      else guest_read (guest.read m) address size

  unfoldable pub user_write : M → ℕ → List ℕ → Bool × M
  user_write m address bytes =
      if length bytes == 0
      then (true, m)
      else if ltb address guest_user_min
      then (false, m)
      else guest_write guest m address bytes

  unfoldable pub read_date : M → ℕ → Option RtcDateTime
  read_date m address =
      if address == 0
      then none
      else elim (user_read m address 16) [ none ↦ none | some bytes ↦ some (date_from bytes) ]

  unfoldable pub write_date : M → ℕ → RtcDateTime → Bool × M
  write_date m address date =
      if address == 0 then (false, m) else user_write m address (date_bytes date)

  unfoldable pub read_tick : M → ℕ → Option ℕ
  read_tick m address =
      if address == 0
      then none
      else elim (user_read m address 8) [ none ↦ none | some bytes ↦ some (field 8 0 bytes) ]

  unfoldable pub write_tick : M → ℕ → ℕ → Bool × M
  write_tick m address tick =
      if address == 0 then (false, m) else user_write m address (le_bytes 8 tick)

-- What a service returns, and the memory that it leaves.
pub record Reply (M : Type 0) : Type 0 where
  pub value : ℕ
  pub memory : M

module _ {M : Type 0} where
  abbrev pub refuse : RtcError → M → Reply M
  refuse e m = record { value = error_code e; memory = m }

  -- `write ? 0 : SHADPS4_RTC_ERROR_INVALID_POINTER`
  abbrev pub answer : Bool × M → Reply M
  answer (true, m) = record { value = 0; memory = m }
  answer (false, m) = record { value = error_code invalid_pointer; memory = m }

  -- The early returns of a service: a read that fails, an error that a conversion reports, a null
  -- pointer, and a test that refuses.
  abbrev pub reading {ℓ} : {A : Type ℓ} → Option A → M → (A → Reply M) → Reply M
  reading none m next = refuse invalid_pointer m
  reading (some a) m next = next a

  abbrev pub given {ℓ} : {A : Type ℓ} → Result RtcError A → M → (A → Reply M) → Reply M
  given (err e) m next = refuse e m
  given (ok a) m next = next a

  abbrev pub unless_null : ℕ → M → Reply M → Reply M
  unless_null address m rest = if address == 0 then refuse invalid_pointer m else rest

  abbrev pub unless : Bool → RtcError → M → Reply M → Reply M
  unless test e m rest = if test then refuse e m else rest

-- `size - 1` rounds of shadps4_guest_read_string, from the character `i` on.
abbrev cons_char : ℕ → Option (List ℕ) → Option (List ℕ)
cons_char c rest = elim rest [ none ↦ none | some text ↦ some (c ∷ text) ]

module _ {M : Type 0} (guest : GuestMemory M) where
  unfoldable pub read_chars : M → ℕ → ℕ → ℕ → Option (List ℕ)
  read_chars m address zero i = none
  read_chars m address (suc left) i =
      let rest = read_chars m address left (i + 1) in
      if ltb (2 ^ 64 - 1 - i) address then none else elim (user_read guest m (address + i) 1) [
        | none ↦ none
        | some bytes ↦ let c : ℕ = field 1 0 bytes in if c == 0 then some [] else cons_char c rest
      ]

  -- A string that ends before the buffer does.
  unfoldable pub read_string : M → ℕ → ℕ → Option (List ℕ)
  read_string m address size =
      if (address == 0) || ltb size 2 then none else read_chars m address (size - 1) 0
