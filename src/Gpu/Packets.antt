-- ===== src/Gpu/Packets.antt =====
-- shadps4_gpu_is_tail_padding, shadps4_gpu_parse_fail and shadps4_gpu_parse_pm4: the framing of a
-- command buffer and the register state that it leaves.
pub mod Validation
use qemu_dll_shadps.Base.{
  ℕ, zero, suc, ◌+◌, ◌-◌, ◌/◌, ◌%◌, ◌^◌, ◌≤◌, ◌≡◌, refl, sym, ap, ◌∙◌, ◌≢◌, inl, inr, Bool, true,
  false, not, ◌&&◌, ◌||◌, Option, none, some, List, [], ◌∷◌, leb, ltb, ◌==◌, if◌then◌else◌, length,
  get_elem?, get_elem?_in, slice_at, drop, Bool-cases, Option-cases, Result, ok, err, arith,
}
use qemu_dll_shadps.Gpu.Registers.{set_registers, write_registers, length-write_registers}

-- The strings of the source. `fault` is a read outside the buffer, `out_of_fuel` a bounded loop that
-- was cut short; neither is a string of the source.
pub data Reason : Type 0 where
  fault out_of_fuel : Reason
  indirect_buffer_depth truncated_packet_during_flatten truncated_indirect_buffer : Reason
  indirect_buffer_range indirect_buffer_memory flattened_buffer_too_large : Reason
  truncated_type0_or_type1 truncated_type3 invalid_register_packet : Reason
  write_data_destination write_data_memory : Reason
  dma_destination_or_size dma_fill_memory dma_copy_memory dma_source : Reason
  eop_data_select eop_memory : Reason

pub record ParseError : Type 0 where
  pub offset : ℕ
  pub header : ℕ
  pub reason : Reason

abbrev pub parse_fail {ℓ} : {A : Type ℓ} → ℕ → ℕ → Reason → Result ParseError A
parse_fail offset header reason = err (record { offset = offset; header = header; reason = reason })

-- `header == 0 || header == UINT32_C(0x80000000)`.
abbrev pub is_filler : ℕ → Bool
is_filler word = word == 0 || word == 0x80000000

-- The words from the offset on.
unfoldable pub is_tail_padding : List ℕ → Bool
is_tail_padding [] = true
is_tail_padding (word ∷ rest) =
    if not (word == 0) && not (word == 0x80000000) then false else is_tail_padding rest

abbrev pub packet_type : ℕ → ℕ
packet_type header = header / 2 ^ 30

abbrev pub opcode_of : ℕ → ℕ
opcode_of header = header / 2 ^ 8 % 0x100

abbrev pub payload_field : ℕ → ℕ
payload_field header = header / 2 ^ 16 % 0x4000 + 1

-- How many words follow the header.
unfoldable pub payload_count : ℕ → ℕ
payload_count header =
    if packet_type header == 2
    then 0
    else if packet_type header == 0 || packet_type header == 1
    then (if packet_type header == 0 then payload_field header else 2)
    else payload_field header

-- The two register files, and `*parsed_packet_count`.
pub record Registers : Type 0 where
  pub context : List ℕ
  pub shader : List ℕ
  pub packets : ℕ

abbrev pub count_packet : Registers → Registers
count_packet s = record s { packets = (s.packets + 1) % 2 ^ 64 }

-- The switch over the opcode: `none` where `valid` is false.
unfoldable pub execute_type3 : ℕ → List ℕ → Registers → Option Registers
execute_type3 opcode payload s =
    if opcode == 0x69
    then elim (set_registers s.context payload) [
      | none ↦ none
      | some context ↦ some (record s { context = context })
    ]
    else if opcode == 0x76
    then elim (set_registers s.shader payload) [
      | none ↦ none
      | some shader ↦ some (record s { shader = shader })
    ]
    else if opcode == 0x37
    then (if leb 3 (length payload) then some s else none)
    else some s

-- One packet, at `offset`.
unfoldable pub packet : List ℕ → ℕ → ℕ → Registers → Result ParseError Registers
packet commands offset header s =
    if packet_type header == 2
    then ok (count_packet s)
    else if ltb (length commands - offset - 1) (payload_count header)
    then parse_fail offset header (
        if packet_type header == 0 || packet_type header == 1
        then Reason.truncated_type0_or_type1
        else Reason.truncated_type3)
    else if packet_type header == 0 || packet_type header == 1
    then ok (count_packet s)
    else elim (slice_at commands (offset + 1) (payload_count header)) [
      | none ↦ parse_fail offset header Reason.fault
      | some payload ↦ elim (execute_type3 (opcode_of header) payload s) [
        | none ↦ parse_fail offset header Reason.invalid_register_packet
        | some s' ↦ ok (count_packet s')
      ]
    ]

-- The loop, with fuel.
unfoldable pub packet_loop : ℕ → List ℕ → ℕ → Registers → Result ParseError Registers
packet_loop zero commands offset s =
    if ltb offset (length commands) then parse_fail offset 0 Reason.out_of_fuel else ok s
packet_loop (suc n) commands offset s =
    if not (ltb offset (length commands)) then ok s else elim (get_elem? commands offset) [
      | none ↦ parse_fail offset 0 Reason.fault
      | some header ↦
          if is_filler header && is_tail_padding (drop offset commands)
          then ok s
          else elim (packet commands offset header s) [
            | err e ↦ err e
            | ok s' ↦ packet_loop n commands (offset + payload_count header + 1) s'
          ]
    ]

-- A packet takes one word at least, so there are no more rounds than words.
unfoldable pub parse_pm4 : List ℕ → Registers → Result ParseError Registers
parse_pm4 commands s = packet_loop (length commands) commands 0 s

-- A reason that the source knows.
abbrev pub IsReported : ParseError → Type 0
IsReported e = (e.reason ≢ Reason.fault) × (e.reason ≢ Reason.out_of_fuel)
