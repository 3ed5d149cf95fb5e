-- ===== src/Gpu/Flatten.antt =====
-- shadps4_gpu_guest_rw and shadps4_gpu_flatten_pm4: indirect buffers are replaced by what they point
-- to, up to a depth of eight. `Guest` stands for QEMU's cpu_memory_rw_debug.
pub mod Limit
use qemu_dll_shadps.Base.{
  ℕ, zero, suc, ◌+◌, ◌-◌, ◌*◌, ◌%◌, ◌^◌, ◌≤◌, ◌<◌, ◌≡◌, refl, ◌≢◌, inl, inr, Bool, true, false, not,
  ◌&&◌, ◌||◌, Option, none, some, List, [], ◌++◌, ltb, ◌==◌, if◌then◌else◌, length, length-append,
  length-take, get_elem?, get_elem?_in, take, drop, Bool-cases, Result, ok, err, arith,
}
use qemu_dll_shadps.Gpu.Packets.{
  Reason, ParseError, parse_fail, is_filler, is_tail_padding, packet_type, opcode_of, payload_count,
  IsReported,
}

-- A read of so many bytes at an address: the words that they make, or a failure.
abbrev pub Guest : Type 0
Guest = ℕ → ℕ → Option (List ℕ)

-- A read of words into a buffer, by a CPU that exists.
unfoldable pub guest_read : Guest → ℕ → ℕ → Option (List ℕ)
guest_read guest addr size =
    if size == 0
    then some []
    else if addr == 0 || ltb (2 ^ 64 - 1 - (size - 1)) addr
    then none
    else guest addr size

abbrev pub max_command_dwords : ℕ
max_command_dwords = 0xfffff

abbrev pub max_ib_depth : ℕ
max_ib_depth = 8

abbrev pub max_flattened_dwords : ℕ
max_flattened_dwords = max_command_dwords * max_ib_depth

abbrev pub Flat : Type 0
Flat = Result ParseError (List ℕ)

-- A packet that refers to an indirect buffer, whose payload has begun with three words; `nested`
-- flattens what the buffer holds.
unfoldable pub indirect_buffer :
    Guest → (List ℕ → List ℕ → Flat) → ℕ → ℕ → ℕ → ℕ → ℕ → List ℕ → Flat
indirect_buffer guest nested offset header low high size flattened =
    let address = low + high % 2 ^ 16 * 2 ^ 32 in
    let words = size % 2 ^ 20 in
    if address == 0 || (words == 0 || ltb max_command_dwords words)
    then parse_fail offset header Reason.indirect_buffer_range
    else elim (guest_read guest address (words * 4)) [
      | none ↦ parse_fail offset header Reason.indirect_buffer_memory
      | some indirect ↦ nested indirect flattened
    ]

unfoldable pub indirect_packet : Guest → (List ℕ → List ℕ → Flat) → List ℕ → ℕ → ℕ → List ℕ → Flat
indirect_packet guest nested commands offset header flattened =
    if ltb (payload_count header) 3
    then parse_fail offset header Reason.truncated_indirect_buffer
    else elim (get_elem? commands (offset + 1)) [
      | none ↦ parse_fail offset header Reason.fault
      | some low ↦ elim (get_elem? commands (offset + 2)) [
        | none ↦ parse_fail offset header Reason.fault
        | some high ↦ elim (get_elem? commands (offset + 3)) [
          | none ↦ parse_fail offset header Reason.fault
          | some size ↦ indirect_buffer guest nested offset header low high size flattened
        ]
      ]
    ]

-- `g_array_append_vals(flattened, commands + offset, packet_dwords)`.
unfoldable pub append_packet : List ℕ → ℕ → ℕ → List ℕ → Flat
append_packet commands offset header flattened =
    let packet_dwords = payload_count header + 1 in
    if ltb ((max_flattened_dwords + 2 ^ 32 - length flattened) % 2 ^ 32) packet_dwords
    then parse_fail offset header Reason.flattened_buffer_too_large
    else ok (flattened ++ take packet_dwords (drop offset commands))

-- One round.
unfoldable pub flatten_packet : Guest → (List ℕ → List ℕ → Flat) → List ℕ → ℕ → ℕ → List ℕ → Flat
flatten_packet guest nested commands offset header flattened =
    if ltb (length commands - offset - 1) (payload_count header)
    then parse_fail offset header Reason.truncated_packet_during_flatten
    else if packet_type header == 3 && (opcode_of header == 0x33 || opcode_of header == 0x3f)
    then indirect_packet guest nested commands offset header flattened
    else append_packet commands offset header flattened

-- The loop, with fuel.
unfoldable pub flatten_loop : Guest → (List ℕ → List ℕ → Flat) → ℕ → List ℕ → ℕ → List ℕ → Flat
flatten_loop guest nested zero commands offset flattened =
    if ltb offset (length commands) then parse_fail offset 0 Reason.out_of_fuel else ok flattened
flatten_loop guest nested (suc n) commands offset flattened =
    if not (ltb offset (length commands)) then ok flattened else elim (get_elem? commands offset) [
      | none ↦ parse_fail offset 0 Reason.fault
      | some header ↦
          if is_filler header && is_tail_padding (drop offset commands)
          then ok flattened
          else elim (flatten_packet guest nested commands offset header flattened) [
            | err e ↦ err e
            | ok flattened' ↦
                flatten_loop guest nested n commands (offset + payload_count header + 1) flattened'
          ]
    ]

-- With `levels` more depths: it is 9 - depth in the source.
unfoldable pub flatten_levels : Guest → ℕ → List ℕ → List ℕ → Flat
flatten_levels guest zero commands flattened = parse_fail 0 0 Reason.indirect_buffer_depth
flatten_levels guest (suc levels) commands flattened =
    flatten_loop guest (λ indirect out. flatten_levels guest levels indirect out) (length commands)
      commands 0 flattened

unfoldable pub flatten_pm4 : Guest → ℕ → List ℕ → List ℕ → Flat
flatten_pm4 guest depth commands flattened =
    flatten_levels guest (max_ib_depth + 1 - depth) commands flattened
