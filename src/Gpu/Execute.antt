-- ===== src/Gpu/Execute.antt =====
-- shadps4_gpu_copy_guest and shadps4_gpu_execute_pm4_memory: the packets that move guest memory.
pub mod Ends
pub mod Safety
pub mod Stores
use qemu_dll_shadps.Base.{
  ℕ, zero, suc, ◌+◌, ◌-◌, ◌*◌, ◌/◌, ◌%◌, ◌^◌, ◌≡◌, min, Bool, true, false, not, ◌&&◌, ◌||◌, Option,
  none, some, List, [], ◌∷◌, leb, ltb, ◌==◌, if◌then◌else◌, length, get_elem?, slice_at, take, drop,
  le_bytes, Outcome, done, fail, and_then,
}
use qemu_dll_shadps.Gpu.Packets.{
  Reason, ParseError, is_filler, is_tail_padding, packet_type, opcode_of, payload_count,
}
use qemu_dll_shadps.Gpu.Flatten.{guest_read, max_command_dwords, max_ib_depth}
use qemu_dll_shadps.Gpu.Guest.{GuestMemory, read_words, guest_write}

abbrev pub Executes : Type 0 → Type 0
Executes M = Outcome ParseError M (Unit {0})

abbrev pub reject : {M : Type 0} → ℕ → ℕ → Reason → M → Executes M
reject offset header reason m =
    fail (record { offset = offset; header = header; reason = reason }) m

abbrev pub max_dma_size : ℕ
max_dma_size = 2 * 2 ^ 20

-- Two words as one 64-bit number.
abbrev pub join : ℕ → ℕ → ℕ
join low high = low + 2 ^ 32 * high

module _ {M : Type 0} (guest : GuestMemory M) where
  -- What a failed write is reported as, and what it left; else the rest.
  abbrev pub checked_write : ℕ → ℕ → Reason → ℕ → List ℕ → M → Executes M
  checked_write offset header reason addr bytes m =
      let (stored, m') = guest_write guest m addr bytes in
      if stored then done tt m' else reject offset header reason m'

  -- `for (i = 0; i < words; i++)`: the list is what is left of the values.
  unfoldable pub write_words : ℕ → ℕ → Bool → ℕ → ℕ → List ℕ → M → Executes M
  write_words offset header one_address address i [] m = done tt m
  write_words offset header one_address address i (value ∷ rest) m =
      and_then
        (checked_write offset header Reason.write_data_memory
          ((address + (if one_address then 0 else i * 4)) % 2 ^ 64) (le_bytes 4 value) m)
        λ _ m'. write_words offset header one_address address (i + 1) rest m'

  -- A payload of fewer than four words is left alone.
  unfoldable pub write_data : ℕ → ℕ → List ℕ → M → Executes M
  write_data offset header (control ∷ low ∷ high ∷ value ∷ rest) m =
      let dst_sel = control / 2 ^ 8 % 16 in
      if not (dst_sel == 2) && not (dst_sel == 5) || join low high == 0
      then reject offset header Reason.write_data_destination m
      else write_words offset header (control / 2 ^ 16 % 2 == 1) (join low high) 0 (value ∷ rest) m
  write_data offset header payload m = done tt m

  -- `while (done < size)`, with `n` rounds left.
  unfoldable pub fill_loop : ℕ → ℕ → ℕ → ℕ → ℕ → ℕ → ℕ → M → Executes M
  fill_loop zero offset header destination value finished size m = done tt m
  fill_loop (suc n) offset header destination value finished size m =
      let chunk = min 4 (size - finished) in
      and_then
        (checked_write offset header Reason.dma_fill_memory ((destination + finished) % 2 ^ 64)
          (take chunk (le_bytes 4 value)) m)
        λ _ m'. fill_loop n offset header destination value (finished + chunk) size m'

  unfoldable pub copy_guest : M → ℕ → ℕ → ℕ → Bool × M
  copy_guest m destination source size =
      if size == 0
      then (true, m)
      else if ltb max_dma_size size || (destination == 0 || source == 0)
      then (false, m)
      else elim (guest_read (guest.read m) source size) [
        | none ↦ (false, m)
        | some buffer ↦ guest_write guest m destination buffer
      ]

  unfoldable pub dma_data : ℕ → ℕ → List ℕ → M → Executes M
  dma_data offset header (control ∷ s0 ∷ s1 ∷ d0 ∷ d1 ∷ count ∷ rest) m =
      let src_sel = control / 2 ^ 29 % 4 in
      let dst_sel = control / 2 ^ 20 % 4 in
      let size = count % 2 ^ 21 in
      if d0 == 0x3022c
      then done tt m
      else if not (dst_sel == 0) && not (dst_sel == 3) || ltb max_dma_size size
      then reject offset header Reason.dma_destination_or_size m
      else if src_sel == 2
      then fill_loop ((size + 3) / 4) offset header (join d0 d1) s0 0 size m
      else if src_sel == 0 || src_sel == 3
      then (let (copied, m') = copy_guest m (join d0 d1) (join s0 s1) size in
          if copied then done tt m' else reject offset header Reason.dma_copy_memory m')
      else reject offset header Reason.dma_source m
  dma_data offset header payload m = done tt m

  unfoldable pub event_write_eop : ℕ → ℕ → List ℕ → M → Executes M
  event_write_eop offset header (event ∷ low ∷ control ∷ v0 ∷ v1 ∷ rest) m =
      let data_sel = control / 2 ^ 29 % 8 in
      let write = checked_write offset header Reason.eop_memory (join low (control % 2 ^ 16)) in
      if data_sel == 1
      then write (le_bytes 4 v0) m
      else if data_sel == 2
      then write (le_bytes 8 (join v0 v1)) m
      else if data_sel == 3 || data_sel == 4
      then write (le_bytes 8 (guest.clock m)) m
      else if data_sel == 0
      then done tt m
      else reject offset header Reason.eop_data_select m
  event_write_eop offset header payload m = done tt m

  -- `nested` executes what an indirect buffer holds. An error that it reports is kept.
  unfoldable pub execute_indirect : (List ℕ → M → Executes M) → ℕ → ℕ → List ℕ → M → Executes M
  execute_indirect nested offset header (low ∷ high ∷ size ∷ rest) m =
      let address = join low (high % 2 ^ 16) in
      let count = size % 2 ^ 20 in
      if address == 0 || (count == 0 || ltb max_command_dwords count)
      then reject offset header Reason.indirect_buffer_range m
      else elim (guest_read (read_words guest m) address (count * 4)) [
        | none ↦ reject offset header Reason.indirect_buffer_memory m
        | some indirect ↦ nested indirect m
      ]
  execute_indirect nested offset header payload m = done tt m

  unfoldable pub execute_opcode : (List ℕ → M → Executes M) → ℕ → ℕ → List ℕ → M → Executes M
  execute_opcode nested offset header payload m =
      if opcode_of header == 0x37
      then write_data offset header payload m
      else if opcode_of header == 0x50
      then dma_data offset header payload m
      else if opcode_of header == 0x47
      then event_write_eop offset header payload m
      else if opcode_of header == 0x33 || opcode_of header == 0x3f
      then execute_indirect nested offset header payload m
      else done tt m

  unfoldable pub execute_packet : (List ℕ → M → Executes M) → List ℕ → ℕ → ℕ → M → Executes M
  execute_packet nested commands offset header m =
      if packet_type header == 2
      then done tt m
      else if ltb (length commands - offset - 1) (payload_count header)
      then reject offset header
          (if packet_type header == 0 || packet_type header == 1
            then Reason.truncated_type0_or_type1
            else Reason.truncated_type3)
          m
      else if packet_type header == 0 || packet_type header == 1
      then done tt m
      else elim (slice_at commands (offset + 1) (payload_count header)) [
        | none ↦ reject offset header Reason.fault m
        | some payload ↦ execute_opcode nested offset header payload m
      ]

  -- The loop, with fuel.
  unfoldable pub execute_loop : (List ℕ → M → Executes M) → ℕ → List ℕ → ℕ → M → Executes M
  execute_loop nested zero commands offset m =
      if ltb offset (length commands) then reject offset 0 Reason.out_of_fuel m else done tt m
  execute_loop nested (suc n) commands offset m =
      if not (ltb offset (length commands)) then done tt m else elim (get_elem? commands offset) [
        | none ↦ reject offset 0 Reason.fault m
        | some header ↦
            if is_filler header && is_tail_padding (drop offset commands)
            then done tt m
            else and_then (execute_packet nested commands offset header m)
                (λ _ m'. execute_loop nested n commands (offset + payload_count header + 1) m')
      ]

  -- With `levels` more depths: it is 9 - depth in the source.
  unfoldable pub execute_levels : ℕ → List ℕ → M → Executes M
  execute_levels zero commands m = reject 0 0 Reason.indirect_buffer_depth m
  execute_levels (suc levels) commands m =
      execute_loop (λ indirect m'. execute_levels levels indirect m') (length commands) commands 0 m

  unfoldable pub execute_pm4 : ℕ → List ℕ → M → Executes M
  execute_pm4 depth commands m = execute_levels (max_ib_depth + 1 - depth) commands m
