-- ===== src/Gpu/Execute/Safety.antt =====
-- Executing a command buffer comes to an end, inside its buffers.
use qemu_dll_shadps.Base.{
  ℕ, zero, suc, ◌+◌, ◌-◌, ◌*◌, ◌%◌, ◌^◌, ◌≤◌, ◌≡◌, inl, inr, Bool, true, false, ◌&&◌, ◌||◌, Option,
  none, some, List, [], ◌∷◌, ltb, ◌==◌, if◌then◌else◌, length, get_elem?_in, drop, Bool-cases,
  arith,
}
use qemu_dll_shadps.Gpu.Packets.Validation.{payload_in}
use qemu_dll_shadps.Gpu.Packets.{Reason, is_filler, is_tail_padding, packet_type, payload_count}
use qemu_dll_shadps.Gpu.Flatten.{guest_read, max_ib_depth}
use qemu_dll_shadps.Gpu.Guest.{GuestMemory, read_words}
use qemu_dll_shadps.Gpu.Execute.{
  Executes, reject, join, execute_indirect, execute_opcode, execute_packet, execute_loop,
  execute_levels, execute_pm4,
}
use qemu_dll_shadps.Gpu.Execute.Ends.{
  Ends, done-Ends, reject-Ends, Ends-if, Ends-then, write_data-Ends, dma_data-Ends,
  event_write_eop-Ends,
}

module _ {M : Type 0} (guest : GuestMemory M) (I : M → Type 0)
    (kept : (m : M) (a : ℕ) (bs : List ℕ) → I m → I (guest.write m a bs).1) where
  module _ (nested : List ℕ → M → Executes M)
      (nested_ends : (xs : List ℕ) (m : M) → I m → Ends I (nested xs m)) where
    execute_indirect-Ends :
        (offset header : ℕ) (payload : List ℕ) (m : M)
        → I m
        → Ends I (execute_indirect guest nested offset header payload m)
    unfolding execute_indirect
    execute_indirect-Ends offset header [] m h = done-Ends h
    execute_indirect-Ends offset header (a ∷ []) m h = done-Ends h
    execute_indirect-Ends offset header (a ∷ b ∷ []) m h = done-Ends h
    execute_indirect-Ends offset header (low ∷ high ∷ size ∷ rest) m h =
        Ends-if _ _ _ (reject-Ends offset header _ m (λ e. cc) (λ e. cc) h)
          (at (guest_read (read_words guest m) (join low (high % 2 ^ 16)) (size % 2 ^ 20 * 4)))
      where
        at :
            (r : Option (List ℕ))
            → Ends I (elim r [
              | none ↦ reject offset header Reason.indirect_buffer_memory m
              | some indirect ↦ nested indirect m
            ])
        at none = (reject-Ends offset header _ m (λ e. cc) (λ e. cc) h)
        at (some indirect) = nested_ends indirect m h

    execute_opcode-Ends :
        (offset header : ℕ) (payload : List ℕ) (m : M)
        → I m
        → Ends I (execute_opcode guest nested offset header payload m)
    unfolding execute_opcode
    execute_opcode-Ends offset header payload m h =
        Ends-if _ _ _ (write_data-Ends guest I kept offset header payload m h) (
          Ends-if _ _ _ (dma_data-Ends guest I kept offset header payload m h) (
            Ends-if _ _ _ (event_write_eop-Ends guest I kept offset header payload m h)
              (Ends-if _ _ _ (execute_indirect-Ends offset header payload m h) (done-Ends h))))

    truncated-Ends :
        (b : Bool) (offset header : ℕ) (m : M)
        → I m
        → Ends I (
            reject offset header
              (if b then Reason.truncated_type0_or_type1 else Reason.truncated_type3)
              m)
    truncated-Ends true offset header m h = (reject-Ends offset header _ m (λ e. cc) (λ e. cc) h)
    truncated-Ends false offset header m h = (reject-Ends offset header _ m (λ e. cc) (λ e. cc) h)

    execute_packet-Ends :
        (commands : List ℕ) (offset header : ℕ) (m : M)
        → ltb offset (length commands) ≡ true
        → I m
        → Ends I (execute_packet guest nested commands offset header m)
    unfolding execute_packet
    execute_packet-Ends commands offset header m in' h =
        elim (Bool-cases (packet_type header == 2)) [
          | inl padding ↦ rw padding (done-Ends h)
          | inr other ↦
              elim (Bool-cases (ltb (length commands - offset - 1) (payload_count header))) [
                | inl short ↦
                    rw (other, short)
                      (truncated-Ends (packet_type header == 0 || packet_type header == 1) offset
                        header m h)
                | inr fits ↦
                    let (payload, p) = payload_in commands offset (payload_count header) in' fits in
                    rw (other, fits, p)
                      (Ends-if _ _ _ (done-Ends h) (execute_opcode-Ends offset header payload m h))
              ]
        ]

    execute_loop-Ends :
        (n : ℕ) (commands : List ℕ) (offset : ℕ) (m : M)
        → length commands ≤ offset + n
        → I m
        → Ends I (execute_loop guest nested n commands offset m)
    unfolding execute_loop
    execute_loop-Ends zero commands offset m enough h =
        let e : ltb offset (length commands) ≡ false = ground arith in rw e (done-Ends h)
    execute_loop-Ends (suc n) commands offset m enough h =
        elim (Bool-cases (ltb offset (length commands))) [
          | inr past ↦ rw past (done-Ends h)
          | inl in' ↦
              let (header, g) = get_elem?_in commands offset (ground arith) in
              rw (in', g, execute_loop)
                (Ends-if (is_filler header && is_tail_padding (drop offset commands)) _ _
                  (done-Ends h)
                  (Ends-then (execute_packet guest nested commands offset header m)
                    (λ _ m'.
                      execute_loop guest nested n commands (offset + payload_count header + 1) m')
                    (execute_packet-Ends commands offset header m in' h)
                    (λ m' k.
                      execute_loop-Ends n commands (offset + payload_count header + 1) m'
                        (omega arith) k)))
        ]

  execute_levels-Ends :
      (levels : ℕ) (commands : List ℕ) (m : M)
      → I m
      → Ends I (execute_levels guest levels commands m)
  unfolding execute_levels
  execute_levels-Ends zero commands m h = (reject-Ends 0 0 _ m (λ e. cc) (λ e. cc) h)
  execute_levels-Ends (suc levels) commands m h =
      execute_loop-Ends (λ indirect m'. execute_levels guest levels indirect m')
        (λ xs m' k. execute_levels-Ends levels xs m' k) (length commands) commands 0 m (omega arith)
        h

  -- Executing a command buffer always comes to an end, even where indirect buffers refer to
  -- themselves, and reads no word outside a buffer. It finishes or reports one of the source's
  -- reasons, and in both cases what every write to guest memory keeps still holds of the memory.
  pub execute_pm4-Ends :
      (depth : ℕ) (commands : List ℕ) (m : M) → I m → Ends I (execute_pm4 guest depth commands m)
  unfolding execute_pm4
  execute_pm4-Ends depth commands m h = execute_levels-Ends (max_ib_depth + 1 - depth) commands m h
