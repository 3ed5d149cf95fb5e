-- ===== src/Gpu/Tests/Submitting.antt =====
-- Submissions, accepted and rejected, and a queue that is mapped and rung.
use qemu_dll_shadps.Base.{
  ℕ, ◌*◌, ◌≡◌, refl, true, some, List, [], ◌∷◌, get_elem?, length, slice_at, le_bytes, arith,
}
use qemu_dll_shadps.Gpu.Packets.{
  packet, packet_loop, parse_pm4, payload_count, is_tail_padding, execute_type3,
}
use qemu_dll_shadps.Gpu.Flatten.{
  guest_read, flatten_pm4, flatten_levels, flatten_loop, flatten_packet, append_packet,
}
use qemu_dll_shadps.Gpu.Guest.{words, read_words, guest_write}
use qemu_dll_shadps.Gpu.Guest.Words.{word_at}
use qemu_dll_shadps.Gpu.Execute.{
  execute_pm4, execute_levels, execute_loop, execute_packet, execute_opcode, write_data,
  write_words,
}
use qemu_dll_shadps.Gpu.State.{Submit, Queue, init, no_queue, update_queue}
use qemu_dll_shadps.Gpu.Submit.{
  Device, submit, submit_commands, submit_flattened, submit_parsed, store_fence,
}
use qemu_dll_shadps.Gpu.Submit.Outcomes.{submit-report_rejection, Accepted, submit-Accepted}
use qemu_dll_shadps.Gpu.Queues.{
  map_queue, bad_ring, bit_and, added_dwords, read_ring, write_read_pointer, advance, ring_doorbell,
  ding_dong,
}
use qemu_dll_shadps.Gpu.Queues.Rings.{IsRing}
use qemu_dll_shadps.Gpu.Queues.Words.{ring_place}
use qemu_dll_shadps.Gpu.Queues.Doorbell.{read_ring-word_at, Taken, Drained, ding_dong-Drained}
use qemu_dll_shadps.Gpu.Calls.{Step, Reached}
use qemu_dll_shadps.Gpu.Calls.Invariant.{IsGpu}
use qemu_dll_shadps.Gpu.Calls.Reachable.{Reached-IsGpu}
use qemu_dll_shadps.Gpu.Tests.Memories.{Bytes, memory, peek, memory-IsGuest, guest_bytes}

abbrev device : Device Bytes
device = record { gpu = init; memory = guest_bytes }

-- There is no queue 64.
abbrev misdirected : Submit
misdirected = record {
  command_addr = 0x2000;
  command_dwords = 16;
  queue_id = 64;
  fence_addr = 0;
  fence_value = 0;
}

submit-report_rejection_example :
    (submit memory (some misdirected) device).1.gpu ≡ record init { rejected_submit_count = 1 }
unfolding submit init
submit-report_rejection_example = submit-report_rejection memory (some misdirected) device refl

abbrev accepted : Submit
accepted = record {
  command_addr = 0x2000;
  command_dwords = 16;
  queue_id = 3;
  fence_addr = 0x4000;
  fence_value = 0x1234;
}

is_accepted : (submit memory (some accepted) device).0 ≡ true
unfolding submit submit_commands submit_flattened submit_parsed store_fence guest_read words
    read_words guest_write flatten_pm4 flatten_levels flatten_loop flatten_packet append_packet
    payload_count is_tail_padding slice_at packet packet_loop parse_pm4 execute_type3 execute_pm4
    execute_levels execute_loop execute_packet execute_opcode write_data write_words init le_bytes
is_accepted = refl

submit-Accepted_example :
    (commands : List ℕ) × (guest_read (read_words memory guest_bytes) 0x2000 (16 * 4)
      ≡ some commands)
    × Accepted memory peek memory-IsGuest commands 3 0x4000 0x1234 device
        (submit memory (some accepted) device).1
submit-Accepted_example = submit-Accepted memory peek memory-IsGuest accepted device is_accepted

-- A ring of sixteen words that was read up to its twelfth.
abbrev ring : Queue
ring = record no_queue {
  ring_addr = 0x2000;
  read_ptr_addr = 0x1000;
  ring_dwords = 16;
  read_offset = 12;
  mapped = true;
}

ring-IsRing : IsRing ring
ring-IsRing = record {
  exponent = 4;
  power = refl;
  size = omega arith;
  inside = omega arith;
  placed = omega arith;
  aligned = refl;
  ends = omega arith;
  pointer = omega arith;
  pointer_aligned = refl;
}

abbrev wrapped : List ℕ
wrapped = 0 ∷ 0 ∷ 0 ∷ 0 ∷ 0xc0033700 ∷ 0x500 ∷ []

read_ring-word_at_example :
    (length wrapped ≡ 6) × (0x500 ≡ word_at (peek guest_bytes) (ring_place ring 5))
unfolding read_ring guest_read read_words words
read_ring-word_at_example =
    read_ring-word_at memory peek memory-IsGuest guest_bytes ring 6 5 0x500 ring-IsRing
      (omega arith) refl refl

abbrev mapped : Device Bytes
mapped = (map_queue memory 1 2 0x2000 16 0x1000 device).1

abbrev reached : Reached memory mapped
reached = Reached.next (Reached.initial guest_bytes) (Step.maps 1 2 0x2000 16 0x1000 device)

Reached-IsGpu_example : IsGpu mapped.gpu
Reached-IsGpu_example = Reached-IsGpu memory reached

is_rung : (ding_dong memory 11 5 mapped).0 ≡ true
unfolding ding_dong ring_doorbell added_dwords read_ring write_read_pointer advance map_queue
    bad_ring bit_and update_queue submit_commands submit_flattened submit_parsed store_fence
    guest_read words read_words guest_write flatten_pm4 flatten_levels flatten_loop flatten_packet
    append_packet payload_count is_tail_padding slice_at packet packet_loop parse_pm4 execute_type3
    execute_pm4 execute_levels execute_loop execute_packet execute_opcode write_data write_words
    init le_bytes
is_rung = refl

ding_dong-Drained_example :
    (q : Queue) × (get_elem? mapped.gpu.queues 10 ≡ some q)
    × Taken memory peek memory-IsGuest q 10 5 mapped (ding_dong memory 11 5 mapped).1
    × Drained memory peek memory-IsGuest 10 5 (ding_dong memory 11 5 mapped).1
ding_dong-Drained_example =
    ding_dong-Drained memory peek memory-IsGuest 11 5 mapped (Reached-IsGpu memory reached).queues
      is_rung
