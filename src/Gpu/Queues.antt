-- ===== src/Gpu/Queues.antt =====
-- shadps4_gpu_map_queue, shadps4_gpu_unmap_queue and shadps4_gpu_ding_dong: rings of commands in guest
-- memory, of which each doorbell submits what was added.
pub mod Rings
pub mod Words
pub mod Doorbell
use qemu_dll_shadps.Base.{
  ℕ, zero, suc, ◌+◌, ◌-◌, ◌*◌, ◌/◌, ◌%◌, ◌^◌, min, Bool, true, false, not, ◌||◌, Option, none, some,
  List, ◌++◌, leb, ltb, ◌==◌, if◌then◌else◌, get_elem?, le_bytes, ℤ, pos, negsuc,
}
use qemu_dll_shadps.Gpu.Flatten.{guest_read, max_command_dwords}
use qemu_dll_shadps.Gpu.Guest.{GuestMemory, read_words, guest_write}
use qemu_dll_shadps.Gpu.State.{Queue, Gpu, max_queues, no_queue, update_queue, report_rejection}
use qemu_dll_shadps.Gpu.Submit.{Device, reject_with, reject_submit, submit_commands}

-- The bits that two `w`-bit numbers share.
unfoldable pub bit_and : ℕ → ℕ → ℕ → ℕ
bit_and zero a b = 0
bit_and (suc w) a b = a % 2 * (b % 2) + 2 * bit_and w (a / 2) (b / 2)

abbrev pub map_reject : {M : Type 0} → M → Device M → ℤ × Device M
map_reject m d = (negsuc 0, (reject_with m d).1)

abbrev pub map_ring : ℕ → ℕ → ℕ → Queue → Queue
map_ring ring_addr ring_dwords read_ptr_addr q = record q {
  ring_addr = ring_addr;
  read_ptr_addr = read_ptr_addr;
  ring_dwords = ring_dwords;
  read_offset = 0;
  mapped = true;
}

-- The tests on the arguments; `true` where one of them fails.
unfoldable pub bad_ring : ℕ → ℕ → ℕ → ℕ → ℕ → Bool
bad_ring pipe_id queue_id ring_addr ring_dwords read_ptr_addr =
    leb 8 pipe_id
    || (leb 8 queue_id
        || (leb max_queues ((pipe_id * 8 + queue_id) % 2 ^ 32)
            || (ring_addr == 0
                || (not (ring_addr % 0x100 == 0)
                    || (ring_dwords == 0
                        || (ltb max_command_dwords ring_dwords
                            || (not (bit_and 32 ring_dwords (ring_dwords - 1) == 0)
                                || (read_ptr_addr == 0
                                    || (ltb (2 ^ 64 - 1 - ring_dwords * 4) ring_addr
                                        || not (read_ptr_addr % 4 == 0))))))))))

-- How many words a ring holds from its read offset to another offset.
unfoldable pub added_dwords : Queue → ℕ → ℕ
added_dwords q next_offset =
    if leb q.read_offset next_offset
    then next_offset - q.read_offset
    else q.ring_dwords - q.read_offset + next_offset

unfoldable pub advance : {M : Type 0} → ℕ → ℕ → Device M → Device M
advance index next_offset d = record d {
  gpu = record d.gpu {
    queues = update_queue d.gpu.queues index (λ q. record q { read_offset = next_offset });
  };
}

module _ {M : Type 0} (guest : GuestMemory M) where
  unfoldable pub map_queue : ℕ → ℕ → ℕ → ℕ → ℕ → Device M → ℤ × Device M
  map_queue pipe_id queue_id ring_addr ring_dwords read_ptr_addr d =
      let index = (pipe_id * 8 + queue_id) % 2 ^ 32 in
      if bad_ring pipe_id queue_id ring_addr ring_dwords read_ptr_addr
      then map_reject d.memory d
      else elim (get_elem? d.gpu.queues index) [
        | none ↦ map_reject d.memory d
        | some q ↦
            if q.mapped
            then map_reject d.memory d
            else (let (stored, m) = guest_write guest d.memory read_ptr_addr (le_bytes 4 0) in
                if not stored then map_reject m d else (
                  pos (index + 1),
                  record {
                    gpu = record d.gpu {
                      queues =
                          update_queue d.gpu.queues index
                            (map_ring ring_addr ring_dwords read_ptr_addr);
                    };
                    memory = m;
                  },
                ))
      ]

  unfoldable pub unmap_queue : ℕ → Device M → Bool × Device M
  unmap_queue queue_id d =
      if queue_id == 0 || ltb max_queues queue_id
      then (false, d)
      else elim (get_elem? d.gpu.queues (queue_id - 1)) [
        | none ↦ (false, d)
        | some q ↦ if not q.mapped then (false, d) else (
          true,
          record d {
            gpu = record d.gpu {
              queues = update_queue d.gpu.queues (queue_id - 1) (λ _. no_queue);
            };
          },
        )
      ]

  -- The words from the read offset on, around the end of the ring.
  unfoldable pub read_ring : M → Queue → ℕ → Option (List ℕ)
  read_ring m q command_dwords =
      let tail_dwords = min command_dwords (q.ring_dwords - q.read_offset) in
      elim (guest_read (read_words guest m) ((q.ring_addr + q.read_offset * 4 % 2 ^ 32) % 2 ^ 64)
        (tail_dwords * 4)) [
          | none ↦ none
          | some commands ↦
              if not (ltb tail_dwords command_dwords)
              then some commands
              else elim (guest_read (read_words guest m) q.ring_addr
                  ((command_dwords - tail_dwords) * 4)) [
                    | none ↦ none
                    | some wrapped ↦ some (commands ++ wrapped)
                  ]
        ]

  -- The end of a doorbell: the guest sees the read offset.
  unfoldable pub write_read_pointer : Queue → ℕ → Device M → Bool × Device M
  write_read_pointer q read_offset d =
      let (stored, m) = guest_write guest d.memory q.read_ptr_addr (le_bytes 4 read_offset) in
      if not stored then reject_with m d else (true, record d { memory = m })

  unfoldable pub ring_doorbell : Queue → ℕ → ℕ → Device M → Bool × Device M
  ring_doorbell q index next_offset d =
      if added_dwords q next_offset == 0
      then write_read_pointer q q.read_offset d
      else elim (read_ring d.memory q (added_dwords q next_offset)) [
        | none ↦ reject_submit d
        | some commands ↦
            let (accepted, d') = submit_commands guest commands index 0 0 d in
            if not accepted
            then (false, d')
            else write_read_pointer q next_offset (advance index next_offset d')
      ]

  unfoldable pub ding_dong : ℕ → ℕ → Device M → Bool × Device M
  ding_dong queue_id next_offset d =
      if queue_id == 0 || ltb max_queues queue_id
      then reject_submit d
      else elim (get_elem? d.gpu.queues (queue_id - 1)) [
        | none ↦ reject_submit d
        | some q ↦
            if not q.mapped || leb q.ring_dwords next_offset
            then reject_submit d
            else ring_doorbell q (queue_id - 1) next_offset d
      ]
