-- ===== src/Gpu/Calls/Rings.antt =====
-- What the calls on the compute queues keep of the GPU's state.
use qemu_dll_shadps.Base.{
  ℕ, ◌+◌, ◌-◌, ◌*◌, ◌%◌, ◌^◌, ◌<◌, ◌≡◌, refl, subst, inl, inr, not, ◌||◌, some, leb, ltb, ◌==◌,
  get_elem?, All-get_elem?, le_bytes, Bool-cases, Option-cases, arith,
}
use qemu_dll_shadps.Gpu.Guest.{GuestMemory, guest_write}
use qemu_dll_shadps.Gpu.State.{Queue, max_queues, no_queue}
use qemu_dll_shadps.Gpu.Submit.{Device, complete_queue, submit_commands}
use qemu_dll_shadps.Gpu.Queues.{
  map_queue, unmap_queue, advance, ring_doorbell, ding_dong, bad_ring, map_ring, added_dwords,
  read_ring, write_read_pointer,
}
use qemu_dll_shadps.Gpu.Queues.Rings.{IsRing, IsQueue, map_ring-IsRing}
use qemu_dll_shadps.Gpu.Queues.Doorbell.{submit_commands-complete_queue}
use qemu_dll_shadps.Gpu.Calls.Invariant.{IsGpu, with_queue-IsGpu, report_rejection-IsGpu}
use qemu_dll_shadps.Gpu.Calls.Submissions.{submit_commands-IsGpu}

module _ {M : Type 0} (guest : GuestMemory M) where
  pub map_queue-IsGpu :
      (pipe_id queue_id ring_addr ring_dwords read_ptr_addr : ℕ) (d : Device M)
      → IsGpu d.gpu
      → IsGpu (map_queue guest pipe_id queue_id ring_addr ring_dwords read_ptr_addr d).1.gpu
  unfolding map_queue
  map_queue-IsGpu pipe_id queue_id ring_addr ring_dwords read_ptr_addr d g =
      let index = (pipe_id * 8 + queue_id) % 2 ^ 32 in
      let refused = report_rejection-IsGpu d.gpu g in
      elim (Bool-cases (bad_ring pipe_id queue_id ring_addr ring_dwords read_ptr_addr)) [
        | inl bad ↦ rw bad refused
        | inr good ↦
            let mapped =
              with_queue-IsGpu d.gpu index (map_ring ring_addr ring_dwords read_ptr_addr)
                (λ q _.
                  IsQueue.in_use
                    (map_ring-IsRing pipe_id queue_id ring_addr ring_dwords read_ptr_addr q good))
                g in
            elim (Option-cases (get_elem? d.gpu.queues index)) [
              | inl out ↦ rw (good, out) refused
              | inr (q, e) ↦ elim (Bool-cases q.mapped) [
                | inl in_use ↦ rw (good, e, in_use) refused
                | inr free ↦
                    elim (Bool-cases (guest_write guest d.memory read_ptr_addr (le_bytes 4 0)).0) [
                      | inl st ↦ rw (good, e, free, st) mapped
                      | inr st ↦ rw (good, e, free, st) refused
                    ]
              ]
            ]
      ]

  pub unmap_queue-IsGpu :
      (queue_id : ℕ) (d : Device M) → IsGpu d.gpu → IsGpu (unmap_queue guest queue_id d).1.gpu
  unfolding unmap_queue
  unmap_queue-IsGpu queue_id d g = elim (Bool-cases (queue_id == 0 || ltb max_queues queue_id)) [
    | inl bad ↦ rw bad g
    | inr good ↦ elim (Option-cases (get_elem? d.gpu.queues (queue_id - 1))) [
      | inl out ↦ rw (good, out) g
      | inr (q, e) ↦ elim (Bool-cases q.mapped) [
        | inl in_use ↦
            rw (good, e, in_use)
              (with_queue-IsGpu d.gpu (queue_id - 1) (λ _. no_queue) (λ _ _. IsQueue.unused refl) g)
        | inr free ↦ rw (good, e, free) g
      ]
    ]
  ]

  write_read_pointer-IsGpu :
      (q : Queue) (read_offset : ℕ) (d : Device M)
      → IsGpu d.gpu
      → IsGpu (write_read_pointer guest q read_offset d).1.gpu
  unfolding write_read_pointer
  write_read_pointer-IsGpu q read_offset d g =
      elim (Bool-cases (guest_write guest d.memory q.read_ptr_addr (le_bytes 4 read_offset)).0) [
        | inl st ↦ rw st g
        | inr st ↦ rw st (report_rejection-IsGpu d.gpu g)
      ]

  -- A ring may be read up to any of its offsets.
  advance_queue-IsQueue :
      (next_offset : ℕ) (q : Queue)
      → IsRing q
      → next_offset < q.ring_dwords
      → IsQueue (record (complete_queue 0 q) { read_offset = next_offset })
  unfolding complete_queue
  advance_queue-IsQueue next_offset q ring h = IsQueue.in_use (record {
    exponent = ring.exponent;
    power = ring.power;
    size = ring.size;
    inside = h;
    placed = ring.placed;
    aligned = ring.aligned;
    ends = ring.ends;
    pointer = ring.pointer;
    pointer_aligned = ring.pointer_aligned;
  })

  ring_doorbell-IsGpu :
      (q : Queue) (index next_offset : ℕ) (d : Device M)
      → IsRing q
      → next_offset < q.ring_dwords
      → get_elem? d.gpu.queues index ≡ some q
      → IsGpu d.gpu
      → IsGpu (ring_doorbell guest q index next_offset d).1.gpu
  unfolding ring_doorbell advance
  ring_doorbell-IsGpu q index next_offset d ring small found g =
      elim (Bool-cases (added_dwords q next_offset == 0)) [
        | inl none_added ↦ rw none_added (write_read_pointer-IsGpu q q.read_offset d g)
        | inr some_added ↦
            elim (Option-cases (read_ring guest d.memory q (added_dwords q next_offset))) [
              | inl out ↦ rw (some_added, out) (report_rejection-IsGpu d.gpu g)
              | inr (commands, r) ↦
                  let d' = (submit_commands guest commands index 0 0 d).1 in
                  let g' = submit_commands-IsGpu guest commands index 0 0 d g in
                  elim (Bool-cases (submit_commands guest commands index 0 0 d).0) [
                    | inr refused ↦ rw (some_added, r, refused) g'
                    | inl accepted ↦
                        let here =
                          submit_commands-complete_queue guest commands index 0 d q found
                            accepted in
                        rw (some_added, r, accepted)
                          (write_read_pointer-IsGpu q next_offset (advance index next_offset d') (
                            with_queue-IsGpu d'.gpu index
                              (λ p. record p { read_offset = next_offset })
                              (λ p e.
                                let same : complete_queue 0 q ≡ p = cc in
                                subst (λ p. IsQueue (record p { read_offset = next_offset })) same
                                  (advance_queue-IsQueue next_offset q ring small))
                              g'))
                  ]
            ]
      ]

  pub ding_dong-IsGpu :
      (queue_id next_offset : ℕ) (d : Device M)
      → IsGpu d.gpu
      → IsGpu (ding_dong guest queue_id next_offset d).1.gpu
  unfolding ding_dong
  ding_dong-IsGpu queue_id next_offset d g =
      let refused = report_rejection-IsGpu d.gpu g in
      elim (Bool-cases (queue_id == 0 || ltb max_queues queue_id)) [
        | inl bad ↦ rw bad refused
        | inr good ↦ elim (Option-cases (get_elem? d.gpu.queues (queue_id - 1))) [
          | inl out ↦ rw (good, out) refused
          | inr (q, found) ↦ elim (Bool-cases (not q.mapped || leb q.ring_dwords next_offset)) [
            | inl bad ↦ rw (good, found, bad) refused
            | inr in' ↦ elim (All-get_elem? IsQueue d.gpu.queues (queue_id - 1) g.queues found) [
              | IsQueue.unused off ↦ absurd (ground arith)
              | IsQueue.in_use ring ↦
                  rw (good, found, in')
                    (ring_doorbell-IsGpu q (queue_id - 1) next_offset d ring (ground arith) found g)
            ]
          ]
        ]
      ]
