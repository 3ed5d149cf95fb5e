-- ===== src/Gpu/Queues/Doorbell.antt =====
-- A doorbell: which words it submits, and what the guest sees of it.
use qemu_dll_shadps.Base.{
  ℕ, ◌+◌, ◌-◌, ◌%◌, ◌<◌, ◌≡◌, refl, ap, sym, subst, ◌∙◌, inl, inr, true, not, ◌||◌, leb, ltb, ◌==◌,
  List, some, All, All-get_elem?, get_elem?, length, le_bytes, Bool-cases, Option-cases, arith,
}
use native.Mathlib.Nat.{mod-eq_of_lt, mod-eq-sub-mod}
use qemu_dll_shadps.Gpu.Guest.{GuestMemory, IsGuest, guest_write}
use qemu_dll_shadps.Gpu.Guest.Words.{word_at, Holds, guest_write-Holds}
use qemu_dll_shadps.Gpu.State.{Queue, max_queues}
use qemu_dll_shadps.Gpu.Submit.{Device, submit_commands, complete, complete_queue}
use qemu_dll_shadps.Gpu.Submit.Outcomes.{submit_commands-Ran, get_elem?-update_queue}
use qemu_dll_shadps.Gpu.Queues.{
  added_dwords, read_ring, write_read_pointer, advance, ring_doorbell, ding_dong,
}
use qemu_dll_shadps.Gpu.Queues.Rings.{IsRing, IsQueue}
use qemu_dll_shadps.Gpu.Queues.Words.{ring_place, ring_words, ring_words_lem, read_ring_words}

module _ {M : Type 0} (guest : GuestMemory M) where
  -- The queue of an accepted command buffer.
  pub submit_commands-complete_queue :
      (commands : List ℕ) (index fence_value : ℕ) (d : Device M) (q : Queue)
      → get_elem? d.gpu.queues index ≡ some q
      → (submit_commands guest commands index 0 fence_value d).0 ≡ true
      → get_elem? (submit_commands guest commands index 0 fence_value d).1.gpu.queues index
        ≡ some (complete_queue fence_value q)
  unfolding complete
  submit_commands-complete_queue commands index fence_value d q found accepted =
      ap (λ g. get_elem? g.queues index)
        (submit_commands-Ran guest commands index 0 fence_value d accepted).changes
      ∙ get_elem?-update_queue d.gpu.queues index (complete_queue fence_value) found

module _ {M : Type 0} (guest : GuestMemory M) (peek : M → ℕ → ℕ)
    (is_guest : IsGuest guest peek) where
  -- The words that a doorbell takes from a ring are as many as were asked for, and each is the word in
  -- guest memory at its place, counted from the read offset and around the end of the ring.
  pub read_ring-word_at :
      (m : M) (q : Queue) (n i w : ℕ) {ws : List ℕ}
      → IsRing q
      → n < q.ring_dwords
      → read_ring guest m q n ≡ some ws
      → get_elem? ws i ≡ some w
      → (length ws ≡ n) × (w ≡ word_at (peek m) (ring_place q i))
  read_ring-word_at m q n i w ring h e p =
      let (l, words) = read_ring_words guest peek is_guest m q n ring h e in (l, words i w p)

  -- What a doorbell that succeeds shows the guest: the queue has read up to the offset, and the
  -- guest's copy of the offset says so.
  pub record Drained (index next_offset : ℕ) (d : Device M) : Type 0 where
    pub queue : Queue
    pub found : get_elem? d.gpu.queues index ≡ some queue
    pub read_up : queue.read_offset ≡ next_offset
    pub shown : Holds (peek d.memory) queue.read_ptr_addr (le_bytes 4 next_offset)

  write_read_pointer-Drained :
      (q : Queue) (index next_offset : ℕ) (d : Device M) (r : Queue)
      → get_elem? d.gpu.queues index ≡ some r
      → r.read_offset ≡ next_offset
      → r.read_ptr_addr ≡ q.read_ptr_addr
      → (write_read_pointer guest q next_offset d).0 ≡ true
      → Drained index next_offset (write_read_pointer guest q next_offset d).1
  unfolding write_read_pointer
  write_read_pointer-Drained q index next_offset d r found up same h =
      elim (Bool-cases (guest_write guest d.memory q.read_ptr_addr (le_bytes 4 next_offset)).0) [
        | inr st ↦ absurd (ground arith)
        | inl st ↦ rw (st) (record {
          queue = r;
          found = found;
          read_up = up;
          shown =
              subst
                (λ a.
                  Holds
                    (peek (guest_write guest d.memory q.read_ptr_addr (le_bytes 4 next_offset)).1) a
                    (le_bytes 4 next_offset))
                (sym same)
                (guest_write-Holds guest peek is_guest d.memory q.read_ptr_addr
                  (le_bytes 4 next_offset) st);
        })
      ]

  -- The words are accepted by `d`, and `d'` has the registers and the count that this leaves.
  abbrev pub Submits : List ℕ → ℕ → Device M → Device M → Type 0
  Submits commands index d d' =
      let x = submit_commands guest commands index 0 0 d in
      (x.0 ≡ true)
      × (d'.gpu.submit_count ≡ x.1.gpu.submit_count)
      × (d'.gpu.context_registers ≡ x.1.gpu.context_registers)
      × (d'.gpu.shader_registers ≡ x.1.gpu.shader_registers)

  -- What a doorbell up to an offset took from a queue, the device being `d` before and `d'` after it:
  -- nothing where the offset was the queue's, else the words of the ring, in order, from the read
  -- offset on and less than once around it, up to the offset. They were submitted and accepted.
  pub data Taken (q : Queue) (index next_offset : ℕ) (d d' : Device M) : Type 0 where
    nothing : q.read_offset ≡ next_offset → d'.gpu ≡ d.gpu → Taken q index next_offset d d'
    words :
        (n : ℕ)
        → n < q.ring_dwords
        → (q.read_offset + n) % q.ring_dwords ≡ next_offset
        → Submits (ring_words (peek d.memory) q n 0) index d d'
        → Taken q index next_offset d d'

  write_read_pointer-gpu :
      (q : Queue) (next_offset : ℕ) (d : Device M)
      → (write_read_pointer guest q next_offset d).0 ≡ true
      → (write_read_pointer guest q next_offset d).1.gpu ≡ d.gpu
  unfolding write_read_pointer
  write_read_pointer-gpu q next_offset d h = ground arith

  added_dwords-lt :
      (q : Queue) (next_offset : ℕ)
      → q.read_offset < q.ring_dwords
      → next_offset < q.ring_dwords
      → (added_dwords q next_offset < q.ring_dwords)
        × ((q.read_offset + added_dwords q next_offset) % q.ring_dwords ≡ next_offset)
  unfolding added_dwords
  added_dwords-lt q next_offset h k = elim (Bool-cases (leb q.read_offset next_offset)) [
    | inl ahead ↦
        let sum : q.read_offset + (next_offset - q.read_offset) ≡ next_offset = ground arith in
        rw (ahead, sum) (omega arith, mod-eq_of_lt k)
    | inr around ↦
        let sum : q.read_offset + (q.ring_dwords - q.read_offset + next_offset)
            ≡ q.ring_dwords + next_offset =
          ground arith in
        let less : q.ring_dwords - q.read_offset + next_offset < q.ring_dwords = ground arith in
        let once =
          mod-eq-sub-mod {n = q.ring_dwords + next_offset} {m = q.ring_dwords} (omega arith) in
        let rest : q.ring_dwords + next_offset - q.ring_dwords ≡ next_offset = omega arith in
        rw (around, sum) (less, once ∙ rw rest (mod-eq_of_lt k))
  ]

  -- What is known after the doorbell of a queue.
  abbrev Rung : Queue → ℕ → ℕ → Device M → Device M → Type 0
  Rung q index next_offset d d' = Taken q index next_offset d d' × Drained index next_offset d'

  ring_doorbell-Rung :
      (q : Queue) (index next_offset : ℕ) (d : Device M)
      → IsRing q
      → next_offset < q.ring_dwords
      → get_elem? d.gpu.queues index ≡ some q
      → (ring_doorbell guest q index next_offset d).0 ≡ true
      → Rung q index next_offset d (ring_doorbell guest q index next_offset d).1
  unfolding ring_doorbell complete advance complete_queue
  ring_doorbell-Rung q index next_offset d ring small found h =
      let (less, place) = added_dwords-lt q next_offset ring.inside small in
      elim (Bool-cases (added_dwords q next_offset == 0)) [
        | inl none_added ↦
            let h' : (write_read_pointer guest q q.read_offset d).0 ≡ true = (rw none_added at h) in
            let none : added_dwords q next_offset ≡ 0 = ground arith in
            let up : q.read_offset ≡ next_offset =
              sym (mod-eq_of_lt ring.inside)
              ∙ ap (λ k. k % q.ring_dwords) (omega (arith, none))
              ∙ place in
            rw none_added (
              Taken.nothing up (write_read_pointer-gpu q q.read_offset d h'),
              subst (λ o. Drained index o (write_read_pointer guest q q.read_offset d).1) up
                  (write_read_pointer-Drained q index q.read_offset d q found refl refl h'),
            )
        | inr some_added ↦
            elim (Option-cases (read_ring guest d.memory q (added_dwords q next_offset))) [
              | inl out ↦ absurd (ground arith)
              | inr (commands, r) ↦
                  elim (Bool-cases (submit_commands guest commands index 0 0 d).0) [
                    | inr refused ↦ absurd (ground arith)
                    | inl accepted ↦
                        let n = added_dwords q next_offset in
                        let (l, each) =
                          read_ring_words guest peek is_guest d.memory q n ring less r in
                        let same = ring_words_lem (peek d.memory) q n 0 commands l (λ j w p.
                          each j w p
                          ∙ ap (λ k. word_at (peek d.memory) (ring_place q k)) (omega arith)) in
                        let d' = (submit_commands guest commands index 0 0 d).1 in
                        let at_once =
                          submit_commands-complete_queue guest commands index 0 d q found
                            accepted in
                        let h' : (write_read_pointer guest q next_offset
                              (advance index next_offset d')).0
                            ≡ true =
                          ground arith in
                        let kept =
                          write_read_pointer-gpu q next_offset (advance index next_offset d') h' in
                        rw (some_added, r, accepted)
                          (
                            Taken.words n less place (
                                subst
                                  (λ xs.
                                    Submits xs index d
                                      (write_read_pointer guest q next_offset
                                        (advance index next_offset d')).1)
                                  same
                                  (
                                    accepted,
                                    ap (λ g. g.submit_count) kept,
                                    ap (λ g. g.context_registers) kept,
                                    ap (λ g. g.shader_registers) kept,
                                  )),
                            write_read_pointer-Drained q index next_offset
                                (advance index next_offset d')
                                (record (complete_queue 0 q) { read_offset = next_offset })
                                (get_elem?-update_queue d'.gpu.queues index
                                  (λ p. record p { read_offset = next_offset }) at_once)
                                refl refl h',
                          )
                  ]
            ]
      ]

  -- A doorbell that succeeds on well-formed queues names a queue, and has taken all that was added to
  -- it: the words of guest memory at the ring's places from the read offset on and around its end, up
  -- to the offset that the guest gave, were submitted in that order and accepted, none if the offset
  -- is the same. The registers and the count of submissions are as that left them, the queue has read
  -- up to the offset, and guest memory holds that offset at the queue's read pointer.
  pub ding_dong-Drained :
      (queue_id next_offset : ℕ) (d : Device M)
      → All IsQueue d.gpu.queues
      → (ding_dong guest queue_id next_offset d).0 ≡ true
      → let d' = (ding_dong guest queue_id next_offset d).1 in
        (q : Queue) × (get_elem? d.gpu.queues (queue_id - 1) ≡ some q)
        × Taken q (queue_id - 1) next_offset d d'
        × Drained (queue_id - 1) next_offset d'
  unfolding ding_dong
  ding_dong-Drained queue_id next_offset d queues h =
      elim (Bool-cases (queue_id == 0 || ltb max_queues queue_id)) [
        | inl bad ↦ absurd (ground arith)
        | inr good ↦ elim (Option-cases (get_elem? d.gpu.queues (queue_id - 1))) [
          | inl out ↦ absurd (ground arith)
          | inr (q, found) ↦ elim (Bool-cases (not q.mapped || leb q.ring_dwords next_offset)) [
            | inl bad ↦ absurd (ground arith)
            | inr in' ↦ elim (All-get_elem? IsQueue d.gpu.queues (queue_id - 1) queues found) [
              | IsQueue.unused off ↦ absurd (ground arith)
              | IsQueue.in_use ring ↦
                  let h' : (ring_doorbell guest q (queue_id - 1) next_offset d).0 ≡ true =
                    ground arith in
                  let (taken, drained) =
                    ring_doorbell-Rung q (queue_id - 1) next_offset d ring (ground arith) found
                      h' in
                  rw (good, found, in') (q, refl, taken, drained)
            ]
          ]
        ]
      ]
