-- ===== src/Gpu/Submit/Outcomes.antt =====
-- What a submission leaves behind, accepted or rejected.
use qemu_dll_shadps.Base.{
  ℕ, ◌+◌, ◌*◌, ◌%◌, ◌^◌, ◌<◌, ◌≡◌, ◌≢◌, refl, sym, ◌⊎◌, inl, inr, get_elem?, get_elem?_bound,
  get_elem?-set_self, Bool, true, false, ◌||◌, Option, none, some, List, [], leb, ltb, ◌==◌, length,
  le_bytes, subst, ap, ok, done, Bool-cases, Option-cases, Result-cases, Outcome-cases, arith,
}
use qemu_dll_shadps.Gpu.Packets.{Registers, parse_pm4}
use qemu_dll_shadps.Gpu.Flatten.{guest_read, max_command_dwords, flatten_pm4}
use qemu_dll_shadps.Gpu.Guest.{GuestMemory, IsGuest, read_words, guest_write}
use qemu_dll_shadps.Gpu.Guest.Words.{Holds, guest_write-Holds}
use qemu_dll_shadps.Gpu.Execute.{execute_pm4}
use qemu_dll_shadps.Gpu.State.{Submit, Queue, Gpu, max_queues, update_queue, report_rejection}
use qemu_dll_shadps.Gpu.Submit.{
  Device, complete_queue, complete, store_fence, submit_parsed, submit_flattened, submit_commands,
  submit,
}

abbrev pub files : Gpu → Registers
files gpu = record { context = gpu.context_registers; shader = gpu.shader_registers; packets = 0 }

pub get_elem?-update_queue :
    (queues : List Queue) (i : ℕ) (f : Queue → Queue) {q : Queue}
    → get_elem? queues i ≡ some q
    → get_elem? (update_queue queues i f) i ≡ some (f q)
unfolding update_queue
get_elem?-update_queue queues i f {q} h =
    rw (h, get_elem?) (get_elem?-set_self queues i (f q) (get_elem?_bound queues i h))

-- A queue after a submission to it: the queue, if there is one, has one submission more and the fence
-- as the last that was completed.
abbrev pub Completed : ℕ → ℕ → List Queue → List Queue → Type 0
Completed queue_id fence_value before after =
    ((get_elem? before queue_id ≡ none) × (after ≡ before))
    ⊎ ((q : Queue) × (get_elem? before queue_id ≡ some q)
        × (get_elem? after queue_id
            ≡ some (record q {
              submit_count = (q.submit_count + 1) % 2 ^ 64;
              completed_fence = fence_value;
            })))

update_queue-Completed :
    (queues : List Queue) (queue_id fence_value : ℕ)
    → Completed queue_id fence_value queues
        (update_queue queues queue_id (complete_queue fence_value))
unfolding update_queue complete_queue
update_queue-Completed queues queue_id fence_value =
    elim (Option-cases (get_elem? queues queue_id)) [
      | inl out ↦ inl (out, rw (out, update_queue) refl)
      | inr (q, found) ↦
          inr (q, found, get_elem?-update_queue queues queue_id (complete_queue fence_value) found)
    ]

module _ {M : Type 0} (guest : GuestMemory M) where
  -- What holds of a result that is `false`.
  abbrev Rejects : Device M → Bool × Device M → Type 0
  Rejects d x = x.0 ≡ false → x.1.gpu ≡ report_rejection d.gpu

  submit_parsed-Rejects :
      (flattened : List ℕ) (parsed : Registers) (queue_id fence_addr fence_value : ℕ) (d : Device M)
      → Rejects d (submit_parsed guest flattened parsed queue_id fence_addr fence_value d)
  unfolding submit_parsed
  submit_parsed-Rejects flattened parsed queue_id fence_addr fence_value d = ground arith

  submit_flattened-Rejects :
      (flattened : List ℕ) (queue_id fence_addr fence_value : ℕ) (d : Device M)
      → Rejects d (submit_flattened guest flattened queue_id fence_addr fence_value d)
  unfolding submit_flattened
  submit_flattened-Rejects flattened queue_id fence_addr fence_value d =
      grind (arith, submit_parsed-Rejects)

  pub submit_commands-report_rejection :
      (commands : List ℕ) (queue_id fence_addr fence_value : ℕ) (d : Device M)
      → Rejects d (submit_commands guest commands queue_id fence_addr fence_value d)
  unfolding submit_commands
  submit_commands-report_rejection commands queue_id fence_addr fence_value d =
      grind (arith, submit_flattened-Rejects)

  -- A submission that is rejected, for whatever reason, changes nothing of the GPU's state but the
  -- count of rejected submissions, which goes up by one. Guest memory is not spoken of: packets that
  -- ran before the rejection may have written to it.
  pub submit-report_rejection :
      (s : Option Submit) (d : Device M)
      → (submit guest s d).0 ≡ false
      → (submit guest s d).1.gpu
        ≡ record d.gpu { rejected_submit_count = (d.gpu.rejected_submit_count + 1) % 2 ^ 64 }
  unfolding submit report_rejection
  submit-report_rejection none d h = cc
  submit-report_rejection (some s) d h = grind (arith, submit_commands-report_rejection)

  -- What an accepted command buffer was taken for, and what it changed.
  pub record Ran (commands : List ℕ) (queue_id fence_addr fence_value : ℕ) (d d' : Device M)
      : Type 0 where
    pub flattened : List ℕ
    pub parsed : Registers
    pub flattens : flatten_pm4 (read_words guest d.memory) 0 commands [] ≡ ok flattened
    pub parses : parse_pm4 flattened (files d.gpu) ≡ ok parsed
    pub runs : M
    pub executes : execute_pm4 guest 0 flattened d.memory ≡ done tt runs
    pub stores : store_fence guest fence_addr fence_value runs ≡ (true, d'.memory)
    pub changes : d'.gpu ≡ complete parsed queue_id fence_value d.gpu

  pub submit_commands-Ran :
      (commands : List ℕ) (queue_id fence_addr fence_value : ℕ) (d : Device M)
      → (submit_commands guest commands queue_id fence_addr fence_value d).0 ≡ true
      → Ran commands queue_id fence_addr fence_value d
          (submit_commands guest commands queue_id fence_addr fence_value d).1
  unfolding submit_commands submit_flattened submit_parsed
  submit_commands-Ran commands queue_id fence_addr fence_value d h =
      elim (Bool-cases (
        length commands == 0
        || (ltb max_command_dwords (length commands) || leb max_queues queue_id))) [
          | inl bad ↦ absurd (ground arith)
          | inr good ↦ elim (Result-cases (flatten_pm4 (read_words guest d.memory) 0 commands [])) [
            | inr (e, f) ↦ absurd (ground arith)
            | inl (flattened, f) ↦ elim (Result-cases (parse_pm4 flattened (files d.gpu))) [
              | inr (e, p) ↦ absurd (ground arith)
              | inl (parsed, p) ↦ elim (Outcome-cases (execute_pm4 guest 0 flattened d.memory)) [
                | inr (e, m, x) ↦ absurd (ground arith)
                | inl (u, m, x) ↦ elim (Bool-cases (store_fence guest fence_addr fence_value m).0) [
                  | inr st ↦ absurd (ground arith)
                  | inl st ↦
                      rw (good, f, submit_flattened, p, submit_parsed, x, st)
                        (record {
                          flattened = flattened;
                          parsed = parsed;
                          flattens = f;
                          parses = p;
                          runs = m;
                          executes = x;
                          stores = ground arith;
                          changes = refl;
                        })
                ]
              ]
            ]
          ]
        ]

  pub submit-Ran :
      (s : Submit) (d : Device M)
      → (submit guest (some s) d).0 ≡ true
      → (commands : List ℕ) × (guest_read
            (read_words guest d.memory)
            s.command_addr
            (s.command_dwords * 4)
          ≡ some commands)
        × Ran commands s.queue_id s.fence_addr s.fence_value d (submit guest (some s) d).1
  unfolding submit
  submit-Ran s d h =
      elim (Bool-cases (
        s.command_dwords == 0
        || (ltb max_command_dwords s.command_dwords || leb max_queues s.queue_id))) [
          | inl bad ↦ absurd (ground arith)
          | inr good ↦
              elim (Option-cases
                (guest_read (read_words guest d.memory) s.command_addr (s.command_dwords * 4))) [
                  | inl out ↦ absurd (ground arith)
                  | inr (commands, r) ↦
                      let h' : (submit_commands guest commands s.queue_id s.fence_addr s.fence_value
                            d).0
                          ≡ true =
                        ground arith in
                      rw (good, r)
                        (
                          commands,
                          refl,
                          submit_commands-Ran commands s.queue_id s.fence_addr s.fence_value d h',
                        )
                ]
        ]

  module _ (peek : M → ℕ → ℕ) (is_guest : IsGuest guest peek) where
    -- After an accepted submission with a fence, guest memory holds the fence's value, and its queue
    -- has it as the fence that was last completed.
    pub submit-fence :
        (s : Submit) (d : Device M)
        → (submit guest (some s) d).0 ≡ true
        → s.fence_addr ≢ 0
        → Holds (peek (submit guest (some s) d).1.memory) s.fence_addr (le_bytes 8 s.fence_value)
          × ((submit guest (some s) d).1.gpu.last_fence_value ≡ s.fence_value)
    unfolding store_fence complete
    submit-fence s d h some_fence =
        let (commands, _, a) = submit-Ran s d h in
        let p : (s.fence_addr == 0) ≡ false = ground arith in
        let stored : guest_write guest a.runs s.fence_addr (le_bytes 8 s.fence_value)
            ≡ (true, (submit guest (some s) d).1.memory) =
          (rw p at a.stores) in
        (
          subst (λ x. Holds (peek x.1) s.fence_addr (le_bytes 8 s.fence_value)) stored
              (guest_write-Holds guest peek is_guest a.runs s.fence_addr (le_bytes 8 s.fence_value)
                (ap (λ x. x.0) stored)),
          ap (λ g. g.last_fence_value) a.changes,
        )

    -- What an accepted submission of the commands shows: they were flattened, validated and executed
    -- to the end; the registers are those of the validation; and the fence is in guest memory.
    pub record Accepted (commands : List ℕ) (queue_id fence_addr fence_value : ℕ) (d d' : Device M)
        : Type 0 where
      pub flattened : List ℕ
      pub parsed : Registers
      pub flattens : flatten_pm4 (read_words guest d.memory) 0 commands [] ≡ ok flattened
      pub parses : parse_pm4 flattened (files d.gpu) ≡ ok parsed
      pub runs : M
      pub executes : execute_pm4 guest 0 flattened d.memory ≡ done tt runs
      pub fence :
          ((fence_addr ≡ 0) × (d'.memory ≡ runs))
          ⊎ ((0 < fence_addr) × Holds (peek d'.memory) fence_addr (le_bytes 8 fence_value))
      pub context : d'.gpu.context_registers ≡ parsed.context
      pub shader : d'.gpu.shader_registers ≡ parsed.shader
      pub packets :
          d'.gpu.parsed_packet_count ≡ (d.gpu.parsed_packet_count + parsed.packets) % 2 ^ 64
      pub submits : d'.gpu.submit_count ≡ (d.gpu.submit_count + 1) % 2 ^ 64
      pub rejects : d'.gpu.rejected_submit_count ≡ d.gpu.rejected_submit_count
      pub flips : d'.gpu.flip_count ≡ d.gpu.flip_count
      pub last_fence : d'.gpu.last_fence_value ≡ fence_value
      pub queues : Completed queue_id fence_value d.gpu.queues d'.gpu.queues

    stored_fence :
        (fence_addr fence_value : ℕ) (m m' : M)
        → store_fence guest fence_addr fence_value m ≡ (true, m')
        → ((fence_addr ≡ 0) × (m' ≡ m))
          ⊎ ((0 < fence_addr) × Holds (peek m') fence_addr (le_bytes 8 fence_value))
    unfolding store_fence
    stored_fence fence_addr fence_value m m' e = elim (Bool-cases (fence_addr == 0)) [
      | inl absent ↦ inl (ground arith, sym (ap (λ x. x.1) (rw absent at e)))
      | inr present ↦
          let stored : guest_write guest m fence_addr (le_bytes 8 fence_value) ≡ (true, m') =
            rw present at e in
          inr (
            ground arith,
            subst (λ x. Holds (peek x.1) fence_addr (le_bytes 8 fence_value)) stored
                (guest_write-Holds guest peek is_guest m fence_addr (le_bytes 8 fence_value)
                  (ap (λ x. x.0) stored)),
          )
    ]

    Ran-Accepted :
        {commands : List ℕ} {queue_id fence_addr fence_value : ℕ} {d d' : Device M}
        → Ran commands queue_id fence_addr fence_value d d'
        → Accepted commands queue_id fence_addr fence_value d d'
    unfolding complete
    Ran-Accepted {queue_id = queue_id} {fence_addr = fence_addr} {fence_value = fence_value} {d = d}
          {d' = d'} a =
        record {
          flattened = a.flattened;
          parsed = a.parsed;
          flattens = a.flattens;
          parses = a.parses;
          runs = a.runs;
          executes = a.executes;
          fence = stored_fence fence_addr fence_value a.runs d'.memory a.stores;
          context = ap (λ g. g.context_registers) a.changes;
          shader = ap (λ g. g.shader_registers) a.changes;
          packets = ap (λ g. g.parsed_packet_count) a.changes;
          submits = ap (λ g. g.submit_count) a.changes;
          rejects = ap (λ g. g.rejected_submit_count) a.changes;
          flips = ap (λ g. g.flip_count) a.changes;
          last_fence = ap (λ g. g.last_fence_value) a.changes;
          queues = rw a.changes (update_queue-Completed d.gpu.queues queue_id fence_value);
        }

    -- The command buffer of an accepted submission was read from guest memory, flattened, validated and
    -- executed to the end. The registers are those that the validation left, its packets were added
    -- to the count of packets, the submission to that of submissions and to its queue's, and no
    -- rejection or flip was counted. The fence's value is the last one of the GPU and of the queue,
    -- and unless the fence's address is 0 it is in guest memory there, lowest byte first; without a
    -- fence the memory is as the execution left it.
    pub submit-Accepted :
        (s : Submit) (d : Device M)
        → (submit guest (some s) d).0 ≡ true
        → (commands : List ℕ) × (guest_read
              (read_words guest d.memory)
              s.command_addr
              (s.command_dwords * 4)
            ≡ some commands)
          × Accepted commands s.queue_id s.fence_addr s.fence_value d (submit guest (some s) d).1
    submit-Accepted s d h = let (commands, r, a) = submit-Ran s d h in (commands, r, Ran-Accepted a)
