-- ===== src/Gpu/Submit.antt =====
-- shadps4_gpu_submit_commands and shadps4_gpu_submit: a command buffer is flattened, validated and
-- executed, its fence stored, and only then the counters and registers change.
pub mod Outcomes
use qemu_dll_shadps.Base.{
  ℕ, ◌+◌, ◌*◌, ◌%◌, ◌^◌, Bool, true, false, ◌||◌, Option, none, some, List, [], leb, ltb, ◌==◌,
  if◌then◌else◌, length, le_bytes, ok, err, done, fail,
}
use qemu_dll_shadps.Gpu.Packets.{Registers, parse_pm4}
use qemu_dll_shadps.Gpu.Flatten.{guest_read, max_command_dwords, flatten_pm4}
use qemu_dll_shadps.Gpu.Guest.{GuestMemory, read_words, guest_write}
use qemu_dll_shadps.Gpu.Execute.{execute_pm4}
use qemu_dll_shadps.Gpu.State.{
  Submit, Queue, Gpu, max_queues, next_count, update_queue, report_rejection,
}

-- The GPU and the guest memory that it works on.
pub record Device (M : Type 0) : Type 0 where
  pub gpu : Gpu
  pub memory : M

abbrev pub reject_with : {M : Type 0} → M → Device M → Bool × Device M
reject_with m d = (false, record { gpu = report_rejection d.gpu; memory = m })

abbrev pub reject_submit : {M : Type 0} → Device M → Bool × Device M
reject_submit d = reject_with d.memory d

unfoldable pub complete_queue : ℕ → Queue → Queue
complete_queue fence_value q = record q {
  submit_count = next_count q.submit_count;
  completed_fence = fence_value;
}

-- What a submission that ran changes.
unfoldable pub complete : Registers → ℕ → ℕ → Gpu → Gpu
complete parsed queue_id fence_value gpu = record gpu {
  context_registers = parsed.context;
  shader_registers = parsed.shader;
  parsed_packet_count = (gpu.parsed_packet_count + parsed.packets) % 2 ^ 64;
  submit_count = next_count gpu.submit_count;
  queues = update_queue gpu.queues queue_id (complete_queue fence_value);
  last_fence_value = fence_value;
}

module _ {M : Type 0} (guest : GuestMemory M) where
  -- The memory after the fence, if it could be stored.
  unfoldable pub store_fence : ℕ → ℕ → M → Bool × M
  store_fence fence_addr fence_value m =
      if fence_addr == 0 then (true, m) else guest_write guest m fence_addr (le_bytes 8 fence_value)

  -- From the execution on.
  unfoldable pub submit_parsed : List ℕ → Registers → ℕ → ℕ → ℕ → Device M → Bool × Device M
  submit_parsed flattened parsed queue_id fence_addr fence_value d =
      elim (execute_pm4 guest 0 flattened d.memory) [
        | fail e m ↦ reject_with m d
        | done a m ↦
            let (stored, m') = store_fence fence_addr fence_value m in
            if stored
            then (true, record { gpu = complete parsed queue_id fence_value d.gpu; memory = m' })
            else reject_with m' d
      ]

  unfoldable pub submit_flattened : List ℕ → ℕ → ℕ → ℕ → Device M → Bool × Device M
  submit_flattened flattened queue_id fence_addr fence_value d =
      elim (parse_pm4 flattened (record {
        context = d.gpu.context_registers;
        shader = d.gpu.shader_registers;
        packets = 0;
      })) [
        | err e ↦ reject_submit d
        | ok parsed ↦ submit_parsed flattened parsed queue_id fence_addr fence_value d
      ]

  unfoldable pub submit_commands : List ℕ → ℕ → ℕ → ℕ → Device M → Bool × Device M
  submit_commands commands queue_id fence_addr fence_value d =
      if length commands == 0
        || (ltb max_command_dwords (length commands) || leb max_queues queue_id)
      then reject_submit d
      else elim (flatten_pm4 (read_words guest d.memory) 0 commands []) [
        | err e ↦ reject_submit d
        | ok flattened ↦ submit_flattened flattened queue_id fence_addr fence_value d
      ]

  -- `none` is the NULL pointer.
  unfoldable pub submit : Option Submit → Device M → Bool × Device M
  submit none d =
      (true, record d { gpu = record d.gpu { submit_count = next_count d.gpu.submit_count } })
  submit (some s) d =
      if s.command_dwords == 0
        || (ltb max_command_dwords s.command_dwords || leb max_queues s.queue_id)
      then reject_submit d
      else elim (guest_read (read_words guest d.memory) s.command_addr (s.command_dwords * 4)) [
        | none ↦ reject_submit d
        | some commands ↦ submit_commands commands s.queue_id s.fence_addr s.fence_value d
      ]
