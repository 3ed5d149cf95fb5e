-- ===== src/Gpu/Calls/Invariant.antt =====
-- What every call keeps of the GPU's state.
use qemu_dll_shadps.Base.{
  ℕ, ◌≡◌, refl, sym, subst, ap, ◌∙◌, Option, none, some, List, length, length-set, length-replicate,
  get_elem?, set, All, All-set, All-get_elem?, All-replicate, replicate, ok,
}
use qemu_dll_shadps.Gpu.Packets.{Registers, parse_pm4}
use qemu_dll_shadps.Gpu.Packets.Validation.{Validated, SameFiles, parse_pm4-Validated}
use qemu_dll_shadps.Gpu.State.{Queue, Gpu, max_queues, no_queue, update_queue, report_rejection}
use qemu_dll_shadps.Gpu.Submit.{complete, complete_queue}
use qemu_dll_shadps.Gpu.Submit.Outcomes.{files}
use qemu_dll_shadps.Gpu.Queues.Rings.{IsQueue}

-- The arrays have their sizes, and each queue is unused or a ring.
pub record IsGpu (gpu : Gpu) : Type 0 where
  pub context : length gpu.context_registers ≡ 0x400
  pub shader : length gpu.shader_registers ≡ 0x400
  pub queue_count : length gpu.queues ≡ max_queues
  pub queues : All IsQueue gpu.queues

update_queue-IsQueue :
    (queues : List Queue) (i : ℕ) (f : Queue → Queue)
    → ((q : Queue) → get_elem? queues i ≡ some q → IsQueue (f q))
    → All IsQueue queues
    → (length (update_queue queues i f) ≡ length queues) × All IsQueue (update_queue queues i f)
unfolding update_queue
update_queue-IsQueue queues i f h k = at (get_elem? queues i) h
  where
    at :
        (o : Option Queue)
        → ((q : Queue) → o ≡ some q → IsQueue (f q))
        → let out : List Queue = elim o [ none ↦ queues | some q ↦ set queues i (f q) ] in
          (length out ≡ length queues) × All IsQueue out
    at none p = (refl, k)
    at (some q) p = (length-set queues i (f q), All-set IsQueue queues i (f q) k (p q refl))

complete_queue-IsQueue :
    (fence_value : ℕ) (q : Queue) → IsQueue q → IsQueue (complete_queue fence_value q)
unfolding complete_queue
complete_queue-IsQueue fence_value q (IsQueue.unused off) = IsQueue.unused off
complete_queue-IsQueue fence_value q (IsQueue.in_use ring) = IsQueue.in_use (record {
  exponent = ring.exponent;
  power = ring.power;
  size = ring.size;
  inside = ring.inside;
  placed = ring.placed;
  aligned = ring.aligned;
  ends = ring.ends;
  pointer = ring.pointer;
  pointer_aligned = ring.pointer_aligned;
})

pub with_queue-IsGpu :
    (gpu : Gpu) (i : ℕ) (f : Queue → Queue)
    → ((q : Queue) → get_elem? gpu.queues i ≡ some q → IsQueue (f q))
    → IsGpu gpu
    → IsGpu (record gpu { queues = update_queue gpu.queues i f })
with_queue-IsGpu gpu i f h g =
    let (n, k) = update_queue-IsQueue gpu.queues i f h g.queues in
    record { context = g.context; shader = g.shader; queue_count = n ∙ g.queue_count; queues = k }

-- Calls that leave the arrays alone.
pub IsGpu-same :
    (before after : Gpu)
    → after.context_registers ≡ before.context_registers
    → after.shader_registers ≡ before.shader_registers
    → after.queues ≡ before.queues
    → IsGpu before
    → IsGpu after
IsGpu-same before after c s q g = record {
  context = ap length c ∙ g.context;
  shader = ap length s ∙ g.shader;
  queue_count = ap length q ∙ g.queue_count;
  queues = subst (All IsQueue) (sym q) g.queues;
}

pub report_rejection-IsGpu : (gpu : Gpu) → IsGpu gpu → IsGpu (report_rejection gpu)
unfolding report_rejection
report_rejection-IsGpu gpu g = IsGpu-same gpu (report_rejection gpu) refl refl refl g

SameFiles-parse_pm4 :
    (commands : List ℕ) (s : Registers) {t : Registers}
    → parse_pm4 commands s ≡ ok t
    → SameFiles s t
SameFiles-parse_pm4 commands s e = subst (Validated s) e (parse_pm4-Validated commands s)

pub complete-IsGpu :
    (commands : List ℕ) (parsed : Registers) (queue_id fence_value : ℕ) (gpu : Gpu)
    → parse_pm4 commands (files gpu) ≡ ok parsed
    → IsGpu gpu
    → IsGpu (complete parsed queue_id fence_value gpu)
unfolding complete
complete-IsGpu commands parsed queue_id fence_value gpu e g =
    let same = SameFiles-parse_pm4 commands (files gpu) e in
    let (n, k) =
      update_queue-IsQueue gpu.queues queue_id (complete_queue fence_value)
        (λ q p.
          complete_queue-IsQueue fence_value q
            (All-get_elem? IsQueue gpu.queues queue_id g.queues p))
        g.queues in
    record {
      context = same.context ∙ g.context;
      shader = same.shader ∙ g.shader;
      queue_count = n ∙ g.queue_count;
      queues = k;
    }

-- The arrays after init and after reset.
pub cleared :
    {gpu : Gpu}
    → gpu.context_registers ≡ replicate 0x400 0
    → gpu.shader_registers ≡ replicate 0x400 0
    → gpu.queues ≡ replicate max_queues no_queue
    → IsGpu gpu
cleared c s q = record {
  context = ap length c ∙ length-replicate {A = ℕ} 0x400 0;
  shader = ap length s ∙ length-replicate {A = ℕ} 0x400 0;
  queue_count = ap length q ∙ length-replicate max_queues no_queue;
  queues =
      subst (All IsQueue) (sym q) (All-replicate IsQueue max_queues no_queue (IsQueue.unused refl));
}
