-- ===== src/Gpu/State.antt =====
-- ShadPS4GPUState, for a build without CONFIG_WIN32, and the calls that use no guest memory: init, reset,
-- cleanup, finish, the vertical blank, the status, and the count of what was rejected.
use qemu_dll_shadps.Base.{
  ℕ, ◌+◌, ◌%◌, ◌^◌, Bool, true, false, not, none, some, List, get_elem?, set, replicate,
  if◌then◌else◌,
}

pub record Submit : Type 0 where
  pub command_addr : ℕ
  pub command_dwords : ℕ
  pub queue_id : ℕ
  pub fence_addr : ℕ
  pub fence_value : ℕ

pub record Status : Type 0 where
  pub submit_count : ℕ
  pub flip_count : ℕ
  pub vblank_count : ℕ
  pub parsed_packet_count : ℕ
  pub rejected_submit_count : ℕ
  pub last_fence_value : ℕ

pub record Queue : Type 0 where
  pub submit_count : ℕ
  pub completed_fence : ℕ
  pub ring_addr : ℕ
  pub read_ptr_addr : ℕ
  pub ring_dwords : ℕ
  pub read_offset : ℕ
  pub mapped : Bool

abbrev pub max_queues : ℕ
max_queues = 64

-- `vblank_timer`: NULL, a timer that is not pending, or one that expires at a time.
pub data Timer : Type 0 where
  absent idle : Timer
  armed : ℕ → Timer

-- The two buffers are counted, not held: shadps4_gpu_flip writes each before it reads it.
pub record Gpu : Type 0 where
  pub vblank_timer : Timer
  pub submit_count : ℕ
  pub flip_count : ℕ
  pub vblank_count : ℕ
  pub parsed_packet_count : ℕ
  pub rejected_submit_count : ℕ
  pub last_fence_value : ℕ
  pub context_registers : List ℕ
  pub shader_registers : List ℕ
  pub queues : List Queue
  pub surface_capacity : ℕ
  pub frame_capacity : ℕ
  pub video_backend_valid : Bool
  pub last_video_d3d12 : Bool
  pub running : Bool

-- `uint64_t` counters.
abbrev pub next_count : ℕ → ℕ
next_count n = (n + 1) % 2 ^ 64

abbrev pub no_queue : Queue
no_queue = record {
  submit_count = 0;
  completed_fence = 0;
  ring_addr = 0;
  read_ptr_addr = 0;
  ring_dwords = 0;
  read_offset = 0;
  mapped = false;
}

-- A change of `gpu->queues[i]`.
unfoldable pub update_queue : List Queue → ℕ → (Queue → Queue) → List Queue
update_queue queues i f = elim (get_elem? queues i) [ none ↦ queues | some q ↦ set queues i (f q) ]

-- What shadps4_gpu_report_reject and shadps4_gpu_report_queue_error change; the rest is a log line.
unfoldable pub report_rejection : Gpu → Gpu
report_rejection gpu = record gpu { rejected_submit_count = next_count gpu.rejected_submit_count }

abbrev pub vblank_period_ns : ℕ
vblank_period_ns = 16666667

unfoldable pub vblank : ℕ → Gpu → Gpu
vblank now gpu = if not gpu.running then gpu else record gpu {
  vblank_count = next_count gpu.vblank_count;
  vblank_timer = Timer.armed (now + vblank_period_ns);
}

unfoldable pub init : Gpu
init = record {
  vblank_timer = Timer.idle;
  submit_count = 0;
  flip_count = 0;
  vblank_count = 0;
  parsed_packet_count = 0;
  rejected_submit_count = 0;
  last_fence_value = 0;
  context_registers = replicate 0x400 0;
  shader_registers = replicate 0x400 0;
  queues = replicate max_queues no_queue;
  surface_capacity = 0;
  frame_capacity = 0;
  video_backend_valid = false;
  last_video_d3d12 = false;
  running = false;
}

unfoldable pub reset : ℕ → Gpu → Gpu
reset now gpu = record gpu {
  submit_count = 0;
  flip_count = 0;
  vblank_count = 0;
  parsed_packet_count = 0;
  rejected_submit_count = 0;
  last_fence_value = 0;
  video_backend_valid = false;
  last_video_d3d12 = false;
  context_registers = replicate 0x400 0;
  shader_registers = replicate 0x400 0;
  queues = replicate max_queues no_queue;
  running = true;
  vblank_timer = Timer.armed (now + vblank_period_ns);
}

abbrev pub has_timer : Timer → Bool
has_timer Timer.absent = false
has_timer Timer.idle = true
has_timer (Timer.armed t) = true

unfoldable pub cleanup : Gpu → Gpu
cleanup gpu = if not (has_timer gpu.vblank_timer) then gpu else record gpu {
  running = false;
  vblank_timer = Timer.absent;
  frame_capacity = 0;
  surface_capacity = 0;
}

unfoldable pub get_status : Gpu → Status
get_status gpu = record {
  submit_count = gpu.submit_count;
  flip_count = gpu.flip_count;
  vblank_count = gpu.vblank_count;
  parsed_packet_count = gpu.parsed_packet_count;
  rejected_submit_count = gpu.rejected_submit_count;
  last_fence_value = gpu.last_fence_value;
}

-- Without CONFIG_WIN32 there is nothing to wait for, and no table of surfaces.
unfoldable pub finish : Gpu → Gpu
finish gpu = gpu

unfoldable pub register_surface : ℕ → ℕ → ℕ → ℕ → ℕ → ℕ → ℕ → Gpu → Bool × Gpu
register_surface index guest_address width height pitch format tiling_mode gpu = (true, gpu)
