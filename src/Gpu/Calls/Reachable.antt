-- ===== src/Gpu/Calls/Reachable.antt =====
-- What holds of the GPU's state after any sequence of calls.
use qemu_dll_shadps.Base.{refl, Option, none, some, arith}
use qemu_dll_shadps.Gpu.Guest.{GuestMemory}
use qemu_dll_shadps.Gpu.State.{Gpu, vblank, init, reset, cleanup}
use qemu_dll_shadps.Gpu.Submit.{Device}
use qemu_dll_shadps.Gpu.Flips.{Flip, grow_buffers, show_frame, show_surface, flip_surface}
use qemu_dll_shadps.Gpu.Calls.{Step, Reached}
use qemu_dll_shadps.Gpu.Calls.Invariant.{IsGpu, IsGpu-same, cleared}
use qemu_dll_shadps.Gpu.Calls.Submissions.{submit-IsGpu}
use qemu_dll_shadps.Gpu.Calls.Rings.{map_queue-IsGpu, unmap_queue-IsGpu, ding_dong-IsGpu}

module _ {M : Type 0} (guest : GuestMemory M) where
  flip_surface-IsGpu :
      (m : M) (flip : Option Flip) (gpu : Gpu)
      → IsGpu gpu
      → IsGpu (flip_surface guest m flip gpu).gpu
  unfolding flip_surface show_surface show_frame grow_buffers
  flip_surface-IsGpu m none gpu g =
      IsGpu-same gpu (flip_surface guest m none gpu).gpu refl refl refl g
  flip_surface-IsGpu m (some flip) gpu g =
      IsGpu-same gpu (flip_surface guest m (some flip) gpu).gpu (ground arith) (ground arith)
        (ground arith) g

  Step-IsGpu : {d d' : Device M} → Step guest d d' → IsGpu d.gpu → IsGpu d'.gpu
  unfolding vblank reset cleanup
  Step-IsGpu (Step.submits s d) g = submit-IsGpu guest s d g
  Step-IsGpu (Step.maps pipe_id queue_id ring_addr ring_dwords read_ptr_addr d) g =
      map_queue-IsGpu guest pipe_id queue_id ring_addr ring_dwords read_ptr_addr d g
  Step-IsGpu (Step.unmaps queue_id d) g = unmap_queue-IsGpu guest queue_id d g
  Step-IsGpu (Step.doorbells queue_id next_offset d) g =
      ding_dong-IsGpu guest queue_id next_offset d g
  Step-IsGpu (Step.flips flip d) g = flip_surface-IsGpu d.memory flip d.gpu g
  Step-IsGpu (Step.vblanks now d) g =
      IsGpu-same d.gpu (vblank now d.gpu) (ground arith) (ground arith) (ground arith) g
  Step-IsGpu (Step.resets now d) g = cleared refl refl refl
  Step-IsGpu (Step.cleanups d) g =
      IsGpu-same d.gpu (cleanup d.gpu) (ground arith) (ground arith) (ground arith) g
  Step-IsGpu (Step.guest_runs m d) g = g

  -- After any sequence of calls, while the guest changes its memory at will, the register files and
  -- the table of queues have their sizes, and every mapped queue is a ring: its size is a power of two
  -- within the limit, its read offset inside it, its address aligned and its end below 2^64.
  pub Reached-IsGpu : {d : Device M} → Reached guest d → IsGpu d.gpu
  unfolding init
  Reached-IsGpu (Reached.initial m) = cleared refl refl refl
  Reached-IsGpu (Reached.next r s) = Step-IsGpu s (Reached-IsGpu r)
