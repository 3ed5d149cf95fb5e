-- ===== src/Gpu/Calls.antt =====
-- The calls of hw/i386/shadps4-gpu.c in any order, between which the guest runs: a step relation.
pub mod Invariant
pub mod Submissions
pub mod Rings
pub mod Reachable
use qemu_dll_shadps.Base.{ℕ, Option}
use qemu_dll_shadps.Gpu.Guest.{GuestMemory}
use qemu_dll_shadps.Gpu.State.{Submit, init, reset, vblank, cleanup, finish, register_surface}
use qemu_dll_shadps.Gpu.Submit.{Device, submit}
use qemu_dll_shadps.Gpu.Queues.{map_queue, unmap_queue, ding_dong}
use qemu_dll_shadps.Gpu.Flips.{Flip, flip_surface}

module _ {M : Type 0} (guest : GuestMemory M) where
  pub data Step : Device M → Device M → Type 0 where
    submits : (s : Option Submit) (d : Device M) → Step d (submit guest s d).1
    maps :
        (pipe_id queue_id ring_addr ring_dwords read_ptr_addr : ℕ) (d : Device M)
        → Step d (map_queue guest pipe_id queue_id ring_addr ring_dwords read_ptr_addr d).1
    unmaps : (queue_id : ℕ) (d : Device M) → Step d (unmap_queue guest queue_id d).1
    doorbells :
        (queue_id next_offset : ℕ) (d : Device M)
        → Step d (ding_dong guest queue_id next_offset d).1
    flips :
        (flip : Option Flip) (d : Device M)
        → Step d (record d { gpu = (flip_surface guest d.memory flip d.gpu).gpu })
    vblanks : (now : ℕ) (d : Device M) → Step d (record d { gpu = vblank now d.gpu })
    resets : (now : ℕ) (d : Device M) → Step d (record d { gpu = reset now d.gpu })
    cleanups : (d : Device M) → Step d (record d { gpu = cleanup d.gpu })
    guest_runs : (m : M) (d : Device M) → Step d (record d { memory = m })

  -- Whatever calls come to after init.
  pub data Reached : Device M → Type 0 where
    initial : (m : M) → Reached (record { gpu = init; memory = m })
    next : {d d' : Device M} → Reached d → Step d d' → Reached d'
