-- ===== src/Gpu/Tests/Executing.antt =====
-- A WRITE_DATA packet and an indirect buffer, executed.
use qemu_dll_shadps.Base.{ℕ, ◌≡◌, refl, List, [], ◌∷◌}
use qemu_dll_shadps.Gpu.Execute.{execute_pm4}
use qemu_dll_shadps.Gpu.Execute.Ends.{Ends}
use qemu_dll_shadps.Gpu.Execute.Safety.{execute_pm4-Ends}
use qemu_dll_shadps.Gpu.Tests.Memories.{Bytes, overlay, memory, guest_bytes, store_low}

abbrev commands : List ℕ
commands =
    0xc0033700 ∷ 0x500 ∷ 0x3000 ∷ 0 ∷ 7 ∷ 0xc0023f00 ∷ 0x2000 ∷ 0 ∷ 16 ∷ 0xc0044700 ∷ 0 ∷ 0x4000
    ∷ 0x20000000 ∷ 9 ∷ 0 ∷ []

execute_pm4-Ends_example : Ends (λ m. m 0x10 ≡ 7) (execute_pm4 memory 0 commands guest_bytes)
execute_pm4-Ends_example =
    execute_pm4-Ends memory (λ m. m 0x10 ≡ 7) store_low 0 commands guest_bytes refl

abbrev values : List ℕ
values = 0x01020304 ∷ 9 ∷ []

abbrev stored : Bytes
stored = overlay (overlay guest_bytes 0x3004 (4 ∷ 3 ∷ 2 ∷ 1 ∷ [])) 0x3008 (9 ∷ 0 ∷ 0 ∷ 0 ∷ [])
