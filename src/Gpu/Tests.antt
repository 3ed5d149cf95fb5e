-- ===== src/Gpu/Tests.antt =====
-- A command buffer with a NOP, a register packet and an indirect buffer that refers to itself.
pub mod Memories
mod Executing
mod Submitting
mod Showing
use qemu_dll_shadps.Base.{ℕ, ◌+◌, ◌≤◌, ◌≡◌, refl, some, List, [], ◌∷◌, length, get_elem?, replicate}
use qemu_dll_shadps.Gpu.Registers.{set_registers, write_registers, window, set_registers_lem}
use qemu_dll_shadps.Gpu.Packets.{Registers, parse_pm4}
use qemu_dll_shadps.Gpu.Packets.Validation.{Validated, parse_pm4-Validated}
use qemu_dll_shadps.Gpu.Flatten.{Guest}

abbrev commands : List ℕ
commands =
    0xc0001000 ∷ 5 ∷ 0xc0026900 ∷ 1 ∷ 7 ∷ 8 ∷ 0xc0023f00 ∷ 0x1000 ∷ 0 ∷ 10 ∷ 0x80000000 ∷ 0 ∷ []

abbrev files : Registers
files = record { context = replicate 4 0; shader = replicate 4 0; packets = 0 }

parse_pm4-Validated_example : Validated files (parse_pm4 commands files)
parse_pm4-Validated_example = parse_pm4-Validated commands files

-- Every read yields the same buffer again.
abbrev looping : Guest
looping addr size = some commands
