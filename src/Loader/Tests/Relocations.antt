-- ===== src/Loader/Tests/Relocations.antt =====
-- A module of one segment with one relative relocation, and the processing of its tables.
use qemu_dll_shadps.Base.{
  ℕ, ◌+◌, ◌/◌, ◌≡◌, inr, refl, List, [], ◌∷◌, ◌++◌, le_bytes, pos, arith, replicate,
}
use qemu_dll_shadps.Loader.Types.{ImageSegment, ImageInfo, zero_dynamic, zero_image, zero_pending}
use qemu_dll_shadps.Loader.Range.{add_valid, range_valid}
use qemu_dll_shadps.Loader.Relocate.{
  target_loop, relocation_target, Rela, LoadState, apply_relocations,
}
use qemu_dll_shadps.Loader.Relocate.Target.{InSegments, relocation_target_lem}
use qemu_dll_shadps.Loader.Relocate.Counters.{Relocated, apply_relocations_lem}
use qemu_dll_shadps.Loader.Relocate.Frame.{final, apply_relocations_frame}
use qemu_dll_shadps.Loader.Tests.Memories.{Ram, ram, peek, ram-IsMemory}

abbrev segment : ImageSegment
segment = record {
  virtual_addr = 0x800004000;
  physical_addr = 0x104000;
  file_size = 0x100;
  memory_size = 0x200;
  flags = 6;
}

abbrev image : ImageInfo
image = record zero_image {
  virtual_base = 0x800000000;
  physical_base = 0x100000;
  segments = segment ∷ [];
  pending_relocations = replicate 1 zero_pending;
}

abbrev start : LoadState Ram
start = record { memory = λ x. 0; image = image }

-- R_X86_64_RELATIVE at 0x4010 with addend 0x4020.
abbrev rela : Rela
rela = record { r_offset = 0x4010; r_info = 8; r_addend = pos 0x4020 }

abbrev rela_bytes : List ℕ
rela_bytes = le_bytes 8 0x4010 ++ le_bytes 8 8 ++ le_bytes 8 0x4020

relocation_target_lem_example : InSegments image.segments (image.virtual_base + 0x4010) 0x104010
unfolding relocation_target target_loop add_valid range_valid
relocation_target_lem_example =
    relocation_target_lem image 0x4010 (omega arith) (omega arith, tt) refl

apply_relocations_lem_example :
    Relocated (24 / 24) 0 image (apply_relocations ram rela_bytes 0 24 zero_dynamic start)
unfolding le_bytes
apply_relocations_lem_example =
    apply_relocations_lem ram 0 rela_bytes 0 24 zero_dynamic start refl (omega arith) (omega arith)
      (record {
        room = omega arith;
        room_small = omega arith;
        small = omega arith;
        balance = refl;
        listed = refl;
        fresh = (refl, tt);
      })

apply_relocations_frame_example :
    let t = final (apply_relocations ram rela_bytes 0 24 zero_dynamic start) in
    (peek t.memory 0x104200 ≡ 0)
    × (t.image.segments ≡ image.segments)
    × (t.image.virtual_base ≡ image.virtual_base)
apply_relocations_frame_example =
    apply_relocations_frame ram peek ram-IsMemory rela_bytes 0 24 zero_dynamic start 0x104200
      (omega arith) (omega arith, tt) (inr (omega arith), tt)

abbrev entry_bytes : ℕ → ℕ → List ℕ
entry_bytes tag value = le_bytes 8 tag ++ le_bytes 8 value

-- A relocation table at 0, in a module that has no relocations yet.
abbrev dynamic : List ℕ
dynamic =
    entry_bytes 0x6100002f 0
    ++ entry_bytes 0x61000031 24
    ++ entry_bytes 0x61000033 24
    ++ entry_bytes 0 0
