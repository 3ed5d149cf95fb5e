-- ===== src/Loader/Tests/Tables.antt =====
-- Runs of the arithmetic helpers, of the SELF segment lookup and of the dynamic table's reader.
use qemu_dll_shadps.Base.{
  ℕ, ◌+◌, ◌*◌, ◌^◌, ◌≡◌, refl, true, List, [], ◌∷◌, ◌++◌, le_at, le_bytes, arith, codes,
}
use qemu_dll_shadps.Loader.Types.{SelfSegment, ProgramHeader, DynamicInfo, zero_dynamic}
use qemu_dll_shadps.Loader.Range.{range_valid, add_valid}
use qemu_dll_shadps.Loader.EncodeId.{encode_id}
use qemu_dll_shadps.Loader.SelfMap.{range_in_segment, range_loop, self_range_offset}
use qemu_dll_shadps.Loader.SelfMap.Places.{IsPlaced, self_range_offset_lem}
use qemu_dll_shadps.Loader.Dynamic.{set_entry, parse_loop, parse_dynamic, dynamic_identity}
use qemu_dll_shadps.Loader.Dynamic.Parse.{Entries, Parsed, parse_dynamic_lem}
use qemu_dll_shadps.Loader.Dynamic.Identity.{find_identity, identity_of, dynamic_identity_lem}

-- A data segment for header 1, and its header.
abbrev segments : List SelfSegment
segments =
    record { flags = 0x100800; file_offset = 0x400; file_size = 0x200; memory_size = 0x200 } ∷ []

abbrev headers : List ProgramHeader
headers =
    record {
      p_type = 6;
      p_flags = 4;
      p_offset = 0x40;
      p_vaddr = 0x40;
      p_filesz = 0x70;
      p_memsz = 0x70;
      p_align = 8;
    }
    ∷ record {
      p_type = 1;
      p_flags = 5;
      p_offset = 0x4000;
      p_vaddr = 0;
      p_filesz = 0x200;
      p_memsz = 0x300;
      p_align = 0x4000;
    }
    ∷ []

self_range_offset_lem_example : IsPlaced segments headers 0x4010 0x20 0x410
unfolding self_range_offset range_loop range_in_segment add_valid range_valid
self_range_offset_lem_example =
    self_range_offset_lem segments headers 0x4010 0x20 (omega arith, tt) refl

abbrev entry_bytes : ℕ → ℕ → List ℕ
entry_bytes tag value = le_bytes 8 tag ++ le_bytes 8 value

-- A string table of eight bytes at 16, one import of library 70, and the end.
abbrev table : List ℕ
table =
    entry_bytes 0x61000035 16
    ++ entry_bytes 0x61000037 8
    ++ entry_bytes 0x61000015 (70 * 2 ^ 48 + 1)
    ++ entry_bytes 0 0

abbrev table_info : DynamicInfo
table_info = record zero_dynamic { strtab = 16; strsz = 8 }

abbrev strings : List ℕ
strings = 0 ∷ codes "libSce" ++ 0 ∷ []

parse_dynamic_lem_example : Parsed table table_info
unfolding parse_dynamic parse_loop set_entry le_at le_bytes
parse_dynamic_lem_example = parse_dynamic_lem table refl

dynamic_identity_lem_example :
    dynamic_identity table strings (encode_id 70) true
    ≡ identity_of strings true (
        find_identity true 70
          ((0x61000035, 16) ∷ (0x61000037, 8) ∷ (0x61000015, 70 * 2 ^ 48 + 1) ∷ []))
unfolding le_at le_bytes
dynamic_identity_lem_example =
    dynamic_identity_lem table strings 70 true
      ((0x61000035, 16) ∷ (0x61000037, 8) ∷ (0x61000015, 70 * 2 ^ 48 + 1) ∷ []) (omega arith) refl
      (Entries.entry 0x61000035 16 (λ e. omega arith) refl refl
        (Entries.entry 0x61000037 8 (λ e. omega arith) refl refl
          (Entries.entry 0x61000015 (70 * 2 ^ 48 + 1) (λ e. omega arith) refl refl
            (Entries.null refl))))
