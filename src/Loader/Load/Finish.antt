-- ===== src/Loader/Load/Finish.antt =====
-- The rest of shadps4_load_module: unwind tables, process parameters, the entry point and the
-- dynamic data.
use qemu_dll_shadps.Base.{
  ℕ, ◌+◌, ◌-◌, ◌%◌, ◌^◌, min, Bool, false, not, ◌&&◌, ◌||◌, Option, none, some, List, [], ◌∷◌, leb,
  ◌==◌, if◌then◌else◌, length, get_elem?, le_at, signed32, Result, ok, err, ◌>>=◌, ◌>>◌, require,
  or_err,
}
use qemu_dll_shadps.Loader.Types.{Error, ProgramHeader, ImageSegment, ImageInfo}
use qemu_dll_shadps.Loader.Range.{range_valid, add_valid, add_signed_valid}
use qemu_dll_shadps.Loader.Memory.{AddressSpace}
use qemu_dll_shadps.Loader.SelfMap.{program_offset}
use qemu_dll_shadps.Loader.Load.Segments.{Scan, Plan}

-- `virtual - segment->virtual_addr`, where the segment's file data hold `size` bytes from there.
abbrev pub file_data_offset : ImageSegment → ℕ → ℕ → Option ℕ
file_data_offset segment virtual size =
    if leb segment.virtual_addr virtual
      && range_valid (virtual - segment.virtual_addr) size segment.file_size
    then some (virtual - segment.virtual_addr)
    else none

-- The unwind table that a header of twelve bytes points to, if the header has the one form known.
unfoldable pub eh_frame_from : ImageSegment → List ℕ → ImageInfo → ImageInfo
eh_frame_from segment header image =
    if (elim (get_elem? header 0) [ none ↦ false | some v ↦ v == 1 ])
      && (elim (get_elem? header 1) [ none ↦ false | some v ↦ v == 0x1b ])
    then elim (le_at 4 header 4) [
      | none ↦ image
      | some relative ↦
          elim (add_signed_valid ((image.eh_frame_hdr_addr + 4) % 2 ^ 64) (signed32 relative)) [
            | none ↦ record image { eh_frame_addr = 0 }
            | some addr ↦
                if leb segment.virtual_addr addr
                  && leb (addr - segment.virtual_addr) segment.memory_size
                then record image {
                  eh_frame_addr = addr;
                  eh_frame_size =
                      min (segment.memory_size - (addr - segment.virtual_addr)) (2 ^ 32 - 1);
                }
                else record image { eh_frame_addr = 0 }
          ]
    ]
    else image

-- The first segment whose file data hold the unwind header decides.
unfoldable pub eh_frame_loop :
    {M : Type 0} → AddressSpace M → M → List ImageSegment → ImageInfo → ImageInfo
eh_frame_loop as' m [] image = image
eh_frame_loop as' m (segment ∷ rest) image =
    elim (file_data_offset segment image.eh_frame_hdr_addr 12) [
      | none ↦ eh_frame_loop as' m rest image
      | some offset ↦ elim (as'.read m ((segment.physical_addr + offset) % 2 ^ 64) 12) [
        | none ↦ image
        | some header ↦ eh_frame_from segment header image
      ]
    ]

unfoldable pub proc_param_mapped : ℕ → List ImageSegment → Bool
proc_param_mapped addr [] = false
proc_param_mapped addr (segment ∷ rest) =
    (leb segment.virtual_addr addr
      && range_valid (addr - segment.virtual_addr) 24 segment.file_size)
    || proc_param_mapped addr rest

-- The checks after the loop, up to the dynamic data.
unfoldable pub finish_image :
    {M : Type 0} → AddressSpace M → M → Plan → Scan → Result Error ImageInfo
finish_image as' m plan scan = do
  require (not (length scan.image.segments == 0)) Error.no_segments
  let image : ImageInfo =
      if scan.eh_frame_hdr_found
      then eh_frame_loop as' m scan.image.segments scan.image
      else scan.image
  require (not scan.proc_param_found || proc_param_mapped image.proc_param_addr image.segments)
      Error.proc_param_unmapped
  require scan.entry_is_executable Error.entry_not_executable
  entry ← or_err (add_valid image.virtual_base plan.entry_offset) Error.entry_not_executable
  physical_entry ←
      or_err (add_valid plan.physical_base plan.entry_offset) Error.entry_not_executable
  ok (record image {
    entry = entry;
    physical_entry = physical_entry;
    tls_module_id = if scan.tls_found then image.tls_module_id else 0;
  })

-- The file ranges of the dynamic table and of the dynamic data: `none` where the image has neither.
abbrev pub Extent : Type 0
Extent = ℕ × ℕ

abbrev pub header_of : List ProgramHeader → Option ℕ → Option ProgramHeader
header_of phdrs none = none
header_of phdrs (some i) = get_elem? phdrs i

unfoldable pub dynamic_extents :
    Plan → List ProgramHeader → Scan → Result Error (Option (Extent × Extent))
dynamic_extents plan phdrs scan = elim (header_of phdrs scan.dynamic_index) [
  | none ↦ elim (header_of phdrs scan.dynamic_data_index) [
    | none ↦ ok none
    | some d ↦ err Error.dynamic_pair
  ]
  | some t ↦ elim (header_of phdrs scan.dynamic_data_index) [
    | none ↦ err Error.dynamic_pair
    | some d ↦ do
      require (leb t.p_filesz (2 ^ 26) && leb d.p_filesz (2 ^ 26)) Error.dynamic_too_large
      table ← program_offset plan.is_self plan.self_segments phdrs t plan.elf_offset
      contents ← program_offset plan.is_self plan.self_segments phdrs d plan.elf_offset
      require
          (range_valid table t.p_filesz plan.file_length
            && range_valid contents d.p_filesz plan.file_length)
          Error.dynamic_exceeds_file
      ok (some ((table, t.p_filesz), (contents, d.p_filesz)))
  ]
]
