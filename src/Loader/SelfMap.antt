-- ===== src/Loader/SelfMap.antt =====
-- shadps4_self_segment_offset, shadps4_self_range_offset and shadps4_program_offset: where in the
-- container file the bytes of a program header stand.
pub mod Places
use qemu_dll_shadps.Base.{
  ℕ, zero, suc, ◌+◌, ◌-◌, ◌/◌, ◌%◌, ◌^◌, ◌≤◌, ◌<◌, ◌≡◌, Bool, true, false, not, ◌&&◌, ◌||◌, Option,
  none, some, List, [], ◌∷◌, ltb, leb, ◌==◌, if◌then◌else◌, get_elem?, length, Result, ok, err,
}
use qemu_dll_shadps.Loader.Types.{Error, SelfSegment, ProgramHeader}
use qemu_dll_shadps.Loader.Range.{range_valid, add_valid}

-- `flags & SHADPS4_SELF_SEG_BLOCKED`, one bit.
abbrev pub is_blocked : ℕ → Bool
is_blocked flags = flags / 0x800 % 2 == 1

-- `flags & (SHADPS4_SELF_SEG_ENCRYPTED | SHADPS4_SELF_SEG_COMPRESSED)`, bits 1 and 3.
abbrev pub is_protected : ℕ → Bool
is_protected flags = flags / 0x2 % 2 == 1 || flags / 0x8 % 2 == 1

-- `(flags >> 20) & 0xfff`.
abbrev pub header_id : ℕ → ℕ
header_id flags = flags / 2 ^ 20 % 0x1000

-- The loop over the segments, of which the list is what is left.
unfoldable pub self_segment_offset : List SelfSegment → ℕ → ℕ → Result Error ℕ
self_segment_offset [] phdr_index file_size = err Error.segment_missing
self_segment_offset (segment ∷ rest) phdr_index file_size =
    if not (is_blocked segment.flags) || not (header_id segment.flags == phdr_index)
    then self_segment_offset rest phdr_index file_size
    else if is_protected segment.flags
    then err Error.segment_protected
    else if ltb segment.file_size file_size
    then err Error.segment_short
    else ok segment.file_offset

-- The end of the body, for the first segment whose program header covers the range.
unfoldable pub range_in_segment : SelfSegment → ℕ → ℕ → Result Error ℕ
range_in_segment segment relative_offset file_size =
    if is_protected segment.flags
    then err Error.segment_protected
    else if range_valid relative_offset file_size segment.file_size
    then elim (add_valid segment.file_offset relative_offset) [
      | none ↦ err Error.segment_short
      | some offset ↦ ok offset
    ]
    else err Error.segment_short

-- Does the header's data cover the range? Else the source goes on with the next segment.
abbrev pub covers : ProgramHeader → ℕ → ℕ → Bool
covers phdr file_offset file_size =
    leb phdr.p_offset file_offset
    && range_valid (file_offset - phdr.p_offset) file_size phdr.p_filesz

unfoldable pub range_loop : List SelfSegment → List ProgramHeader → ℕ → ℕ → Result Error ℕ
range_loop [] phdrs file_offset file_size = err Error.range_missing
range_loop (segment ∷ rest) phdrs file_offset file_size =
    let next = range_loop rest phdrs file_offset file_size in
    if not (is_blocked segment.flags)
    then next
    else elim (get_elem? phdrs (header_id segment.flags)) [
      | none ↦ err Error.segment_bad_header
      | some phdr ↦
          if covers phdr file_offset file_size
          then range_in_segment segment (file_offset - phdr.p_offset) file_size
          else next
    ]

unfoldable pub self_range_offset : List SelfSegment → List ProgramHeader → ℕ → ℕ → Result Error ℕ
self_range_offset segments phdrs file_offset file_size = elim (add_valid file_offset file_size) [
  | none ↦ err Error.program_range_overflow
  | some range_end ↦ range_loop segments phdrs file_offset file_size
]

unfoldable pub program_offset :
    Bool → List SelfSegment → List ProgramHeader → ProgramHeader → ℕ → Result Error ℕ
program_offset is_self segments phdrs phdr elf_offset =
    if is_self
    then self_range_offset segments phdrs phdr.p_offset phdr.p_filesz
    else elim (add_valid elf_offset phdr.p_offset) [
      | none ↦ err Error.header_offset_overflow
      | some offset ↦ ok offset
    ]
