-- ===== src/Loader/Load/Headers.antt =====
-- The headers that shadps4_load_module reads, and the checks on them. The layout of the ELF
-- structures, which elf.h gives, is that of the ELF64 specification.
use qemu_dll_shadps.Base.{
  ℕ, zero, suc, ◌+◌, ◌/◌, ◌%◌, ◌^◌, Bool, not, ◌&&◌, ◌||◌, List, [], ◌∷◌, leb, ◌==◌, le_at, Result,
  ok, ◌>>=◌, ◌>>◌, require, or_err,
}
use qemu_dll_shadps.Loader.Types.{Error, SelfHeader, SelfSegment, ProgramHeader}

-- A field of a structure that was read.
abbrev pub field_at : ℕ → List ℕ → ℕ → Result Error ℕ
field_at width bytes offset = or_err (le_at width bytes offset) Error.fault

abbrev pub self_magic : ℕ
self_magic = 0x1d3d154f

unfoldable pub self_header_at : List ℕ → Result Error SelfHeader
self_header_at bytes = do
  magic ← field_at 4 bytes 0
  version ← field_at 1 bytes 4
  mode ← field_at 1 bytes 5
  endian ← field_at 1 bytes 6
  attributes ← field_at 1 bytes 7
  category ← field_at 1 bytes 8
  program_type ← field_at 1 bytes 9
  segment_count ← field_at 2 bytes 24
  ok (record {
    magic = magic;
    version = version;
    mode = mode;
    endian = endian;
    attributes = attributes;
    category = category;
    program_type = program_type;
    segment_count = segment_count;
  })

-- The container's fixed fields, and a segment count between 1 and 4096.
unfoldable pub check_self_header : SelfHeader → Result Error (Unit {0})
check_self_header header = do
  require
      (header.version == 0
        && header.mode == 1
        && header.endian == 1
        && header.attributes == 0x12
        && header.category == 1
        && header.program_type == 1)
      Error.self_header
  require (not (header.segment_count == 0) && leb header.segment_count 4096)
      Error.self_segment_count

unfoldable pub self_segments_at : ℕ → List ℕ → ℕ → Result Error (List SelfSegment)
self_segments_at zero bytes offset = ok []
self_segments_at (suc n) bytes offset = do
  flags ← field_at 8 bytes offset
  file_offset ← field_at 8 bytes (offset + 8)
  file_size ← field_at 8 bytes (offset + 16)
  memory_size ← field_at 8 bytes (offset + 24)
  rest ← self_segments_at n bytes (offset + 32)
  ok (
      record {
        flags = flags;
        file_offset = file_offset;
        file_size = file_size;
        memory_size = memory_size;
      }
      ∷ rest)

-- The fields of an Elf64_Ehdr that the loader reads. `ident` is the first eight bytes of e_ident
-- as one number: magic, class, data, version and OS ABI.
pub record ElfHeader : Type 0 where
  pub ident : ℕ
  pub abi_version : ℕ
  pub e_type : ℕ
  pub e_machine : ℕ
  pub e_entry : ℕ
  pub e_phoff : ℕ
  pub e_ehsize : ℕ
  pub e_phentsize : ℕ
  pub e_phnum : ℕ

unfoldable pub elf_header_at : List ℕ → Result Error ElfHeader
elf_header_at bytes = do
  ident ← field_at 8 bytes 0
  abi_version ← field_at 1 bytes 8
  e_type ← field_at 2 bytes 16
  e_machine ← field_at 2 bytes 18
  e_entry ← field_at 8 bytes 24
  e_phoff ← field_at 8 bytes 32
  e_ehsize ← field_at 2 bytes 52
  e_phentsize ← field_at 2 bytes 54
  e_phnum ← field_at 2 bytes 56
  ok (record {
    ident = ident;
    abi_version = abi_version;
    e_type = e_type;
    e_machine = e_machine;
    e_entry = e_entry;
    e_phoff = e_phoff;
    e_ehsize = e_ehsize;
    e_phentsize = e_phentsize;
    e_phnum = e_phnum;
  })

unfoldable pub elf_type_valid : ℕ → Bool
elf_type_valid type = type == 0xfe00 || type == 0xfe10 || type == 0xfe18

-- "\x7fELF", 64-bit, little-endian, version 1; then the FreeBSD ABI, version 0; then x86-64 and
-- an SCE type; then the structure sizes and a header count between 1 and 4096.
unfoldable pub check_elf_header : ElfHeader → Result Error (Unit {0})
check_elf_header header = do
  require (header.ident % 2 ^ 56 == 0x010102464c457f) Error.not_elf64
  require (header.ident / 2 ^ 56 == 9 && header.abi_version == 0) Error.not_orbis_abi
  require (header.e_machine == 62 && elf_type_valid header.e_type) Error.machine_or_type
  require (header.e_ehsize == 64 && header.e_phentsize == 56) Error.header_sizes
  require (not (header.e_phnum == 0) && leb header.e_phnum 4096) Error.header_count

unfoldable pub program_headers_at : ℕ → List ℕ → ℕ → Result Error (List ProgramHeader)
program_headers_at zero bytes offset = ok []
program_headers_at (suc n) bytes offset = do
  p_type ← field_at 4 bytes offset
  p_flags ← field_at 4 bytes (offset + 4)
  p_offset ← field_at 8 bytes (offset + 8)
  p_vaddr ← field_at 8 bytes (offset + 16)
  p_filesz ← field_at 8 bytes (offset + 32)
  p_memsz ← field_at 8 bytes (offset + 40)
  p_align ← field_at 8 bytes (offset + 48)
  rest ← program_headers_at n bytes (offset + 56)
  ok (
      record {
        p_type = p_type;
        p_flags = p_flags;
        p_offset = p_offset;
        p_vaddr = p_vaddr;
        p_filesz = p_filesz;
        p_memsz = p_memsz;
        p_align = p_align;
      }
      ∷ rest)
