-- ===== src/Loader/Types.antt =====
-- The records of shadps4-loader.c and shadps4-loader.h, and the errors that the loader reports.
-- Strings are the lists of their bytes before the NUL; a null pointer is `none`.
use qemu_dll_shadps.Base.{ℕ, ◌+◌, ◌-◌, ◌%◌, ◌^◌, ℤ, Bool, false, Option, none, List, []}

-- One for each message of the source. `fault` is an access outside a buffer, which in C is
-- undefined behaviour; `out_of_fuel` is no value of the source, but a bounded loop of the model
-- that was cut short; `silent` is a failure that sets no message.
pub data Error : Type 0 where
  fault silent out_of_fuel : Error
  open_failed seek_failed read_failed unexpected_end no_file_size : Error
  self_header self_segment_count self_segment_table : Error
  segment_protected segment_short segment_missing : Error
  program_range_overflow segment_bad_header range_missing : Error
  not_elf64 not_orbis_abi machine_or_type header_sizes header_count header_table : Error
  two_dynamic two_dynlibdata bad_proc_param bad_eh_frame : Error
  two_tls tls_size tls_overflow : Error
  segment_invalid segment_no_fit too_many_segments segments_overlap segment_offset : Error
  segment_exceeds_file write_failed clear_failed segment_virtual_overflow : Error
  no_segments proc_param_unmapped entry_not_executable : Error
  dynamic_pair dynamic_too_large header_offset_overflow dynamic_exceeds_file : Error
  dynamic_size dynamic_unterminated dynamic_entry_sizes : Error
  initializer_overflow table_outside table_unaligned symbol_name identity_name : Error
  relocation_outside relative_overflow symbol_out_of_range symbol_overflow : Error
  absolute_overflow relocation_type relocation_write : Error
  pending_symbol linked_overflow linked_write : Error

pub record SelfHeader : Type 0 where
  pub magic : ℕ
  pub version : ℕ
  pub mode : ℕ
  pub endian : ℕ
  pub attributes : ℕ
  pub category : ℕ
  pub program_type : ℕ
  pub segment_count : ℕ

pub record SelfSegment : Type 0 where
  pub flags : ℕ
  pub file_offset : ℕ
  pub file_size : ℕ
  pub memory_size : ℕ

pub record ProgramHeader : Type 0 where
  pub p_type : ℕ
  pub p_flags : ℕ
  pub p_offset : ℕ
  pub p_vaddr : ℕ
  pub p_filesz : ℕ
  pub p_memsz : ℕ
  pub p_align : ℕ

pub record DynamicInfo : Type 0 where
  pub strtab : ℕ
  pub strsz : ℕ
  pub symtab : ℕ
  pub syment : ℕ
  pub symtabsz : ℕ
  pub rela : ℕ
  pub relasz : ℕ
  pub relaent : ℕ
  pub jmprel : ℕ
  pub pltrelsz : ℕ
  pub pltrel : ℕ
  pub init : ℕ
  pub fini : ℕ
  pub init_present : Bool
  pub fini_present : Bool

pub record ImageSegment : Type 0 where
  pub virtual_addr : ℕ
  pub physical_addr : ℕ
  pub file_size : ℕ
  pub memory_size : ℕ
  pub flags : ℕ

pub record DynamicSymbol : Type 0 where
  pub nid : Option (List ℕ)
  pub library : Option (List ℕ)
  pub module_name : Option (List ℕ)
  pub value : ℕ
  pub library_version : ℕ
  pub type : ℕ
  pub binding : ℕ
  pub defined : Bool

pub record PendingRelocation : Type 0 where
  pub physical_addr : ℕ
  pub addend : ℤ
  pub symbol_index : ℕ
  pub type : ℕ
  pub weak : Bool
  pub applied : Bool

-- `segments` is the used part of the fixed array, so `segment_count` is its length; `symbols` and
-- `pending_relocations` are the allocated arrays, with the counts beside them.
pub record ImageInfo : Type 0 where
  pub name : Option (List ℕ)
  pub is_self : Bool
  pub elf_type : ℕ
  pub virtual_base : ℕ
  pub physical_base : ℕ
  pub entry : ℕ
  pub physical_entry : ℕ
  pub init : ℕ
  pub fini : ℕ
  pub init_present : Bool
  pub fini_present : Bool
  pub image_size : ℕ
  pub proc_param_addr : ℕ
  pub proc_param_size : ℕ
  pub eh_frame_hdr_addr : ℕ
  pub eh_frame_addr : ℕ
  pub eh_frame_hdr_size : ℕ
  pub eh_frame_size : ℕ
  pub tls_addr : ℕ
  pub tls_file_size : ℕ
  pub tls_memory_size : ℕ
  pub tls_align : ℕ
  pub tls_module_id : ℕ
  pub tls_present : Bool
  pub symbol_count : ℕ
  pub exported_symbol_count : ℕ
  pub imported_symbol_count : ℕ
  pub relocation_count : ℕ
  pub applied_relocation_count : ℕ
  pub unresolved_relocation_count : ℕ
  pub segments : List ImageSegment
  pub symbols : List DynamicSymbol
  pub pending_relocations : List PendingRelocation
  pub pending_relocation_count : ℕ

abbrev pub max_segments : ℕ
max_segments = 16

-- What `memset` and `g_new0` leave.
abbrev pub zero_dynamic : DynamicInfo
zero_dynamic = record {
  strtab = 0;
  strsz = 0;
  symtab = 0;
  syment = 0;
  symtabsz = 0;
  rela = 0;
  relasz = 0;
  relaent = 0;
  jmprel = 0;
  pltrelsz = 0;
  pltrel = 0;
  init = 0;
  fini = 0;
  init_present = false;
  fini_present = false;
}

abbrev pub zero_symbol : DynamicSymbol
zero_symbol = record {
  nid = none;
  library = none;
  module_name = none;
  value = 0;
  library_version = 0;
  type = 0;
  binding = 0;
  defined = false;
}

abbrev pub zero_pending : PendingRelocation
zero_pending = record {
  physical_addr = 0;
  addend = ℤ.pos 0;
  symbol_index = 0;
  type = 0;
  weak = false;
  applied = false;
}

abbrev pub zero_image : ImageInfo
zero_image = record {
  name = none;
  is_self = false;
  elf_type = 0;
  virtual_base = 0;
  physical_base = 0;
  entry = 0;
  physical_entry = 0;
  init = 0;
  fini = 0;
  init_present = false;
  fini_present = false;
  image_size = 0;
  proc_param_addr = 0;
  proc_param_size = 0;
  eh_frame_hdr_addr = 0;
  eh_frame_addr = 0;
  eh_frame_hdr_size = 0;
  eh_frame_size = 0;
  tls_addr = 0;
  tls_file_size = 0;
  tls_memory_size = 0;
  tls_align = 0;
  tls_module_id = 0;
  tls_present = false;
  symbol_count = 0;
  exported_symbol_count = 0;
  imported_symbol_count = 0;
  relocation_count = 0;
  applied_relocation_count = 0;
  unresolved_relocation_count = 0;
  segments = [];
  symbols = [];
  pending_relocations = [];
  pending_relocation_count = 0;
}

-- `count++` and `count--` of a uint32_t.
abbrev pub inc32 : ℕ → ℕ
inc32 n = (n + 1) % 2 ^ 32

abbrev pub dec32 : ℕ → ℕ
dec32 n = (n + 2 ^ 32 - 1) % 2 ^ 32
