-- ===== src/Loader/Load/Segments.antt =====
-- The loop of shadps4_load_module over the program headers, with shadps4_copy_segment.
use Prim.Native.Nat.{bit_and}
use qemu_dll_shadps.Base.{
  ℕ, ◌+◌, ◌-◌, ◌%◌, ◌^◌, max, Bool, true, false, not, ◌&&◌, ◌||◌, Option, none, some, List, [], ◌∷◌,
  ◌++◌, leb, ltb, ◌==◌, if◌then◌else◌, length, Result, ok, err, ◌>>=◌, ◌>>◌, require, or_err,
}
use qemu_dll_shadps.Loader.Types.{
  Error, SelfSegment, ProgramHeader, ImageSegment, ImageInfo, max_segments,
}
use qemu_dll_shadps.Loader.Range.{range_valid, add_valid}
use qemu_dll_shadps.Loader.SelfMap.{self_segment_offset}

-- The local variables of shadps4_load_module that the loop changes, and `*info`. An index is -1 in
-- the source where it is `none` here.
pub record Scan : Type 0 where
  pub image : ImageInfo
  pub image_size : ℕ
  pub entry_is_executable : Bool
  pub tls_found : Bool
  pub proc_param_found : Bool
  pub eh_frame_hdr_found : Bool
  pub dynamic_index : Option ℕ
  pub dynamic_data_index : Option ℕ

-- What does not change: the container, and the arguments of the call.
pub record Plan : Type 0 where
  pub is_self : Bool
  pub self_segments : List SelfSegment
  pub elf_offset : ℕ
  pub file_length : ℕ
  pub entry_offset : ℕ
  pub physical_base : ℕ
  pub physical_limit : ℕ

abbrev pub pt_load : ℕ
pt_load = 1

abbrev pub pt_dynamic : ℕ
pt_dynamic = 2

abbrev pub pt_tls : ℕ
pt_tls = 7

abbrev pub pt_sce_dynlibdata : ℕ
pt_sce_dynlibdata = 0x61000000

abbrev pub pt_sce_procparam : ℕ
pt_sce_procparam = 0x61000001

abbrev pub pt_sce_relro : ℕ
pt_sce_relro = 0x61000010

abbrev pub pt_gnu_eh_frame : ℕ
pt_gnu_eh_frame = 0x6474e550

-- The first `if` of the body.
unfoldable pub scan_dynamic : ℕ → ProgramHeader → Scan → Result Error Scan
scan_dynamic i phdr scan =
    if phdr.p_type == pt_dynamic
    then elim scan.dynamic_index [
      | some j ↦ err Error.two_dynamic
      | none ↦ ok (record scan { dynamic_index = some i })
    ]
    else if phdr.p_type == pt_sce_dynlibdata
    then elim scan.dynamic_data_index [
      | some j ↦ err Error.two_dynlibdata
      | none ↦ ok (record scan { dynamic_data_index = some i })
    ]
    else ok scan

unfoldable pub scan_proc_param : ProgramHeader → Scan → Result Error Scan
scan_proc_param phdr scan =
    if phdr.p_type == pt_sce_procparam
    then (do
      require (not scan.proc_param_found && leb 24 phdr.p_memsz) Error.bad_proc_param
      addr ← or_err (add_valid scan.image.virtual_base phdr.p_vaddr) Error.bad_proc_param
      ok (record scan {
        image = record (scan.image) { proc_param_addr = addr; proc_param_size = phdr.p_memsz };
        proc_param_found = true;
      }))
    else ok scan

unfoldable pub scan_eh_frame : ProgramHeader → Scan → Result Error Scan
scan_eh_frame phdr scan =
    if phdr.p_type == pt_gnu_eh_frame
    then (do
      require (not scan.eh_frame_hdr_found && leb phdr.p_filesz (2 ^ 32 - 1)) Error.bad_eh_frame
      addr ← or_err (add_valid scan.image.virtual_base phdr.p_vaddr) Error.bad_eh_frame
      ok (record scan {
        image = record (scan.image) { eh_frame_hdr_addr = addr; eh_frame_hdr_size = phdr.p_filesz };
        eh_frame_hdr_found = true;
      }))
    else ok scan

-- `is_power_of_2`, of a number that is not 0.
abbrev pub is_power_of_2 : ℕ → Bool
is_power_of_2 n = bit_and n (n - 1) == 0

unfoldable pub scan_tls : ProgramHeader → Scan → Result Error Scan
scan_tls phdr scan =
    if phdr.p_type == pt_tls
    then (do
      require (not scan.tls_found) Error.two_tls
      require (leb phdr.p_filesz phdr.p_memsz && (phdr.p_align == 0 || is_power_of_2 phdr.p_align))
          Error.tls_size
      addr ← or_err (add_valid scan.image.virtual_base phdr.p_vaddr) Error.tls_overflow
      ok (record scan {
        image = record (scan.image) {
          tls_addr = addr;
          tls_file_size = phdr.p_filesz;
          tls_memory_size = phdr.p_memsz;
          tls_align = phdr.p_align;
          tls_present = true;
        };
        tls_found = true;
      }))
    else ok scan

-- The loop over the segments that are loaded: does none of them overlap the new one?
unfoldable pub overlaps : ℕ → ℕ → List ImageSegment → Bool
overlaps physical_addr memsz [] = false
overlaps physical_addr memsz (other ∷ rest) =
    (ltb physical_addr ((other.physical_addr + other.memory_size) % 2 ^ 64)
      && ltb other.physical_addr ((physical_addr + memsz) % 2 ^ 64))
    || overlaps physical_addr memsz rest

-- The checks on the place of a loadable segment, which return its physical address.
unfoldable pub segment_place : Plan → ProgramHeader → ImageInfo → Result Error ℕ
segment_place plan phdr image = do
  require (not (phdr.p_memsz == 0) && leb phdr.p_filesz phdr.p_memsz) Error.segment_invalid
  physical_addr ← or_err (add_valid plan.physical_base phdr.p_vaddr) Error.segment_invalid
  end ← or_err (add_valid phdr.p_vaddr phdr.p_memsz) Error.segment_invalid
  require (range_valid physical_addr phdr.p_memsz plan.physical_limit) Error.segment_no_fit
  require (not (length image.segments == max_segments)) Error.too_many_segments
  require (not (overlaps physical_addr phdr.p_memsz image.segments)) Error.segments_overlap
  ok physical_addr

-- Where the segment's bytes stand in the file.
unfoldable pub segment_source : Plan → ℕ → ProgramHeader → Result Error ℕ
segment_source plan i phdr = do
  offset ←
      if plan.is_self
      then self_segment_offset plan.self_segments i phdr.p_filesz
      else or_err (add_valid plan.elf_offset phdr.p_offset) Error.segment_offset
  require (range_valid offset phdr.p_filesz plan.file_length) Error.segment_exceeds_file
  ok offset

-- What a segment that was copied adds to the image.
unfoldable pub add_segment : Plan → ProgramHeader → ℕ → Scan → Result Error Scan
add_segment plan phdr physical_addr scan = do
  virtual_addr ←
      or_err (add_valid scan.image.virtual_base phdr.p_vaddr) Error.segment_virtual_overflow
  let segment : ImageSegment = record {
    virtual_addr = virtual_addr;
    physical_addr = physical_addr;
    file_size = phdr.p_filesz;
    memory_size = phdr.p_memsz;
    flags = phdr.p_flags;
  }
  ok (record scan {
    image = record (scan.image) { segments = scan.image.segments ++ segment ∷ [] };
    image_size = max scan.image_size ((phdr.p_vaddr + phdr.p_memsz) % 2 ^ 64);
    entry_is_executable =
        scan.entry_is_executable
        || (phdr.p_flags % 2 == 1
            && (leb phdr.p_vaddr plan.entry_offset
                && ltb plan.entry_offset ((phdr.p_vaddr + phdr.p_memsz) % 2 ^ 64)));
  })
