-- ===== src/Loader/Load/Module.antt =====
-- shadps4_load_module and shadps4_load_image as a whole.
use qemu_dll_shadps.Base.{
  ℕ, ◌+◌, ◌-◌, ◌*◌, ◌%◌, ◌^◌, ℤ, pos, negsuc, Bool, true, false, Option, none, some, List, [], ◌==◌,
  if◌then◌else◌, require, or_err, Outcome, done, fail, and_then, lift,
}
use qemu_dll_shadps.Loader.Types.{Error, SelfSegment, ProgramHeader, ImageInfo, zero_image}
use qemu_dll_shadps.Loader.Range.{range_valid, add_valid}
use qemu_dll_shadps.Loader.Memory.{AddressSpace}
use qemu_dll_shadps.Loader.HostFile.{
  Host, HostFile, host_file_open, host_file_seek, host_file_close, seek_end,
}
use qemu_dll_shadps.Loader.Process.{process_dynamic}
use qemu_dll_shadps.Loader.Load.Headers.{
  self_magic, self_header_at, check_self_header, self_segments_at, elf_header_at, check_elf_header,
  program_headers_at, ElfHeader,
}
use qemu_dll_shadps.Loader.Load.Segments.{Scan, Plan}
use qemu_dll_shadps.Loader.Load.Loop.{World, read_file, header_loop}
use qemu_dll_shadps.Loader.Load.Finish.{Extent, finish_image, dynamic_extents}

-- The conversion of an int64_t to uint64_t.
abbrev pub to_u64 : ℤ → ℕ
to_u64 (pos n) = n % 2 ^ 64
to_u64 (negsuc n) = 2 ^ 64 - n - 1

abbrev image_virt_base : ℕ
image_virt_base = 0x800000000

-- The arguments of a call, but for the file's name.
pub record LoadArgs : Type 0 where
  pub virtual_base : ℕ
  pub physical_base : ℕ
  pub physical_limit : ℕ
  pub tls_module_id : ℕ

-- The container: is it a SELF, its segments, and where its ELF file begins.
pub record Container : Type 0 where
  pub is_self : Bool
  pub self_segments : List SelfSegment
  pub elf_offset : ℕ

-- The image before the loop.
abbrev pub start_scan : Option (List ℕ) → LoadArgs → Container → ElfHeader → Scan
start_scan name args container header = record {
  image = record zero_image {
    name = name;
    is_self = container.is_self;
    elf_type = header.e_type;
    virtual_base = args.virtual_base;
    physical_base = args.physical_base;
    tls_module_id = args.tls_module_id;
  };
  image_size = 0;
  entry_is_executable = false;
  tls_found = false;
  proc_param_found = false;
  eh_frame_hdr_found = false;
  dynamic_index = none;
  dynamic_data_index = none;
}

abbrev pub plan_of : LoadArgs → Container → ElfHeader → ℕ → Plan
plan_of args container header file_length = record {
  is_self = container.is_self;
  self_segments = container.self_segments;
  elf_offset = container.elf_offset;
  file_length = file_length;
  entry_offset = header.e_entry;
  physical_base = args.physical_base;
  physical_limit = args.physical_limit;
}

module _ {H M : Type 0} (host : Host H) (as' : AddressSpace M) (basename : List ℕ → List ℕ) where
  unfoldable pub read_container : HostFile → ℕ → World H M → Outcome Error (World H M) Container
  read_container file file_length w =
      and_then (lift (require (range_valid 0 32 file_length) Error.silent) w) λ _ w.
        and_then (read_file host as' file 0 32 w) λ bytes w.
          and_then (lift (self_header_at bytes) w) λ header w.
            if header.magic == self_magic
            then (and_then (lift (check_self_header header) w) λ _ w.
                let size = header.segment_count * 32 in
                and_then
                  (lift (require (range_valid 32 size file_length) Error.self_segment_table) w)
                  λ _ w. and_then (read_file host as' file 32 size w) λ table w.
                    and_then (lift (self_segments_at header.segment_count table 0) w) λ segments w.
                      done
                        (record {
                          is_self = true;
                          self_segments = segments;
                          elf_offset = 32 + size;
                        })
                        w)
            else done (record { is_self = false; self_segments = []; elf_offset = 0 }) w

  unfoldable pub read_elf_header :
      HostFile → ℕ → Container → World H M → Outcome Error (World H M) ElfHeader
  read_elf_header file file_length container w =
      and_then (lift (require (range_valid container.elf_offset 64 file_length) Error.silent) w)
        λ _ w. and_then (read_file host as' file container.elf_offset 64 w) λ bytes w.
          and_then (lift (elf_header_at bytes) w)
            λ header w. and_then (lift (check_elf_header header) w) λ _ w. done header w

  unfoldable pub read_program_headers :
      HostFile
      → ℕ
      → Container
      → ElfHeader
      → World H M
      → Outcome Error (World H M) (List ProgramHeader)
  read_program_headers file file_length container header w =
      let size = header.e_phnum * 56 in
      and_then (lift (or_err (add_valid container.elf_offset header.e_phoff) Error.header_table) w)
        λ offset w.
          and_then (lift (require (range_valid offset size file_length) Error.header_table) w)
            λ _ w.
              and_then (read_file host as' file offset size w)
                λ bytes w. lift (program_headers_at header.e_phnum bytes 0) w

  -- The dynamic data, if the image has them.
  unfoldable pub load_dynamic :
      HostFile
      → Option (Extent × Extent)
      → ImageInfo
      → World H M
      → Outcome Error (World H M) ImageInfo
  load_dynamic file none image w = done image w
  load_dynamic file (some (table, contents)) image w =
      and_then (read_file host as' file table.0 table.1 w) λ dynamic w.
        and_then (read_file host as' file contents.0 contents.1 w) λ bytes w.
          elim (process_dynamic as' dynamic bytes (record { memory = w.memory; image = image })) [
            | fail e s ↦ fail e (record w { memory = s.memory })
            | done _ s ↦ done s.image (record w { memory = s.memory })
          ]

  -- From the file's length on, to the label `out`.
  unfoldable pub load_file :
      HostFile → List ℕ → LoadArgs → World H M → Outcome Error (World H M) ImageInfo
  load_file file filename args w =
      let (ret, h) = host_file_seek host file w.host 0 seek_end in
      let w1 : World H M = record w { host = h } in
      let file_length = to_u64 ret in
      if file_length == 2 ^ 64 - 1
      then fail Error.no_file_size w1
      else (and_then (read_container file file_length w1) λ container w.
          and_then (read_elf_header file file_length container w) λ header w.
            and_then (read_program_headers file file_length container header w) λ phdrs w.
              let plan = plan_of args container header file_length in
              and_then
                (header_loop host as' file plan 0 phdrs
                  (start_scan (some (basename filename)) args container header) w)
                λ scan w. and_then (lift (finish_image as' w.memory plan scan) w) λ image w.
                  and_then (lift (dynamic_extents plan phdrs scan) w) λ extents w.
                    and_then (load_dynamic file extents image w)
                      λ image w. done (record image { image_size = scan.image_size }) w)

  -- The label `out`: the file is closed on every path. After a failure the caller has only a
  -- description that shadps4_image_cleanup has emptied, so none is returned.
  unfoldable pub load_module : List ℕ → LoadArgs → World H M → Outcome Error (World H M) ImageInfo
  load_module filename args w = elim (host_file_open host w.host filename) [
    | fail e h ↦ fail e (record w { host = h })
    | done file h ↦ elim (load_file file filename args (record w { host = h })) [
      | fail e w' ↦ fail e (record w' { host = host_file_close host file w'.host })
      | done image w' ↦ done image (record w' { host = host_file_close host file w'.host })
    ]
  ]

  unfoldable pub load_image : List ℕ → ℕ → ℕ → World H M → Outcome Error (World H M) ImageInfo
  load_image filename physical_base physical_limit w =
      load_module filename
        (record {
          virtual_base = image_virt_base;
          physical_base = physical_base;
          physical_limit = physical_limit;
          tls_module_id = 1;
        })
        w
