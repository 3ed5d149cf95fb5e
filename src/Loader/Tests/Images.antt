-- ===== src/Loader/Tests/Images.antt =====
-- The program headers of a module with a code and a data segment.
use qemu_dll_shadps.Base.{
  ℕ, ◌+◌, refl, false, none, some, List, [], ◌∷◌, pos, negsuc, arith, Outcome, done, fail, Result,
  ok, err, replicate,
}
use qemu_dll_shadps.Loader.Types.{ImageInfo, ProgramHeader, zero_image, Error}
use qemu_dll_shadps.Loader.Range.{add_valid, range_valid}
use qemu_dll_shadps.Loader.HostFile.{
  Host, HostFile, host_file_seek, host_file_read, read_loop, read_exact,
}
use qemu_dll_shadps.Loader.Load.Headers.{ElfHeader}
use qemu_dll_shadps.Loader.Load.Segments.{
  Scan, Plan, scan_dynamic, scan_proc_param, scan_eh_frame, scan_tls, overlaps, segment_place,
  segment_source, add_segment,
}
use qemu_dll_shadps.Loader.Load.Loop.{
  World, store_chunk, copy_loop, copy_segment, clear_bss, load_segment, load_header, header_loop,
}
use qemu_dll_shadps.Loader.Load.Finish.{finish_image}
use qemu_dll_shadps.Loader.Load.Module.{LoadArgs, Container, start_scan, plan_of}
use qemu_dll_shadps.Loader.Load.Layout.Start.{Startable, header_loop-Startable}
use qemu_dll_shadps.Loader.Tests.Memories.{Ram, ram}

-- A file of as many zeros as one asks for.
abbrev zeros_host : Host ℕ
zeros_host = record {
  path_is_brokered = λ path. false;
  storage_open = λ h path. (pos 0, pos 0, h);
  storage_seek = λ h fd off w. (pos 0, h);
  storage_read = λ h fd n. (none, h);
  storage_close = λ h fd. h;
  os_open = λ h path. (pos 3, 0);
  os_seek = λ h fd off w. (pos off, off);
  os_read = λ h fd n. (some (replicate n 0), h + n);
  os_close = λ h fd. h;
}

abbrev opened : HostFile
opened = record { brokered = false; fd = pos 3; handle = negsuc 0; path = [] }

abbrev args : LoadArgs
args = record {
  virtual_base = 0x800000000;
  physical_base = 0x100000;
  physical_limit = 0x200000;
  tls_module_id = 1;
}

abbrev container : Container
container = record { is_self = false; self_segments = []; elf_offset = 0 }

abbrev header : ElfHeader
header = record {
  ident = 0x09010102464c457f;
  abi_version = 0;
  e_type = 0xfe10;
  e_machine = 62;
  e_entry = 0x10;
  e_phoff = 64;
  e_ehsize = 64;
  e_phentsize = 56;
  e_phnum = 2;
}

abbrev phdrs : List ProgramHeader
phdrs =
    record {
      p_type = 1;
      p_flags = 5;
      p_offset = 0x40;
      p_vaddr = 0;
      p_filesz = 4;
      p_memsz = 0x20;
      p_align = 1;
    }
    ∷ record {
      p_type = 1;
      p_flags = 6;
      p_offset = 0x44;
      p_vaddr = 0x40;
      p_filesz = 2;
      p_memsz = 8;
      p_align = 1;
    }
    ∷ []

abbrev before : World ℕ Ram
before = record { host = 0; memory = λ x. 0 }

abbrev plan : Plan
plan = plan_of args container header 0x80

abbrev run : Outcome Error (World ℕ Ram) Scan
run = header_loop zeros_host ram opened plan 0 phdrs (start_scan none args container header) before

abbrev scan_of : Outcome Error (World ℕ Ram) Scan → Scan
scan_of (done scan w) = scan
scan_of (fail e w) = start_scan none args container header

abbrev world_of : Outcome Error (World ℕ Ram) Scan → World ℕ Ram
world_of (done scan w) = w
world_of (fail e w) = w

abbrev image_of : Result Error ImageInfo → ImageInfo
image_of (ok image) = image
image_of (err e) = zero_image

header_loop-Startable_example :
    Startable 0x200000 0x800000000 0x100000
      (image_of (finish_image ram (world_of run).memory plan (scan_of run)))
unfolding header_loop load_header load_segment clear_bss copy_segment copy_loop store_chunk
    scan_dynamic scan_proc_param scan_eh_frame scan_tls overlaps segment_place segment_source
    add_segment read_exact read_loop host_file_read host_file_seek add_valid range_valid
    finish_image
header_loop-Startable_example =
    header_loop-Startable zeros_host ram opened none args container header 0x80 phdrs before
      (world_of run) (scan_of run)
      (image_of (finish_image ram (world_of run).memory plan (scan_of run))) (omega arith)
      (omega arith) (omega arith) (omega arith, (omega arith, tt)) refl refl
