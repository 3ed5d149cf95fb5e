-- ===== src/Loader/Load/Loop.antt =====
-- shadps4_copy_segment, and the loop of shadps4_load_module over the program headers.
use qemu_dll_shadps.Base.{
  ℕ, zero, suc, ◌+◌, ◌-◌, ◌%◌, ◌^◌, min, ◌||◌, List, [], ◌∷◌, ltb, ◌==◌, if◌then◌else◌, ◌>>=◌,
  Outcome, done, fail, and_then, lift,
}
use qemu_dll_shadps.Loader.Types.{Error, ProgramHeader}
use qemu_dll_shadps.Loader.Memory.{AddressSpace}
use qemu_dll_shadps.Loader.HostFile.{Host, HostFile, read_exact}
use qemu_dll_shadps.Loader.Dynamic.{rounds}
use qemu_dll_shadps.Loader.Load.Segments.{
  Scan, Plan, pt_load, pt_sce_relro, scan_dynamic, scan_proc_param, scan_eh_frame, scan_tls,
  segment_place, segment_source, add_segment,
}

-- The host, whose files have positions, and guest memory.
pub record World (H M : Type 0) : Type 0 where
  pub host : H
  pub memory : M

abbrev pub copy_chunk : ℕ
copy_chunk = 2 ^ 20

module _ {H M : Type 0} (host : Host H) (as' : AddressSpace M) (file : HostFile) where
  -- A read from the file, in the world around it.
  abbrev pub read_file : ℕ → ℕ → World H M → Outcome Error (World H M) (List ℕ)
  read_file offset size w = elim (read_exact host file w.host offset size) [
    | fail e h ↦ fail e (record w { host = h })
    | done bytes h ↦ done bytes (record w { host = h })
  ]

  unfoldable pub store_chunk : ℕ → List ℕ → World H M → Outcome Error (World H M) (Unit {0})
  store_chunk addr bytes w =
      let (stored, memory) = as'.write w.memory addr bytes in
      if stored
      then done tt (record w { memory = memory })
      else fail Error.write_failed (record w { memory = memory })

  -- `while (copied < file_size)`, with `n` chunks left.
  unfoldable pub copy_loop : ℕ → ℕ → ℕ → ℕ → ℕ → World H M → Outcome Error (World H M) (Unit {0})
  copy_loop zero copied file_offset file_size physical_addr w = done tt w
  copy_loop (suc n) copied file_offset file_size physical_addr w =
      let chunk = min (file_size - copied) copy_chunk in
      and_then (read_file ((file_offset + copied) % 2 ^ 64) chunk w) λ bytes w.
        and_then (store_chunk ((physical_addr + copied) % 2 ^ 64) bytes w)
          λ _ w. copy_loop n (copied + chunk) file_offset file_size physical_addr w

  unfoldable pub copy_segment : ℕ → ℕ → ℕ → World H M → Outcome Error (World H M) (Unit {0})
  copy_segment file_offset file_size physical_addr w =
      copy_loop (rounds file_size copy_chunk) 0 file_offset file_size physical_addr w

  -- The zeroing of what the file does not fill.
  unfoldable pub clear_bss : ProgramHeader → ℕ → World H M → Outcome Error (World H M) (Unit {0})
  clear_bss phdr physical_addr w =
      if ltb phdr.p_filesz phdr.p_memsz
      then (let (cleared, memory) =
            as'.fill w.memory ((physical_addr + phdr.p_filesz) % 2 ^ 64) 0
              (phdr.p_memsz - phdr.p_filesz) in
          if cleared
          then done tt (record w { memory = memory })
          else fail Error.clear_failed (record w { memory = memory }))
      else done tt w

  -- The part of the body for a segment that is loaded.
  unfoldable pub load_segment :
      Plan → ℕ → ProgramHeader → Scan → World H M → Outcome Error (World H M) Scan
  load_segment plan i phdr scan w =
      and_then (lift (segment_place plan phdr scan.image) w) λ physical_addr w.
        and_then (lift (segment_source plan i phdr) w) λ source_offset w.
          and_then (copy_segment source_offset phdr.p_filesz physical_addr w) λ _ w.
            and_then (clear_bss phdr physical_addr w)
              λ _ w. lift (add_segment plan phdr physical_addr scan) w

  -- One round: the checks by type, then the load of a PT_LOAD or PT_SCE_RELRO segment.
  unfoldable pub load_header :
      Plan → ℕ → ProgramHeader → Scan → World H M → Outcome Error (World H M) Scan
  load_header plan i phdr scan w =
      and_then
        (lift
          (scan_dynamic i phdr scan
            >>= scan_proc_param phdr
            >>= scan_eh_frame phdr
            >>= scan_tls phdr)
          w)
        λ scan w.
          if phdr.p_type == pt_load || phdr.p_type == pt_sce_relro
          then load_segment plan i phdr scan w
          else done scan w

  -- The list is what is left of the program headers.
  unfoldable pub header_loop :
      Plan → ℕ → List ProgramHeader → Scan → World H M → Outcome Error (World H M) Scan
  header_loop plan i [] scan w = done scan w
  header_loop plan i (phdr ∷ rest) scan w =
      and_then (load_header plan i phdr scan w) (λ scan w. header_loop plan (i + 1) rest scan w)
