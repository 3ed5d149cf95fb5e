-- ===== src/Loader/Relocate.antt =====
-- shadps4_relocation_target and shadps4_apply_relocations: the relocations that a module applies to
-- itself, and those it leaves for the linker. Link tracing, which only logs, is left out.
pub mod Target
pub mod Counters
pub mod Frame
pub mod Resolves
pub mod Values
use qemu_dll_shadps.Base.{
  ℕ, zero, suc, ◌+◌, ◌-◌, ◌*◌, ◌/◌, ◌%◌, ◌^◌, ℤ, signed64, Bool, true, false, not, ◌&&◌, ◌||◌,
  Option, none, some, List, [], ◌∷◌, ltb, leb, ◌==◌, if◌then◌else◌, length, set, le_at, le_bytes,
  get_elem?, Result, ok, err, ◌>>=◌, ◌>>◌, require, or_err, Outcome, done, fail, and_then, lift,
}
use qemu_dll_shadps.Loader.Types.{
  Error, DynamicInfo, ImageSegment, ImageInfo, PendingRelocation, inc32,
}
use qemu_dll_shadps.Loader.Range.{add_valid, add_signed_valid}
use qemu_dll_shadps.Loader.Memory.{AddressSpace}
use qemu_dll_shadps.Loader.Dynamic.{rounds}

-- The loop over the loaded segments.
unfoldable pub target_loop : List ImageSegment → ℕ → Option ℕ
target_loop [] virtual_addr = none
target_loop (segment ∷ rest) virtual_addr =
    let segment_offset = virtual_addr - segment.virtual_addr in
    if not (ltb virtual_addr segment.virtual_addr)
      && (leb segment_offset segment.memory_size && leb 8 (segment.memory_size - segment_offset))
    then some ((segment.physical_addr + segment_offset) % 2 ^ 64)
    else target_loop rest virtual_addr

unfoldable pub relocation_target : ImageInfo → ℕ → Option ℕ
relocation_target info offset = elim (add_valid info.virtual_base offset) [
  | none ↦ none
  | some virtual_addr ↦ target_loop info.segments virtual_addr
]

-- The fields of an Elf64_Sym that the loader reads.
pub record ElfSymbol : Type 0 where
  pub st_name : ℕ
  pub st_info : ℕ
  pub st_shndx : ℕ
  pub st_value : ℕ

unfoldable pub symbol_at : List ℕ → ℕ → Result Error ElfSymbol
symbol_at bytes offset = do
  name ← or_err (le_at 4 bytes offset) Error.fault
  info ← or_err (le_at 1 bytes (offset + 4)) Error.fault
  shndx ← or_err (le_at 2 bytes (offset + 6)) Error.fault
  value ← or_err (le_at 8 bytes (offset + 8)) Error.fault
  ok (record { st_name = name; st_info = info; st_shndx = shndx; st_value = value })

-- An Elf64_Rela, its addend read as an int64_t.
pub record Rela : Type 0 where
  pub r_offset : ℕ
  pub r_info : ℕ
  pub r_addend : ℤ

unfoldable pub rela_at : List ℕ → ℕ → Result Error Rela
rela_at bytes offset = do
  r_offset ← or_err (le_at 8 bytes offset) Error.fault
  r_info ← or_err (le_at 8 bytes (offset + 8)) Error.fault
  r_addend ← or_err (le_at 8 bytes (offset + 16)) Error.fault
  ok (record { r_offset = r_offset; r_info = r_info; r_addend = signed64 r_addend })

-- The low word of r_info is the type, the high word the symbol's index.
abbrev pub r_type : Rela → ℕ
r_type rela = rela.r_info % 2 ^ 32

abbrev pub r_sym : Rela → ℕ
r_sym rela = rela.r_info / 2 ^ 32 % 2 ^ 32

abbrev pub r_x86_64_64 : ℕ
r_x86_64_64 = 1

abbrev pub r_glob_dat : ℕ
r_glob_dat = 6

abbrev pub r_jump_slot : ℕ
r_jump_slot = 7

abbrev pub r_relative : ℕ
r_relative = 8

abbrev pub r_dtpmod64 : ℕ
r_dtpmod64 = 16

-- What the switch comes to: a value to write now, or a relocation for the linker, weak or not.
pub data Resolution : Type 0 where
  value : ℕ → Resolution
  postpone : Bool → Resolution

-- The case of the three symbol types.
unfoldable pub symbol_value : List ℕ → DynamicInfo → ImageInfo → Rela → Result Error Resolution
symbol_value bytes dynamic image rela = do
  require (ltb (r_sym rela) (dynamic.symtabsz / 24)) Error.symbol_out_of_range
  symbol ← symbol_at bytes (dynamic.symtab + r_sym rela * 24)
  if symbol.st_shndx == 0 then ok (Resolution.postpone (symbol.st_info / 16 == 2)) else (do
    v ← or_err (add_valid image.virtual_base symbol.st_value) Error.symbol_overflow
    if r_type rela == r_x86_64_64
        then (do
          w ← or_err (add_signed_valid v rela.r_addend) Error.absolute_overflow
          ok (Resolution.value w))
        else ok (Resolution.value v))

unfoldable pub relocation_value : List ℕ → DynamicInfo → ImageInfo → Rela → Result Error Resolution
relocation_value bytes dynamic image rela =
    if r_type rela == r_relative
    then (do
      v ← or_err (add_signed_valid image.virtual_base rela.r_addend) Error.relative_overflow
      ok (Resolution.value v))
    else if r_type rela == r_dtpmod64
    then ok (Resolution.value image.tls_module_id)
    else if r_type rela == r_x86_64_64 || r_type rela == r_glob_dat || r_type rela == r_jump_slot
    then symbol_value bytes dynamic image rela
    else err Error.relocation_type

-- `image->pending_relocations[image->pending_relocation_count++] = ...`: a write past the
-- allocated array is a fault.
unfoldable pub push_pending : ImageInfo → PendingRelocation → Result Error ImageInfo
push_pending image pending =
    if ltb image.pending_relocation_count (length image.pending_relocations)
    then ok (record image {
      pending_relocations = set image.pending_relocations image.pending_relocation_count pending;
      pending_relocation_count = inc32 image.pending_relocation_count;
      unresolved_relocation_count = inc32 image.unresolved_relocation_count;
    })
    else err Error.fault

-- What the loader changes: guest memory and the image's description.
pub record LoadState (M : Type 0) : Type 0 where
  pub memory : M
  pub image : ImageInfo

abbrev pub count_relocation : ImageInfo → ImageInfo
count_relocation image = record image { relocation_count = inc32 image.relocation_count }

abbrev pub count_applied : ImageInfo → ImageInfo
count_applied image = record image {
  applied_relocation_count = inc32 image.applied_relocation_count;
}

module _ {M : Type 0} (as' : AddressSpace M) where
  -- The end of a round: the write of a value, or the entry for the linker.
  unfoldable pub settle :
      Rela → ℕ → Resolution → LoadState M → Outcome Error (LoadState M) (Unit {0})
  settle rela physical_addr (Resolution.value v) s =
      let (stored, memory) = as'.write s.memory physical_addr (le_bytes 8 v) in
      if stored
      then done tt (record s { memory = memory; image = count_applied s.image })
      else fail Error.relocation_write (record s { memory = memory })
  settle rela physical_addr (Resolution.postpone weak) s =
      let pending : PendingRelocation = record {
        physical_addr = physical_addr;
        addend = rela.r_addend;
        symbol_index = r_sym rela;
        type = r_type rela;
        weak = weak;
        applied = false;
      } in
      elim (push_pending s.image pending) [
        | err e ↦ fail e s
        | ok image ↦ done tt (record s { image = image })
      ]

  -- One round of the loop.
  unfoldable pub apply_relocation :
      List ℕ → DynamicInfo → Rela → LoadState M → Outcome Error (LoadState M) (Unit {0})
  apply_relocation bytes dynamic rela s =
      let image = count_relocation s.image in
      let s' : LoadState M = record s { image = image } in
      elim (relocation_target image rela.r_offset) [
        | none ↦ fail Error.relocation_outside s'
        | some physical_addr ↦ elim (relocation_value bytes dynamic image rela) [
          | err e ↦ fail e s'
          | ok resolution ↦ settle rela physical_addr resolution s'
        ]
      ]

  -- The table is the part of `bytes` from `offset` on.
  unfoldable pub apply_loop :
      ℕ → List ℕ → ℕ → DynamicInfo → LoadState M → Outcome Error (LoadState M) (Unit {0})
  apply_loop zero bytes offset dynamic s = done tt s
  apply_loop (suc n) bytes offset dynamic s = elim (rela_at bytes offset) [
    | err e ↦ fail e s
    | ok rela ↦
        and_then (apply_relocation bytes dynamic rela s)
          (λ _ s'. apply_loop n bytes (offset + 24) dynamic s')
  ]

  unfoldable pub apply_relocations :
      List ℕ → ℕ → ℕ → DynamicInfo → LoadState M → Outcome Error (LoadState M) (Unit {0})
  apply_relocations bytes table table_size dynamic s =
      apply_loop (rounds table_size 24) bytes table dynamic s
