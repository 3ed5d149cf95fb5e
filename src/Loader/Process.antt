-- ===== src/Loader/Process.antt =====
-- shadps4_process_dynamic: the tables of a module's dynamic data, its symbols, and both of its
-- relocation tables.
pub mod Tables
pub mod Bounds
use qemu_dll_shadps.Base.{
  ℕ, zero, suc, ◌+◌, ◌-◌, ◌*◌, ◌/◌, ◌%◌, ◌^◌, Bool, true, false, not, ◌&&◌, ◌||◌, Option, none,
  some, List, [], ◌∷◌, ltb, leb, ◌==◌, if◌then◌else◌, length, set, replicate, drop, take, slice_at,
  c_string, Result, ok, err, ◌>>=◌, ◌>>◌, require, or_err, Outcome, done, fail, and_then, lift,
}
use qemu_dll_shadps.Loader.Types.{
  Error, DynamicInfo, DynamicSymbol, ImageInfo, zero_symbol, zero_pending, inc32,
}
use qemu_dll_shadps.Loader.Range.{range_valid, add_valid}
use qemu_dll_shadps.Loader.Memory.{AddressSpace}
use qemu_dll_shadps.Loader.Dynamic.{parse_dynamic, string_at, symbol_identity}
use qemu_dll_shadps.Loader.Relocate.{ElfSymbol, symbol_at, LoadState, apply_relocations}

-- `shadps4_dynamic_range`.
abbrev pub dynamic_range : ℕ → ℕ → ℕ → Result Error (Unit {0})
dynamic_range offset size data_size =
    require (range_valid offset size data_size) Error.table_outside

-- The absolute address of an initializer that is present.
abbrev pub initializer : Bool → ℕ → ℕ → ℕ → Result Error ℕ
initializer present base offset old =
    if present then or_err (add_valid base offset) Error.initializer_overflow else ok old

-- The symbol's fields before its names are looked up.
abbrev pub symbol_of : ElfSymbol → DynamicSymbol
symbol_of symbol = record zero_symbol {
  value = symbol.st_value;
  type = symbol.st_info % 16;
  binding = symbol.st_info / 16;
  defined = not (symbol.st_shndx == 0);
}

-- The name of a symbol: the C string at `name` in the string table, if a NUL ends it there.
unfoldable pub symbol_name : List ℕ → ℕ → Result Error (List ℕ)
symbol_name strings name = do
  require (ltb name (length strings)) Error.symbol_name
  found ← string_at strings name
  or_err found Error.symbol_name

-- One round of the symbol loop; `strings` is the string table inside the dynamic data.
unfoldable pub read_symbol : List ℕ → List ℕ → List ℕ → DynamicInfo → ℕ → Result Error DynamicSymbol
read_symbol dynamic bytes strings info i = do
  symbol ← symbol_at bytes (info.symtab + i * 24)
  encoded ← symbol_name strings symbol.st_name
  symbol_identity dynamic strings encoded (symbol_of symbol)

-- The end of a round: the counts, and the symbol's place in the array.
abbrev pub counted_symbol : ImageInfo → ℕ → DynamicSymbol → ImageInfo
counted_symbol image i symbol = record image {
  imported_symbol_count =
      if symbol.defined then image.imported_symbol_count else inc32 image.imported_symbol_count;
  exported_symbol_count =
      if symbol.defined then inc32 image.exported_symbol_count else image.exported_symbol_count;
  symbols = set image.symbols i symbol;
}

abbrev pub store_symbol : ImageInfo → ℕ → DynamicSymbol → Result Error ImageInfo
store_symbol image i symbol =
    if ltb i (length image.symbols) then ok (counted_symbol image i symbol) else err Error.fault

unfoldable pub symbol_loop :
    ℕ → List ℕ → List ℕ → List ℕ → DynamicInfo → ℕ → ImageInfo → Result Error ImageInfo
symbol_loop zero dynamic bytes strings info i image = ok image
symbol_loop (suc n) dynamic bytes strings info i image =
    read_symbol dynamic bytes strings info i >>= λ symbol.
    store_symbol image i symbol >>= λ image. symbol_loop n dynamic bytes strings info (i + 1) image

-- The checks of the tables, and the arrays that they call for.
unfoldable pub prepare_tables : List ℕ → DynamicInfo → ImageInfo → Result Error ImageInfo
prepare_tables bytes info image = do
  let size = length bytes
  init ← initializer info.init_present image.virtual_base info.init image.init
  fini ← initializer info.fini_present image.virtual_base info.fini image.fini
  dynamic_range info.strtab info.strsz size
  dynamic_range info.symtab info.symtabsz size
  dynamic_range info.rela info.relasz size
  dynamic_range info.jmprel info.pltrelsz size
  require (info.symtabsz % 24 == 0 && info.relasz % 24 == 0 && info.pltrelsz % 24 == 0)
      Error.table_unaligned
  ok (record image {
    init = init;
    fini = fini;
    init_present = info.init_present;
    fini_present = info.fini_present;
    symbol_count = info.symtabsz / 24 % 2 ^ 32;
    symbols = replicate (info.symtabsz / 24) zero_symbol;
    pending_relocations = replicate ((info.relasz + info.pltrelsz) % 2 ^ 64 / 24) zero_pending;
  })

module _ {M : Type 0} (as' : AddressSpace M) where
  -- `bytes` is the dynamic data. The state after a failure is that of the last memory write; the
  -- image is cleaned up by the caller.
  unfoldable pub process_dynamic :
      List ℕ → List ℕ → LoadState M → Outcome Error (LoadState M) (Unit {0})
  process_dynamic dynamic bytes s = and_then (lift (parse_dynamic dynamic) s) λ info s.
      and_then (lift (prepare_tables bytes info s.image) s) λ image s.
        and_then (lift (or_err (slice_at bytes info.strtab info.strsz) Error.fault) s) λ strings s.
          and_then (lift (symbol_loop (info.symtabsz / 24) dynamic bytes strings info 0 image) s)
            λ image s.
              and_then
                (apply_relocations as' bytes info.rela info.relasz info
                  (record s { image = image }))
                λ _ s. apply_relocations as' bytes info.jmprel info.pltrelsz info s
