-- ===== src/Loader/Dynamic.antt =====
-- shadps4_parse_dynamic, shadps4_dynamic_identity and shadps4_symbol_identity: the dynamic table of
-- an image and the names of libraries and modules in it. The tags of elf.h, which is not in this
-- repository, are those of the ELF specification.
pub mod Parse
pub mod Identity
use qemu_dll_shadps.Base.{
  ℕ, zero, suc, ◌+◌, ◌-◌, ◌*◌, ◌/◌, ◌%◌, ◌^◌, Bool, true, false, not, ◌&&◌, ◌||◌, Option, none,
  some, List, [], ◌∷◌, ltb, leb, ◌==◌, if◌then◌else◌, length, drop, str_eq, le_at, c_string, Result,
  ok, err, ◌>>=◌, ◌>>◌, require, or_err,
}
use qemu_dll_shadps.Loader.Types.{Error, DynamicInfo, zero_dynamic, DynamicSymbol}
use qemu_dll_shadps.Loader.EncodeId.{encode_id}

abbrev pub dt_null : ℕ
dt_null = 0

abbrev pub dt_rela : ℕ
dt_rela = 7

-- The fields that an entry of the table can set.
pub data Field : Type 0 where
  strtab strsz symtab syment symtabsz rela relasz relaent jmprel pltrelsz pltrel init fini : Field

abbrev pub tag_of : Field → ℕ
tag_of Field.strtab = 0x61000035
tag_of Field.strsz = 0x61000037
tag_of Field.symtab = 0x61000039
tag_of Field.syment = 0x6100003b
tag_of Field.symtabsz = 0x6100003f
tag_of Field.rela = 0x6100002f
tag_of Field.relasz = 0x61000031
tag_of Field.relaent = 0x61000033
tag_of Field.jmprel = 0x61000029
tag_of Field.pltrelsz = 0x6100002d
tag_of Field.pltrel = 0x6100002b
tag_of Field.init = 12
tag_of Field.fini = 13

-- `switch (tag)`.
unfoldable pub set_entry : DynamicInfo → ℕ → ℕ → DynamicInfo
set_entry info tag value =
    if tag == tag_of Field.init
    then record info { init = value; init_present = true }
    else if tag == tag_of Field.fini
    then record info { fini = value; fini_present = true }
    else if tag == tag_of Field.strtab
    then record info { strtab = value }
    else if tag == tag_of Field.strsz
    then record info { strsz = value }
    else if tag == tag_of Field.symtab
    then record info { symtab = value }
    else if tag == tag_of Field.syment
    then record info { syment = value }
    else if tag == tag_of Field.symtabsz
    then record info { symtabsz = value }
    else if tag == tag_of Field.rela
    then record info { rela = value }
    else if tag == tag_of Field.relasz
    then record info { relasz = value }
    else if tag == tag_of Field.relaent
    then record info { relaent = value }
    else if tag == tag_of Field.jmprel
    then record info { jmprel = value }
    else if tag == tag_of Field.pltrelsz
    then record info { pltrelsz = value }
    else if tag == tag_of Field.pltrel
    then record info { pltrel = value }
    else info

-- How often `for (offset = 0; offset < size; offset += step)` runs.
abbrev pub rounds : ℕ → ℕ → ℕ
rounds size step = (size + (step - 1)) / step

-- The loop at `offset`; the flag is `terminated`.
unfoldable pub parse_loop : ℕ → List ℕ → ℕ → DynamicInfo → Result Error (DynamicInfo × Bool)
parse_loop zero dynamic offset info = ok (info, false)
parse_loop (suc n) dynamic offset info = elim (le_at 8 dynamic offset) [
  | none ↦ err Error.fault
  | some tag ↦ elim (le_at 8 dynamic (offset + 8)) [
    | none ↦ err Error.fault
    | some value ↦
        let rest = parse_loop n dynamic (offset + 16) (set_entry info tag value) in
        if tag == dt_null then ok (info, true) else rest
  ]
]

-- A table that is present has entries of the expected size.
abbrev pub entry_sizes_valid : DynamicInfo → Bool
entry_sizes_valid info =
    (info.symtabsz == 0 || info.syment == 24)
    && (info.relasz == 0 || info.relaent == 24)
    && (info.pltrelsz == 0 || info.pltrel == dt_rela)

unfoldable pub parse_dynamic : List ℕ → Result Error DynamicInfo
parse_dynamic dynamic =
    let size = length dynamic in
    do
      require (not (size == 0) && size % 16 == 0) Error.dynamic_size
      (info, terminated) ← parse_loop (rounds size 16) dynamic 0 zero_dynamic
      require terminated Error.dynamic_unterminated
      require (entry_sizes_valid info) Error.dynamic_entry_sizes
      ok info

abbrev pub import_tag : Bool → ℕ
import_tag library = if library then 0x61000015 else 0x6100000f

abbrev pub export_tag : Bool → ℕ
export_tag library = if library then 0x61000013 else 0x6100000d

-- The C string at an offset of the string table: `memchr` over what is left of the table, then
-- `g_strdup`. Past the end of the table the length that is left wraps around, and the read leaves it.
unfoldable pub string_at : List ℕ → ℕ → Result Error (Option (List ℕ))
string_at strings offset =
    if leb offset (length strings) then ok (c_string (drop offset strings)) else err Error.fault

-- The end of a round: the name and version of the entry's library or module. `name_offset` is the
-- low half of the value.
unfoldable pub identity_entry : List ℕ → ℕ → Bool → Result Error (Option (List ℕ × ℕ))
identity_entry strings value library =
    let name_offset = value % 2 ^ 32 in
    if leb (length strings) name_offset then err Error.identity_name else do
      found ← string_at strings name_offset
      name ← or_err found Error.identity_name
      ok (some (name, if library then value / 2 ^ 32 % 2 ^ 16 else 0))

-- The loop at `offset`. Without a match the source leaves `*name` and `*version` alone: `none`.
unfoldable pub identity_loop :
    ℕ → List ℕ → ℕ → List ℕ → List ℕ → Bool → Result Error (Option (List ℕ × ℕ))
identity_loop zero dynamic offset strings encoded_id library = ok none
identity_loop (suc n) dynamic offset strings encoded_id library = elim (le_at 8 dynamic offset) [
  | none ↦ err Error.fault
  | some tag ↦ elim (le_at 8 dynamic (offset + 8)) [
    | none ↦ err Error.fault
    | some value ↦
        let rest = identity_loop n dynamic (offset + 16) strings encoded_id library in
        if tag == dt_null
        then ok none
        else if not (tag == import_tag library) && not (tag == export_tag library)
        then rest
        else if not (str_eq (encode_id (value / 2 ^ 48 % 2 ^ 16)) encoded_id)
        then rest
        else identity_entry strings value library
  ]
]

unfoldable pub dynamic_identity :
    List ℕ → List ℕ → List ℕ → Bool → Result Error (Option (List ℕ × ℕ))
dynamic_identity dynamic strings encoded_id library =
    identity_loop (rounds (length dynamic) 16) dynamic 0 strings encoded_id library

-- The tokens between the `#` of a string, the first apart. g_strsplit with a limit of four tokens
-- yields three exactly where this does.
unfoldable pub split_hash : List ℕ → List ℕ × List (List ℕ)
split_hash [] = ([], [])
split_hash (c ∷ cs) =
    let (token, rest) = split_hash cs in if c == b'#' then ([], token ∷ rest) else (c ∷ token, rest)

-- `*name = ...; *version = ...` into the symbol's fields.
abbrev pub with_library : DynamicSymbol → Option (List ℕ × ℕ) → DynamicSymbol
with_library symbol none = symbol
with_library symbol (some (name, version)) = record symbol {
  library = some name;
  library_version = version;
}

abbrev pub with_module : DynamicSymbol → Option (List ℕ × ℕ) → DynamicSymbol
with_module symbol none = symbol
with_module symbol (some (name, version)) = record symbol { module_name = some name }

-- The body behind the split, on the tokens after the first.
unfoldable pub identify :
    List ℕ → List ℕ → List ℕ → List (List ℕ) → DynamicSymbol → Result Error DynamicSymbol
identify dynamic strings nid (library_id ∷ module_id ∷ []) symbol = do
  library ← dynamic_identity dynamic strings library_id true
  module' ← dynamic_identity dynamic strings module_id false
  ok (with_module (with_library (record symbol { nid = some nid }) library) module')
identify dynamic strings nid _ symbol = ok symbol

unfoldable pub symbol_identity :
    List ℕ → List ℕ → List ℕ → DynamicSymbol → Result Error DynamicSymbol
symbol_identity dynamic strings encoded symbol =
    let (nid, rest) = split_hash encoded in identify dynamic strings nid rest symbol
