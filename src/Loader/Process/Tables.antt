-- ===== src/Loader/Process/Tables.antt =====
-- The checks of shadps4_process_dynamic on a module's tables, and its loop over the symbols.
use qemu_dll_shadps.Base.{
  ℕ, zero, suc, ◌+◌, ◌*◌, ◌/◌, ◌%◌, ◌^◌, ◌≤◌, ◌≡◌, refl, sym, ap, ltb, ◌∙◌, ◌≢◌, true, false, List,
  [], ◌∷◌, subst, length, length-set, replicate, Result, ok, err, ◌>>=◌, require, require-eq-ok,
  ok-injective, ◌==◌, ◌&&◌, >>=-eq-ok, >>=-ne-err, arith,
}
use qemu_dll_shadps.Loader.Types.{
  Error, DynamicInfo, DynamicSymbol, ImageInfo, zero_symbol, zero_pending,
}
use qemu_dll_shadps.Loader.Range.{range_valid_iff}
use qemu_dll_shadps.Loader.Dynamic.{string_at, symbol_identity, identify, split_hash}
use qemu_dll_shadps.Loader.Dynamic.Identity.{dynamic_identity-ne-fault}
use qemu_dll_shadps.Loader.Relocate.{symbol_at}
use qemu_dll_shadps.Loader.Relocate.Counters.{symbol_at_in}
use qemu_dll_shadps.Loader.Process.{
  symbol_name, read_symbol, symbol_of, counted_symbol, store_symbol, symbol_loop, prepare_tables,
  initializer, dynamic_range,
}

-- What the tables of a module are once they have been checked.
pub record Prepared (bytes : List ℕ) (info : DynamicInfo) (old image : ImageInfo) : Type 0 where
  pub strings : info.strtab + info.strsz ≤ length bytes
  pub symbols : info.symtab + info.symtabsz ≤ length bytes
  pub relas : info.rela + info.relasz ≤ length bytes
  pub plt : info.jmprel + info.pltrelsz ≤ length bytes
  pub relas_whole : info.relasz % 24 ≡ 0
  pub plt_whole : info.pltrelsz % 24 ≡ 0
  pub symbols_whole : info.symtabsz % 24 ≡ 0
  pub array : image.symbols ≡ replicate (info.symtabsz / 24) zero_symbol
  pub count : image.symbol_count ≡ info.symtabsz / 24 % 2 ^ 32
  pub pending :
      image.pending_relocations
      ≡ replicate ((info.relasz + info.pltrelsz) % 2 ^ 64 / 24) zero_pending
  pub pending_count : image.pending_relocation_count ≡ old.pending_relocation_count
  pub relocations : image.relocation_count ≡ old.relocation_count
  pub applied : image.applied_relocation_count ≡ old.applied_relocation_count
  pub unresolved : image.unresolved_relocation_count ≡ old.unresolved_relocation_count

in_range :
    (offset size limit : ℕ) {u : Unit {0}}
    → dynamic_range offset size limit ≡ ok u
    → offset + size ≤ limit
in_range offset size limit h = (range_valid_iff offset size limit).0 (require-eq-ok _ _ h)

aligned :
    (info : DynamicInfo)
    → (info.symtabsz % 24 == 0 && info.relasz % 24 == 0 && info.pltrelsz % 24 == 0) ≡ true
    → (info.symtabsz % 24 ≡ 0) × (info.relasz % 24 ≡ 0) × (info.pltrelsz % 24 ≡ 0)
aligned info h = (ground arith, ground arith, ground arith)

pub prepare_tables-Prepared :
    (bytes : List ℕ) (info : DynamicInfo) (old : ImageInfo) {image : ImageInfo}
    → prepare_tables bytes info old ≡ ok image
    → Prepared bytes info old image
unfolding prepare_tables
prepare_tables-Prepared bytes info old e =
    let size = length bytes in
    let (init, _, e1) =
      >>=-eq-ok (initializer info.init_present old.virtual_base info.init old.init) _ e in
    let (fini, _, e2) =
      >>=-eq-ok (initializer info.fini_present old.virtual_base info.fini old.fini) _ e1 in
    let (_, r1, e3) = >>=-eq-ok (dynamic_range info.strtab info.strsz size) _ e2 in
    let (_, r2, e4) = >>=-eq-ok (dynamic_range info.symtab info.symtabsz size) _ e3 in
    let (_, r3, e5) = >>=-eq-ok (dynamic_range info.rela info.relasz size) _ e4 in
    let (_, r4, e6) = >>=-eq-ok (dynamic_range info.jmprel info.pltrelsz size) _ e5 in
    let (_, r5, e7) =
      >>=-eq-ok
        (require (info.symtabsz % 24 == 0 && info.relasz % 24 == 0 && info.pltrelsz % 24 == 0)
          Error.table_unaligned)
        _ e6 in
    let whole = require-eq-ok _ _ r5 in
    let (a, b, c) = aligned info whole in
    subst (Prepared bytes info old) (ok-injective e7) (record {
      strings = in_range info.strtab info.strsz size r1;
      symbols = in_range info.symtab info.symtabsz size r2;
      relas = in_range info.rela info.relasz size r3;
      plt = in_range info.jmprel info.pltrelsz size r4;
      symbols_whole = a;
      relas_whole = b;
      plt_whole = c;
      array = refl;
      count = refl;
      pending = refl;
      pending_count = refl;
      relocations = refl;
      applied = refl;
      unresolved = refl;
    })

pub prepare_tables-ne-fault :
    (bytes : List ℕ) (info : DynamicInfo) (old : ImageInfo)
    → prepare_tables bytes info old ≢ err Error.fault
unfolding prepare_tables
prepare_tables-ne-fault bytes info old e = ground arith

-- The looked-up name and version of a symbol never come from outside the tables.
symbol_identity-ne-fault :
    (dynamic strings encoded : List ℕ) (symbol : DynamicSymbol)
    → length dynamic % 16 ≡ 0
    → symbol_identity dynamic strings encoded symbol ≢ err Error.fault
unfolding symbol_identity
symbol_identity-ne-fault dynamic strings encoded symbol whole =
    identify-ne-fault (split_hash encoded).0 (split_hash encoded).1
  where
    identify-ne-fault :
        (nid : List ℕ) (rest : List (List ℕ))
        → identify dynamic strings nid rest symbol ≢ err Error.fault
    identify-ne-fault nid [] e = unfold identify in cc e
    identify-ne-fault nid (a ∷ []) e = unfold identify in cc e
    identify-ne-fault nid (a ∷ b ∷ []) e =
        unfold identify in
        ground (
          arith,
          dynamic_identity-ne-fault dynamic strings a true whole,
          dynamic_identity-ne-fault dynamic strings b false whole,
        )
    identify-ne-fault nid (a ∷ b ∷ c ∷ ds) e = unfold identify in cc e

symbol_name-ne-fault : (strings : List ℕ) (name : ℕ) → symbol_name strings name ≢ err Error.fault
unfolding symbol_name string_at
symbol_name-ne-fault strings name e = ground arith

read_symbol-ne-fault :
    (dynamic bytes strings : List ℕ) (info : DynamicInfo) (i : ℕ)
    → length dynamic % 16 ≡ 0
    → info.symtab + i * 24 + 24 ≤ length bytes
    → read_symbol dynamic bytes strings info i ≢ err Error.fault
unfolding read_symbol
read_symbol-ne-fault dynamic bytes strings info i whole h =
    let (symbol, p) = symbol_at_in bytes (info.symtab + i * 24) h in
    >>=-ne-err (symbol_at bytes (info.symtab + i * 24)) _ Error.fault (λ q. cc)
      λ symbol.
        >>=-ne-err (symbol_name strings symbol.st_name) _ Error.fault
          (symbol_name-ne-fault strings symbol.st_name)
          λ encoded. symbol_identity-ne-fault dynamic strings encoded (symbol_of symbol) whole

-- What the symbol loop leaves alone.
pub record Filled (before after : ImageInfo) : Type 0 where
  pub array : length after.symbols ≡ length before.symbols
  pub count : after.symbol_count ≡ before.symbol_count
  pub pending : after.pending_relocations ≡ before.pending_relocations
  pub pending_count : after.pending_relocation_count ≡ before.pending_relocation_count
  pub relocations : after.relocation_count ≡ before.relocation_count
  pub applied : after.applied_relocation_count ≡ before.applied_relocation_count
  pub unresolved : after.unresolved_relocation_count ≡ before.unresolved_relocation_count

Filled-store :
    (image after : ImageInfo) (i : ℕ) (symbol : DynamicSymbol)
    → Filled (counted_symbol image i symbol) after
    → Filled image after
Filled-store image after i symbol f = record {
  array = f.array ∙ length-set image.symbols i symbol;
  count = f.count;
  pending = f.pending;
  pending_count = f.pending_count;
  relocations = f.relocations;
  applied = f.applied;
  unresolved = f.unresolved;
}

-- What the symbol loop over whole entries inside the buffer may come to.
abbrev pub Fills : ImageInfo → Result Error ImageInfo → Type 0
Fills before (ok after) = Filled before after
Fills before (err e) = e ≢ Error.fault

pub symbol_loop-Fills :
    (n : ℕ) (dynamic bytes strings : List ℕ) (info : DynamicInfo) (i : ℕ) (image : ImageInfo)
    → length dynamic % 16 ≡ 0
    → info.symtab + (i + n) * 24 ≤ length bytes
    → i + n ≤ length image.symbols
    → Fills image (symbol_loop n dynamic bytes strings info i image)
unfolding symbol_loop
symbol_loop-Fills zero dynamic bytes strings info i image whole h room = record {
  array = refl;
  count = refl;
  pending = refl;
  pending_count = refl;
  relocations = refl;
  applied = refl;
  unresolved = refl;
}
symbol_loop-Fills (suc n) dynamic bytes strings info i image whole h room =
    go (read_symbol dynamic bytes strings info i)
      (read_symbol-ne-fault dynamic bytes strings info i whole (omega arith))
      (λ symbol.
        symbol_loop-Fills n dynamic bytes strings info (i + 1) (counted_symbol image i symbol) whole
          (omega arith) (omega (arith, length-set image.symbols i symbol)))
  where
    next : DynamicSymbol → Result Error ImageInfo
    next symbol = symbol_loop n dynamic bytes strings info (i + 1) (counted_symbol image i symbol)

    round : DynamicSymbol → Result Error ImageInfo
    round symbol = store_symbol image i symbol >>= λ after.
        symbol_loop n dynamic bytes strings info (i + 1) after

    round_at : (symbol : DynamicSymbol) → round symbol ≡ next symbol
    round_at symbol = let fits : ltb i (length image.symbols) ≡ true = ground arith in rw fits refl

    stored :
        (symbol : DynamicSymbol) (r : Result Error ImageInfo)
        → Fills (counted_symbol image i symbol) r
        → Fills image r
    stored symbol (ok after) f = Filled-store image after i symbol f
    stored symbol (err e) f = f

    go :
        (r : Result Error DynamicSymbol)
        → r ≢ err Error.fault
        → ((symbol : DynamicSymbol) → Fills (counted_symbol image i symbol) (next symbol))
        → Fills image (r >>= round)
    go (err e) ne k = λ x. ne (ap err x)
    go (ok symbol) ne k =
        subst (Fills image) (sym (round_at symbol)) (stored symbol (next symbol) (k symbol))
