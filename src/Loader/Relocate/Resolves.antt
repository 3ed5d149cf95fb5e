-- ===== src/Loader/Relocate/Resolves.antt =====
-- The value of a relocation (the switch of shadps4_apply_relocations), described on its own.
use qemu_dll_shadps.Base.{
  ℕ, ◌+◌, ◌*◌, ◌/◌, ◌^◌, ◌<◌, ◌≡◌, ◌≢◌, refl, ap, ◌∙◌, ◌⊎◌, inl, inr, Bool, true, ◌||◌, some, List,
  ltb, ◌==◌, if◌then◌else◌, le_at, Bool-cases, Option-cases, >>=-eq-ok, require, require-eq-ok,
  or_err, Result, ok, ◌>>=◌, arith,
}
use qemu_dll_shadps.Loader.Types.{Error, DynamicInfo, ImageInfo}
use qemu_dll_shadps.Loader.Range.{
  add_valid, add_signed_valid, add_valid-eq-some, add_signed_valid_exact, IsSum,
}
use qemu_dll_shadps.Loader.Relocate.{
  Rela, r_type, r_sym, ElfSymbol, symbol_at, Resolution, symbol_value, relocation_value,
}

-- The relocation has one of the types that name a symbol, which is inside the table.
pub record NamesSymbol (dynamic : DynamicInfo) (rela : Rela) : Type 0 where
  pub types : (r_type rela ≡ 1) ⊎ ((r_type rela ≡ 6) ⊎ (r_type rela ≡ 7))
  pub inside : r_sym rela < dynamic.symtabsz / 24

-- The place of the relocation's symbol in the dynamic data.
abbrev pub symbol_place : DynamicInfo → Rela → ℕ
symbol_place dynamic rela = dynamic.symtab + r_sym rela * 24

-- What the value of a relocation is: R_X86_64_RELATIVE, DTPMOD64, then GLOB_DAT and JUMP_SLOT, and at
-- last R_X86_64_64; the sums are of integers and fit 64 bits.
pub data IsValue (bytes : List ℕ) (dynamic : DynamicInfo) (image : ImageInfo) (rela : Rela) (v : ℕ)
    : Type 0 where
  of_relative :
      r_type rela ≡ 8
      → IsSum image.virtual_base rela.r_addend v × (v < 2 ^ 64)
      → IsValue bytes dynamic image rela v
  tls_module : r_type rela ≡ 16 → v ≡ image.tls_module_id → IsValue bytes dynamic image rela v
  of_symbol :
      (st_value : ℕ)
      → NamesSymbol dynamic rela
      → r_type rela ≢ 1
      → le_at 8 bytes (symbol_place dynamic rela + 8) ≡ some st_value
      → (v ≡ image.virtual_base + st_value) × (v < 2 ^ 64)
      → IsValue bytes dynamic image rela v
  of_absolute :
      (st_value : ℕ)
      → r_type rela ≡ 1
      → r_sym rela < dynamic.symtabsz / 24
      → le_at 8 bytes (symbol_place dynamic rela + 8) ≡ some st_value
      → IsSum (image.virtual_base + st_value) rela.r_addend v × (v < 2 ^ 64)
      → IsValue bytes dynamic image rela v

-- The relocation names a symbol that the module does not define; it is weak if the binding is.
pub record IsImported (bytes : List ℕ) (dynamic : DynamicInfo) (rela : Rela) (weak : Bool)
    : Type 0 where
  pub names : NamesSymbol dynamic rela
  pub undefined : le_at 2 bytes (symbol_place dynamic rela + 6) ≡ some 0
  pub info : ℕ
  pub reads : le_at 1 bytes (symbol_place dynamic rela + 4) ≡ some info
  pub binding : weak ≡ (info / 16 == 2)

-- What a resolution says of its relocation.
abbrev pub Resolves : List ℕ → DynamicInfo → ImageInfo → Rela → Resolution → Type 0
Resolves bytes dynamic image rela (Resolution.value v) = IsValue bytes dynamic image rela v
Resolves bytes dynamic image rela (Resolution.postpone weak) = IsImported bytes dynamic rela weak

symbol_at-fields :
    (bytes : List ℕ) (offset : ℕ) {symbol : ElfSymbol}
    → symbol_at bytes offset ≡ ok symbol
    → (le_at 1 bytes (offset + 4) ≡ some symbol.st_info)
      × (le_at 2 bytes (offset + 6) ≡ some symbol.st_shndx)
      × (le_at 8 bytes (offset + 8) ≡ some symbol.st_value)
unfolding symbol_at
symbol_at-fields bytes offset e = (ground arith, ground arith, ground arith)

symbol_value-Resolves :
    (bytes : List ℕ) (dynamic : DynamicInfo) (image : ImageInfo) (rela : Rela) (r : Resolution)
    → image.virtual_base < 2 ^ 64
    → (r_type rela ≡ 1) ⊎ ((r_type rela ≡ 6) ⊎ (r_type rela ≡ 7))
    → symbol_value bytes dynamic image rela ≡ ok r
    → Resolves bytes dynamic image rela r
unfolding symbol_value
symbol_value-Resolves bytes dynamic image rela r small types e =
    let (_, e1, f1) =
      >>=-eq-ok (require (ltb (r_sym rela) (dynamic.symtabsz / 24)) Error.symbol_out_of_range) _
        e in
    let inside : r_sym rela < dynamic.symtabsz / 24 =
      (let b = require-eq-ok (ltb (r_sym rela) (dynamic.symtabsz / 24)) _ e1 in ground arith) in
    let (s, e2, f2) = >>=-eq-ok (symbol_at bytes (symbol_place dynamic rela)) _ f1 in
    let fields = symbol_at-fields bytes (symbol_place dynamic rela) e2 in
    found s fields (record { types = types; inside = inside }) f2
  where
    defined_at : ElfSymbol → Result Error Resolution
    defined_at s = or_err (add_valid image.virtual_base s.st_value) Error.symbol_overflow >>= λ v.
        if r_type rela == 1
        then (or_err (add_signed_valid v rela.r_addend) Error.absolute_overflow >>= λ w.
            ok (Resolution.value w))
        else ok (Resolution.value v)

    found :
        (s : ElfSymbol)
        → (le_at 1 bytes (symbol_place dynamic rela + 4) ≡ some s.st_info)
          × (le_at 2 bytes (symbol_place dynamic rela + 6) ≡ some s.st_shndx)
          × (le_at 8 bytes (symbol_place dynamic rela + 8) ≡ some s.st_value)
        → NamesSymbol dynamic rela
        → (if s.st_shndx == 0 then ok (Resolution.postpone (s.st_info / 16 == 2)) else defined_at s)
          ≡ ok r
        → Resolves bytes dynamic image rela r
    found s (info, shndx, value) names e = elim (Bool-cases (s.st_shndx == 0)) [
      | inl undefined ↦
          let same : Resolution.postpone (s.st_info / 16 == 2) ≡ r = cc (rw undefined at e) in
          let zero' : s.st_shndx ≡ 0 = ground arith in
          rw (← same) (record {
            names = names;
            undefined = shndx ∙ ap some zero';
            info = s.st_info;
            reads = info;
            binding = refl;
          })
      | inr defined ↦ elim (Option-cases (add_valid image.virtual_base s.st_value)) [
        | inl over ↦ cc (rw (defined, over) at e)
        | inr (v, p) ↦
            let sum = add_valid-eq-some image.virtual_base s.st_value small p in
            elim (Bool-cases (r_type rela == 1)) [
              | inr other ↦
                  let same : Resolution.value v ≡ r = cc (rw (defined, p, other) at e) in
                  rw (← same)
                    (IsValue.of_symbol s.st_value names (λ z. ground (arith, other, z)) value sum)
              | inl absolute ↦ elim (Option-cases (add_signed_valid v rela.r_addend)) [
                | inl over ↦ cc (rw (defined, p, absolute, over) at e)
                | inr (w, q) ↦
                    let same : Resolution.value w ≡ r = cc (rw (defined, p, absolute, q) at e) in
                    let exact = ((add_signed_valid_exact v rela.r_addend w sum.1).0.0 q) in
                    rw (← same) (
                      IsValue.of_absolute s.st_value (ground (arith, absolute)) names.inside value
                        (rw (← sum.0) exact))
              ]
            ]
      ]
    ]

pub relocation_value-Resolves :
    (bytes : List ℕ) (dynamic : DynamicInfo) (image : ImageInfo) (rela : Rela) (r : Resolution)
    → image.virtual_base < 2 ^ 64
    → relocation_value bytes dynamic image rela ≡ ok r
    → Resolves bytes dynamic image rela r
unfolding relocation_value
relocation_value-Resolves bytes dynamic image rela r small e =
    elim (Bool-cases (r_type rela == 8)) [
      | inl relative ↦ elim (Option-cases (add_signed_valid image.virtual_base rela.r_addend)) [
        | inl over ↦ cc (rw (relative, over) at e)
        | inr (v, p) ↦
            let same : Resolution.value v ≡ r = cc (rw (relative, p) at e) in
            let exact = (add_signed_valid_exact image.virtual_base rela.r_addend v small).0.0 p in
            rw (← same) (IsValue.of_relative (ground (arith, relative)) exact)
      ]
      | inr a ↦ elim (Bool-cases (r_type rela == 16)) [
        | inl module_id ↦
            let same : Resolution.value image.tls_module_id ≡ r = cc (rw (a, module_id) at e) in
            rw (← same) (IsValue.tls_module (ground (arith, module_id)) refl)
        | inr b ↦ elim (Bool-cases (r_type rela == 1 || r_type rela == 6 || r_type rela == 7)) [
          | inr none_of ↦ cc (rw (a, b, none_of) at e)
          | inl one_of ↦
              symbol_value-Resolves bytes dynamic image rela r small (types (r_type rela) one_of)
                (rw (a, b, one_of) at e)
        ]
      ]
    ]
  where
    types : (t : ℕ) → (t == 1 || t == 6 || t == 7) ≡ true → (t ≡ 1) ⊎ ((t ≡ 6) ⊎ (t ≡ 7))
    types t h = elim (Bool-cases (t == 1)) [
      | inl x ↦ inl (ground arith)
      | inr y ↦ elim (Bool-cases (t == 6)) [
        | inl x ↦ inr (inl (ground arith))
        | inr z ↦ inr (inr (ground arith))
      ]
    ]
