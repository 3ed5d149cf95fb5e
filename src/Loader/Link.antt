-- ===== src/Loader/Link.antt =====
-- shadps4_symbols_match, shadps4_prefer_hle_heap_provider, shadps4_link_modules and
-- shadps4_image_cleanup: the linker. Link tracing, which only logs, is left out.
pub mod Providers
pub mod Counters
pub mod Safety
pub mod Runs
use qemu_dll_shadps.Base.{
  ℕ, zero, suc, ◌+◌, ◌-◌, Bool, true, false, not, ◌&&◌, ◌||◌, Option, none, some, List, [], ◌∷◌,
  leb, ltb, ◌==◌, if◌then◌else◌, length, get_elem?, set, codes, str_eq, le_bytes, Result, ok, err,
  Outcome, done, fail, and_then,
}
use qemu_dll_shadps.Loader.Types.{Error, DynamicSymbol, ImageInfo, PendingRelocation, inc32, dec32}
use qemu_dll_shadps.Loader.Range.{add_valid, add_signed_valid}
use qemu_dll_shadps.Loader.Memory.{AddressSpace}
use qemu_dll_shadps.Loader.Relocate.{r_x86_64_64}

-- `a && b && !strcmp(a, b)`.
abbrev pub same_name : Option (List ℕ) → Option (List ℕ) → Bool
same_name none b = false
same_name (some a) none = false
same_name (some a) (some b) = str_eq a b

abbrev bool_eq : Bool → Bool → Bool
bool_eq true b = b
bool_eq false b = not b

unfoldable pub symbols_match : DynamicSymbol → DynamicSymbol → Bool
symbols_match import export =
    not import.defined
    && (export.defined
        && (import.type == export.type
            && (import.library_version == export.library_version
                && (same_name import.nid export.nid
                    && (same_name import.library export.library
                        && same_name import.module_name export.module_name)))))

-- `!g_strcmp0(s, literal)`: a null string differs from every literal.
abbrev pub is_text : Option (List ℕ) → List ℕ → Bool
is_text none t = false
is_text (some s) t = str_eq s t

abbrev pub heap_nids : List (List ℕ)
heap_nids =
    codes "gQX+4GDQjpM"
    ∷ codes "tIhsqj0qsFE"
    ∷ codes "2X5agFjKxMc"
    ∷ codes "Y7aJ1uydPMo"
    ∷ codes "Ujf3KzMvRmI"
    ∷ codes "cVSk9y8URbc"
    ∷ codes "NDcSfcYZRC8"
    ∷ []

unfoldable pub is_listed : Option (List ℕ) → List (List ℕ) → Bool
is_listed nid [] = false
is_listed nid (n ∷ ns) = is_text nid n || is_listed nid ns

unfoldable pub prefer_hle_heap_provider : ImageInfo → DynamicSymbol → Bool
prefer_hle_heap_provider consumer import =
    is_text consumer.name (codes "ps2-emu-compiler.self")
    && ((is_text import.module_name (codes "libc")
          || is_text import.module_name (codes "libSceLibcInternal"))
        && is_listed import.nid heap_nids)

-- The loop over a provider's symbols, with `n` of them left: the first match whose address does not
-- overflow.
unfoldable pub symbol_scan : DynamicSymbol → ℕ → ℕ → List DynamicSymbol → Result Error (Option ℕ)
symbol_scan import base zero symbols = ok none
symbol_scan import base (suc n) [] = err Error.fault
symbol_scan import base (suc n) (export ∷ rest) =
    let later = symbol_scan import base n rest in
    if symbols_match import export
    then elim (add_valid base export.value) [ none ↦ later | some value ↦ ok (some value) ]
    else later

abbrev pub scan_image : DynamicSymbol → ImageInfo → Result Error (Option ℕ)
scan_image import provider =
    symbol_scan import provider.virtual_base provider.symbol_count provider.symbols

-- A value that was found ends the search.
abbrev pub or_else : Result Error (Option ℕ) → Result Error (Option ℕ) → Result Error (Option ℕ)
or_else (err e) next = err e
or_else (ok none) next = next
or_else (ok (some value)) next = ok (some value)

abbrev pub provider_index : Bool → ℕ → ℕ → ℕ
provider_index prefer_hle image_count order =
    if prefer_hle then (if order == 0 then image_count - 1 else order - 1) else order

-- The loop over the providers, with `n` rounds left.
unfoldable pub provider_loop :
    ℕ → Bool → DynamicSymbol → List ImageInfo → ℕ → Result Error (Option ℕ)
provider_loop zero prefer_hle import images order = ok none
provider_loop (suc n) prefer_hle import images order =
    let rest = provider_loop n prefer_hle import images (order + 1) in
    elim (get_elem? images (provider_index prefer_hle (length images) order)) [
      | none ↦ err Error.fault
      | some provider ↦ or_else (scan_image import provider) rest
    ]

-- The value that a pending relocation is to get: `none` leaves it pending.
unfoldable pub resolve : ImageInfo → DynamicSymbol → Bool → List ImageInfo → Result Error (Option ℕ)
resolve image import weak images =
    or_else (provider_loop (length images) (prefer_hle_heap_provider image import) import images 0)
      (ok (if weak then some 0 else none))

abbrev pub with_addend : PendingRelocation → ℕ → Option ℕ
with_addend relocation value =
    if relocation.type == r_x86_64_64 then add_signed_valid value relocation.addend else some value

-- What the linker changes: guest memory and the images.
pub record LinkState (M : Type 0) : Type 0 where
  pub memory : M
  pub images : List ImageInfo

-- The image once its pending relocation `r` is applied.
abbrev pub mark_applied : ImageInfo → ℕ → PendingRelocation → ImageInfo
mark_applied image r relocation = record image {
  pending_relocations = set image.pending_relocations r (record relocation { applied = true });
  applied_relocation_count = inc32 image.applied_relocation_count;
  unresolved_relocation_count = dec32 image.unresolved_relocation_count;
}

module _ {M : Type 0} (as' : AddressSpace M) where
  -- The write at the end of a round.
  unfoldable pub commit :
      ℕ
      → ℕ
      → ImageInfo
      → PendingRelocation
      → ℕ
      → LinkState M
      → Outcome Error (LinkState M) (Unit {0})
  commit i r image relocation value s =
      let (stored, memory) = as'.write s.memory relocation.physical_addr (le_bytes 8 value) in
      if stored
      then done tt
          (record { memory = memory; images = set s.images i (mark_applied image r relocation) })
      else fail Error.linked_write (record s { memory = memory })

  -- One round, for the relocation `r` of the image `i`.
  unfoldable pub link_relocation :
      ℕ → ℕ → ImageInfo → PendingRelocation → LinkState M → Outcome Error (LinkState M) (Unit {0})
  link_relocation i r image relocation s =
      if relocation.applied
      then done tt s
      else if leb image.symbol_count relocation.symbol_index
      then fail Error.pending_symbol s
      else elim (get_elem? image.symbols relocation.symbol_index) [
        | none ↦ fail Error.fault s
        | some import ↦ elim (resolve image import relocation.weak s.images) [
          | err e ↦ fail e s
          | ok found ↦ elim found [
            | none ↦ done tt s
            | some value ↦ elim (with_addend relocation value) [
              | none ↦ fail Error.linked_overflow s
              | some linked ↦ commit i r image relocation linked s
            ]
          ]
        ]
      ]

  unfoldable pub link_at : ℕ → ℕ → LinkState M → Outcome Error (LinkState M) (Unit {0})
  link_at i r s = elim (get_elem? s.images i) [
    | none ↦ fail Error.fault s
    | some image ↦ elim (get_elem? image.pending_relocations r) [
      | none ↦ fail Error.fault s
      | some relocation ↦ link_relocation i r image relocation s
    ]
  ]

  -- The loop over the pending relocations of the image `i`, with `n` of them left.
  unfoldable pub relocation_loop : ℕ → ℕ → ℕ → LinkState M → Outcome Error (LinkState M) (Unit {0})
  relocation_loop zero i r s = done tt s
  relocation_loop (suc n) i r s = and_then (link_at i r s) (λ _ s'. relocation_loop n i (r + 1) s')

  unfoldable pub image_loop : ℕ → ℕ → LinkState M → Outcome Error (LinkState M) (Unit {0})
  image_loop zero i s = done tt s
  image_loop (suc n) i s = elim (get_elem? s.images i) [
    | none ↦ fail Error.fault s
    | some image ↦
        and_then (relocation_loop image.pending_relocation_count i 0 s)
          (λ _ s'. image_loop n (i + 1) s')
  ]

  unfoldable pub link_modules : LinkState M → Outcome Error (LinkState M) (Unit {0})
  link_modules s = image_loop (length s.images) 0 s

unfoldable pub image_cleanup : ImageInfo → ImageInfo
image_cleanup info = record info {
  name = none;
  symbols = [];
  pending_relocations = [];
  symbol_count = 0;
  pending_relocation_count = 0;
}
