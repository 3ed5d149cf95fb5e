-- ===== src/Loader/Link/Safety.antt =====
-- The search of shadps4_link_modules for a symbol stays inside the images and their symbols.
use qemu_dll_shadps.Base.{
  ℕ, zero, suc, ◌+◌, ◌≤◌, ◌<◌, ◌≢◌, inl, inr, Bool, true, false, Option, none, some, List, [], ◌∷◌,
  length, get_elem?_in, All, All-get_elem?, Bool-cases, Option-cases, Result, ok, err, arith,
}
use qemu_dll_shadps.Loader.Types.{Error, DynamicSymbol, ImageInfo}
use qemu_dll_shadps.Loader.Range.{add_valid}
use qemu_dll_shadps.Loader.Link.{
  symbols_match, symbol_scan, scan_image, or_else, provider_index, provider_loop,
  prefer_hle_heap_provider, resolve,
}
use qemu_dll_shadps.Loader.Link.Counters.{Linkable}

or_else-ne-fault :
    (a b : Result Error (Option ℕ))
    → a ≢ err Error.fault
    → b ≢ err Error.fault
    → or_else a b ≢ err Error.fault
or_else-ne-fault (err e) b f g = f
or_else-ne-fault (ok none) b f g = g
or_else-ne-fault (ok (some v)) b f g = λ e. cc

symbol_scan-ne-fault :
    (import : DynamicSymbol) (base n : ℕ) (symbols : List DynamicSymbol)
    → n ≤ length symbols
    → symbol_scan import base n symbols ≢ err Error.fault
unfolding symbol_scan
symbol_scan-ne-fault import base zero symbols h e = cc e
symbol_scan-ne-fault import base (suc n) [] h e = absurd (omega arith)
symbol_scan-ne-fault import base (suc n) (export ∷ rest) h e =
    let later = symbol_scan-ne-fault import base n rest (omega arith) in
    elim (Bool-cases (symbols_match import export)) [
      | inr differs ↦ later (rw (differs, symbol_scan) at e)
      | inl same ↦ elim (Option-cases (add_valid base export.value)) [
        | inl over ↦ later (rw (same, over, symbol_scan) at e)
        | inr (v, p) ↦ cc (rw (same, p, symbol_scan) at e)
      ]
    ]

provider_index-lt :
    (prefer : Bool) (count order : ℕ) → order < count → provider_index prefer count order < count
provider_index-lt true count order h = ground arith
provider_index-lt false count order h = h

provider_loop-ne-fault :
    (n : ℕ) (prefer : Bool) (import : DynamicSymbol) (images : List ImageInfo) (order : ℕ)
    → All Linkable images
    → order + n ≤ length images
    → provider_loop n prefer import images order ≢ err Error.fault
unfolding provider_loop
provider_loop-ne-fault zero prefer import images order k h e = cc e
provider_loop-ne-fault (suc n) prefer import images order k h e =
    let (provider, g) =
      get_elem?_in images (provider_index prefer (length images) order)
        (provider_index-lt prefer (length images) order (omega arith)) in
    let linkable = All-get_elem? Linkable images _ k g in
    or_else-ne-fault (scan_image import provider) (provider_loop n prefer import images (order + 1))
      (symbol_scan-ne-fault import provider.virtual_base provider.symbol_count provider.symbols
        (omega (arith, linkable.symbols)))
      (provider_loop-ne-fault n prefer import images (order + 1) k (omega arith))
      (rw (g, provider_loop) at e)

-- Resolving a symbol among linkable images reads no image and no symbol outside their arrays.
pub resolve-ne-fault :
    (image : ImageInfo) (import : DynamicSymbol) (weak : Bool) (images : List ImageInfo)
    → All Linkable images
    → resolve image import weak images ≢ err Error.fault
unfolding resolve
resolve-ne-fault image import weak images k =
    or_else-ne-fault
      (provider_loop (length images) (prefer_hle_heap_provider image import) import images 0) _
      (provider_loop-ne-fault (length images) (prefer_hle_heap_provider image import) import images
        0 k (omega arith))
      (λ e. cc)
