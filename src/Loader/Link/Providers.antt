-- ===== src/Loader/Link/Providers.antt =====
-- In which order the linker asks the images for a symbol, and what it takes from them.
use qemu_dll_shadps.Base.{
  ℕ, suc, ◌+◌, ◌-◌, ◌^◌, ◌<◌, ◌≡◌, refl, sym, ap, subst, ◌∙◌, inl, inr, Bool, true, false, Option,
  none, some, ◌⊎◌, zero, All-get_elem?, List, [], ◌∷◌, ◌++◌, append-nil, append_assoc, All,
  str_eq_iff, if◌then◌else◌, Result, ok, err, length, length-append, get_elem?, get_elem?-append,
  Bool-cases, Option-cases, arith,
}
use qemu_dll_shadps.Loader.Types.{Error, DynamicSymbol, ImageInfo}
use qemu_dll_shadps.Loader.Range.{add_valid, add_valid-eq-some}
use qemu_dll_shadps.Loader.Link.{
  same_name, symbols_match, symbol_scan, scan_image, or_else, provider_index, provider_loop,
  prefer_hle_heap_provider, resolve,
}

-- The first image of a list that offers the symbol.
pub first_provider : DynamicSymbol → List ImageInfo → Result Error (Option ℕ)
first_provider import [] = ok none
first_provider import (image ∷ rest) =
    or_else (scan_image import image) (first_provider import rest)

-- One round of the loop.
provider_loop_at :
    (n : ℕ) (prefer : Bool) (import : DynamicSymbol) (images : List ImageInfo) (order : ℕ)
    (image : ImageInfo)
    → get_elem? images (provider_index prefer (length images) order) ≡ some image
    → provider_loop (suc n) prefer import images order
      ≡ or_else (scan_image import image) (provider_loop n prefer import images (order + 1))
unfolding provider_loop
provider_loop_at n prefer import images order image e = rw (e, provider_loop)

-- From the image at `length front` on, the rounds go through `back`, if each order `k + shift`
-- stands for the image `k`.
provider_loop_from :
    (prefer : Bool) (shift : ℕ) (import : DynamicSymbol) (front back tail images : List ImageInfo)
    → images ≡ front ++ (back ++ tail)
    → ((k : ℕ) → provider_index prefer (length images) (k + shift) ≡ k)
    → provider_loop (length back) prefer import images (length front + shift)
      ≡ first_provider import back
unfolding provider_loop first_provider
provider_loop_from prefer shift import front [] tail images e h = refl
provider_loop_from prefer shift import front (image ∷ back) tail images e h =
    provider_loop_at (length back) prefer import images (length front + shift) image here
    ∙ ap (or_else (scan_image import image)) (
        ap (provider_loop (length back) prefer import images) order
        ∙ provider_loop_from prefer shift import (front ++ image ∷ []) back tail images
            (e ∙ sym (append_assoc front (image ∷ []) (back ++ tail))) h)
  where
    here :
        get_elem? images (provider_index prefer (length images) (length front + shift)) ≡ some image
    here = rw (h (length front)) (
        subst (λ l. get_elem? l (length front) ≡ some image) (sym e)
          (get_elem?-append front (back ++ tail) image))

    order : length front + shift + 1 ≡ length (front ++ image ∷ []) + shift
    order = omega (arith, length-append front (image ∷ []))

-- Without the preference for the HLE the linker takes the first image, in load order, that offers the symbol.
pub provider_loop_in_order :
    (import : DynamicSymbol) (images : List ImageInfo)
    → provider_loop (length images) false import images 0 ≡ first_provider import images
provider_loop_in_order import images =
    provider_loop_from false 0 import [] images [] images (sym (append-nil images))
      (λ k. omega arith)

-- With the preference the last image, which is the HLE's, is asked before the others, and these
-- are asked in load order: each image once, none twice.
pub provider_loop_hle_first :
    (import : DynamicSymbol) (images : List ImageInfo) (hle : ImageInfo)
    → provider_loop (length (images ++ hle ∷ [])) true import (images ++ hle ∷ []) 0
      ≡ first_provider import (hle ∷ images)
unfolding first_provider
provider_loop_hle_first import images hle =
    ap (λ n. provider_loop n true import (images ++ hle ∷ []) 0) count
    ∙ provider_loop_at (length images) true import (images ++ hle ∷ []) 0 hle last
    ∙ ap (or_else (scan_image import hle)) (
        provider_loop_from true 1 import [] images (hle ∷ []) (images ++ hle ∷ []) refl
          (λ k. ground arith))
  where
    count : length (images ++ hle ∷ []) ≡ suc (length images)
    count = omega (arith, length-append images (hle ∷ []))

    last :
        get_elem? (images ++ hle ∷ []) (provider_index true (length (images ++ hle ∷ [])) 0)
        ≡ some hle
    last =
        let e : length (images ++ hle ∷ []) - 1 ≡ length images = omega (arith, count) in
        rw e (get_elem?-append images [] hle)

-- Both names are there, and the same.
abbrev pub SameName : Option (List ℕ) → Option (List ℕ) → Type 0
SameName a b = (n : List ℕ) × (a ≡ some n) × (b ≡ some n)

-- An import and the export that it may be linked to.
pub record Matches (import export : DynamicSymbol) : Type 0 where
  pub imported : import.defined ≡ false
  pub exported : export.defined ≡ true
  pub same_type : import.type ≡ export.type
  pub same_version : import.library_version ≡ export.library_version
  pub same_nid : SameName import.nid export.nid
  pub same_library : SameName import.library export.library
  pub same_module : SameName import.module_name export.module_name

same_name-SameName : (a b : Option (List ℕ)) → same_name a b ≡ true → SameName a b
same_name-SameName none b e = cc
same_name-SameName (some a) none e = cc
same_name-SameName (some a) (some b) e = (a, refl, ap some (sym ((str_eq_iff a b).0 e)))

symbols_match-Matches :
    (import export : DynamicSymbol) → symbols_match import export ≡ true → Matches import export
unfolding symbols_match
symbols_match-Matches import export e = record {
  imported = ground arith;
  exported = ground arith;
  same_type = ground arith;
  same_version = ground arith;
  same_nid = same_name-SameName import.nid export.nid (ground arith);
  same_library = same_name-SameName import.library export.library (ground arith);
  same_module = same_name-SameName import.module_name export.module_name (ground arith);
}

-- What a value taken from a list of images is: the image's base plus the value of a symbol that
-- the image exports and that matches, with no overflow.
pub record IsExport (import : DynamicSymbol) (images : List ImageInfo) (value : ℕ) : Type 0 where
  pub place : ℕ
  pub provider : ImageInfo
  pub listed : get_elem? images place ≡ some provider
  pub index : ℕ
  pub counted : index < provider.symbol_count
  pub export : DynamicSymbol
  pub held : get_elem? provider.symbols index ≡ some export
  pub matches : Matches import export
  pub sum : value ≡ provider.virtual_base + export.value
  pub small : value < 2 ^ 64

-- A value that is the base plus that of a matching symbol, one of the first `n`.
abbrev Scanned : DynamicSymbol → ℕ → ℕ → List DynamicSymbol → ℕ → Type 0
Scanned import base n symbols value =
    (index : ℕ) × (export : DynamicSymbol) × (index < n)
    × (get_elem? symbols index ≡ some export)
    × Matches import export
    × (value ≡ base + export.value)
    × (value < 2 ^ 64)

Scanned-later :
    (import : DynamicSymbol) (base n : ℕ) (export : DynamicSymbol) (rest : List DynamicSymbol)
    (value : ℕ)
    → Scanned import base n rest value
    → Scanned import base (suc n) (export ∷ rest) value
Scanned-later import base n export rest value (index, x, a, b, c, d, f) =
    (suc index, x, omega arith, b, c, d, f)

symbol_scan_lem :
    (import : DynamicSymbol) (base n : ℕ) (symbols : List DynamicSymbol) {value : ℕ}
    → base < 2 ^ 64
    → symbol_scan import base n symbols ≡ ok (some value)
    → Scanned import base n symbols value
unfolding symbol_scan
symbol_scan_lem import base zero symbols small e = cc e
symbol_scan_lem import base (suc n) [] small e = cc e
symbol_scan_lem import base (suc n) (export ∷ rest) {value} small e =
    let later = λ (p : symbol_scan import base n rest ≡ ok (some value)).
      Scanned-later import base n export rest value (symbol_scan_lem import base n rest small p) in
    elim (Bool-cases (symbols_match import export)) [
      | inr differs ↦ later (rw (differs, symbol_scan) at e)
      | inl same ↦ elim (Option-cases (add_valid base export.value)) [
        | inl over ↦ later (rw (same, over, symbol_scan) at e)
        | inr (v, p) ↦
            let here : v ≡ value = cc (rw (same, p, symbol_scan) at e) in
            let (sum, fits) = add_valid-eq-some base export.value small p in
            (
              0,
              export,
              omega arith,
              refl,
              symbols_match-Matches import export same,
              sym here ∙ sum,
              rw (← here) fits,
            )
      ]
    ]

or_else-cases :
    (a b : Result Error (Option ℕ)) {value : ℕ}
    → or_else a b ≡ ok (some value)
    → (a ≡ ok (some value)) ⊎ (b ≡ ok (some value))
or_else-cases (err x) b e = cc
or_else-cases (ok none) b e = inr e
or_else-cases (ok (some v)) b e = inl e

-- The value that the search takes from the images is the address of a matching export of one.
provider_loop-IsExport :
    (n : ℕ) (prefer : Bool) (import : DynamicSymbol) (images : List ImageInfo) (order : ℕ)
    {value : ℕ}
    → All (λ (image : ImageInfo). image.virtual_base < 2 ^ 64) images
    → provider_loop n prefer import images order ≡ ok (some value)
    → IsExport import images value
unfolding provider_loop
provider_loop-IsExport zero prefer import images order small e = cc e
provider_loop-IsExport (suc n) prefer import images order {value} small e =
    let at = provider_index prefer (length images) order in
    elim (Option-cases (get_elem? images at)) [
      | inl out ↦ cc (rw (out, provider_loop) at e)
      | inr (image, g) ↦
          elim (or_else-cases (scan_image import image)
            (provider_loop n prefer import images (order + 1)) (rw (g, provider_loop) at e)) [
              | inr rest ↦ provider_loop-IsExport n prefer import images (order + 1) small rest
              | inl here ↦
                  let (index, export, a, b, c, d, f) =
                    symbol_scan_lem import image.virtual_base image.symbol_count image.symbols
                      (All-get_elem? (λ (x : ImageInfo). x.virtual_base < 2 ^ 64) images at small g)
                      here in
                  record {
                    place = at;
                    provider = image;
                    listed = g;
                    index = index;
                    counted = a;
                    export = export;
                    held = b;
                    matches = c;
                    sum = d;
                    small = f;
                  }
            ]
    ]

-- Let the images' bases be 64-bit numbers. A symbol that the linker resolves gets, base plus value
-- with no overflow, the address of a symbol among those that an image counts: one that is defined
-- where the import is not, and that has the import's type, library version, NID, library and module
-- names. Or, if it is weak, it gets 0.
pub resolve_lem :
    (image : ImageInfo) (import : DynamicSymbol) (weak : Bool) (images : List ImageInfo) {value : ℕ}
    → All (λ (x : ImageInfo). x.virtual_base < 2 ^ 64) images
    → resolve image import weak images ≡ ok (some value)
    → IsExport import images value ⊎ ((weak ≡ true) × (value ≡ 0))
unfolding resolve
resolve_lem image import weak images {value} small e =
    let prefer = prefer_hle_heap_provider image import in
    elim (or_else-cases (provider_loop (length images) prefer import images 0)
      (ok (if weak then some 0 else none)) e) [
        | inl here ↦ inl (provider_loop-IsExport (length images) prefer import images 0 small here)
        | inr other ↦ inr (ground arith)
      ]
