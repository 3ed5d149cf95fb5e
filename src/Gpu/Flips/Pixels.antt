-- ===== src/Gpu/Flips/Pixels.antt =====
-- The pixels of a frame, one by one and row by row.
use qemu_dll_shadps.Base.{
  ℕ, zero, suc, ◌+◌, ◌-◌, ◌*◌, ◌/◌, ◌%◌, ◌^◌, ◌≤◌, ◌<◌, ◌≡◌, refl, ap, ◌∙◌, inl, inr, true, false,
  ◌||◌, some, List, [], ◌∷◌, ◌++◌, ltb, ◌==◌, length, length-append, length-take, length-drop,
  get_elem?, get_elem?-append_left, get_elem?-append_right, take, drop, Bool-cases, arith,
}
use native.Mathlib.Nat.{mul-le-mul_right, le-div_iff_mul-le}
use qemu_dll_shadps.Gpu.Tiling.{display_tiled_offset}
use qemu_dll_shadps.Gpu.Tiling.Bounds.{display_tiled_offset-le}
use qemu_dll_shadps.Gpu.Flips.{
  Flip, max_frame_size, convert_pixel, source_height, source_size, source_offset, pixel_at,
  append_some, convert_row, convert_rows, bad_flip,
}

convert_pixel-some :
    (bs : List ℕ) (format : ℕ)
    → length bs ≡ 4
    → (p : List ℕ) × (convert_pixel bs format ≡ some p) × (length p ≡ 4)
unfolding convert_pixel
convert_pixel-some [] format h = absurd (omega arith)
convert_pixel-some (a ∷ []) format h = absurd (omega arith)
convert_pixel-some (a ∷ b ∷ []) format h = absurd (omega arith)
convert_pixel-some (a ∷ b ∷ c ∷ []) format h = absurd (omega arith)
convert_pixel-some (a ∷ b ∷ c ∷ d ∷ rest) format h =
    elim (Bool-cases (format == 2 || format == 3)) [
      | inl swap ↦ rw (swap) (_, refl, refl)
      | inr keep ↦ rw (keep) (_, refl, refl)
    ]

-- What `bad_flip` leaves of a flip.
pub record IsShown (flip : Flip) : Type 0 where
  width : flip.width ≤ 4096
  stride : flip.width * 4 ≤ flip.stride
  some_stride : 0 < flip.stride
  size : flip.stride * source_height flip ≤ max_frame_size
  tall : flip.height ≤ source_height flip
  tiles : (flip.tiling_mode == 0) ≡ true → flip.stride / 4 % 128 ≡ 0

source_height-le : (flip : Flip) → flip.height ≤ source_height flip
unfolding source_height
source_height-le flip = ground arith

source_height-tiled :
    (flip : Flip)
    → (flip.tiling_mode == 0) ≡ true
    → source_height flip ≡ (flip.height + 63) / 64 * 64
unfolding source_height
source_height-tiled flip h = rw h refl

source_height-linear :
    (flip : Flip) → (flip.tiling_mode == 0) ≡ false → source_height flip ≡ flip.height
unfolding source_height
source_height-linear flip h = rw h refl

pub bad_flip-IsShown : (flip : Flip) → bad_flip flip ≡ false → IsShown flip
unfolding bad_flip
bad_flip-IsShown flip h = record {
  width = ground arith;
  stride = ground arith;
  some_stride = ground arith;
  size =
      let q =
        (le-div_iff_mul-le {k = flip.stride} {x = source_height flip} {y = max_frame_size}
            (ground arith)).0
          (ground arith) in
      omega arith;
  tall = source_height-le flip;
  tiles = λ t. ground arith;
}

module _ (surface : List ℕ) (flip : Flip) (shown : IsShown flip)
    (whole : length surface ≡ source_size flip) where
  pub source_offset-le :
      (x y : ℕ) → x < flip.width → y < flip.height → source_offset flip x y + 4 ≤ source_size flip
  unfolding source_offset source_size
  source_offset-le x y h k =
      let size : flip.stride * source_height flip % 2 ^ 32 ≡ flip.stride * source_height flip =
        omega (arith, shown.size) in
      elim (Bool-cases (flip.tiling_mode == 0)) [
        | inl tiled ↦
            let height = source_height-tiled flip tiled in
            let pitch =
              mul-le-mul_right {m = flip.stride / 4 * 4} {n = flip.stride} (source_height flip)
                (omega arith) in
            let b =
              display_tiled_offset-le x y (flip.stride / 4) flip.height
                (omega (arith, shown.stride)) k (shown.tiles tiled)
                (rw (← height) (omega (arith, shown.size))) in
            let b' : display_tiled_offset x y (flip.stride / 4) + 4
                ≤ flip.stride / 4 * 4 * source_height flip =
              rw height b in
            rw (tiled, size) (omega arith)
        | inr linear ↦
            let height = source_height-linear flip linear in
            let rows = mul-le-mul_right {m = suc y} {n = flip.height} flip.stride (omega arith) in
            rw (linear, size, height) (omega (arith, shown.stride, shown.width))
      ]

  pub pixel_at-some :
      (x y : ℕ)
      → x < flip.width
      → y < flip.height
      → (p : List ℕ) × (pixel_at surface flip x y ≡ some p)
        × (length p ≡ 4)
        × (convert_pixel (take 4 (drop (source_offset flip x y) surface)) flip.format ≡ some p)
  unfolding pixel_at
  pixel_at-some x y h k =
      let in' = source_offset-le x y h k in
      let t = length-take 4 (drop (source_offset flip x y) surface) in
      let l = length-drop (source_offset flip x y) surface in
      let (p, e, n) =
        convert_pixel-some (take 4 (drop (source_offset flip x y) surface)) flip.format
          (omega arith) in
      let inside : ltb (source_size flip - 4) (source_offset flip x y) ≡ false = ground arith in
      (p, rw (inside) e, n, e)

  -- A row of a frame: pixel by pixel.
  record IsRow (x y n : ℕ) (row : List ℕ) : Type 0 where
    size : length row ≡ n * 4
    shows :
        (j c : ℕ) (p : List ℕ)
        → j < n
        → c < 4
        → pixel_at surface flip (x + j) y ≡ some p
        → get_elem? row (j * 4 + c) ≡ get_elem? p c

  pixel-IsRow :
      (n x y : ℕ) (p row : List ℕ)
      → length p ≡ 4
      → pixel_at surface flip x y ≡ some p
      → IsRow (x + 1) y n row
      → (j c : ℕ) (q : List ℕ) → j < suc n
      → c < 4
      → pixel_at surface flip (x + j) y ≡ some q
      → get_elem? (p ++ row) (j * 4 + c) ≡ get_elem? q c
  pixel-IsRow n x y p row l e is_row zero c q h k g =
      let here : x + 0 ≡ x = omega arith in
      let at : 0 * 4 + c ≡ c = omega arith in
      let g' : pixel_at surface flip x y ≡ some q = (rw here at g) in
      let same : p ≡ q = cc in
      rw at (get_elem?-append_left p row c (omega arith) ∙ ap (λ o. get_elem? o c) same)
  pixel-IsRow n x y p row l e is_row (suc i) c q h k g =
      let there : x + suc i ≡ x + 1 + i = omega arith in
      get_elem?-append_right p row (i * 4 + c) (suc i * 4 + c) (omega arith)
      ∙ is_row.shows i c q (omega arith) k (rw there at g)

  convert_row-IsRow :
      (n x y : ℕ)
      → x + n ≤ flip.width
      → y < flip.height
      → (row : List ℕ) × (convert_row surface flip n x y ≡ some row) × IsRow x y n row
  unfolding convert_row
  convert_row-IsRow zero x y h k =
      ([], refl, record { size = refl; shows = λ j c p q. absurd (omega arith) })
  convert_row-IsRow (suc n) x y h k =
      let (p, e, l, _) = pixel_at-some x y (omega arith) k in
      let (row, f, is_row) = convert_row-IsRow n (x + 1) y (omega arith) k in
      (
        p ++ row,
        rw (e, f, append_some) refl,
        record {
          size = length-append p row ∙ omega (arith, is_row.size);
          shows = pixel-IsRow n x y p row l e is_row;
        },
      )

  -- A frame: row by row.
  pub record IsFrame (y n : ℕ) (pixels : List ℕ) : Type 0 where
    pub size : length pixels ≡ n * (flip.width * 4)
    pub shows :
        (j x c : ℕ) (p : List ℕ)
        → j < n
        → x < flip.width
        → c < 4
        → pixel_at surface flip x (y + j) ≡ some p
        → get_elem? pixels (j * (flip.width * 4) + (x * 4 + c)) ≡ get_elem? p c

  row-IsFrame :
      (n y : ℕ) (row rest : List ℕ)
      → IsRow 0 y flip.width row
      → IsFrame (y + 1) n rest
      → (j x c : ℕ) (p : List ℕ) → j < suc n
      → x < flip.width
      → c < 4
      → pixel_at surface flip x (y + j) ≡ some p
      → get_elem? (row ++ rest) (j * (flip.width * 4) + (x * 4 + c)) ≡ get_elem? p c
  row-IsFrame n y row rest is_row is_frame zero x c p h i k g =
      let here : y + 0 ≡ y = omega arith in
      let at : 0 * (flip.width * 4) + (x * 4 + c) ≡ x * 4 + c = omega arith in
      let from : 0 + x ≡ x = omega arith in
      rw at (
        get_elem?-append_left row rest (x * 4 + c) (omega (arith, is_row.size))
        ∙ is_row.shows x c p i k (rw (from) (rw here at g)))
  row-IsFrame n y row rest is_row is_frame (suc j) x c p h i k g =
      let there : y + suc j ≡ y + 1 + j = omega arith in
      get_elem?-append_right row rest (j * (flip.width * 4) + (x * 4 + c))
        (suc j * (flip.width * 4) + (x * 4 + c)) (omega (arith, is_row.size))
      ∙ is_frame.shows j x c p (omega arith) i k (rw there at g)

  pub convert_rows-IsFrame :
      (n y : ℕ)
      → y + n ≤ flip.height
      → (pixels : List ℕ) × (convert_rows surface flip n y ≡ some pixels) × IsFrame y n pixels
  unfolding convert_rows
  convert_rows-IsFrame zero y h =
      ([], refl, record { size = omega arith; shows = λ j x c p q. absurd (omega arith) })
  convert_rows-IsFrame (suc n) y h =
      let (row, e, is_row) = convert_row-IsRow flip.width 0 y (omega arith) (omega arith) in
      let (rest, f, is_frame) = convert_rows-IsFrame n (y + 1) (omega arith) in
      (
        row ++ rest,
        rw (e, f, append_some) refl,
        record {
          size = length-append row rest ∙ omega (arith, is_row.size, is_frame.size);
          shows = row-IsFrame n y row rest is_row is_frame;
        },
      )
