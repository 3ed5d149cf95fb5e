-- ===== src/Gpu/Tiling/Bounds.antt =====
-- Where the pixels of a tiled surface lie, and which of them lie at the same place.
use qemu_dll_shadps.Base.{ℕ, suc, ◌+◌, ◌*◌, ◌/◌, ◌%◌, ◌^◌, ◌≤◌, ◌<◌, ◌≡◌, refl, arith}
use native.Mathlib.Nat.{mul-le-mul_right}
use qemu_dll_shadps.Gpu.Tiling.{display_pixel_index, pipe, bank, display_tiled_offset}

display_pixel_index-lt : (x y : ℕ) → display_pixel_index x y < 64
unfolding display_pixel_index
display_pixel_index-lt x y = omega arith

pipe-lt : (x y : ℕ) → pipe x y < 8
unfolding pipe
pipe-lt x y = omega arith

bank-lt : (tx ty : ℕ) → bank tx ty < 16
unfolding bank
bank-lt tx ty = omega arith

-- A tiled surface keeps different pixels at one place: where x % 32 < 8, the pixel twenty-four columns
-- to the right of the one in column x of a row has the same offset.
pub display_tiled_offset-add :
    (x y pitch : ℕ)
    → x % 32 < 8
    → display_tiled_offset (x + 24) y pitch ≡ display_tiled_offset x y pitch
unfolding display_tiled_offset pipe display_pixel_index
display_tiled_offset-add x y pitch h =
    let p : display_pixel_index (x + 24) y ≡ display_pixel_index x y = omega arith in
    let q : pipe (x + 24) y ≡ pipe x y = omega arith in
    let r : (x + 24) / 64 ≡ x / 64 = omega arith in
    let s : (x + 24) / 128 ≡ x / 128 = omega arith in rw (display_tiled_offset, q, r, s, p) refl

-- The macro tiles of a surface, row by row.
macro_tile-lt : (a b rows columns : ℕ) → a < rows → b < columns → a * columns + b < rows * columns
macro_tile-lt a b rows columns h k =
    let p = mul-le-mul_right {m = suc a} {n = rows} columns (omega arith) in
    let q : suc a * columns ≡ a * columns + columns = omega arith in omega arith

surface_size :
    (rows columns pitch : ℕ)
    → pitch ≡ 128 * columns
    → pitch * 4 * (rows * 64) ≡ 32768 * (rows * columns)
surface_size rows columns pitch h = rw h (omega arith)

-- A pixel of a surface of whole macro tiles lies inside it with all its four bytes.
pub display_tiled_offset-le :
    (x y pitch height : ℕ)
    → x < pitch
    → y < height
    → pitch % 128 ≡ 0
    → pitch * 4 * ((height + 63) / 64 * 64) ≤ 64 * 2 ^ 20
    → display_tiled_offset x y pitch + 4 ≤ pitch * 4 * ((height + 63) / 64 * 64)
unfolding display_tiled_offset
display_tiled_offset-le x y pitch height h k whole small =
    let columns = pitch / 128 in
    let rows = (height + 63) / 64 in
    let w : pitch ≡ 128 * columns = omega arith in
    let size : pitch * 4 * (rows * 64) ≡ 32768 * (rows * columns) =
      surface_size rows columns pitch w in
    let tile = macro_tile-lt (y / 64) (x / 128) rows columns (omega arith) (omega arith) in
    let i = display_pixel_index-lt x y in
    let p = pipe-lt x y in let b = bank-lt (x / 64) (y / 8) in omega arith
