-- ===== src/Gpu/Tiling.antt =====
-- shadps4_gpu_display_pixel_index and shadps4_gpu_display_tiled_offset: where a pixel of a tiled
-- display surface lies.
pub mod Bounds
use qemu_dll_shadps.Base.{ℕ, ◌+◌, ◌*◌, ◌/◌, ◌%◌, ◌^◌}

abbrev pub bit : ℕ → ℕ → ℕ
bit k x = x / 2 ^ k % 2

-- The six bits are disjoint, so `|` is a sum.
unfoldable pub display_pixel_index : ℕ → ℕ → ℕ
display_pixel_index x y =
    bit 0 x + 2 * bit 1 x + 4 * bit 0 y + 8 * bit 2 x + 16 * bit 1 y + 32 * bit 2 y

-- The exclusive or of bits is the parity of their sum.
unfoldable pub pipe : ℕ → ℕ → ℕ
pipe x y =
    (bit 3 x + bit 3 y + bit 4 x) % 2
    + 2 * ((bit 5 x + bit 4 y) % 2)
    + 4 * ((bit 6 x + bit 5 y) % 2)

unfoldable pub bank : ℕ → ℕ → ℕ
bank tx ty =
    (bit 0 tx + bit 3 ty) % 2
    + 2 * ((bit 1 tx + bit 2 ty + bit 3 ty) % 2)
    + 4 * ((bit 2 tx + bit 1 ty) % 2)
    + 8 * ((bit 3 tx + bit 0 ty) % 2)

abbrev pub macro_tile_pitch : ℕ
macro_tile_pitch = 128

abbrev pub macro_tile_height : ℕ
macro_tile_height = 64

abbrev pub macro_tile_bytes : ℕ
macro_tile_bytes = 256

unfoldable pub display_tiled_offset : ℕ → ℕ → ℕ → ℕ
display_tiled_offset x y pitch =
    let macro_offset =
      (y / macro_tile_height * (pitch / macro_tile_pitch) + x / macro_tile_pitch)
      * macro_tile_bytes
      % 2 ^ 32 in
    let total = (macro_offset + display_pixel_index x y * 4) % 2 ^ 32 in
    (total % 2 ^ 8 + pipe x y * 2 ^ 8 + bank (x / 64) (y / 8) * 2 ^ 11 + total / 2 ^ 8 * 2 ^ 15)
    % 2 ^ 32
