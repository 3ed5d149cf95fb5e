-- ===== src/Gpu/Tests/Showing.antt =====
-- A linear surface of two by two pixels, and places in a tiled one.
use qemu_dll_shadps.Base.{ℕ, ◌+◌, ◌*◌, ◌/◌, ◌≤◌, ◌≡◌, refl, List, [], ◌∷◌, arith}
use qemu_dll_shadps.Gpu.Tiling.{display_tiled_offset}
use qemu_dll_shadps.Gpu.Tiling.Bounds.{display_tiled_offset-add, display_tiled_offset-le}
use qemu_dll_shadps.Gpu.Flips.{Flip, rgbx8888}

display_tiled_offset-add_example :
    display_tiled_offset (35 + 24) 17 1920 ≡ display_tiled_offset 35 17 1920
display_tiled_offset-add_example = display_tiled_offset-add 35 17 1920 (omega arith)

display_tiled_offset-le_example :
    display_tiled_offset 1919 1079 1920 + 4 ≤ 1920 * 4 * ((1080 + 63) / 64 * 64)
display_tiled_offset-le_example =
    display_tiled_offset-le 1919 1079 1920 1080 (omega arith) (omega arith) refl (omega arith)

abbrev linear : Flip
linear = record {
  pixels_addr = 0x2000;
  width = 2;
  height = 2;
  stride = 8;
  format = rgbx8888;
  buffer_index = 0;
  tiling_mode = 1;
}

abbrev surface : List ℕ
surface =
    0x00 ∷ 0x37 ∷ 0x03 ∷ 0xc0 ∷ 0x00 ∷ 0x05 ∷ 0x00 ∷ 0x00 ∷ 0x00 ∷ 0x30 ∷ 0 ∷ 0 ∷ 0 ∷ 0 ∷ 0 ∷ 0 ∷ []
