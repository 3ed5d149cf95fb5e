-- ===== src/Gpu/Flips/Frames.antt =====
-- Which flips are accepted, and what their frames show.
use qemu_dll_shadps.Base.{ℕ, ◌+◌, ◌-◌, ◌*◌, ◌/◌, ◌≡◌, ◌⊎◌, ◌||◌, Option, some, ◌==◌, if◌then◌else◌}
use qemu_dll_shadps.Gpu.State.{Gpu}
use qemu_dll_shadps.Gpu.Tiling.{display_tiled_offset}
use qemu_dll_shadps.Gpu.Flips.{Flip, rgba8888, rgbx8888, bgrx8888}

-- Where a pixel stands in a surface: row by row in a linear one, else where the tiling puts it.
abbrev pub IsPlace : Flip → ℕ → ℕ → ℕ → Type 0
IsPlace flip x y place =
    ((flip.tiling_mode ≡ 0) × (place ≡ display_tiled_offset x y (flip.stride / 4)))
    ⊎ ((flip.tiling_mode ≡ 1) × (place ≡ y * flip.stride + x * 4))

-- The byte `c` (blue, green, red, alpha) of a pixel on the screen, from the bytes of a pixel of the
-- format: red and blue are exchanged where red comes first, and `x` formats are opaque.
pub shown_byte : (ℕ → Option ℕ) → ℕ → ℕ → Option ℕ
shown_byte byte format c =
    if c == 3
    then (if format == rgbx8888 || format == bgrx8888 then some 0xff else byte 3)
    else if format == rgba8888 || format == rgbx8888
    then byte (2 - c)
    else byte c
