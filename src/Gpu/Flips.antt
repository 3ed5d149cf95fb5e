-- ===== src/Gpu/Flips.antt =====
-- shadps4_gpu_convert_pixel and shadps4_gpu_flip, for a build without CONFIG_WIN32: a surface in guest
-- memory becomes a frame of BGRA pixels for the host. Log lines are left out.
pub mod Pixels
pub mod Frames
use qemu_dll_shadps.Base.{
  ℕ, zero, suc, ◌+◌, ◌-◌, ◌*◌, ◌/◌, ◌%◌, ◌^◌, max, Bool, true, false, not, ◌&&◌, ◌||◌, Option, none,
  some, List, [], ◌∷◌, ◌++◌, leb, ltb, ◌==◌, if◌then◌else◌, take, drop,
}
use qemu_dll_shadps.Gpu.Flatten.{guest_read}
use qemu_dll_shadps.Gpu.Guest.{GuestMemory}
use qemu_dll_shadps.Gpu.State.{Gpu, next_count}
use qemu_dll_shadps.Gpu.Tiling.{display_tiled_offset}

pub record Flip : Type 0 where
  pub pixels_addr : ℕ
  pub width : ℕ
  pub height : ℕ
  pub stride : ℕ
  pub format : ℕ
  pub buffer_index : ℕ
  pub tiling_mode : ℕ

-- What qemu_host_emit_video_frame is given; the format is always BGRA.
pub record Frame : Type 0 where
  pub pixels : List ℕ
  pub width : ℕ
  pub height : ℕ
  pub stride : ℕ

pub record Flipped : Type 0 where
  pub accepted : Bool
  pub gpu : Gpu
  pub shown : Option Frame

abbrev pub max_frame_size : ℕ
max_frame_size = 64 * 2 ^ 20

-- QemuHostPixelFormat.
abbrev pub bgra8888 : ℕ
bgra8888 = 1

abbrev pub rgba8888 : ℕ
rgba8888 = 2

abbrev pub rgbx8888 : ℕ
rgbx8888 = 3

abbrev pub bgrx8888 : ℕ
bgrx8888 = 4

-- The four bytes of a pixel; no pixel where the source has fewer.
unfoldable pub convert_pixel : List ℕ → ℕ → Option (List ℕ)
convert_pixel (s0 ∷ s1 ∷ s2 ∷ s3 ∷ rest) format =
    let alpha = if format == rgbx8888 || format == bgrx8888 then 0xff else s3 in
    if format == rgba8888 || format == rgbx8888
    then some (s2 ∷ s1 ∷ s0 ∷ alpha ∷ [])
    else some (s0 ∷ s1 ∷ s2 ∷ alpha ∷ [])
convert_pixel (s0 ∷ s1 ∷ s2 ∷ []) format = none
convert_pixel (s0 ∷ s1 ∷ []) format = none
convert_pixel (s0 ∷ []) format = none
convert_pixel [] format = none

unfoldable pub source_height : Flip → ℕ
source_height flip = if flip.tiling_mode == 0 then (flip.height + 63) / 64 * 64 else flip.height

unfoldable pub source_size : Flip → ℕ
source_size flip = flip.stride * source_height flip % 2 ^ 32

unfoldable pub source_offset : Flip → ℕ → ℕ → ℕ
source_offset flip x y =
    if flip.tiling_mode == 0
    then display_tiled_offset x y (flip.stride / 4)
    else y * flip.stride + x * 4 % 2 ^ 32

-- The body of the loop over the pixels: `none` where the flip is refused.
unfoldable pub pixel_at : List ℕ → Flip → ℕ → ℕ → Option (List ℕ)
pixel_at surface flip x y =
    if ltb (source_size flip - 4) (source_offset flip x y)
    then none
    else convert_pixel (take 4 (drop (source_offset flip x y) surface)) flip.format

abbrev pub append_some : Option (List ℕ) → Option (List ℕ) → Option (List ℕ)
append_some none ys = none
append_some (some xs) none = none
append_some (some xs) (some ys) = some (xs ++ ys)

-- `n` more pixels of a row, from `x` on.
unfoldable pub convert_row : List ℕ → Flip → ℕ → ℕ → ℕ → Option (List ℕ)
convert_row surface flip zero x y = some []
convert_row surface flip (suc n) x y =
    append_some (pixel_at surface flip x y) (convert_row surface flip n (x + 1) y)

-- `n` more rows, from `y` on.
unfoldable pub convert_rows : List ℕ → Flip → ℕ → ℕ → Option (List ℕ)
convert_rows surface flip zero y = some []
convert_rows surface flip (suc n) y =
    append_some (convert_row surface flip flip.width 0 y) (convert_rows surface flip n (y + 1))

-- The tests before anything is read; `true` where one of them refuses the flip.
unfoldable pub bad_flip : Flip → Bool
bad_flip flip =
    flip.width == 0
    || (flip.height == 0
        || (ltb 4096 flip.width
            || (ltb 2160 flip.height
                || (ltb flip.stride (flip.width * 4 % 2 ^ 32)
                    || (ltb 65536 flip.stride
                        || (ltb (max_frame_size / flip.stride) flip.height
                            || (not (
                                  flip.format == bgra8888
                                  || (flip.format == rgba8888
                                      || (flip.format == rgbx8888 || flip.format == bgrx8888)))
                                || (ltb 1 flip.tiling_mode
                                    || (flip.tiling_mode == 0 && not (flip.stride / 4 % 128 == 0)
                                        || ltb (max_frame_size / flip.stride)
                                            (source_height flip))))))))))

abbrev pub refuse_flip : Gpu → Flipped
refuse_flip gpu = record { accepted = false; gpu = gpu; shown = none }

-- `g_realloc` of the two buffers where they are too small.
unfoldable pub grow_buffers : Flip → Gpu → Gpu
grow_buffers flip gpu = record gpu {
  surface_capacity = max gpu.surface_capacity (source_size flip);
  frame_capacity = max gpu.frame_capacity (flip.width * 4 * flip.height % 2 ^ 32);
}

unfoldable pub show_frame : List ℕ → Flip → Gpu → Flipped
show_frame pixels flip gpu = record {
  accepted = true;
  gpu = record gpu {
    flip_count = next_count gpu.flip_count;
    video_backend_valid = true;
    last_video_d3d12 = false;
  };
  shown = some (record {
    pixels = pixels;
    width = flip.width;
    height = flip.height;
    stride = flip.width * 4 % 2 ^ 32;
  });
}

unfoldable pub show_surface : List ℕ → Flip → Gpu → Flipped
show_surface surface flip gpu = elim (convert_rows surface flip flip.height 0) [
  | none ↦ refuse_flip gpu
  | some pixels ↦ show_frame pixels flip gpu
]

-- `none` is the NULL pointer.
unfoldable pub flip_surface : {M : Type 0} → GuestMemory M → M → Option Flip → Gpu → Flipped
flip_surface guest m none gpu = record {
  accepted = true;
  gpu = record gpu { flip_count = next_count gpu.flip_count };
  shown = none;
}
flip_surface guest m (some flip) gpu =
    if bad_flip flip
    then refuse_flip gpu
    else elim (guest_read (guest.read m) flip.pixels_addr (source_size flip)) [
      | none ↦ refuse_flip (grow_buffers flip gpu)
      | some surface ↦ show_surface surface flip (grow_buffers flip gpu)
    ]
