-- ===== src/Loader/Relocate/Target.antt =====
-- A relocation's target is a whole 64-bit word of a loaded segment.
use qemu_dll_shadps.Base.{
  ℕ, zero, suc, ◌+◌, ◌-◌, ◌%◌, ◌^◌, ◌≤◌, ◌<◌, ◌≡◌, refl, ◌≢◌, inl, inr, not, ◌&&◌, none, some, List,
  [], ◌∷◌, leb, ltb, Bool-cases, Option-cases, get_elem?, All, arith,
}
use qemu_dll_shadps.Loader.Types.{ImageSegment, ImageInfo}
use qemu_dll_shadps.Loader.Range.{add_valid, add_valid-eq-some}
use qemu_dll_shadps.Loader.Relocate.{target_loop, relocation_target}

-- The eight bytes at the virtual address lie in the segment, and are its bytes at `physical`.
pub record Holds (segment : ImageSegment) (virtual physical : ℕ) : Type 0 where
  pub above : segment.virtual_addr ≤ virtual
  pub fits : virtual + 8 ≤ segment.virtual_addr + segment.memory_size
  pub at : physical + segment.virtual_addr ≡ segment.physical_addr + virtual

-- No segment wraps round the physical address space.
abbrev pub IsPhysical : ImageSegment → Type 0
IsPhysical segment = segment.physical_addr + segment.memory_size < 2 ^ 64

-- Some loaded segment holds the word.
abbrev pub InSegments : List ImageSegment → ℕ → ℕ → Type 0
InSegments segments virtual physical =
    (place : ℕ) × (segment : ImageSegment) × (get_elem? segments place ≡ some segment)
    × Holds segment virtual physical

target_loop_lem :
    (segments : List ImageSegment) (virtual : ℕ) {physical : ℕ}
    → All IsPhysical segments
    → target_loop segments virtual ≡ some physical
    → InSegments segments virtual physical
unfolding target_loop
target_loop_lem [] virtual ok' e = cc
target_loop_lem (segment ∷ rest) virtual {physical} ok' e =
    elim (Bool-cases (
      not (ltb virtual segment.virtual_addr)
      && (leb (virtual - segment.virtual_addr) segment.memory_size
          && leb 8 (segment.memory_size - (virtual - segment.virtual_addr))))) [
            | inl in' ↦
                let small = ok'.0 in
                let at : physical
                    ≡ (segment.physical_addr + (virtual - segment.virtual_addr)) % 2 ^ 64 =
                  ground arith in
                let low : segment.virtual_addr ≤ virtual = ground arith in
                let high : virtual + 8 ≤ segment.virtual_addr + segment.memory_size =
                  ground arith in
                (0, segment, refl, record { above = low; fits = high; at = omega arith })
            | inr out ↦
                let (place, found, p, h) = target_loop_lem rest virtual ok'.1 (rw out at e) in
                (suc place, found, p, h)
          ]

-- Let the base be a 64-bit number and no segment wrap round the physical address space. The target
-- of a relocation that is accepted is a 64-bit word inside one loaded segment, at the
-- physical address of the image's base plus the relocation's offset.
pub relocation_target_lem :
    (image : ImageInfo) (offset : ℕ) {physical : ℕ}
    → image.virtual_base < 2 ^ 64
    → All IsPhysical image.segments
    → relocation_target image offset ≡ some physical
    → InSegments image.segments (image.virtual_base + offset) physical
unfolding relocation_target
relocation_target_lem image offset {physical} small ok' e =
    elim (Option-cases (add_valid image.virtual_base offset)) [
      | inl over ↦ cc
      | inr (v, p) ↦
          let at = (add_valid-eq-some image.virtual_base offset small p).0 in
          target_loop_lem image.segments (image.virtual_base + offset) ok' (ground arith)
    ]

target_loop_found :
    (segments : List ImageSegment) (virtual place : ℕ) {segment : ImageSegment}
    → get_elem? segments place ≡ some segment
    → segment.virtual_addr ≤ virtual
    → virtual + 8 ≤ segment.virtual_addr + segment.memory_size
    → target_loop segments virtual ≢ none
unfolding target_loop
target_loop_found [] virtual place g low high e = cc
target_loop_found (s ∷ rest) virtual zero {segment} g low high e =
    let same : s ≡ segment = cc in ground arith
target_loop_found (s ∷ rest) virtual (suc place) g low high e =
    ground (arith, target_loop_found rest virtual place g low high)

-- No relocation whose word does lie in a loaded segment, at an address that does not overflow, is
-- refused.
pub relocation_target_found :
    (image : ImageInfo) (offset place : ℕ) {segment : ImageSegment}
    → image.virtual_base + offset < 2 ^ 64
    → get_elem? image.segments place ≡ some segment
    → segment.virtual_addr ≤ image.virtual_base + offset
    → image.virtual_base + offset + 8 ≤ segment.virtual_addr + segment.memory_size
    → relocation_target image offset ≢ none
unfolding relocation_target add_valid
relocation_target_found image offset place small g low high =
    let found = target_loop_found image.segments (image.virtual_base + offset) place g low high in
    λ e. ground arith
