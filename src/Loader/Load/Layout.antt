-- ===== src/Loader/Load/Layout.antt =====
-- Where the segments of an image that is loaded lie: inside guest RAM, apart from one another, and
-- one of them executable at the entry point.
mod Segment
mod Loop
pub mod Start
use qemu_dll_shadps.Base.{
  ℕ, zero, suc, ◌+◌, ◌-◌, ◌%◌, ◌^◌, ◌≤◌, ◌<◌, ◌≡◌, refl, sym, ap, subst, ◌∙◌, ◌≢◌, ◌⊎◌, inl, inr,
  Bool, true, false, not, ◌&&◌, ◌||◌, Option, none, some, List, [], ◌∷◌, ◌++◌, leb, ltb, ◌==◌,
  ==_iff, if◌then◌else◌, length, length-append, get_elem?, get_elem?-append, All, All-append,
  Bool-cases, Result, ok, err, ◌>>=◌, ◌>>◌, require, require-eq-ok, or_err, or_err-eq-ok, >>=-eq-ok,
  Outcome, done, fail, and_then, lift, arith,
}
use qemu_dll_shadps.Loader.Types.{Error, ProgramHeader, ImageSegment, ImageInfo, max_segments}
use qemu_dll_shadps.Loader.Range.{range_valid, range_valid_iff, add_valid, add_valid-eq-some}
use qemu_dll_shadps.Loader.Memory.{AddressSpace}
use qemu_dll_shadps.Loader.HostFile.{Host, HostFile}
use qemu_dll_shadps.Loader.Load.Segments.{
  Scan, Plan, pt_load, pt_sce_relro, scan_dynamic, scan_proc_param, scan_eh_frame, scan_tls,
  overlaps, segment_place, segment_source, add_segment,
}
use qemu_dll_shadps.Loader.Load.Loop.{
  World, copy_segment, clear_bss, load_segment, load_header, header_loop,
}

-- The physical ranges of two segments have no byte in common.
abbrev pub Apart : ImageSegment → ImageSegment → Type 0
Apart a b =
    (a.physical_addr + a.memory_size ≤ b.physical_addr)
    ⊎ (b.physical_addr + b.memory_size ≤ a.physical_addr)

abbrev pub Disjoint : List ImageSegment → Type 0
Disjoint [] = Unit {0}
Disjoint (s ∷ rest) = All (Apart s) rest × Disjoint rest

-- The segment is not empty, its file data fit in it, it lies below the limit of guest RAM, and its
-- virtual and physical addresses are at the same distance from the image's two bases.
pub record IsLoaded (plan : Plan) (base : ℕ) (segment : ImageSegment) : Type 0 where
  pub filled : 0 < segment.memory_size
  pub data_fits : segment.file_size ≤ segment.memory_size
  pub below : segment.physical_addr + segment.memory_size ≤ plan.physical_limit
  pub mapped : segment.virtual_addr + plan.physical_base ≡ segment.physical_addr + base

-- The entry point lies in an executable segment.
pub record IsEntered (plan : Plan) (segments : List ImageSegment) : Type 0 where
  pub place : ℕ
  pub segment : ImageSegment
  pub listed : get_elem? segments place ≡ some segment
  pub executable : segment.flags % 2 ≡ 1
  pub starts : segment.physical_addr ≤ plan.physical_base + plan.entry_offset
  pub ends : plan.physical_base + plan.entry_offset < segment.physical_addr + segment.memory_size

pub record LaidOut (plan : Plan) (base : ℕ) (scan : Scan) : Type 0 where
  pub count : length scan.image.segments ≤ max_segments
  pub loaded : All (IsLoaded plan base) scan.image.segments
  pub apart : Disjoint scan.image.segments
  pub entered : scan.entry_is_executable ≡ true → IsEntered plan scan.image.segments
  pub based : scan.image.virtual_base ≡ base

Disjoint-append :
    (segments : List ImageSegment) (new : ImageSegment)
    → All (λ (s : ImageSegment). Apart s new) segments
    → Disjoint segments
    → Disjoint (segments ++ new ∷ [])
Disjoint-append [] new h d = (tt, tt)
Disjoint-append (s ∷ rest) new h d =
    (All-append (Apart s) rest (new ∷ []) d.0 (h.0, tt), Disjoint-append rest new h.1 d.1)

-- The overlap test of the source decides what it means to, as no sum wraps.
overlaps_lem :
    (plan : Plan) (base addr size : ℕ) (segments : List ImageSegment) (new : ImageSegment)
    → plan.physical_limit < 2 ^ 64
    → new.physical_addr ≡ addr
    → new.memory_size ≡ size
    → addr + size ≤ plan.physical_limit
    → All (IsLoaded plan base) segments
    → overlaps addr size segments ≡ false
    → All (λ (s : ImageSegment). Apart s new) segments
unfolding overlaps
overlaps_lem plan base addr size [] new small ea es fits all e = tt
overlaps_lem plan base addr size (other ∷ rest) new small ea es fits all e =
    let below = all.0.below in
    let w1 : (other.physical_addr + other.memory_size) % 2 ^ 64
        ≡ other.physical_addr + other.memory_size =
      omega arith in
    let w2 : (addr + size) % 2 ^ 64 ≡ addr + size = omega arith in
    (ground arith, overlaps_lem plan base addr size rest new small ea es fits all.1 (ground arith))
