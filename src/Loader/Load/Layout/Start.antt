-- ===== src/Loader/Load/Layout/Start.antt =====
-- The layout and the entry point of an image that passed the checks after the loop.
use qemu_dll_shadps.Base.{
  ℕ, ◌+◌, ◌%◌, ◌^◌, ◌≤◌, ◌<◌, ◌≡◌, refl, ap, subst, ◌∙◌, inl, inr, not, ◌||◌, Option, none, some,
  List, [], ◌∷◌, ◌==◌, if◌then◌else◌, length, get_elem?, All, Bool-cases, ok, require,
  require-eq-ok, or_err, or_err-eq-ok, >>=-eq-ok, ok-injective, arith, done,
}
use qemu_dll_shadps.Loader.Types.{Error, ProgramHeader, ImageSegment, ImageInfo, max_segments}
use qemu_dll_shadps.Loader.Range.{add_valid-eq-some}
use qemu_dll_shadps.Loader.Memory.{AddressSpace}
use qemu_dll_shadps.Loader.HostFile.{Host, HostFile}
use qemu_dll_shadps.Loader.Load.Headers.{ElfHeader}
use qemu_dll_shadps.Loader.Load.Segments.{Scan, Plan}
use qemu_dll_shadps.Loader.Load.Loop.{World, header_loop}
use qemu_dll_shadps.Loader.Load.Finish.{
  file_data_offset, eh_frame_from, eh_frame_loop, proc_param_mapped, finish_image,
}
use qemu_dll_shadps.Loader.Load.Module.{LoadArgs, Container, start_scan, plan_of}
use qemu_dll_shadps.Loader.Load.Layout.{Disjoint, IsEntered, LaidOut}
use qemu_dll_shadps.Loader.Load.Layout.Loop.{loop_keeps}

eh_frame_from-segments :
    (segment : ImageSegment) (header : List ℕ) (image : ImageInfo)
    → ((eh_frame_from segment header image).segments ≡ image.segments)
      × ((eh_frame_from segment header image).virtual_base ≡ image.virtual_base)
unfolding eh_frame_from
eh_frame_from-segments segment header image = (ground arith, ground arith)

eh_frame_loop-segments :
    {M : Type 0} (as' : AddressSpace M) (m : M) (segments : List ImageSegment) (image : ImageInfo)
    → ((eh_frame_loop as' m segments image).segments ≡ image.segments)
      × ((eh_frame_loop as' m segments image).virtual_base ≡ image.virtual_base)
unfolding eh_frame_loop
eh_frame_loop-segments as' m [] image = (refl, refl)
eh_frame_loop-segments as' m (segment ∷ rest) image =
    at (file_data_offset segment image.eh_frame_hdr_addr 12)
      (eh_frame_loop-segments as' m rest image)
  where
    Keeps : ImageInfo → Type 0
    Keeps new = (new.segments ≡ image.segments) × (new.virtual_base ≡ image.virtual_base)

    header_at :
        (r : Option (List ℕ))
        → Keeps (elim r [ none ↦ image | some header ↦ eh_frame_from segment header image ])
    header_at none = (refl, refl)
    header_at (some header) = eh_frame_from-segments segment header image

    at :
        (o : Option ℕ)
        → Keeps (eh_frame_loop as' m rest image)
        → Keeps (elim o [
          | none ↦ eh_frame_loop as' m rest image
          | some offset ↦ elim (as'.read m ((segment.physical_addr + offset) % 2 ^ 64) 12) [
            | none ↦ image
            | some header ↦ eh_frame_from segment header image
          ]
        ])
    at none k = k
    at (some offset) k = header_at (as'.read m ((segment.physical_addr + offset) % 2 ^ 64) 12)

All-map :
    {P Q : ImageSegment → Type 0}
    → ((s : ImageSegment) → P s → Q s)
    → (segments : List ImageSegment) → All P segments
    → All Q segments
All-map f [] h = tt
All-map f (s ∷ rest) h = (f s h.0, All-map f rest h.1)

-- An image that can be started at its entry point.
pub record Startable (limit base physical_base : ℕ) (image : ImageInfo) : Type 0 where
  pub count : length image.segments ≤ max_segments
  pub apart : Disjoint image.segments
  pub below : All (λ (s : ImageSegment). s.physical_addr + s.memory_size ≤ limit) image.segments
  pub mapped :
      All
        (λ (s : ImageSegment). s.virtual_addr + physical_base ≡ s.physical_addr + base)
        image.segments
  pub place : ℕ
  pub segment : ImageSegment
  pub listed : get_elem? image.segments place ≡ some segment
  pub executable : segment.flags % 2 ≡ 1
  pub starts : segment.physical_addr ≤ image.physical_entry
  pub ends : image.physical_entry < segment.physical_addr + segment.memory_size
  pub entry : image.entry + physical_base ≡ image.physical_entry + base

-- The image after the last checks, with `i` the image before them.
finished-Startable :
    (plan : Plan) (base entry physical tls : ℕ) (scan : Scan) (i : ImageInfo)
    → LaidOut plan base scan
    → IsEntered plan scan.image.segments
    → i.segments ≡ scan.image.segments
    → entry ≡ base + plan.entry_offset
    → physical ≡ plan.physical_base + plan.entry_offset
    → Startable plan.physical_limit base plan.physical_base
        (record i { entry = entry; physical_entry = physical; tls_module_id = tls })
finished-Startable plan base entry physical tls scan i l e made sum sum' = record {
  count = rw made l.count;
  apart = rw made l.apart;
  below = rw made (All-map (λ s k. k.below) scan.image.segments l.loaded);
  mapped = rw made (All-map (λ s k. k.mapped) scan.image.segments l.loaded);
  place = e.place;
  segment = e.segment;
  listed = ap (λ xs. get_elem? xs e.place) made ∙ e.listed;
  executable = e.executable;
  starts = rw sum' e.starts;
  ends = rw sum' e.ends;
  entry = omega arith;
}

finish_image-Startable :
    {M : Type 0} (as' : AddressSpace M) (m : M) (plan : Plan) (base : ℕ) (scan : Scan)
    {image : ImageInfo}
    → base < 2 ^ 64
    → plan.physical_base < 2 ^ 64
    → LaidOut plan base scan
    → finish_image as' m plan scan ≡ ok image
    → Startable plan.physical_limit base plan.physical_base image
unfolding finish_image
finish_image-Startable as' m plan base scan {image} b64 p64 l h =
    let kept : (i.segments ≡ scan.image.segments) × (i.virtual_base ≡ scan.image.virtual_base) =
      elim (Bool-cases scan.eh_frame_hdr_found) [
        | inl t ↦ rw t (eh_frame_loop-segments as' m scan.image.segments scan.image)
        | inr t ↦ rw t (refl, refl)
      ] in
    let (_, r1, h1) =
      >>=-eq-ok (require (not (length scan.image.segments == 0)) Error.no_segments) _ h in
    let (_, r2, h2) =
      >>=-eq-ok
        (require (not scan.proc_param_found || proc_param_mapped i.proc_param_addr i.segments)
          Error.proc_param_unmapped)
        _ h1 in
    let (_, r3, h3) = >>=-eq-ok (require _ _) _ h2 in
    let (entry, r4, h4) = >>=-eq-ok (or_err _ _) _ h3 in
    let (physical, r5, h5) = >>=-eq-ok (or_err _ _) _ h4 in
    let e : IsEntered plan scan.image.segments = l.entered (require-eq-ok _ _ r3) in
    let based : i.virtual_base ≡ base = kept.1 ∙ l.based in
    let v : (entry ≡ i.virtual_base + plan.entry_offset) × (entry < 2 ^ 64) =
      add_valid-eq-some i.virtual_base plan.entry_offset (rw based b64) (or_err-eq-ok _ _ r4) in
    let q : (physical ≡ plan.physical_base + plan.entry_offset) × (physical < 2 ^ 64) =
      add_valid-eq-some plan.physical_base plan.entry_offset p64 (or_err-eq-ok _ _ r5) in
    subst (λ (x : ImageInfo). Startable plan.physical_limit base plan.physical_base x)
      (ok-injective h5)
      (finished-Startable plan base entry physical _ scan i l e kept.0
        (v.0 ∙ ap (λ x. x + plan.entry_offset) based) q.0)
  where
    i : ImageInfo
    i =
        if scan.eh_frame_hdr_found
        then eh_frame_loop as' m scan.image.segments scan.image
        else scan.image

module _ {H M : Type 0} (host : Host H) (as' : AddressSpace M) (file : HostFile) where
  -- Let the bases, the limit of guest RAM and the virtual addresses of the program headers be
  -- 64-bit numbers. If the loop over the program headers and the checks after it accept an image,
  -- its segments are at most max_segments, no two share a byte of guest RAM, all end within the
  -- limit, the virtual and physical addresses of each are equally far from the two bases, and so
  -- are those of the entry point, which lies in an executable segment.
  pub header_loop-Startable :
      (name : Option (List ℕ)) (args : LoadArgs) (container : Container) (header : ElfHeader)
      (file_length : ℕ) (phdrs : List ProgramHeader) (w w' : World H M) (scan : Scan)
      (image : ImageInfo)
      → args.virtual_base < 2 ^ 64
      → args.physical_base < 2 ^ 64
      → args.physical_limit < 2 ^ 64
      → All (λ (phdr : ProgramHeader). phdr.p_vaddr < 2 ^ 64) phdrs
      → header_loop host as' file
          (plan_of args container header file_length)
          0
          phdrs
          (start_scan name args container header)
          w
        ≡ done scan w'
      → finish_image as' w'.memory (plan_of args container header file_length) scan ≡ ok image
      → Startable args.physical_limit args.virtual_base args.physical_base image
  header_loop-Startable name args container header file_length phdrs w w' scan image b64 p64 l64 v64
        run finished =
      let plan = plan_of args container header file_length in
      finish_image-Startable as' w'.memory plan args.virtual_base scan b64 p64
        (loop_keeps host as' file plan args.virtual_base 0 phdrs
          (start_scan name args container header) w b64 p64 l64 v64
          (record { count = omega arith; loaded = tt; apart = tt; entered = λ e. cc; based = refl })
          scan w' run)
        finished
