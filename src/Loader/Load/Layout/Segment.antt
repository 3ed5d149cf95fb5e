-- ===== src/Loader/Load/Layout/Segment.antt =====
-- What the checks on one program header of shadps4_load_module give the segment that it adds.
use qemu_dll_shadps.Base.{
  ℕ, zero, suc, ◌+◌, ◌%◌, ◌^◌, ◌≤◌, ◌<◌, ◌≡◌, refl, sym, ap, subst, ◌∙◌, ◌≢◌, ◌⊎◌, inl, inr, Bool,
  true, false, not, ◌&&◌, ◌||◌, some, List, [], ◌∷◌, ◌++◌, leb, ltb, ◌==◌, length, length-append,
  get_elem?, get_elem?-append, All-append, Bool-cases, ok, ◌>>=◌, require, require-eq-ok, or_err,
  or_err-eq-ok, >>=-eq-ok, ok-injective, arith,
}
use qemu_dll_shadps.Loader.Types.{ProgramHeader, ImageSegment, ImageInfo, max_segments}
use qemu_dll_shadps.Loader.Range.{range_valid_iff, add_valid-eq-some}
use qemu_dll_shadps.Loader.Load.Segments.{
  Scan, Plan, scan_dynamic, scan_proc_param, scan_eh_frame, scan_tls, overlaps, segment_place,
  add_segment,
}
use qemu_dll_shadps.Loader.Load.Layout.{IsLoaded, IsEntered, LaidOut, Disjoint-append, overlaps_lem}

-- What segment_place has checked when it returns `addr`.
pub record Placed (plan : Plan) (phdr : ProgramHeader) (image : ImageInfo) (addr : ℕ) : Type 0 where
  pub filled : 0 < phdr.p_memsz
  pub data_fits : phdr.p_filesz ≤ phdr.p_memsz
  pub sum : addr ≡ plan.physical_base + phdr.p_vaddr
  pub unwrapped : phdr.p_vaddr + phdr.p_memsz < 2 ^ 64
  pub below : addr + phdr.p_memsz ≤ plan.physical_limit
  pub room : length image.segments ≢ max_segments
  pub clear : overlaps addr phdr.p_memsz image.segments ≡ false

pub segment_place_lem :
    (plan : Plan) (phdr : ProgramHeader) (image : ImageInfo) {addr : ℕ}
    → plan.physical_base < 2 ^ 64
    → phdr.p_vaddr < 2 ^ 64
    → segment_place plan phdr image ≡ ok addr
    → Placed plan phdr image addr
unfolding segment_place
segment_place_lem plan phdr image {addr} small small' h =
    let (_, r1, h1) = >>=-eq-ok (require _ _) _ h in
    let (a, r2, h2) = >>=-eq-ok (or_err _ _) _ h1 in
    let (b, r3, h3) = >>=-eq-ok (or_err _ _) _ h2 in
    let (_, r4, h4) = >>=-eq-ok (require _ _) _ h3 in
    let (_, r5, h5) = >>=-eq-ok (require _ _) _ h4 in
    let (_, r6, h6) = >>=-eq-ok (require _ _) _ h5 in
    let e : a ≡ addr = ok-injective h6 in
    let t1 : (not (phdr.p_memsz == 0) && leb phdr.p_filesz phdr.p_memsz) ≡ true =
      require-eq-ok _ _ r1 in
    let t2 : (a ≡ plan.physical_base + phdr.p_vaddr) × (a < 2 ^ 64) =
      add_valid-eq-some plan.physical_base phdr.p_vaddr small (or_err-eq-ok _ _ r2) in
    let t3 : (b ≡ phdr.p_vaddr + phdr.p_memsz) × (b < 2 ^ 64) =
      add_valid-eq-some phdr.p_vaddr phdr.p_memsz small' (or_err-eq-ok _ _ r3) in
    let t4 : a + phdr.p_memsz ≤ plan.physical_limit =
      (range_valid_iff a phdr.p_memsz plan.physical_limit).0 (require-eq-ok _ _ r4) in
    let t5 : not (length image.segments == max_segments) ≡ true = require-eq-ok _ _ r5 in
    let t6 : not (overlaps a phdr.p_memsz image.segments) ≡ true = require-eq-ok _ _ r6 in
    record {
      filled = ground arith;
      data_fits = ground arith;
      sum = sym e ∙ t2.0;
      unwrapped = rw (← t3.0) t3.1;
      below = rw (← e) t4;
      room = λ p. no_room p t5;
      clear = ap (λ x. overlaps x phdr.p_memsz image.segments) (sym e) ∙ of_not _ t6;
    }
  where
    no_room : {x y : ℕ} → x ≡ y → not (x == y) ≡ true → ⊥
    no_room p q = ground arith

    of_not : (b : Bool) → not b ≡ true → b ≡ false
    of_not true p = cc
    of_not false p = refl

-- A scan with the same segments, base and answer on the entry point.
pub record SameLayout (a b : Scan) : Type 0 where
  pub segments : b.image.segments ≡ a.image.segments
  pub base : b.image.virtual_base ≡ a.image.virtual_base
  pub entry : b.entry_is_executable ≡ a.entry_is_executable

pub SameLayout-trans : {a b c : Scan} → SameLayout a b → SameLayout b c → SameLayout a c
SameLayout-trans s t = record {
  segments = t.segments ∙ s.segments;
  base = t.base ∙ s.base;
  entry = t.entry ∙ s.entry;
}

pub LaidOut-SameLayout :
    {plan : Plan} {base : ℕ} {a b : Scan}
    → SameLayout a b
    → LaidOut plan base a
    → LaidOut plan base b
LaidOut-SameLayout same h = record {
  count = rw same.segments h.count;
  loaded = rw same.segments h.loaded;
  apart = rw same.segments h.apart;
  entered = rw (same.segments, same.entry) h.entered;
  based = same.base ∙ h.based;
}

SameLayout-refl : (a : Scan) → SameLayout a a
SameLayout-refl a = record { segments = refl; base = refl; entry = refl }

scan_dynamic-SameLayout :
    (i : ℕ) (phdr : ProgramHeader) (a : Scan) {b : Scan}
    → scan_dynamic i phdr a ≡ ok b
    → SameLayout a b
unfolding scan_dynamic
scan_dynamic-SameLayout i phdr a {b} h = record {
  segments = ground arith;
  base = ground arith;
  entry = ground arith;
}

scan_proc_param-SameLayout :
    (phdr : ProgramHeader) (a : Scan) {b : Scan} → scan_proc_param phdr a ≡ ok b → SameLayout a b
unfolding scan_proc_param
scan_proc_param-SameLayout phdr a {b} h = record {
  segments = ground arith;
  base = ground arith;
  entry = ground arith;
}

scan_eh_frame-SameLayout :
    (phdr : ProgramHeader) (a : Scan) {b : Scan} → scan_eh_frame phdr a ≡ ok b → SameLayout a b
unfolding scan_eh_frame
scan_eh_frame-SameLayout phdr a {b} h = record {
  segments = ground arith;
  base = ground arith;
  entry = ground arith;
}

scan_tls-SameLayout :
    (phdr : ProgramHeader) (a : Scan) {b : Scan} → scan_tls phdr a ≡ ok b → SameLayout a b
unfolding scan_tls
scan_tls-SameLayout phdr a {b} h = record {
  segments = ground arith;
  base = ground arith;
  entry = ground arith;
}

-- The checks by type record addresses and sizes, and leave the layout alone.
pub scan-SameLayout :
    (i : ℕ) (phdr : ProgramHeader) (a : Scan) {b : Scan}
    → (scan_dynamic i phdr a >>= scan_proc_param phdr >>= scan_eh_frame phdr >>= scan_tls phdr)
      ≡ ok b
    → SameLayout a b
scan-SameLayout i phdr a {b} h =
    let (s3, h3, e4) = >>=-eq-ok _ (scan_tls phdr) h in
    let (s2, h2, e3) = >>=-eq-ok _ (scan_eh_frame phdr) h3 in
    let (s1, e1, e2) = >>=-eq-ok _ (scan_proc_param phdr) h2 in
    SameLayout-trans
      (SameLayout-trans (scan_dynamic-SameLayout i phdr a e1)
        (scan_proc_param-SameLayout phdr s1 e2))
      (SameLayout-trans (scan_eh_frame-SameLayout phdr s2 e3) (scan_tls-SameLayout phdr s3 e4))

get_elem?-append_left :
    (xs ys : List ImageSegment) (i : ℕ) {x : ImageSegment}
    → get_elem? xs i ≡ some x
    → get_elem? (xs ++ ys) i ≡ some x
get_elem?-append_left [] ys i e = cc
get_elem?-append_left (x ∷ xs) ys zero e = e
get_elem?-append_left (x ∷ xs) ys (suc i) e = get_elem?-append_left xs ys i e

IsEntered-append :
    {plan : Plan} (segments : List ImageSegment) (new : ImageSegment)
    → IsEntered plan segments
    → IsEntered plan (segments ++ new ∷ [])
IsEntered-append segments new h = record {
  place = h.place;
  segment = h.segment;
  listed = get_elem?-append_left segments (new ∷ []) h.place h.listed;
  executable = h.executable;
  starts = h.starts;
  ends = h.ends;
}

-- The segment that add_segment makes.
abbrev segment_at : ProgramHeader → ℕ → ℕ → ImageSegment
segment_at phdr virtual addr = record {
  virtual_addr = virtual;
  physical_addr = addr;
  file_size = phdr.p_filesz;
  memory_size = phdr.p_memsz;
  flags = phdr.p_flags;
}

IsEntered-added :
    (plan : Plan) (phdr : ProgramHeader) (image : ImageInfo) (virtual addr : ℕ)
    → Placed plan phdr image addr
    → (phdr.p_flags % 2 == 1
        && (leb phdr.p_vaddr plan.entry_offset
            && ltb plan.entry_offset ((phdr.p_vaddr + phdr.p_memsz) % 2 ^ 64)))
      ≡ true
    → IsEntered plan (image.segments ++ segment_at phdr virtual addr ∷ [])
IsEntered-added plan phdr image virtual addr p e =
    let sum = p.sum in
    let unwrapped = p.unwrapped in
    let w : (phdr.p_vaddr + phdr.p_memsz) % 2 ^ 64 ≡ phdr.p_vaddr + phdr.p_memsz = omega arith in
    record {
      place = length image.segments;
      segment = segment_at phdr virtual addr;
      listed = get_elem?-append image.segments [] (segment_at phdr virtual addr);
      executable = ground arith;
      starts = ground arith;
      ends = ground arith;
    }

-- A segment that passes the checks on its place keeps the layout.
pub add_segment-LaidOut :
    (plan : Plan) (base : ℕ) (phdr : ProgramHeader) (addr : ℕ) (a : Scan) {b : Scan}
    → base < 2 ^ 64
    → plan.physical_limit < 2 ^ 64
    → Placed plan phdr a.image addr
    → LaidOut plan base a
    → add_segment plan phdr addr a ≡ ok b
    → LaidOut plan base b
unfolding add_segment
add_segment-LaidOut plan base phdr addr a {b} small limit p l h =
    let (virtual, r, e) = >>=-eq-ok (or_err _ _) _ h in
    let small' : a.image.virtual_base < 2 ^ 64 = rw l.based small in
    let v : (virtual ≡ a.image.virtual_base + phdr.p_vaddr) × (virtual < 2 ^ 64) =
      add_valid-eq-some a.image.virtual_base phdr.p_vaddr small' (or_err-eq-ok _ _ r) in
    let mapped : virtual + plan.physical_base ≡ addr + base =
      (let b1 = l.based in let s = p.sum in let v0 = v.0 in omega arith) in
    let new = segment_at phdr virtual addr in
    subst (λ (x : Scan). LaidOut plan base x) (ok-injective e)
      (record {
        count = bounded a.image.segments new l.count p.room;
        loaded = All-append (IsLoaded plan base) a.image.segments (new ∷ []) l.loaded (
          record { filled = p.filled; data_fits = p.data_fits; below = p.below; mapped = mapped },
          tt,
        );
        apart =
            Disjoint-append a.image.segments new
              (overlaps_lem plan base addr phdr.p_memsz a.image.segments new limit refl refl p.below
                l.loaded p.clear)
              l.apart;
        entered = λ t. elim (or_cases t) [
          | inl q ↦ IsEntered-append a.image.segments new (l.entered q)
          | inr q ↦ IsEntered-added plan phdr a.image virtual addr p q
        ];
        based = l.based;
      })
  where
    or_cases : {x y : Bool} → (x || y) ≡ true → (x ≡ true) ⊎ (y ≡ true)
    or_cases {x} {y} t = elim (Bool-cases x) [ inl q ↦ inl q | inr q ↦ inr (ground arith) ]

    bounded :
        (xs : List ImageSegment) (new : ImageSegment)
        → length xs ≤ max_segments
        → length xs ≢ max_segments
        → length (xs ++ new ∷ []) ≤ max_segments
    bounded xs new n r = let s = length-append xs (new ∷ []) in ground arith
