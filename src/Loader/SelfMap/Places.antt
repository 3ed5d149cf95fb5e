-- ===== src/Loader/SelfMap/Places.antt =====
-- The offsets that the SELF segment table yields.
use qemu_dll_shadps.Base.{
  ℕ, suc, ◌+◌, ◌-◌, ◌^◌, ◌≤◌, ◌<◌, ◌≡◌, refl, ◌⊎◌, inl, inr, true, false, none, some, List, [], ◌∷◌,
  ◌==◌, ==_iff, Bool-cases, Option-cases, if◌then◌else◌, get_elem?, All, sym, ◌∙◌, ok, err, arith,
}
use qemu_dll_shadps.Loader.Types.{Error, SelfSegment, ProgramHeader}
use qemu_dll_shadps.Loader.Range.{range_valid, add_valid}
use qemu_dll_shadps.Loader.SelfMap.{
  is_blocked, is_protected, header_id, self_segment_offset, covers, range_in_segment, range_loop,
  self_range_offset,
}

-- The first data segment of the table for a program header.
pub data SegmentFor (index : ℕ) : List SelfSegment → SelfSegment → Type 0 where
  here :
      {rest : List SelfSegment} (segment : SelfSegment)
      → is_blocked segment.flags ≡ true
      → header_id segment.flags ≡ index
      → SegmentFor index (segment ∷ rest) segment
  next :
      {rest : List SelfSegment} {found : SelfSegment} (segment : SelfSegment)
      → (is_blocked segment.flags ≡ false) ⊎ ((header_id segment.flags == index) ≡ false)
      → SegmentFor index rest found
      → SegmentFor index (segment ∷ rest) found

-- What a success of `self_segment_offset` means.
abbrev pub SegmentOffset : List SelfSegment → ℕ → ℕ → ℕ → Type 0
SegmentOffset segments index size offset =
    (segment : SelfSegment) × SegmentFor index segments segment
    × (is_protected segment.flags ≡ false)
    × (size ≤ segment.file_size)
    × (offset ≡ segment.file_offset)

SegmentOffset-next :
    (segment : SelfSegment) (rest : List SelfSegment) (index size offset : ℕ)
    → (is_blocked segment.flags ≡ false) ⊎ ((header_id segment.flags == index) ≡ false)
    → SegmentOffset rest index size offset
    → SegmentOffset (segment ∷ rest) index size offset
SegmentOffset-next segment rest index size offset other (found, at, plain, fits, e) =
    (found, next segment other at, plain, fits, e)

-- An offset that `self_segment_offset` returns is that of the first data segment for the header,
-- which is neither encrypted nor compressed and holds as many bytes as the header wants.
pub self_segment_offset_lem :
    (segments : List SelfSegment) (index size : ℕ) {offset : ℕ}
    → self_segment_offset segments index size ≡ ok offset
    → SegmentOffset segments index size offset
unfolding self_segment_offset
self_segment_offset_lem [] index size e = cc
self_segment_offset_lem (segment ∷ rest) index size {offset} e =
    elim (Bool-cases (is_blocked segment.flags)) [
      | inr free ↦
          SegmentOffset-next segment rest index size offset (inl free)
            (self_segment_offset_lem rest index size (ground arith))
      | inl blocked ↦ elim (Bool-cases (header_id segment.flags == index)) [
        | inr other ↦
            SegmentOffset-next segment rest index size offset (inr other)
              (self_segment_offset_lem rest index size (ground arith))
        | inl same ↦ (
          segment,
          here segment blocked ((==_iff _ _).0 same),
          ground arith,
          ground arith,
          ground arith,
        )
      ]
    ]

-- `offset` is the place in the container of the range that starts at `file_offset` in the ELF
-- file: a plain data segment, and the header that it names, both hold the whole range, and the
-- distance from the start is the same in both.
pub record IsPlaced (segments : List SelfSegment) (phdrs : List ProgramHeader)
    (file_offset file_size offset : ℕ) : Type 0 where
  pub place : ℕ
  pub segment : SelfSegment
  pub phdr : ProgramHeader
  pub listed : get_elem? segments place ≡ some segment
  pub names : get_elem? phdrs (header_id segment.flags) ≡ some phdr
  pub data_segment : is_blocked segment.flags ≡ true
  pub plain : is_protected segment.flags ≡ false
  pub starts : phdr.p_offset ≤ file_offset
  pub ends : file_offset + file_size ≤ phdr.p_offset + phdr.p_filesz
  pub shifts : offset + phdr.p_offset ≡ segment.file_offset + file_offset
  pub within : offset + file_size ≤ segment.file_offset + segment.file_size

IsPlaced-next :
    (segment : SelfSegment) (segments : List SelfSegment) (phdrs : List ProgramHeader) (f n o : ℕ)
    → IsPlaced segments phdrs f n o
    → IsPlaced (segment ∷ segments) phdrs f n o
IsPlaced-next segment segments phdrs f n o p = record {
  place = suc p.place;
  segment = p.segment;
  phdr = p.phdr;
  listed = p.listed;
  names = p.names;
  data_segment = p.data_segment;
  plain = p.plain;
  starts = p.starts;
  ends = p.ends;
  shifts = p.shifts;
  within = p.within;
}

range_in_segment_lem :
    (segment : SelfSegment) (relative size : ℕ) {offset : ℕ}
    → segment.file_offset < 2 ^ 64
    → range_in_segment segment relative size ≡ ok offset
    → (is_protected segment.flags ≡ false)
      × (relative + size ≤ segment.file_size)
      × (offset ≡ segment.file_offset + relative)
unfolding range_in_segment range_valid add_valid
range_in_segment_lem segment relative size small e = ground arith

covers_lem :
    (phdr : ProgramHeader) (f n : ℕ)
    → covers phdr f n ≡ true
    → (phdr.p_offset ≤ f) × (f + n ≤ phdr.p_offset + phdr.p_filesz)
unfolding range_valid
covers_lem phdr f n e = ground arith

-- One round of the loop at a data segment whose header exists.
range_loop_at :
    (segment : SelfSegment) (rest : List SelfSegment) (phdrs : List ProgramHeader) (f n : ℕ)
    (phdr : ProgramHeader)
    → is_blocked segment.flags ≡ true
    → get_elem? phdrs (header_id segment.flags) ≡ some phdr
    → range_loop (segment ∷ rest) phdrs f n ≡ (
        if covers phdr f n
        then range_in_segment segment (f - phdr.p_offset) n
        else range_loop rest phdrs f n)
unfolding range_loop
range_loop_at segment rest phdrs f n phdr blocked named = rw (blocked, named)

range_loop_bad :
    (segment : SelfSegment) (rest : List SelfSegment) (phdrs : List ProgramHeader) (f n : ℕ)
    → is_blocked segment.flags ≡ true
    → get_elem? phdrs (header_id segment.flags) ≡ none
    → range_loop (segment ∷ rest) phdrs f n ≡ err Error.segment_bad_header
unfolding range_loop
range_loop_bad segment rest phdrs f n blocked missing = rw (blocked, missing)

-- The loop's result at a segment that covers the range.
IsPlaced-here :
    (segment : SelfSegment) (rest : List SelfSegment) (phdrs : List ProgramHeader) (f n : ℕ)
    (phdr : ProgramHeader) {offset : ℕ}
    → segment.file_offset < 2 ^ 64
    → is_blocked segment.flags ≡ true
    → get_elem? phdrs (header_id segment.flags) ≡ some phdr
    → covers phdr f n ≡ true
    → range_in_segment segment (f - phdr.p_offset) n ≡ ok offset
    → IsPlaced (segment ∷ rest) phdrs f n offset
IsPlaced-here segment rest phdrs f n phdr small blocked named in' e =
    let (low, high) = covers_lem phdr f n in' in
    let (plain, fits, at) = range_in_segment_lem segment (f - phdr.p_offset) n small e in
    record {
      place = 0;
      segment = segment;
      phdr = phdr;
      listed = refl;
      names = named;
      data_segment = blocked;
      plain = plain;
      starts = low;
      ends = high;
      shifts = omega arith;
      within = omega arith;
    }

range_loop_lem :
    (segments : List SelfSegment) (phdrs : List ProgramHeader) (f n : ℕ) {offset : ℕ}
    → All (λ s. s.file_offset < 2 ^ 64) segments
    → range_loop segments phdrs f n ≡ ok offset
    → IsPlaced segments phdrs f n offset
unfolding range_loop
range_loop_lem [] phdrs f n small e = cc
range_loop_lem (segment ∷ rest) phdrs f n {offset} small e =
    elim (Bool-cases (is_blocked segment.flags)) [
      | inr free ↦
          IsPlaced-next segment rest phdrs f n offset
            (range_loop_lem rest phdrs f n small.1 (rw free at e))
      | inl blocked ↦ elim (Option-cases (get_elem? phdrs (header_id segment.flags))) [
        | inl missing ↦ cc (range_loop_bad segment rest phdrs f n blocked missing)
        | inr (phdr, named) ↦
            let at = range_loop_at segment rest phdrs f n phdr blocked named in
            elim (Bool-cases (covers phdr f n)) [
              | inr out ↦
                  IsPlaced-next segment rest phdrs f n offset
                    (range_loop_lem rest phdrs f n small.1 (rw out at (sym at ∙ e)))
              | inl in' ↦
                  IsPlaced-here segment rest phdrs f n phdr small.0 blocked named in'
                    (rw in' at (sym at ∙ e))
            ]
      ]
    ]

-- Let the segments' file offsets be 64-bit numbers. An offset that the SELF lookup of a range returns
-- is the place of that very range: it lies in a plain
-- data segment, at the distance from the segment's start that the range has from the start of the
-- program header that the segment carries, and the whole range lies in both.
pub self_range_offset_lem :
    (segments : List SelfSegment) (phdrs : List ProgramHeader) (f n : ℕ) {offset : ℕ}
    → All (λ s. s.file_offset < 2 ^ 64) segments
    → self_range_offset segments phdrs f n ≡ ok offset
    → IsPlaced segments phdrs f n offset
unfolding self_range_offset
self_range_offset_lem segments phdrs f n small e = elim (Option-cases (add_valid f n)) [
  | inl over ↦ cc
  | inr (stop, fits) ↦ range_loop_lem segments phdrs f n small (ground arith)
]
