-- ===== src/Loader/Relocate/Frame.antt =====
-- Which bytes of guest memory relocation writes.
use qemu_dll_shadps.Base.{
  ℕ, zero, suc, ◌+◌, ◌^◌, ◌≤◌, ◌<◌, ◌≡◌, refl, ◌∙◌, ◌⊎◌, inl, inr, Option, none, some, List,
  Bool-cases, All, All-get_elem?, le_bytes, length-le_bytes, Result, ok, err, Outcome, done, fail,
  and_then, arith,
}
use qemu_dll_shadps.Loader.Types.{Error, DynamicInfo, ImageSegment, ImageInfo, PendingRelocation}
use qemu_dll_shadps.Loader.Memory.{AddressSpace, IsMemory}
use qemu_dll_shadps.Loader.Dynamic.{rounds}
use qemu_dll_shadps.Loader.Relocate.{
  Rela, rela_at, Resolution, relocation_value, relocation_target, push_pending, LoadState, settle,
  apply_relocation, apply_loop, apply_relocations, count_relocation,
}
use qemu_dll_shadps.Loader.Relocate.Target.{IsPhysical, InSegments, relocation_target_lem}

-- The address lies in none of the segments.
abbrev pub Outside : ℕ → List ImageSegment → Type 0
Outside x = All λ (segment : ImageSegment).
    (x < segment.physical_addr) ⊎ (segment.physical_addr + segment.memory_size ≤ x)

-- The state that a run ends in, whether it succeeds or fails.
abbrev pub final : {M : Type 0} → Outcome Error (LoadState M) (Unit {0}) → LoadState M
final (done _ s) = s
final (fail e s) = s

InSegments-Outside :
    (segments : List ImageSegment) (virtual physical x : ℕ)
    → InSegments segments virtual physical
    → Outside x segments
    → (x < physical) ⊎ (physical + 8 ≤ x)
InSegments-Outside segments virtual physical x (place, segment, at, holds) out =
    let o =
      All-get_elem?
        (λ (s : ImageSegment). (x < s.physical_addr) ⊎ (s.physical_addr + s.memory_size ≤ x))
        segments place out at in
    omega arith

push_pending_keeps :
    (image : ImageInfo) (pending : PendingRelocation) {after : ImageInfo}
    → push_pending image pending ≡ ok after
    → (after.segments ≡ image.segments) × (after.virtual_base ≡ image.virtual_base)
unfolding push_pending
push_pending_keeps image pending e = (ground arith, ground arith)

module _ {M : Type 0} (as' : AddressSpace M) (peek : M → ℕ → ℕ) (memory : IsMemory as' peek) where
  -- Segments and base are as before, and so is every byte outside the segments.
  pub record Kept (s t : LoadState M) : Type 0 where
    pub segments : t.image.segments ≡ s.image.segments
    pub base : t.image.virtual_base ≡ s.image.virtual_base
    pub bytes : (x : ℕ) → Outside x s.image.segments → peek t.memory x ≡ peek s.memory x

  Kept-trans : {s t u : LoadState M} → Kept s t → Kept t u → Kept s u
  Kept-trans k l = record {
    segments = l.segments ∙ k.segments;
    base = l.base ∙ k.base;
    bytes = λ x out. l.bytes x (rw k.segments out) ∙ k.bytes x out;
  }

  settle-Kept :
      (rela : Rela) (physical virtual : ℕ) (resolution : Resolution) (s : LoadState M)
      → InSegments s.image.segments virtual physical
      → Kept s (final (settle as' rela physical resolution s))
  unfolding settle
  settle-Kept rela physical virtual (Resolution.value v) s h =
      let frame = λ (x : ℕ) (out : Outside x s.image.segments).
        memory.write_frame s.memory physical (le_bytes 8 v) x (
          rw (length-le_bytes 8 v)
            (InSegments-Outside s.image.segments virtual physical x h out)) in
      elim (Bool-cases (as'.write s.memory physical (le_bytes 8 v)).0) [
        | inl stored ↦ rw stored (record { segments = refl; base = refl; bytes = frame })
        | inr lost ↦ rw lost (record { segments = refl; base = refl; bytes = frame })
      ]
  settle-Kept rela physical virtual (Resolution.postpone weak) s h =
      listed (push_pending s.image _) (λ image e. push_pending_keeps s.image _ e)
    where
      listed :
          (r : Result Error ImageInfo)
          → ((image : ImageInfo)
              → r ≡ ok image
              → (image.segments ≡ s.image.segments) × (image.virtual_base ≡ s.image.virtual_base))
          → Kept s (
              final (elim r [ err e ↦ fail e s | ok image ↦ done tt (record s { image = image }) ]))
      listed (err e) k = record { segments = refl; base = refl; bytes = λ x out. refl }
      listed (ok image) k =
          let (a, b) = k image refl in record { segments = a; base = b; bytes = λ x out. refl }

  apply_relocation-Kept :
      (bytes : List ℕ) (dynamic : DynamicInfo) (rela : Rela) (s : LoadState M)
      → s.image.virtual_base < 2 ^ 64
      → All IsPhysical s.image.segments
      → Kept s (final (apply_relocation as' bytes dynamic rela s))
  unfolding apply_relocation
  apply_relocation-Kept bytes dynamic rela s small ok' =
      target (relocation_target image rela.r_offset)
        (λ p e. relocation_target_lem image rela.r_offset small ok' e)
        (relocation_value bytes dynamic image rela)
    where
      image : ImageInfo
      image = count_relocation s.image

      s' : LoadState M
      s' = record s { image = image }

      counted : Kept s s'
      counted = record { segments = refl; base = refl; bytes = λ x out. refl }

      target :
          (place : Option ℕ)
          → ((p : ℕ)
              → place ≡ some p
              → InSegments image.segments (image.virtual_base + rela.r_offset) p)
          → (resolution : Result Error Resolution)
          → Kept s (
              final (elim place [
                | none ↦ fail Error.relocation_outside s'
                | some physical ↦ elim resolution [
                  | err e ↦ fail e s'
                  | ok r ↦ settle as' rela physical r s'
                ]
              ]))
      target none h resolution = counted
      target (some physical) h (err e) = counted
      target (some physical) h (ok r) =
          Kept-trans counted
            (settle-Kept rela physical (image.virtual_base + rela.r_offset) r s' (h physical refl))

  Kept-then :
      (s : LoadState M) (step : Outcome Error (LoadState M) (Unit {0}))
      (rest : LoadState M → Outcome Error (LoadState M) (Unit {0}))
      → Kept s (final step)
      → ((s' : LoadState M) → Kept s s' → Kept s' (final (rest s')))
      → Kept s (final (and_then step (λ _ s'. rest s')))
  Kept-then s (fail e s') rest k l = k
  Kept-then s (done _ s') rest k l = Kept-trans k (l s' k)

  apply_loop-Kept :
      (n : ℕ) (bytes : List ℕ) (offset : ℕ) (dynamic : DynamicInfo) (s : LoadState M)
      → s.image.virtual_base < 2 ^ 64
      → All IsPhysical s.image.segments
      → Kept s (final (apply_loop as' n bytes offset dynamic s))
  unfolding apply_loop
  apply_loop-Kept zero bytes offset dynamic s small ok' = record {
    segments = refl;
    base = refl;
    bytes = λ x out. refl;
  }
  apply_loop-Kept (suc n) bytes offset dynamic s small ok' = read (rela_at bytes offset) (λ s' k.
      apply_loop-Kept n bytes (offset + 24) dynamic s' (rw k.base small) (rw k.segments ok'))
    where
      read :
          (r : Result Error Rela)
          → ((s' : LoadState M)
              → Kept s s'
              → Kept s' (final (apply_loop as' n bytes (offset + 24) dynamic s')))
          → Kept s (
              final (elim r [
                | err e ↦ fail e s
                | ok rela ↦
                    and_then
                      (apply_relocation as' bytes dynamic rela s)
                      (λ _ s'. apply_loop as' n bytes (offset + 24) dynamic s')
              ]))
      read (err e) k = record { segments = refl; base = refl; bytes = λ x out. refl }
      read (ok rela) k =
          Kept-then s (apply_relocation as' bytes dynamic rela s)
            (λ s'. apply_loop as' n bytes (offset + 24) dynamic s')
            (apply_relocation-Kept bytes dynamic rela s small ok') k

  pub apply_relocations-Kept :
      (bytes : List ℕ) (table table_size : ℕ) (dynamic : DynamicInfo) (s : LoadState M)
      → s.image.virtual_base < 2 ^ 64
      → All IsPhysical s.image.segments
      → Kept s (final (apply_relocations as' bytes table table_size dynamic s))
  unfolding apply_relocations
  apply_relocations-Kept bytes table table_size dynamic s small ok' =
      apply_loop-Kept (rounds table_size 24) bytes table dynamic s small ok'

  -- Let the base be a 64-bit number and no segment wrap round the physical address space. Relocating
  -- a module writes no byte of guest memory outside the module's loaded segments, not even where it
  -- fails half way, and leaves the segments and the base of the image alone.
  pub apply_relocations_frame :
      (bytes : List ℕ) (table table_size : ℕ) (dynamic : DynamicInfo) (s : LoadState M) (x : ℕ)
      → s.image.virtual_base < 2 ^ 64
      → All IsPhysical s.image.segments
      → Outside x s.image.segments
      → let t = final (apply_relocations as' bytes table table_size dynamic s) in
        (peek t.memory x ≡ peek s.memory x)
        × (t.image.segments ≡ s.image.segments)
        × (t.image.virtual_base ≡ s.image.virtual_base)
  apply_relocations_frame bytes table table_size dynamic s x small ok' out =
      let k = apply_relocations-Kept bytes table table_size dynamic s small ok' in
      (k.bytes x out, k.segments, k.base)
