-- ===== src/Loader/Relocate/Counters.antt =====
-- The relocation loop stays inside its buffers, and its counters add up.
use qemu_dll_shadps.Base.{
  ℕ, zero, suc, ◌+◌, ◌*◌, ◌/◌, ◌%◌, ◌^◌, ◌≤◌, ◌<◌, ◌≡◌, refl, ap, ◌∙◌, ◌≢◌, inl, inr, true, false,
  Option, none, some, List, ltb, Bool-cases, subst, length, length-set, All, All-set, set, le_bytes,
  signed64, le_at_in, Result, ok, err, Outcome, done, fail, and_then, arith,
}
use qemu_dll_shadps.Loader.Types.{Error, DynamicInfo, ImageInfo, PendingRelocation, inc32}
use qemu_dll_shadps.Loader.Memory.{AddressSpace}
use qemu_dll_shadps.Loader.Dynamic.{rounds}
use qemu_dll_shadps.Loader.Relocate.{
  ElfSymbol, symbol_at, Rela, rela_at, r_sym, r_type, Resolution, symbol_value, relocation_value,
  relocation_target, push_pending, LoadState, settle, apply_relocation, apply_loop,
  apply_relocations, count_relocation,
}

pub symbol_at_in :
    (bytes : List ℕ) (offset : ℕ)
    → offset + 24 ≤ length bytes
    → (symbol : ElfSymbol) × (symbol_at bytes offset ≡ ok symbol)
unfolding symbol_at
symbol_at_in bytes offset h =
    let (name, p) = le_at_in 4 bytes offset (omega arith) in
    let (info, q) = le_at_in 1 bytes (offset + 4) (omega arith) in
    let (shndx, r) = le_at_in 2 bytes (offset + 6) (omega arith) in
    let (value, t) = le_at_in 8 bytes (offset + 8) (omega arith) in
    (record { st_name = name; st_info = info; st_shndx = shndx; st_value = value }, rw (p, q, r, t))

pub rela_at_in :
    (bytes : List ℕ) (offset : ℕ)
    → offset + 24 ≤ length bytes
    → (rela : Rela) × (rela_at bytes offset ≡ ok rela)
unfolding rela_at
rela_at_in bytes offset h =
    let (r_offset, p) = le_at_in 8 bytes offset (omega arith) in
    let (r_info, q) = le_at_in 8 bytes (offset + 8) (omega arith) in
    let (r_addend, r) = le_at_in 8 bytes (offset + 16) (omega arith) in
    (record { r_offset = r_offset; r_info = r_info; r_addend = signed64 r_addend }, rw (p, q, r))

symbol_value-ne-fault :
    (bytes : List ℕ) (dynamic : DynamicInfo) (image : ImageInfo) (rela : Rela)
    → dynamic.symtab + dynamic.symtabsz ≤ length bytes
    → symbol_value bytes dynamic image rela ≢ err Error.fault
unfolding symbol_value
symbol_value-ne-fault bytes dynamic image rela h e =
    elim (Bool-cases (ltb (r_sym rela) (dynamic.symtabsz / 24))) [
      | inr out ↦ cc (rw out at e)
      | inl in' ↦
          let (symbol, p) = symbol_at_in bytes (dynamic.symtab + r_sym rela * 24) (ground arith) in
          ground arith
    ]

relocation_value-ne-fault :
    (bytes : List ℕ) (dynamic : DynamicInfo) (image : ImageInfo) (rela : Rela)
    → dynamic.symtab + dynamic.symtabsz ≤ length bytes
    → relocation_value bytes dynamic image rela ≢ err Error.fault
unfolding relocation_value
relocation_value-ne-fault bytes dynamic image rela h e =
    ground (arith, symbol_value-ne-fault bytes dynamic image rela h)

-- The image before `n` more relocations: there is room for as many pending ones, no counter can
-- wrap, every relocation so far is counted once, and each unresolved one is listed.
pub record Counted (n : ℕ) (image : ImageInfo) : Type 0 where
  pub room : image.pending_relocation_count + n ≤ length image.pending_relocations
  pub room_small : length image.pending_relocations < 2 ^ 32
  pub small : image.relocation_count + n < 2 ^ 32
  pub balance :
      image.relocation_count ≡ image.applied_relocation_count + image.unresolved_relocation_count
  pub listed : image.unresolved_relocation_count ≡ image.pending_relocation_count
  pub fresh : All (λ (p : PendingRelocation). p.applied ≡ false) image.pending_relocations

-- What a run over `n` relocations may come to.
abbrev pub Relocated :
    {M : Type 0} → ℕ → ℕ → ImageInfo → Outcome Error (LoadState M) (Unit {0}) → Type 0
Relocated n left image (done _ s') =
    Counted left s'.image
    × (s'.image.relocation_count ≡ image.relocation_count + n)
    × (s'.image.symbols ≡ image.symbols)
    × (s'.image.symbol_count ≡ image.symbol_count)
Relocated n left image (fail e s') = e ≢ Error.fault

push_pending_at :
    (image : ImageInfo) (pending : PendingRelocation)
    → ltb image.pending_relocation_count (length image.pending_relocations) ≡ true
    → push_pending image pending
      ≡ ok (record image {
        pending_relocations = set image.pending_relocations image.pending_relocation_count pending;
        pending_relocation_count = inc32 image.pending_relocation_count;
        unresolved_relocation_count = inc32 image.unresolved_relocation_count;
      })
unfolding push_pending
push_pending_at image pending room = rw room

module _ {M : Type 0} (as' : AddressSpace M) where
  settle-Relocated :
      (n : ℕ) (rela : Rela) (physical : ℕ) (resolution : Resolution) (m : M) (image : ImageInfo)
      → Counted (suc n) image
      → Relocated 1 n image (
          settle as' rela physical resolution
            (record { memory = m; image = count_relocation image }))
  unfolding settle
  settle-Relocated n rela physical (Resolution.value v) m image c =
      elim (Bool-cases (as'.write m physical (le_bytes 8 v)).0) [
        | inl stored ↦ rw stored (ground arith)
        | inr lost ↦ rw lost (λ x. cc)
      ]
  settle-Relocated n rela physical (Resolution.postpone weak) m image c =
      let pending : PendingRelocation = record {
        physical_addr = physical;
        addend = rela.r_addend;
        symbol_index = r_sym rela;
        type = r_type rela;
        weak = weak;
        applied = false;
      } in
      let room : ltb image.pending_relocation_count (length image.pending_relocations) ≡ true =
        ground arith in
      let longer = length-set image.pending_relocations image.pending_relocation_count pending in
      rw (push_pending_at (count_relocation image) pending room, Relocated)
        (
          record {
            room = omega (arith, longer);
            room_small = omega (arith, longer);
            small = omega arith;
            balance = omega arith;
            listed = omega arith;
            fresh =
                All-set (λ (p : PendingRelocation). p.applied ≡ false) image.pending_relocations
                  image.pending_relocation_count pending c.fresh refl;
          },
          omega arith,
          refl,
          refl,
        )

  apply_relocation-Relocated :
      (n : ℕ) (bytes : List ℕ) (dynamic : DynamicInfo) (rela : Rela) (s : LoadState M)
      → dynamic.symtab + dynamic.symtabsz ≤ length bytes
      → Counted (suc n) s.image
      → Relocated 1 n s.image (apply_relocation as' bytes dynamic rela s)
  unfolding apply_relocation
  apply_relocation-Relocated n bytes dynamic rela s h c =
      target (relocation_target image rela.r_offset) (relocation_value bytes dynamic image rela)
        (relocation_value-ne-fault bytes dynamic image rela h)
    where
      image : ImageInfo
      image = count_relocation s.image

      s' : LoadState M
      s' = record s { image = image }

      target :
          (place : Option ℕ) (resolution : Result Error Resolution)
          → resolution ≢ err Error.fault
          → Relocated 1 n s.image (elim place [
            | none ↦ fail Error.relocation_outside s'
            | some physical ↦ elim resolution [
              | err e ↦ fail e s'
              | ok r ↦ settle as' rela physical r s'
            ]
          ])
      target none resolution ne = λ x. cc
      target (some physical) (err e) ne = λ x. ne (ap err x)
      target (some physical) (ok r) ne = settle-Relocated n rela physical r s.memory s.image c

  Relocated-then :
      (n left : ℕ) (first : ImageInfo) (step : Outcome Error (LoadState M) (Unit {0}))
      (rest : LoadState M → Outcome Error (LoadState M) (Unit {0}))
      → Relocated 1 (n + left) first step
      → ((s' : LoadState M) → Counted (n + left) s'.image → Relocated n left s'.image (rest s'))
      → Relocated (suc n) left first (and_then step (λ _ s'. rest s'))
  Relocated-then n left first (fail e s') rest r k = r
  Relocated-then n left first (done _ s') rest r k = add (rest s') (k s' r.0)
    where
      add :
          (o : Outcome Error (LoadState M) (Unit {0}))
          → Relocated n left s'.image o
          → Relocated (suc n) left first o
      add (done _ t) q = (q.0, omega (arith, q.1, r.1), q.2 ∙ r.2, q.3 ∙ r.3)
      add (fail e t) q = q

  apply_loop-Relocated :
      (n left : ℕ) (bytes : List ℕ) (offset : ℕ) (dynamic : DynamicInfo) (s : LoadState M)
      → offset + 24 * n ≤ length bytes
      → dynamic.symtab + dynamic.symtabsz ≤ length bytes
      → Counted (n + left) s.image
      → Relocated n left s.image (apply_loop as' n bytes offset dynamic s)
  unfolding apply_loop
  apply_loop-Relocated zero left bytes offset dynamic s h k c =
      (subst (λ m. Counted m s.image) (omega arith) c, omega arith, refl, refl)
  apply_loop-Relocated (suc n) left bytes offset dynamic s h k c =
      let (rela, p) = rela_at_in bytes offset (omega arith) in
      let c' = subst (λ m. Counted m s.image) {y = suc (n + left)} (omega arith) c in
      rw (p, apply_loop)
        (Relocated-then n left s.image (apply_relocation as' bytes dynamic rela s)
          (λ s'. apply_loop as' n bytes (offset + 24) dynamic s')
          (apply_relocation-Relocated (n + left) bytes dynamic rela s k c')
          (λ s' d. apply_loop-Relocated n left bytes (offset + 24) dynamic s' (omega arith) k d))

  -- A relocation table of whole entries and a symbol table, both inside the buffer, and an image whose
  -- counters are true and which has room for the table's relocations as pending ones:
  -- shadps4_apply_relocations reads and writes no buffer out of bounds, and where it succeeds it
  -- has counted every entry once, as applied or as unresolved, each unresolved one being listed.
  -- `left` more relocations still have room afterwards. The symbols are left alone.
  pub apply_relocations_lem :
      (left : ℕ) (bytes : List ℕ) (table table_size : ℕ) (dynamic : DynamicInfo) (s : LoadState M)
      → table_size % 24 ≡ 0
      → table + table_size ≤ length bytes
      → dynamic.symtab + dynamic.symtabsz ≤ length bytes
      → Counted (table_size / 24 + left) s.image
      → Relocated
          (table_size / 24)
          left
          s.image
          (apply_relocations as' bytes table table_size dynamic s)
  unfolding apply_relocations
  apply_relocations_lem left bytes table table_size dynamic s whole h k c =
      let e : table_size / 24 ≡ rounds table_size 24 = omega arith in
      rw e (
        apply_loop-Relocated (rounds table_size 24) left bytes table dynamic s (omega arith) k
          (rw e at c))
