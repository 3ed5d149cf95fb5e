-- ===== src/Gpu/Execute/Ends.antt =====
-- How the handlers of single packets end.
use qemu_dll_shadps.Base.{
  ℕ, zero, suc, ◌+◌, ◌-◌, ◌*◌, ◌/◌, ◌%◌, ◌^◌, ◌≢◌, not, inl, inr, min, Bool, true, false, ◌&&◌,
  ◌||◌, Option, none, some, List, [], ◌∷◌, ltb, ◌==◌, if◌then◌else◌, length, take, Bool-cases,
  le_bytes, done, fail, and_then,
}
use qemu_dll_shadps.Gpu.Packets.{Reason, IsReported}
use qemu_dll_shadps.Gpu.Flatten.{guest_read}
use qemu_dll_shadps.Gpu.Guest.{GuestMemory, guest_write}
use qemu_dll_shadps.Gpu.Execute.{
  Executes, reject, join, max_dma_size, checked_write, write_words, write_data, fill_loop,
  copy_guest, dma_data, event_write_eop,
}

abbrev pub EndsAs : {M : Type 0} → (M → Type 0) → Executes M → Type 0
EndsAs I (done a m) = I m
EndsAs I (fail e m) = IsReported e × I m

-- The end of an execution: an error is one of the source's, and the memory is as `I` says.
pub record Ends {M : Type 0} (I : M → Type 0) (x : Executes M) : Type 0 where
  pub ends : EndsAs I x

pub done-Ends : {M : Type 0} {I : M → Type 0} {m : M} → I m → Ends I (done tt m)
done-Ends h = record { ends = h }

pub reject-Ends :
    {M : Type 0} {I : M → Type 0} (offset header : ℕ) (reason : Reason) (m : M)
    → reason ≢ Reason.fault
    → reason ≢ Reason.out_of_fuel
    → I m
    → Ends I (reject offset header reason m)
reject-Ends offset header reason m p q h = record { ends = ((p, q), h) }

pub Ends-if :
    {M : Type 0} {I : M → Type 0} (b : Bool) (x y : Executes M)
    → Ends I x
    → Ends I y
    → Ends I (if b then x else y)
Ends-if true x y h k = h
Ends-if false x y h k = k

pub Ends-then :
    {M : Type 0} {I : M → Type 0} (x : Executes M) (next : Unit {0} → M → Executes M)
    → Ends I x
    → ((m : M) → I m → Ends I (next tt m))
    → Ends I (and_then x next)
Ends-then (done tt m) next h k = k m h.ends
Ends-then (fail e m) next h k = record { ends = h.ends }

module _ {M : Type 0} (guest : GuestMemory M) (I : M → Type 0)
    (kept : (m : M) (a : ℕ) (bs : List ℕ) → I m → I (guest.write m a bs).1) where
  guest_write-kept : (m : M) (a : ℕ) (bs : List ℕ) → I m → I (guest_write guest m a bs).1
  unfolding guest_write
  guest_write-kept m a bs h = elim (Bool-cases (length bs == 0)) [
    | inl empty ↦ rw empty h
    | inr some' ↦ elim (Bool-cases (a == 0 || ltb (2 ^ 64 - 1 - (length bs - 1)) a)) [
      | inl bad ↦ rw (some', bad) h
      | inr good ↦ rw (some', good) (kept m a bs h)
    ]
  ]

  checked_write-Ends :
      (offset header : ℕ) (reason : Reason) (a : ℕ) (bs : List ℕ) (m : M)
      → reason ≢ Reason.fault
      → reason ≢ Reason.out_of_fuel
      → I m
      → Ends I (checked_write guest offset header reason a bs m)
  checked_write-Ends offset header reason a bs m p q h =
      let after = guest_write-kept m a bs h in
      Ends-if (guest_write guest m a bs).0 _ _ (done-Ends after)
        (reject-Ends offset header reason _ p q after)

  write_words-Ends :
      (offset header : ℕ) (one_address : Bool) (address i : ℕ) (values : List ℕ) (m : M)
      → I m
      → Ends I (write_words guest offset header one_address address i values m)
  unfolding write_words
  write_words-Ends offset header one_address address i [] m h = done-Ends h
  write_words-Ends offset header one_address address i (value ∷ rest) m h =
      Ends-then _ (λ _ m'. write_words guest offset header one_address address (i + 1) rest m')
        (checked_write-Ends offset header Reason.write_data_memory
          ((address + (if one_address then 0 else i * 4)) % 2 ^ 64) (le_bytes 4 value) m (λ e. cc)
          (λ e. cc) h)
        (λ m' k. write_words-Ends offset header one_address address (i + 1) rest m' k)

  pub write_data-Ends :
      (offset header : ℕ) (payload : List ℕ) (m : M)
      → I m
      → Ends I (write_data guest offset header payload m)
  unfolding write_data
  write_data-Ends offset header [] m h = done-Ends h
  write_data-Ends offset header (a ∷ []) m h = done-Ends h
  write_data-Ends offset header (a ∷ b ∷ []) m h = done-Ends h
  write_data-Ends offset header (a ∷ b ∷ c ∷ []) m h = done-Ends h
  write_data-Ends offset header (control ∷ low ∷ high ∷ value ∷ rest) m h =
      Ends-if _ _ _ (reject-Ends offset header _ m (λ e. cc) (λ e. cc) h) (
        write_words-Ends offset header (control / 2 ^ 16 % 2 == 1) (join low high) 0 (value ∷ rest)
          m h)

  fill_loop-Ends :
      (n offset header destination value finished size : ℕ) (m : M)
      → I m
      → Ends I (fill_loop guest n offset header destination value finished size m)
  unfolding fill_loop
  fill_loop-Ends zero offset header destination value finished size m h = done-Ends h
  fill_loop-Ends (suc n) offset header destination value finished size m h =
      Ends-then _
        (λ _ m'.
          fill_loop guest n offset header destination value (finished + min 4 (size - finished))
            size m')
        (checked_write-Ends offset header Reason.dma_fill_memory ((destination + finished) % 2 ^ 64)
          (take (min 4 (size - finished)) (le_bytes 4 value)) m (λ e. cc) (λ e. cc) h)
        (λ m' k.
          fill_loop-Ends n offset header destination value (finished + min 4 (size - finished)) size
            m' k)

  copy_guest-kept :
      (m : M) (destination source size : ℕ) → I m → I (copy_guest guest m destination source size).1
  unfolding copy_guest
  copy_guest-kept m destination source size h = elim (Bool-cases (size == 0)) [
    | inl empty ↦ rw empty h
    | inr some' ↦ elim (Bool-cases (ltb max_dma_size size || (destination == 0 || source == 0))) [
      | inl bad ↦ rw (some', bad) h
      | inr good ↦ rw (some', good) (at (guest_read (guest.read m) source size))
    ]
  ]
    where
      at :
          (r : Option (List ℕ))
          → let out : Bool × M = elim r [
            | none ↦ (false, m)
            | some buffer ↦ guest_write guest m destination buffer
          ] in
            I out.1
      at none = h
      at (some buffer) = guest_write-kept m destination buffer h

  pub dma_data-Ends :
      (offset header : ℕ) (payload : List ℕ) (m : M)
      → I m
      → Ends I (dma_data guest offset header payload m)
  unfolding dma_data
  dma_data-Ends offset header [] m h = done-Ends h
  dma_data-Ends offset header (a ∷ []) m h = done-Ends h
  dma_data-Ends offset header (a ∷ b ∷ []) m h = done-Ends h
  dma_data-Ends offset header (a ∷ b ∷ c ∷ []) m h = done-Ends h
  dma_data-Ends offset header (a ∷ b ∷ c ∷ d ∷ []) m h = done-Ends h
  dma_data-Ends offset header (a ∷ b ∷ c ∷ d ∷ e ∷ []) m h = done-Ends h
  dma_data-Ends offset header (control ∷ s0 ∷ s1 ∷ d0 ∷ d1 ∷ count ∷ rest) m h =
      let size = count % 2 ^ 21 in
      let after = copy_guest-kept m (join d0 d1) (join s0 s1) size h in
      Ends-if (d0 == 0x3022c) _ _ (done-Ends h) (
        Ends-if
          (not (control / 2 ^ 20 % 4 == 0) && not (control / 2 ^ 20 % 4 == 3)
            || ltb max_dma_size (count % 2 ^ 21))
          _ _ (reject-Ends offset header Reason.dma_destination_or_size m (λ e. cc) (λ e. cc) h)
          (Ends-if (control / 2 ^ 29 % 4 == 2) _ _
            (fill_loop-Ends ((size + 3) / 4) offset header (join d0 d1) s0 0 size m h)
            (Ends-if (control / 2 ^ 29 % 4 == 0 || control / 2 ^ 29 % 4 == 3) _ _
              (Ends-if (copy_guest guest m (join d0 d1) (join s0 s1) (count % 2 ^ 21)).0 _ _
                (done-Ends after)
                (reject-Ends offset header Reason.dma_copy_memory _ (λ e. cc) (λ e. cc) after))
              (reject-Ends offset header Reason.dma_source m (λ e. cc) (λ e. cc) h))))

  pub event_write_eop-Ends :
      (offset header : ℕ) (payload : List ℕ) (m : M)
      → I m
      → Ends I (event_write_eop guest offset header payload m)
  unfolding event_write_eop
  event_write_eop-Ends offset header [] m h = done-Ends h
  event_write_eop-Ends offset header (a ∷ []) m h = done-Ends h
  event_write_eop-Ends offset header (a ∷ b ∷ []) m h = done-Ends h
  event_write_eop-Ends offset header (a ∷ b ∷ c ∷ []) m h = done-Ends h
  event_write_eop-Ends offset header (a ∷ b ∷ c ∷ d ∷ []) m h = done-Ends h
  event_write_eop-Ends offset header (event ∷ low ∷ control ∷ v0 ∷ v1 ∷ rest) m h =
      let stored = λ (bs : List ℕ).
        checked_write-Ends offset header Reason.eop_memory (join low (control % 2 ^ 16)) bs m
          (λ e. cc) (λ e. cc) h in
      Ends-if _ _ _ (stored (le_bytes 4 v0)) (
        Ends-if _ _ _ (stored (le_bytes 8 (join v0 v1))) (
          Ends-if _ _ _ (stored (le_bytes 8 (guest.clock m)))
            (Ends-if _ _ _ (done-Ends h) (reject-Ends offset header _ m (λ e. cc) (λ e. cc) h))))
