-- ===== src/Gpu/Execute/Stores.antt =====
-- What a WRITE_DATA packet leaves in guest memory.
use qemu_dll_shadps.Base.{
  ℕ, zero, suc, ◌+◌, ◌*◌, ◌%◌, ◌^◌, ◌≤◌, ◌<◌, ◌≡◌, refl, ap, sym, subst, ◌∙◌, inl, inr, true, false,
  List, [], ◌∷◌, ◌++◌, if◌then◌else◌, length, le_bytes, length-le_bytes, done, Bool-cases, arith,
}
use native.Mathlib.Nat.{mod-eq_of_lt}
use qemu_dll_shadps.Gpu.Guest.{GuestMemory, IsGuest, guest_write}
use qemu_dll_shadps.Gpu.Guest.Words.{Holds, guest_write-Holds, guest_write-frame}
use qemu_dll_shadps.Gpu.Execute.{write_words}

-- The bytes of words, one after the other.
unfoldable pub word_bytes : List ℕ → List ℕ
word_bytes [] = []
word_bytes (w ∷ ws) = le_bytes 4 w ++ word_bytes ws

Holds-append :
    (byte : ℕ → ℕ) (a n : ℕ) (bs cs : List ℕ)
    → length bs ≡ n
    → Holds byte a bs
    → Holds byte (a + n) cs
    → Holds byte a (bs ++ cs)
Holds-append byte a n [] cs l h k = let e : a + n ≡ a = omega arith in rw (← e) k
Holds-append byte a zero (b ∷ bs) cs l h k = absurd (omega arith)
Holds-append byte a (suc n) (b ∷ bs) cs l h k =
    let e : a + suc n ≡ a + 1 + n = omega arith in
    (h.0, Holds-append byte (a + 1) n bs cs (omega arith) h.1 (rw e at k))

Holds-same :
    (before after : ℕ → ℕ) (a : ℕ) (bs : List ℕ)
    → ((x : ℕ) → a ≤ x → x < a + length bs → after x ≡ before x)
    → Holds before a bs
    → Holds after a bs
Holds-same before after a [] h k = tt
Holds-same before after a (b ∷ bs) h k = (
  h a (omega arith) (omega arith) ∙ k.0,
  Holds-same before after (a + 1) bs (λ x l u. h x (omega arith) (omega arith)) k.1,
)

module _ {M : Type 0} (guest : GuestMemory M) (peek : M → ℕ → ℕ)
    (is_guest : IsGuest guest peek) where
  write_words-split :
      (offset header address i value : ℕ) (rest : List ℕ) (m m' : M)
      → address + i * 4 < 2 ^ 64
      → write_words guest offset header false address i (value ∷ rest) m ≡ done tt m'
      → (w : M) × (guest_write guest m (address + i * 4) (le_bytes 4 value) ≡ (true, w))
        × (write_words guest offset header false address (i + 1) rest w ≡ done tt m')
  unfolding write_words
  write_words-split offset header address i value rest m m' small h =
      let e : (address + (if false then 0 else i * 4)) % 2 ^ 64 ≡ address + i * 4 =
        mod-eq_of_lt small in
      let out = guest_write guest m (address + i * 4) (le_bytes 4 value) in
      elim (Bool-cases out.0) [
        | inr failed ↦ absurd (let h' = (rw (e, failed) at h) in cc)
        | inl stored ↦ (out.1, ap (λ b. (b, out.1)) stored, (rw (e, stored) at h))
      ]

  -- The words of a packet change no byte below the first of them.
  write_words-frame :
      (offset header address i : ℕ) (values : List ℕ) (m m' : M) (x : ℕ)
      → address + (i + length values) * 4 ≤ 2 ^ 64
      → x < address + i * 4
      → write_words guest offset header false address i values m ≡ done tt m'
      → peek m' x ≡ peek m x
  unfolding write_words
  write_words-frame offset header address i [] m m' x small h e =
      let same : m ≡ m' = cc in rw same refl
  write_words-frame offset header address i (value ∷ rest) m m' x small h e =
      let (w, stored, later) =
        write_words-split offset header address i value rest m m' (omega arith) e in
      write_words-frame offset header address (i + 1) rest w m' x (omega arith) (omega arith) later
      ∙ ap (λ o. peek o.1 x) (sym stored)
      ∙ guest_write-frame guest peek is_guest m (address + i * 4) (le_bytes 4 value) x (inl h)

  -- A WRITE_DATA packet whose words go to successive addresses, none of them past the end of the
  -- address space, leaves the bytes of its words in guest memory.
  pub write_words-Holds :
      (offset header address i : ℕ) (values : List ℕ) (m m' : M)
      → address + (i + length values) * 4 ≤ 2 ^ 64
      → write_words guest offset header false address i values m ≡ done tt m'
      → Holds (peek m') (address + i * 4) (word_bytes values)
  unfolding word_bytes
  write_words-Holds offset header address i [] m m' small e = tt
  write_words-Holds offset header address i (value ∷ rest) m m' small e =
      let (w, stored, later) =
        write_words-split offset header address i value rest m m' (omega arith) e in
      let at : address + (i + 1) * 4 ≡ address + i * 4 + 4 = omega arith in
      let first : Holds (peek w) (address + i * 4) (le_bytes 4 value) =
        subst (λ o. Holds (peek o.1) (address + i * 4) (le_bytes 4 value)) stored
          (guest_write-Holds guest peek is_guest m (address + i * 4) (le_bytes 4 value)
            (ap (λ o. o.0) stored)) in
      Holds-append (peek m') (address + i * 4) 4 (le_bytes 4 value) (word_bytes rest)
        (length-le_bytes 4 value)
        (Holds-same (peek w) (peek m') (address + i * 4) (le_bytes 4 value)
          (λ x l u.
            write_words-frame offset header address (i + 1) rest w m' x (omega arith)
              (omega (arith, length-le_bytes 4 value)) later)
          first)
        (rw at at (write_words-Holds offset header address (i + 1) rest w m' (omega arith) later))
