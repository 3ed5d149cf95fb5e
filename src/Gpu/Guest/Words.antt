-- ===== src/Gpu/Guest/Words.antt =====
-- What a read or a write of guest memory moves, byte by byte and word by word.
use qemu_dll_shadps.Base.{
  ℕ, zero, suc, ◌+◌, ◌-◌, ◌*◌, ◌^◌, ◌≤◌, ◌<◌, ◌≡◌, ◌∙◌, ap, refl, inl, inr, ◌⊎◌, true, false, ◌||◌,
  some, List, [], ◌∷◌, ltb, ◌==◌, length, get_elem?, get_elem?_bound, Bool-cases, Option-cases,
  arith,
}
use qemu_dll_shadps.Gpu.Flatten.{guest_read}
use qemu_dll_shadps.Gpu.Guest.{GuestMemory, IsGuest, words, read_words, guest_write}

-- The little-endian word at an address.
abbrev pub word_at : (ℕ → ℕ) → ℕ → ℕ
word_at byte a = byte a + 2 ^ 8 * byte (a + 1) + 2 ^ 16 * byte (a + 2) + 2 ^ 24 * byte (a + 3)

-- The bytes at an address are those of a list.
abbrev pub Holds : (ℕ → ℕ) → ℕ → List ℕ → Type 0
Holds byte a [] = Unit {0}
Holds byte a (b ∷ bs) = (byte a ≡ b) × Holds byte (a + 1) bs

pub Holds-get_elem? :
    (byte : ℕ → ℕ) (a : ℕ) (bs : List ℕ)
    → ((i b : ℕ) → get_elem? bs i ≡ some b → byte (a + i) ≡ b)
    → Holds byte a bs
Holds-get_elem? byte a [] h = tt
Holds-get_elem? byte a (b ∷ bs) h = (
  ap byte (omega arith) ∙ h 0 b refl,
  Holds-get_elem? byte (a + 1) bs (λ i c p. ap byte (omega arith) ∙ h (suc i) c p),
)

pub length-words : (bs : List ℕ) (n : ℕ) → length bs ≡ n * 4 → length (words bs) ≡ n
unfolding words
length-words [] n h = omega arith
length-words (a ∷ []) n h = absurd (omega arith)
length-words (a ∷ b ∷ []) n h = absurd (omega arith)
length-words (a ∷ b ∷ c ∷ []) n h = absurd (omega arith)
length-words (a ∷ b ∷ c ∷ d ∷ rest) zero h = absurd (omega arith)
length-words (a ∷ b ∷ c ∷ d ∷ rest) (suc n) h = ap suc (length-words rest n (omega arith))

-- A word is made of the four bytes at its place.
words-get_elem? :
    (bs : List ℕ) (byte : ℕ → ℕ) (a i : ℕ) {w : ℕ}
    → ((k b : ℕ) → get_elem? bs k ≡ some b → b ≡ byte (a + k))
    → get_elem? (words bs) i ≡ some w
    → w ≡ word_at byte (a + i * 4)
unfolding words
words-get_elem? [] byte a i h e = cc
words-get_elem? (b0 ∷ []) byte a i h e = cc
words-get_elem? (b0 ∷ b1 ∷ []) byte a i h e = cc
words-get_elem? (b0 ∷ b1 ∷ b2 ∷ []) byte a i h e = cc
words-get_elem? (b0 ∷ b1 ∷ b2 ∷ b3 ∷ rest) byte a zero {w} h e =
    let p0 : b0 ≡ byte (a + 0) = h 0 b0 refl in
    let p1 : b1 ≡ byte (a + 1) = h 1 b1 refl in
    let p2 : b2 ≡ byte (a + 2) = h 2 b2 refl in
    let p3 : b3 ≡ byte (a + 3) = h 3 b3 refl in ground arith
words-get_elem? (b0 ∷ b1 ∷ b2 ∷ b3 ∷ rest) byte a (suc i) h e =
    let shift : a + 4 + i * 4 ≡ a + suc i * 4 = omega arith in
    words-get_elem? rest byte (a + 4) i
      (λ k b p. h (suc (suc (suc (suc k)))) b p ∙ ap byte (omega arith)) e
    ∙ ap (word_at byte) shift

module _ {M : Type 0} (guest : GuestMemory M) (peek : M → ℕ → ℕ)
    (is_guest : IsGuest guest peek) where
  pub guest_read-length :
      (m : M) (a n : ℕ) {bs : List ℕ} → guest_read (guest.read m) a n ≡ some bs → length bs ≡ n
  unfolding guest_read
  guest_read-length m a n {bs} h = elim (Bool-cases (n == 0)) [
    | inl empty ↦ let e : ◌≡◌ {A = List ℕ} [] bs = ground arith in rw (← e) (ground arith)
    | inr some' ↦ is_guest.read_size m a n bs (ground arith)
  ]

  -- The words of a read are those of the memory.
  pub read_words-word_at :
      (m : M) (a n : ℕ) {ws : List ℕ}
      → guest_read (read_words guest m) a (n * 4) ≡ some ws
      → (length ws ≡ n) × ((i w : ℕ) → get_elem? ws i ≡ some w → w ≡ word_at (peek m) (a + i * 4))
  unfolding guest_read read_words
  read_words-word_at m a n {ws} h = elim (Bool-cases (n * 4 == 0)) [
    | inl empty ↦
        let e : ◌≡◌ {A = List ℕ} [] ws = ground arith in rw (← e) (ground arith, λ i w p. cc)
    | inr some' ↦ elim (Option-cases (guest.read m a (n * 4))) [
      | inl out ↦ absurd (ground arith)
      | inr (bs, r) ↦
          let e : words bs ≡ ws = ground arith in
          rw (← e) (
            length-words bs n (is_guest.read_size m a (n * 4) bs r),
            λ i w p.
                words-get_elem? bs (peek m) a i
                  (λ k b q. is_guest.read_bytes m a (n * 4) bs k b r q) p,
          )
    ]
  ]

  guest_write-stores :
      (m : M) (a : ℕ) (bs : List ℕ) (i b : ℕ)
      → (guest_write guest m a bs).0 ≡ true
      → get_elem? bs i ≡ some b
      → peek (guest_write guest m a bs).1 (a + i) ≡ b
  unfolding guest_write
  guest_write-stores m a bs i b h e =
      let l = get_elem?_bound bs i e in
      let p : (length bs == 0) ≡ false = ground arith in
      elim (Bool-cases (a == 0 || ltb (2 ^ 64 - 1 - (length bs - 1)) a)) [
        | inl bad ↦ absurd (ground arith)
        | inr good ↦
            let h' : (guest.write m a bs).0 ≡ true = ground arith in
            rw (p, good) (is_guest.write_stores m a bs i b h' e)
      ]

  -- A write that succeeds stores its bytes.
  pub guest_write-Holds :
      (m : M) (a : ℕ) (bs : List ℕ)
      → (guest_write guest m a bs).0 ≡ true
      → Holds (peek (guest_write guest m a bs).1) a bs
  guest_write-Holds m a bs h =
      Holds-get_elem? (peek (guest_write guest m a bs).1) a bs
        (λ i b e. guest_write-stores m a bs i b h e)

  -- No write touches a byte outside its range.
  pub guest_write-frame :
      (m : M) (a : ℕ) (bs : List ℕ) (x : ℕ)
      → (x < a) ⊎ (a + length bs ≤ x)
      → peek (guest_write guest m a bs).1 x ≡ peek m x
  unfolding guest_write
  guest_write-frame m a bs x h = elim (Bool-cases (length bs == 0)) [
    | inl empty ↦ rw empty refl
    | inr some' ↦ elim (Bool-cases (a == 0 || ltb (2 ^ 64 - 1 - (length bs - 1)) a)) [
      | inl bad ↦ rw (some', bad) refl
      | inr good ↦ rw (some', good) (is_guest.write_frame m a bs x h)
    ]
  ]
