-- ===== src/Gpu/Tests/Memories.antt =====
-- A guest memory that is a function of the address. Nothing can be written below 0x1000.
use qemu_dll_shadps.Base.{
  ℕ, zero, suc, ◌+◌, ◌≤◌, ◌<◌, ◌≡◌, ◌⊎◌, refl, ap, ◌∙◌, inl, inr, Bool, true, false, some, List, [],
  ◌∷◌, ltb, ◌==◌, if◌then◌else◌, length, get_elem?, Bool-cases, arith,
}
use qemu_dll_shadps.Gpu.Guest.{GuestMemory, IsGuest}

abbrev pub Bytes : Type 0
Bytes = ℕ → ℕ

abbrev pub bytes_at : Bytes → ℕ → ℕ → List ℕ
bytes_at m a zero = []
bytes_at m a (suc n) = m a ∷ bytes_at m (a + 1) n

abbrev pub overlay : Bytes → ℕ → List ℕ → Bytes
overlay m a [] x = m x
overlay m a (b ∷ bs) x = if x == a then b else overlay m (a + 1) bs x

abbrev pub store : Bytes → ℕ → List ℕ → Bool × Bytes
store m a bs = if ltb a 0x1000 then (false, m) else (true, overlay m a bs)

abbrev pub memory : GuestMemory Bytes
memory = record { read = λ m a n. some (bytes_at m a n); write = store; clock = λ m. 5 }

abbrev pub peek : Bytes → ℕ → ℕ
peek m x = m x

length-bytes_at : (m : Bytes) (a n : ℕ) → length (bytes_at m a n) ≡ n
length-bytes_at m a zero = refl
length-bytes_at m a (suc n) = ap suc (length-bytes_at m (a + 1) n)

get_elem?-bytes_at :
    (m : Bytes) (a n i b : ℕ) → get_elem? (bytes_at m a n) i ≡ some b → b ≡ m (a + i)
get_elem?-bytes_at m a zero i b h = cc
get_elem?-bytes_at m a (suc n) zero b h = let e : a + 0 ≡ a = omega arith in rw e cc
get_elem?-bytes_at m a (suc n) (suc i) b h =
    get_elem?-bytes_at m (a + 1) n i b h ∙ ap m (omega arith)

overlay_frame :
    (m : Bytes) (a : ℕ) (bs : List ℕ) (x : ℕ)
    → (x < a) ⊎ (a + length bs ≤ x)
    → overlay m a bs x ≡ m x
overlay_frame m a [] x h = refl
overlay_frame m a (b ∷ bs) x h =
    let e : (x == a) ≡ false = ground arith in
    rw e (
      overlay_frame m (a + 1) bs x
        (elim h [ inl l ↦ inl (omega arith) | inr u ↦ inr (omega arith) ]))

overlay_stores :
    (m : Bytes) (a : ℕ) (bs : List ℕ) (i b : ℕ)
    → get_elem? bs i ≡ some b
    → overlay m a bs (a + i) ≡ b
overlay_stores m a [] i b h = cc
overlay_stores m a (c ∷ bs) zero b h = let e : (a + 0 == a) ≡ true = ground arith in rw e cc
overlay_stores m a (c ∷ bs) (suc i) b h =
    let e : (a + suc i == a) ≡ false = ground arith in
    rw e (ap (overlay m (a + 1) bs) (omega arith) ∙ overlay_stores m (a + 1) bs i b h)

pub store_frame :
    (m : Bytes) (a : ℕ) (bs : List ℕ) (x : ℕ)
    → (x < a) ⊎ (a + length bs ≤ x)
    → (store m a bs).1 x ≡ m x
store_frame m a bs x h = elim (Bool-cases (ltb a 0x1000)) [
  | inl low ↦ rw low refl
  | inr high ↦ rw high (overlay_frame m a bs x h)
]

-- What is stored in low memory stays.
pub store_low : (m : Bytes) (a : ℕ) (bs : List ℕ) → m 0x10 ≡ 7 → (store m a bs).1 0x10 ≡ 7
store_low m a bs h = elim (Bool-cases (ltb a 0x1000)) [
  | inl low ↦ rw low h
  | inr high ↦ rw high (overlay_frame m a bs 0x10 (inl (ground arith)) ∙ h)
]

pub memory-IsGuest : IsGuest memory peek
memory-IsGuest = record {
  read_size = λ m a n bs h. let e : bytes_at m a n ≡ bs = cc in rw (← e) (length-bytes_at m a n);
  read_bytes =
      λ m a n bs i b h k. let e : bytes_at m a n ≡ bs = cc in get_elem?-bytes_at m a n i b (rw e k);
  write_frame = store_frame;
  write_stores = λ m a bs i b h k. elim (Bool-cases (ltb a 0x1000)) [
    | inl low ↦ absurd (ground arith)
    | inr high ↦ rw high (overlay_stores m a bs i b k)
  ];
}

-- Low memory and, from 0x2000 on, a ring of sixteen words: one WRITE_DATA packet of the word 7 to
-- 0x3000, then padding.
abbrev pub guest_bytes : Bytes
guest_bytes =
    overlay (λ x. if x == 0x10 then 7 else 0) 0x2000
      (0x00 ∷ 0x37 ∷ 0x03 ∷ 0xc0 ∷ 0x00 ∷ 0x05 ∷ 0x00 ∷ 0x00 ∷ 0x00 ∷ 0x30 ∷ 0 ∷ 0 ∷ 0 ∷ 0 ∷ 0 ∷ 0
        ∷ 7 ∷ 0 ∷ 0 ∷ 0 ∷ [])
