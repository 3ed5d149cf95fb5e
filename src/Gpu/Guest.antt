-- ===== src/Gpu/Guest.antt =====
-- Guest memory as the GPU uses it: shadps4_gpu_guest_rw for writes, and words of bytes. `GuestMemory`
-- stands for QEMU's cpu_memory_rw_debug and its virtual clock.
pub mod Words
use qemu_dll_shadps.Base.{
  ℕ, zero, suc, ◌+◌, ◌-◌, ◌*◌, ◌%◌, ◌^◌, ◌≤◌, ◌<◌, ◌≡◌, ◌⊎◌, Bool, true, false, ◌||◌, Option, none,
  some, List, [], ◌∷◌, ltb, ◌==◌, if◌then◌else◌, length, get_elem?,
}
use qemu_dll_shadps.Gpu.Flatten.{Guest, guest_read}

-- A read yields so many bytes or fails. A write says whether it succeeded, and what it left.
pub record GuestMemory (M : Type 0) : Type 0 where
  pub read : M → ℕ → ℕ → Option (List ℕ)
  pub write : M → ℕ → List ℕ → Bool × M
  pub clock : M → ℕ

-- What is documented of the transfers: `peek m x` is the byte at the guest address `x`. A read that
-- succeeds yields the bytes of its range. A write that succeeds stores every byte, and no write
-- touches a byte outside its range.
pub record IsGuest {M : Type 0} (guest : GuestMemory M) (peek : M → ℕ → ℕ) : Type 0 where
  pub read_size : (m : M) (a n : ℕ) (bs : List ℕ) → guest.read m a n ≡ some bs → length bs ≡ n
  pub read_bytes :
      (m : M) (a n : ℕ) (bs : List ℕ) (i b : ℕ)
      → guest.read m a n ≡ some bs
      → get_elem? bs i ≡ some b
      → b ≡ peek m (a + i)
  pub write_frame :
      (m : M) (a : ℕ) (bs : List ℕ) (x : ℕ)
      → (x < a) ⊎ (a + length bs ≤ x)
      → peek (guest.write m a bs).1 x ≡ peek m x
  pub write_stores :
      (m : M) (a : ℕ) (bs : List ℕ) (i b : ℕ)
      → (guest.write m a bs).0 ≡ true
      → get_elem? bs i ≡ some b
      → peek (guest.write m a bs).1 (a + i) ≡ b

-- The little-endian words of a buffer.
unfoldable pub words : List ℕ → List ℕ
words (a ∷ b ∷ c ∷ d ∷ rest) = (a + 2 ^ 8 * b + 2 ^ 16 * c + 2 ^ 24 * d) ∷ words rest
words (a ∷ b ∷ c ∷ []) = []
words (a ∷ b ∷ []) = []
words (a ∷ []) = []
words [] = []

module _ {M : Type 0} (guest : GuestMemory M) where
  -- A read into a buffer of words.
  unfoldable pub read_words : M → Guest
  read_words m addr size = elim (guest.read m addr size) [ none ↦ none | some bs ↦ some (words bs) ]

  -- A write of bytes, by a CPU that exists.
  unfoldable pub guest_write : M → ℕ → List ℕ → Bool × M
  guest_write m addr bytes =
      if length bytes == 0
      then (true, m)
      else if addr == 0 || ltb (2 ^ 64 - 1 - (length bytes - 1)) addr
      then (false, m)
      else guest.write m addr bytes
