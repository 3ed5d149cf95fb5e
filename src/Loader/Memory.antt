-- ===== src/Loader/Memory.antt =====
-- Guest RAM as the loader uses it. `AddressSpace` stands for QEMU's address_space_write, _set and
-- _read, which are not part of this repository; `IsMemory` is what their documentation says.
use qemu_dll_shadps.Base.{
  ℕ, ◌+◌, ◌≤◌, ◌<◌, ◌≡◌, ◌⊎◌, Bool, true, Option, some, List, length, get_elem?,
}

-- Each operation says whether it returned MEMTX_OK, and what memory it left.
pub record AddressSpace (M : Type 0) : Type 0 where
  pub write : M → ℕ → List ℕ → Bool × M
  pub fill : M → ℕ → ℕ → ℕ → Bool × M
  pub read : M → ℕ → ℕ → Option (List ℕ)

-- `peek m x` is the byte at the physical address `x`. A transfer touches its range only, and one
-- that returns MEMTX_OK stored every byte.
pub record IsMemory {M : Type 0} (as' : AddressSpace M) (peek : M → ℕ → ℕ) : Type 0 where
  pub write_frame :
      (m : M) (a : ℕ) (bs : List ℕ) (x : ℕ)
      → (x < a) ⊎ (a + length bs ≤ x)
      → peek (as'.write m a bs).1 x ≡ peek m x
  pub write_stores :
      (m : M) (a : ℕ) (bs : List ℕ) (i b : ℕ)
      → (as'.write m a bs).0 ≡ true
      → get_elem? bs i ≡ some b
      → peek (as'.write m a bs).1 (a + i) ≡ b
  pub fill_frame :
      (m : M) (a v n x : ℕ) → (x < a) ⊎ (a + n ≤ x) → peek (as'.fill m a v n).1 x ≡ peek m x
  pub fill_stores :
      (m : M) (a v n i : ℕ)
      → (as'.fill m a v n).0 ≡ true
      → i < n
      → peek (as'.fill m a v n).1 (a + i) ≡ v
