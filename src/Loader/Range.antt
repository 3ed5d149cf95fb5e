-- ===== src/Loader/Range.antt =====
-- shadps4_range_valid, shadps4_add_valid and shadps4_add_signed_valid: the checked arithmetic on
-- uint64_t that every table and address of an image goes through.
use qemu_dll_shadps.Base.{
  ℕ, ◌+◌, ◌-◌, ◌^◌, ◌≤◌, ◌<◌, ◌≡◌, ◌↔◌, ◌⊎◌, inl, inr, Bool, true, ◌&&◌, Option, none, some, arith,
  leb, ltb, if◌then◌else◌, ℤ, pos, negsuc, pos_part, neg_part,
}

unfoldable pub range_valid : ℕ → ℕ → ℕ → Bool
range_valid offset size limit = leb offset limit && leb size (limit - offset)

unfoldable pub add_valid : ℕ → ℕ → Option ℕ
add_valid left right = if ltb (2 ^ 64 - 1 - left) right then none else some (left + right)

-- `(uint64_t)(-(addend + 1)) + 1` is `n + 1` at the negative addend -(n + 1).
unfoldable pub add_signed_valid : ℕ → ℤ → Option ℕ
unfolding add_valid
add_signed_valid base (pos n) = add_valid base n
add_signed_valid base (negsuc n) = if ltb base (n + 1) then none else some (base - (n + 1))

-- The test says that the range ends within the limit; no sum is formed that could wrap.
pub range_valid_iff :
    (offset size limit : ℕ) → (range_valid offset size limit ≡ true) ↔ (offset + size ≤ limit)
unfolding range_valid
range_valid_iff offset size limit = (λ h. ground arith, λ h. ground arith)

pub add_valid-eq-some :
    (left right : ℕ) {r : ℕ}
    → left < 2 ^ 64
    → add_valid left right ≡ some r
    → (r ≡ left + right) × (r < 2 ^ 64)
unfolding add_valid
add_valid-eq-some left right h e = ground arith

pub add_valid-eq-none :
    (left right : ℕ) → left < 2 ^ 64 → add_valid left right ≡ none → 2 ^ 64 ≤ left + right
unfolding add_valid
add_valid-eq-none left right h e = ground arith

-- `r` is `base + addend`, as integers.
abbrev pub IsSum : ℕ → ℤ → ℕ → Type 0
IsSum base addend r = base + pos_part addend ≡ r + neg_part addend

-- For a 64-bit base, the signed addition returns the exact sum where that is a uint64_t, and
-- fails exactly where it is below 0 or above 2^64 - 1.
pub add_signed_valid_exact :
    (base : ℕ) (addend : ℤ) (r : ℕ)
    → base < 2 ^ 64
    → ((add_signed_valid base addend ≡ some r) ↔ (IsSum base addend r × (r < 2 ^ 64)))
      × ((add_signed_valid base addend ≡ none)
          ↔ ((base < neg_part addend) ⊎ (2 ^ 64 + neg_part addend ≤ base + pos_part addend)))
unfolding add_signed_valid
add_signed_valid_exact base (pos n) r h =
    ((λ e. ground arith, λ e. ground arith), (λ e. inr (ground arith), λ e. ground arith))
add_signed_valid_exact base (negsuc n) r h =
    ((λ e. ground arith, λ e. ground arith), (λ e. inl (ground arith), λ e. ground arith))
