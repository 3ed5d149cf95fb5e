-- ===== src/Loader/EncodeId.antt =====
-- shadps4_encode_id: the one to three characters by which symbol names refer to a 16-bit library
-- or module id.
use qemu_dll_shadps.Base.{
  ℕ, zero, suc, ◌+◌, ◌*◌, ◌/◌, ◌%◌, ◌^◌, ◌<◌, ◌≡◌, refl, subst, false, ◌∙◌, sym, ap, Bool, true,
  List, [], ◌∷◌, arith, ltb, ◌==◌, ==_iff, Bool-cases, inl, inr, if◌then◌else◌, codes, get_elem?,
  str_eq, str_eq_iff, none, some,
}

abbrev code_table : List ℕ
code_table = codes "ABCDEFGHIJKLMNOPQRSTUVWXYZabcdefghijklmnopqrstuvwxyz0123456789+-"

-- `codes[k]`, at an index that is always below 64.
code_char : ℕ → ℕ
code_char k = elim (get_elem? code_table k) [ none ↦ 0 | some c ↦ c ]

-- `while (length) { encoded[--length] = codes[value & 0x3f]; value >>= 6; }`: the list holds
-- what is written so far.
encode_loop : ℕ → ℕ → List ℕ → List ℕ
encode_loop zero value out = out
encode_loop (suc n) value out = encode_loop n (value / 64) (code_char (value % 64) ∷ out)

unfoldable pub encode_id : ℕ → List ℕ
unfolding encode_loop code_char
encode_id value =
    encode_loop (if ltb value 0x40 then 1 else if ltb value 0x1000 then 2 else 3) value []

-- The place of a character in the table.
index_in : List ℕ → ℕ → ℕ
index_in [] c = 0
index_in (x ∷ xs) c = if x == c then 0 else suc (index_in xs c)

-- The number that a string of such characters stands for, most significant first.
decode_from : ℕ → List ℕ → ℕ
decode_from acc [] = acc
decode_from acc (c ∷ cs) = decode_from (acc * 64 + index_in code_table c) cs

pub decode_id : List ℕ → ℕ
decode_id = decode_from 0

-- Is every entry of the table, from the place `k` on, found at its own place?
places_agree : ℕ → ℕ → Bool
places_agree k zero = true
places_agree k (suc left) =
    if index_in code_table (code_char k) == k then places_agree (k + 1) left else false

places_agree_at :
    (k left j : ℕ)
    → places_agree k left ≡ true
    → j < left
    → index_in code_table (code_char (k + j)) ≡ k + j
unfolding places_agree
places_agree_at k zero j agree lt = absurd (omega arith)
places_agree_at k (suc left) zero agree lt =
    let here : index_in code_table (code_char k) ≡ k = ground arith in
    let e : k ≡ k + 0 = omega arith in subst (λ x. index_in code_table (code_char x) ≡ x) e here
places_agree_at k (suc left) (suc j) agree lt =
    let e : k + 1 + j ≡ k + suc j = omega arith in
    let rest : places_agree (k + 1) left ≡ true = ground arith in
    subst (λ x. index_in code_table (code_char x) ≡ x) e
      (places_agree_at (k + 1) left j rest (omega arith))

table_agrees : places_agree 0 64 ≡ true
unfolding places_agree index_in code_char
table_agrees = refl

index_in-code_char : (k : ℕ) → k < 64 → index_in code_table (code_char k) ≡ k
index_in-code_char k h =
    let e : 0 + k ≡ k = omega arith in
    subst (λ x. index_in code_table (code_char x) ≡ x) e (places_agree_at 0 64 k table_agrees h)

-- The last digits of every length, in the terms that the loop leaves.
decode_digits :
    (value : ℕ)
    → (index_in code_table (code_char (value % 64)) ≡ value % 64)
      × (index_in code_table (code_char (value / 64 % 64)) ≡ value / 64 % 64)
      × (index_in code_table (code_char (value / 64 / 64 % 64)) ≡ value / 64 / 64 % 64)
decode_digits value = (
  index_in-code_char (value % 64) (omega arith),
  index_in-code_char (value / 64 % 64) (omega arith),
  index_in-code_char (value / 64 / 64 % 64) (omega arith),
)

-- Every 16-bit id is read back from its encoding.
pub decode-encode_id : (value : ℕ) → value < 2 ^ 16 → decode_id (encode_id value) ≡ value
unfolding decode_id decode_from encode_id encode_loop
decode-encode_id value h = elim (Bool-cases (ltb value 0x40)) [
  | inl a ↦ rw a (ground (arith, decode_digits value))
  | inr a ↦ elim (Bool-cases (ltb value 0x1000)) [
    | inl b ↦ rw (a, b) (ground (arith, decode_digits value))
    | inr b ↦ rw (a, b) (ground (arith, decode_digits value))
  ]
]

-- Comparing encodings by strcmp is comparing ids: two ids below 2^16 have equal encodings exactly
-- when they are the same, and each decodes to itself.
pub str_eq-encode_id :
    (v w : ℕ) → v < 2 ^ 16 → w < 2 ^ 16 → str_eq (encode_id v) (encode_id w) ≡ (v == w)
str_eq-encode_id v w hv hw = elim (Bool-cases (v == w)) [
  | inl e ↦ let p : v ≡ w = (==_iff v w).0 e in rw e ((str_eq_iff _ _).1 (ap encode_id p))
  | inr e ↦ elim (Bool-cases (str_eq (encode_id v) (encode_id w))) [
    | inl s ↦
        let q = ap decode_id ((str_eq_iff _ _).0 s) in
        let p : v ≡ w = sym (decode-encode_id v hv) ∙ q ∙ decode-encode_id w hw in ground arith
    | inr s ↦ rw (s, e)
  ]
]
