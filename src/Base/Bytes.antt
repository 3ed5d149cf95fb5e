-- ===== src/Base/Bytes.antt =====
-- Buffers of bytes: little-endian fields, slices and C strings in them.
use Prim.Native.Nat.{ℕ, zero, suc, ◌+◌, ◌*◌, ◌/◌, ◌%◌, ◌^◌, ◌≤◌, ◌<◌}
use mathlib.Core.Path.{◌≡◌, refl}
use mathlib.Core.Option.{Option, none, some}
use mathlib.Core.List.{List, [], ◌∷◌}
use native.Mathlib.Nat.{pow-suc}
use native.Mathlib.Omega.{arith}
use qemu_dll_shadps.Base.Tests.{leb, ◌==◌, if◌then◌else◌}
use qemu_dll_shadps.Base.Lists.{
  length, get_elem?, get_elem?_in, get_elem?_bound, take, drop, All, All-get_elem?,
}

abbrev pub cons_byte : ℕ → Option ℕ → Option ℕ
cons_byte b none = none
cons_byte b (some v) = some (b + 256 * v)

-- The `w`-byte little-endian number at offset `i`; `none` where it leaves the buffer.
unfoldable pub le_at : ℕ → List ℕ → ℕ → Option ℕ
le_at zero bs i = some 0
le_at (suc w) bs i = elim (get_elem? bs i) [
  | none ↦ none
  | some b ↦ cons_byte b (le_at w bs (i + 1))
]

-- The `w` bytes of a number, lowest first.
unfoldable pub le_bytes : ℕ → ℕ → List ℕ
le_bytes zero v = []
le_bytes (suc w) v = (v % 256) ∷ le_bytes w (v / 256)

-- `n` bytes from `off` on; `none` where they leave the buffer.
unfoldable pub slice_at : List ℕ → ℕ → ℕ → Option (List ℕ)
slice_at bs off n = if leb (off + n) (length bs) then some (take n (drop off bs)) else none

-- The C string at the head of a buffer, if a NUL ends it (`memchr`, then the string itself).
unfoldable pub c_string : List ℕ → Option (List ℕ)
c_string [] = none
c_string (b ∷ bs) =
    if b == 0 then some [] else elim (c_string bs) [ none ↦ none | some s ↦ some (b ∷ s) ]

-- A field inside the buffer is read.
pub le_at_in : (w : ℕ) (bs : List ℕ) (i : ℕ) → i + w ≤ length bs → (v : ℕ) × (le_at w bs i ≡ some v)
unfolding le_at
le_at_in zero bs i h = (0, refl)
le_at_in (suc w) bs i h =
    let (b, e) = get_elem?_in bs i (omega arith) in
    let (v, f) = le_at_in w bs (i + 1) (omega arith) in (b + 256 * v, ground arith)

pub length-le_bytes : (w v : ℕ) → length (le_bytes w v) ≡ w
unfolding le_bytes
length-le_bytes zero v = refl
length-le_bytes (suc w) v = omega (arith, length-le_bytes w (v / 256))

le_at-lt_step :
    (w : ℕ) (b r : Option ℕ) {v : ℕ}
    → ((x : ℕ) → b ≡ some x → x < 256)
    → ((x : ℕ) → r ≡ some x → x < 256 ^ w)
    → elim b [ none ↦ none | some x ↦ cons_byte x r ] ≡ some v
    → v < 256 ^ suc w
le_at-lt_step w none r hb hr e = cc
le_at-lt_step w (some b) none hb hr e = cc
le_at-lt_step w (some b) (some r) {v} hb hr e =
    rw (pow-suc 256 w) (ground (arith, hb b refl, hr r refl))

-- Values of bytes below 256 stay below the field's modulus.
pub le_at-lt :
    (w : ℕ) (bs : List ℕ) (i : ℕ) {v : ℕ}
    → All (λ b. b < 256) bs
    → le_at w bs i ≡ some v
    → v < 256 ^ w
unfolding le_at
le_at-lt zero bs i h e = ground arith
le_at-lt (suc w) bs i {v} h e =
    le_at-lt_step w (get_elem? bs i) (le_at w bs (i + 1)) (λ b. All-get_elem? (λ b. b < 256) bs i h)
      (λ r. le_at-lt w bs (i + 1) h) e

le_at_bound_step :
    (bs : List ℕ) (i : ℕ) (b r : Option ℕ) {v : ℕ}
    → elim b [ none ↦ none | some x ↦ cons_byte x r ] ≡ some v
    → ((x : ℕ) × (b ≡ some x)) × ((x : ℕ) × (r ≡ some x))
le_at_bound_step bs i none r e = cc
le_at_bound_step bs i (some b) none e = cc
le_at_bound_step bs i (some b) (some r) e = ((b, refl), (r, refl))

-- A field that is read lies in the buffer.
pub le_at_bound :
    (w : ℕ) (bs : List ℕ) (i : ℕ) {v : ℕ} → 0 < w → le_at w bs i ≡ some v → i + w ≤ length bs
unfolding le_at
le_at_bound zero bs i h e = absurd (omega arith)
le_at_bound (suc zero) bs i h e =
    let ((b, p), _) = le_at_bound_step bs i (get_elem? bs i) (le_at 0 bs (i + 1)) e in
    omega (arith, get_elem?_bound bs i p)
le_at_bound (suc (suc w)) bs i h e =
    let (_, (r, q)) = le_at_bound_step bs i (get_elem? bs i) (le_at (suc w) bs (i + 1)) e in
    omega (arith, le_at_bound (suc w) bs (i + 1) (omega arith) q)
