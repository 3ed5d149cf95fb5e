-- ===== src/Rtc/Text/Numerals.antt =====
-- The numbers that hw/i386/shadps4-hle.c prints into a text are those that sscanf reads from it.
use qemu_dll_shadps.Base.{
  ℕ, ◌+◌, ◌/◌, ◌%◌, ◌<◌, ◌≡◌, refl, ap, true, false, List, ◌++◌, ◌==◌, ok, arith,
}
use qemu_dll_shadps.Rtc.Text.{is_digit, is_space, skip_space, Digits, read_digits, scan_u16}
use qemu_dll_shadps.Rtc.Text.Format.{digits}

pub is_digit-digit : (v : ℕ) → is_digit (48 + v % 10) ≡ true
unfolding is_digit
is_digit-digit v = ground arith

pub is_space-digit : (v : ℕ) → is_space (48 + v % 10) ≡ false
unfolding is_space
is_space-digit v = ground arith

digit-ne_minus : (v : ℕ) → (48 + v % 10 == 45) ≡ false
digit-ne_minus v = ground arith

digit-ne_plus : (v : ℕ) → (48 + v % 10 == 43) ≡ false
digit-ne_plus v = ground arith

Digits-eq :
    {v w : ℕ} (count : ℕ) (rest : List ℕ)
    → v ≡ w
    → ◌≡◌ {A = Digits}
        (record { value = v; count = count; rest = rest })
        (record { value = w; count = count; rest = rest })
Digits-eq count rest e = rw e refl

-- Two, four and six digits are read as the number that was printed.
pub read_digits-2 :
    (v : ℕ) (rest : List ℕ)
    → v < 100
    → read_digits 2 0 0 (digits 2 v ++ rest) ≡ record { value = v; count = 2; rest = rest }
unfolding read_digits digits
read_digits-2 v rest h =
    rw (is_digit-digit (v / 10), is_digit-digit v) (Digits-eq 2 rest (omega arith))

pub read_digits-4 :
    (v : ℕ) (rest : List ℕ)
    → v < 10000
    → read_digits 4 0 0 (digits 4 v ++ rest) ≡ record { value = v; count = 4; rest = rest }
unfolding read_digits digits
read_digits-4 v rest h =
    rw
      (
        is_digit-digit (v / 10 / 10 / 10),
        is_digit-digit (v / 10 / 10),
        is_digit-digit (v / 10),
        is_digit-digit v,
      )
      (Digits-eq 4 rest (omega arith))

pub read_digits-6 :
    (v : ℕ) (rest : List ℕ)
    → v < 1000000
    → read_digits 6 0 0 (digits 6 v ++ rest) ≡ record { value = v; count = 6; rest = rest }
unfolding read_digits digits
read_digits-6 v rest h =
    rw
      (
        is_digit-digit (v / 10 / 10 / 10 / 10 / 10),
        is_digit-digit (v / 10 / 10 / 10 / 10),
        is_digit-digit (v / 10 / 10 / 10),
        is_digit-digit (v / 10 / 10),
        is_digit-digit (v / 10),
        is_digit-digit v,
      )
      (Digits-eq 6 rest (omega arith))

pub scan_u16-2 : (v : ℕ) (rest : List ℕ) → v < 100 → scan_u16 2 (digits 2 v ++ rest) ≡ ok (v, rest)
unfolding scan_u16 skip_space digits
scan_u16-2 v rest h =
    rw
      (
        is_space-digit (v / 10),
        digit-ne_minus (v / 10),
        digit-ne_plus (v / 10),
        read_digits-2 v rest h,
      )
      (ap (λ n. ok (n, rest)) (omega arith))

pub scan_u16-4 :
    (v : ℕ) (rest : List ℕ) → v < 10000 → scan_u16 4 (digits 4 v ++ rest) ≡ ok (v, rest)
unfolding scan_u16 skip_space digits
scan_u16-4 v rest h =
    let first = v / 10 / 10 / 10 in
    rw (is_space-digit first, digit-ne_minus first, digit-ne_plus first, read_digits-4 v rest h)
      (ap (λ n. ok (n, rest)) (omega arith))
