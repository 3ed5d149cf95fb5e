-- ===== src/Rtc/Text.antt =====
-- What the RTC of hw/i386/shadps4-hle.c reads and prints as text: characters, and the conversions of
-- sscanf that it uses. A text is the list of its bytes before the NUL.
pub mod Parse
pub mod Format
pub mod Numerals
pub mod RoundTrip
use qemu_dll_shadps.Base.{
  ℕ, zero, suc, ◌+◌, ◌-◌, ◌*◌, ◌/◌, ◌%◌, ◌^◌, Bool, ◌&&◌, ◌||◌, none, some, List, [], ◌∷◌, ◌++◌,
  ltb, leb, ◌==◌, if◌then◌else◌, get_elem?, take, drop, codes, str_eq, ℤ, pos, negsuc, ◌-ℤ◌, Result,
  ok, err, ◌>>=◌,
}
use qemu_dll_shadps.Rtc.Dates.{RtcError, bad_parse}

-- `text[i]`, which is the NUL at the end.
abbrev pub char_at : ℕ → List ℕ → ℕ
char_at i text = elim (get_elem? text i) [ none ↦ 0 | some c ↦ c ]

-- g_ascii_isdigit
unfoldable pub is_digit : ℕ → Bool
is_digit c = leb 48 c && leb c 57

-- The white space of the C locale.
unfoldable pub is_space : ℕ → Bool
is_space c = (c == 32) || (leb 9 c && leb c 13)

unfoldable pub skip_space : List ℕ → List ℕ
skip_space [] = []
skip_space (c ∷ text) = if is_space c then skip_space text else c ∷ text

-- A number that has been read: its digits, how many they were, and what follows.
pub record Digits : Type 0 where
  pub value : ℕ
  pub count : ℕ
  pub rest : List ℕ

-- At most so many digits, after a number that has been begun.
unfoldable pub read_digits : ℕ → ℕ → ℕ → List ℕ → Digits
read_digits zero value count text = record { value = value; count = count; rest = text }
read_digits (suc width) value count [] = record { value = value; count = count; rest = [] }
read_digits (suc width) value count (c ∷ text) =
    let more = read_digits width (value * 10 + (c - 48)) (count + 1) text in
    if is_digit c then more else record { value = value; count = count; rest = c ∷ text }

-- What a conversion of sscanf yields, and what follows.
abbrev pub Scanned : Type 0 → Type 0
Scanned A = Result RtcError (A × List ℕ)

-- The digits of a number of at least one digit.
abbrev pub some_digits : ℕ → List ℕ → Scanned ℕ
some_digits width text =
    let digits : Digits = read_digits width 0 0 text in
    if digits.count == 0 then err bad_parse else ok (digits.value, digits.rest)

-- A sign is one of the characters that a width allows.
abbrev pub scan_signed : ℕ → List ℕ → Scanned ℤ
scan_signed width text =
    let unspaced : List ℕ = skip_space text in
    let c : ℕ = char_at 0 unspaced in
    if c == 45
    then (some_digits (width - 1) (drop 1 unspaced) >>= λ n. ok (pos 0 -ℤ pos n.0, n.1))
    else some_digits (if c == 43 then width - 1 else width)
        (if c == 43 then drop 1 unspaced else unspaced)
      >>= λ n. ok (pos n.0, n.1)

-- `%<width>hu`: a negative number wraps around.
unfoldable pub scan_u16 : ℕ → List ℕ → Scanned ℕ
scan_u16 width text = scan_signed width text >>= λ n.
    ok (elim n.0 [ pos v ↦ v % 2 ^ 16 | negsuc v ↦ 2 ^ 16 - 1 - v % 2 ^ 16 ], n.1)

-- `%<width>d`
unfoldable pub scan_int : ℕ → List ℕ → Scanned ℤ
scan_int width text = scan_signed width text

-- `%*c`: any one character.
unfoldable pub scan_any : List ℕ → Scanned (Unit {0})
scan_any [] = err bad_parse
scan_any (c ∷ text) = ok (tt, text)

-- A character of the format that is not white space.
unfoldable pub scan_char : ℕ → List ℕ → Scanned (Unit {0})
scan_char c [] = err bad_parse
scan_char c (d ∷ text) = if d == c then ok (tt, text) else err bad_parse

unfoldable pub read_word : ℕ → List ℕ → List ℕ × List ℕ
read_word zero text = ([], text)
read_word (suc width) [] = ([], [])
read_word (suc width) (c ∷ text) =
    let (word, rest) = read_word width text in
    if is_space c then ([], c ∷ text) else (c ∷ word, rest)

-- `%<width>s`
unfoldable pub scan_word : ℕ → List ℕ → Scanned (List ℕ)
scan_word width text = elim (skip_space text) [
  | [] ↦ err bad_parse
  | c ∷ rest ↦ ok (read_word width (c ∷ rest))
]

abbrev pub month_names : List ℕ
month_names = codes "JanFebMarAprMayJunJulAugSepOctNovDec"

abbrev pub weekday_names : List ℕ
weekday_names = codes "SunMonTueWedThuFriSat"

-- The `i`-th name of three letters.
abbrev pub name_at : List ℕ → ℕ → List ℕ
name_at names i = take 3 (drop (i * 3) names)

-- The loop of shadps4_rtc_month_from_name, from the name `i` on.
unfoldable pub find_name : List ℕ → ℕ → ℕ → ℕ
find_name name zero i = 0
find_name name (suc left) i =
    let later = find_name name left (i + 1) in
    if str_eq name (name_at month_names i) then i + 1 else later

unfoldable pub month_from_name : List ℕ → ℕ
month_from_name name = find_name name 12 0
