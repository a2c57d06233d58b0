-- ===== src/Text.antt =====
-- Text as lists of code points: literals, and numbers in upper-case hexadecimal as
-- `QStringLiteral("%1").arg(n, width, 16, QLatin1Char('0')).toUpper()` writes one that fits the width.
use Prim.Native.Char.{code}
use Prim.Native.String.{String}
use native.Mathlib.Nat.{pow-suc}
use p2000t_cartridge_studio.Base.{
  ℕ, zero, suc, ◌+◌, ◌-◌, ◌*◌, ◌/◌, ◌%◌, ◌^◌, ◌<◌, ◌≡◌, refl, Bool, true, ◌&&◌, ◌||◌, [], ◌∷◌, ◌++◌,
  arith, ltb, leb, if◌then◌else◌, length, length-append,
}
use p2000t_cartridge_studio.Bytes.{Bytes}

abbrev pub codes : String → Bytes
codes String.[] = []
codes (String.◌∷◌ c s) = code c ∷ codes s

unfoldable pub hex_digit : ℕ → ℕ
hex_digit d = if ltb d 10 then b'0' + d else b'A' + (d - 10)

unfoldable pub hex_field : ℕ → ℕ → Bytes
unfolding hex_digit
hex_field zero n = []
hex_field (suc width) n = hex_field width (n / 16) ++ (hex_digit (n % 16) ∷ [])

-- `%1` with a byte: no leading zeros.
unfoldable pub decimal_byte : ℕ → Bytes
decimal_byte n =
    let units = (b'0' + n % 10) ∷ [] in
    let tens = (b'0' + n / 10 % 10) ∷ units in
    if ltb n 10 then units else if ltb n 100 then tens else (b'0' + n / 100) ∷ tens

unfoldable pub is_upper_hex : ℕ → Bool
is_upper_hex c = leb b'0' c && leb c b'9' || leb b'A' c && leb c b'F'

unfoldable pub all_upper_hex : Bytes → Bool
unfolding is_upper_hex
all_upper_hex [] = true
all_upper_hex (c ∷ cs) = is_upper_hex c && all_upper_hex cs

unfoldable pub hex_digit_value : ℕ → ℕ
hex_digit_value c = if leb b'A' c then c - b'A' + 10 else c - b'0'

-- `toUInt(&ok, 16)` of digits that is_upper_hex accepts.
unfoldable pub hex_number : ℕ → Bytes → ℕ
unfolding hex_digit_value
hex_number acc [] = acc
hex_number acc (c ∷ cs) = hex_number (acc * 16 + hex_digit_value c) cs

hex_digit_back :
    (d : ℕ) → d < 16 → (is_upper_hex (hex_digit d) ≡ true) × (hex_digit_value (hex_digit d) ≡ d)
unfolding is_upper_hex hex_digit hex_digit_value
hex_digit_back d h = ground arith

hex_number-concat :
    (acc : ℕ) (xs : Bytes) (c : ℕ)
    → hex_number acc (xs ++ c ∷ []) ≡ hex_number acc xs * 16 + hex_digit_value c
unfolding hex_number
hex_number-concat acc [] c = refl
hex_number-concat acc (x ∷ xs) c = hex_number-concat (acc * 16 + hex_digit_value x) xs c

all_upper_hex-concat :
    (xs : Bytes) (c : ℕ) → all_upper_hex (xs ++ c ∷ []) ≡ (all_upper_hex xs && is_upper_hex c)
unfolding all_upper_hex
all_upper_hex-concat [] c = ground arith
all_upper_hex-concat (x ∷ xs) c = ground (arith, all_upper_hex-concat xs c)

-- A number that fits the field is read back from it.
pub hex_number-hex_field : (width n : ℕ) → n < 16 ^ width → hex_number 0 (hex_field width n) ≡ n
unfolding hex_field hex_number
hex_number-hex_field zero n h = omega arith
hex_number-hex_field (suc width) n h = omega (
  arith,
  pow-suc 16 width,
  hex_number-concat 0 (hex_field width (n / 16)) (hex_digit (n % 16)),
  hex_number-hex_field width (n / 16) (omega (arith, pow-suc 16 width)),
  (hex_digit_back (n % 16) (omega arith)).1,
)

pub all_upper_hex-hex_field : (width n : ℕ) → all_upper_hex (hex_field width n) ≡ true
unfolding hex_field all_upper_hex
all_upper_hex-hex_field zero n = refl
all_upper_hex-hex_field (suc width) n = ground (
  arith,
  all_upper_hex-concat (hex_field width (n / 16)) (hex_digit (n % 16)),
  all_upper_hex-hex_field width (n / 16),
  hex_digit_back (n % 16) (omega arith),
)

pub length-hex_field : (width n : ℕ) → length (hex_field width n) ≡ width
unfolding hex_field
length-hex_field zero n = refl
length-hex_field (suc width) n = omega (
  arith,
  length-append (hex_field width (n / 16)) (hex_digit (n % 16) ∷ []),
  length-hex_field width (n / 16),
)
