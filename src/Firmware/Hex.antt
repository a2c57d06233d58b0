-- ===== src/Firmware/Hex.antt =====
-- src/firmwareupdater.cpp: what validate_application_hex uses to read a line of Intel HEX, and the
-- failures that it reports.
use p2000t_cartridge_studio.Bytes.{Bytes, is_empty}
use p2000t_cartridge_studio.Base.{
  ℕ, ◌+◌, ◌-◌, ◌*◌, ◌%◌, ◌^◌, Bool, true, ◌&&◌, ◌||◌, List, [], ◌∷◌, leb, ◌==◌, if◌then◌else◌,
  get_or,
}

-- The messages of `malformed`.
pub data Detail : Type 0 where
  data_after_end bad_framing not_hexadecimal bad_length bad_checksum image_too_large : Detail
  data_overlaps bad_end_record bad_segment_record bad_linear_record bad_start_record : Detail
  unsupported_type : Detail

pub data HexFailure : Type 0 where
  malformed : ℕ → Detail → HexFailure
  reaches_bootloader no_end_record no_data no_reset_vector manifest_incomplete : HexFailure
  manifest_unsupported protocol_unsupported bad_application_length data_outside_crc : HexFailure
  crc_mismatch : ℕ → ℕ → HexFailure

-- `byte_at` of a record, within it.
unfoldable pub byte_at : Bytes → ℕ → ℕ
byte_at xs i = get_or xs i 0

unfoldable pub little_u32 : Bytes → ℕ → ℕ
unfolding byte_at
little_u32 xs offset =
    byte_at xs offset
    + byte_at xs (offset + 1) * 2 ^ 8
    + byte_at xs (offset + 2) * 2 ^ 16
    + byte_at xs (offset + 3) * 2 ^ 24

-- `QByteArray::split('\n')`: the parts between the separators, at least one.
unfoldable pub prepend : ℕ → List Bytes → List Bytes
prepend c [] = (c ∷ []) ∷ []
prepend c (line ∷ lines) = (c ∷ line) ∷ lines

unfoldable pub split_lines : Bytes → List Bytes
unfolding prepend
split_lines [] = [] ∷ []
split_lines (c ∷ cs) = let rest = split_lines cs in if c == 10 then [] ∷ rest else prepend c rest

-- `QByteArray::trimmed`.
unfoldable pub is_space : ℕ → Bool
is_space c = c == 32 || leb 9 c && leb c 13

unfoldable pub trimmed_front : Bytes → Bytes
unfolding is_space
trimmed_front [] = []
trimmed_front (c ∷ cs) = let rest = trimmed_front cs in if is_space c then rest else c ∷ cs

unfoldable pub trimmed_back : Bytes → Bytes
unfolding is_space
trimmed_back [] = []
trimmed_back (c ∷ cs) =
    let rest = trimmed_back cs in if is_space c && is_empty rest then [] else c ∷ rest

unfoldable pub trimmed : Bytes → Bytes
unfolding trimmed_front trimmed_back
trimmed xs = trimmed_back (trimmed_front xs)

unfoldable pub is_hex : ℕ → Bool
is_hex c = leb b'0' c && leb c b'9' || leb b'A' c && leb c b'F' || leb b'a' c && leb c b'f'

unfoldable pub all_hex : Bytes → Bool
unfolding is_hex
all_hex [] = true
all_hex (c ∷ cs) = is_hex c && all_hex cs

unfoldable pub hex_value : ℕ → ℕ
hex_value c = if leb b'a' c then c - b'a' + 10 else if leb b'A' c then c - b'A' + 10 else c - b'0'

-- `QByteArray::fromHex` of an even number of hexadecimal digits.
unfoldable pub from_hex : Bytes → Bytes
unfolding hex_value
from_hex [] = []
from_hex (h ∷ []) = []
from_hex (h ∷ l ∷ rest) = (hex_value h * 16 + hex_value l) ∷ from_hex rest

-- The sum of a record's bytes in uint8_t.
unfoldable pub checksum : Bytes → ℕ
checksum [] = 0
checksum (x ∷ xs) = (x + checksum xs) % 256
