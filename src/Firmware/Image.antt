-- ===== src/Firmware/Image.antt =====
-- src/firmwareupdater.cpp: validate_application_hex.
use p2000t_cartridge_studio.Bytes.{Bytes, is_empty, mid, bytes_eq}
use p2000t_cartridge_studio.Text.{codes}
use p2000t_cartridge_studio.Crc.{crc32}
use p2000t_cartridge_studio.Effects.{Result, ok, err}
use p2000t_cartridge_studio.Firmware.Hex.{
  data_after_end, bad_framing, not_hexadecimal, bad_length, bad_checksum, image_too_large,
  data_overlaps, bad_end_record, bad_segment_record, bad_linear_record, bad_start_record,
  unsupported_type, HexFailure, malformed, reaches_bootloader, no_end_record, no_data,
  no_reset_vector, manifest_incomplete, manifest_unsupported, protocol_unsupported,
  bad_application_length, data_outside_crc, crc_mismatch, byte_at, little_u32, split_lines, trimmed,
  all_hex, from_hex, checksum,
}
use p2000t_cartridge_studio.Base.{
  ℕ, ◌+◌, ◌-◌, ◌*◌, ◌%◌, ◌^◌, max, Bool, true, false, not, ◌&&◌, ◌||◌, List, [], ◌∷◌, ltb, ◌==◌,
  if◌then◌else◌, length, get_or, set, take, drop, replicate,
}

abbrev pub bootloader_start : ℕ
bootloader_start = 0x7000

abbrev pub manifest_address : ℕ
manifest_address = 0x6FF0

abbrev pub manifest_size : ℕ
manifest_size = 16

pub record FirmwareImageInfo : Type 0 where
  pub data_bytes : ℕ
  pub highest_address : ℕ
  pub image_length : ℕ
  pub image_crc32 : ℕ

-- The variables of the loop over the lines; the line number is an argument.
pub record Image : Type 0 where
  pub base_address : ℕ
  pub eof_seen : Bool
  pub data_bytes : ℕ
  pub highest_address : ℕ
  pub memory : Bytes
  pub occupied : List Bool

abbrev pub initial : Image
initial = record {
  base_address = 0;
  eof_seen = false;
  data_bytes = 0;
  highest_address = 0;
  memory = replicate bootloader_start 0xFF;
  occupied = replicate bootloader_start false;
}

-- What follows in the loop unless something was thrown.
abbrev pub and_then :
    {A B : Type 0} → Result HexFailure A → (A → Result HexFailure B) → Result HexFailure B
and_then (ok a) f = f a
and_then (err e) f = err e

-- The loop over the bytes of a data record.
unfoldable pub place : ℕ → ℕ → Bytes → Image → Result HexFailure Image
place line absolute [] image = ok image
place line absolute (value ∷ rest) image =
    let later = place line (absolute + 1) rest (record image {
      occupied = set image.occupied absolute true;
      memory = set image.memory absolute value;
    }) in
    if get_or image.occupied absolute false then err (malformed line data_overlaps) else later

unfoldable pub data_record : ℕ → ℕ → ℕ → Bytes → Image → Result HexFailure Image
unfolding place
data_record line address count content image =
    let start = image.base_address + address in
    let end = start + count in
    if ltb bootloader_start end
    then err reaches_bootloader
    else if ltb (2147483647 - count) image.data_bytes
    then err (malformed line image_too_large)
    else place line start content (record image {
      data_bytes = image.data_bytes + count;
      highest_address = max image.highest_address end;
    })

-- `switch(type)`; the record is as long as its byte count says.
unfoldable pub apply_record : ℕ → Bytes → Image → Result HexFailure Image
unfolding data_record byte_at
apply_record line content image =
    let count = byte_at content 0 in
    let address = byte_at content 1 * 2 ^ 8 + byte_at content 2 in
    let type = byte_at content 3 in
    let value = byte_at content 4 * 2 ^ 8 + byte_at content 5 in
    if type == 0
    then data_record line address count (mid 4 count content) image
    else if type == 1
    then (if not (count == 0) || not (address == 0)
        then err (malformed line bad_end_record)
        else ok (record image { eof_seen = true }))
    else if type == 2
    then (if not (count == 2) || not (address == 0)
        then err (malformed line bad_segment_record)
        else ok (record image { base_address = value * 2 ^ 4 }))
    else if type == 4
    then (if not (count == 2) || not (address == 0)
        then err (malformed line bad_linear_record)
        else ok (record image { base_address = value * 2 ^ 16 }))
    else if type == 3 || type == 5
    then (if not (count == 4) || not (address == 0)
        then err (malformed line bad_start_record)
        else ok image)
    else err (malformed line unsupported_type)

-- One round of the loop over the lines.
unfoldable pub read_line : ℕ → Bytes → Image → Result HexFailure Image
unfolding apply_record
read_line number raw image =
    let line = trimmed raw in
    let content = from_hex (drop 1 line) in
    if is_empty line
    then ok image
    else if image.eof_seen
    then err (malformed number data_after_end)
    else if not (get_or line 0 0 == b':') || not ((length line - 1) % 2 == 0)
    then err (malformed number bad_framing)
    else if not (all_hex (drop 1 line))
    then err (malformed number not_hexadecimal)
    else if ltb (length content) 5 || not (length content == byte_at content 0 + 5)
    then err (malformed number bad_length)
    else if not (checksum content == 0)
    then err (malformed number bad_checksum)
    else apply_record number content image

unfoldable pub read_lines : ℕ → List Bytes → Image → Result HexFailure Image
unfolding read_line
read_lines number [] image = ok image
read_lines number (line ∷ lines) image =
    and_then (read_line (number + 1) line image) (read_lines (number + 1) lines)

unfoldable pub all_true : List Bool → Bool
all_true [] = true
all_true (b ∷ bs) = b && all_true bs

unfoldable pub all_blank : Bytes → Bool
all_blank [] = true
all_blank (x ∷ xs) = x == 0xFF && all_blank xs

-- The tests after the loop.
unfoldable pub accept : Image → Result HexFailure FirmwareImageInfo
accept image =
    let memory = image.memory in
    let manifest = mid manifest_address manifest_size memory in
    let image_length = little_u32 manifest 8 in
    let image_crc32 = little_u32 manifest 12 in
    let actual_crc = crc32 (take image_length memory) in
    if not image.eof_seen
    then err no_end_record
    else if image.data_bytes == 0
    then err no_data
    else if not (get_or image.occupied 0 false)
        || not (get_or image.occupied 1 false)
        || byte_at memory 0 == 0xFF && byte_at memory 1 == 0xFF
    then err no_reset_vector
    else if not (all_true (take manifest_size (drop manifest_address image.occupied)))
    then err manifest_incomplete
    else if not (bytes_eq (take 4 manifest) (codes "P2FW")) || not (byte_at manifest 4 == 1)
    then err manifest_unsupported
    else if not (byte_at manifest 5 == 1) || not (byte_at manifest 6 == 0)
    then err protocol_unsupported
    else if ltb image_length 2 || ltb manifest_address image_length
    then err bad_application_length
    else if not (all_blank (mid image_length (manifest_address - image_length) memory))
    then err data_outside_crc
    else if not (actual_crc == image_crc32)
    then err (crc_mismatch image_crc32 actual_crc)
    else ok (record {
      data_bytes = image.data_bytes;
      highest_address = image.highest_address;
      image_length = image_length;
      image_crc32 = image_crc32;
    })

unfoldable pub validate_application_hex : Bytes → Result HexFailure FirmwareImageInfo
validate_application_hex contents = and_then (read_lines 0 (split_lines contents) initial) accept
