-- ===== src/Examples/FirmwareFile.antt =====
-- An accepted firmware file: a jump at the reset vector, the manifest with the length and the CRC-32 of its
-- two bytes, and the end of the file.
use p2000t_cartridge_studio.Bytes.{Bytes, mid, bytes_eq, is_empty}
use p2000t_cartridge_studio.Text.{codes}
use p2000t_cartridge_studio.Effects.{ok}
use p2000t_cartridge_studio.Crc.{crc32, crc32_bit, crc32_bits, crc32_from}
use p2000t_cartridge_studio.Firmware.Hex.{
  split_lines, trimmed, trimmed_back, trimmed_front, all_hex, is_hex, is_space, hex_value, from_hex,
  prepend, checksum, byte_at, little_u32,
}
use p2000t_cartridge_studio.Firmware.Image.{
  Image, initial, FirmwareImageInfo, bootloader_start, read_lines, read_line, apply_record,
  data_record, place, all_blank, all_true, accept, validate_application_hex,
}
use p2000t_cartridge_studio.Firmware.Memory.{Holds}
use p2000t_cartridge_studio.Firmware.Accepted.{
  Trusted, validate-Trusted, image_too_large_unreachable,
}
use p2000t_cartridge_studio.Base.{◌≡◌, refl, replicate, subst, ltb, false, ◌-◌, arith}

abbrev firmware_file : Bytes
firmware_file = codes ":020000000C945E\n:106FF000503246570101000002000000AE0A0E1A8E\n:00000001FF\n"

abbrev firmware_info : FirmwareImageInfo
firmware_info = record {
  data_bytes = 18;
  highest_address = bootloader_start;
  image_length = 2;
  image_crc32 = 0x1A0E0AAE;
}

firmware_accepted : validate_application_hex firmware_file ≡ ok firmware_info
unfolding validate_application_hex read_lines split_lines is_empty trimmed all_hex from_hex checksum
    mid replicate accept bytes_eq crc32 crc32_bit crc32_bits crc32_from byte_at hex_value is_hex
    is_space little_u32 prepend trimmed_back trimmed_front all_blank all_true apply_record
    data_record place read_line
firmware_accepted = refl

-- What the theorem says of the result of the file.
abbrev Facts : FirmwareImageInfo → Type 0
Facts info =
    (image : Image) × (read_lines 0 (split_lines firmware_file) initial ≡ ok image)
    × Trusted image info

validate-Trusted_example : Facts firmware_info
unfolding Holds
validate-Trusted_example = subst (Holds Facts) firmware_accepted (validate-Trusted firmware_file)

-- Its lines are accepted.
firmware_read : (image : Image) × (read_lines 0 (split_lines firmware_file) initial ≡ ok image)
unfolding Holds
firmware_read =
    let facts : Facts firmware_info =
      subst (Holds Facts) firmware_accepted (validate-Trusted firmware_file) in
    (facts.0, facts.1)

-- A further record of 16 bytes.
image_too_large_unreachable_example : ltb (2147483647 - 16) (firmware_read.0).data_bytes ≡ false
unfolding Holds
image_too_large_unreachable_example =
    subst (Holds (λ (image : Image). ltb (2147483647 - 16) image.data_bytes ≡ false))
      (firmware_read.1) (image_too_large_unreachable 0 16 (split_lines firmware_file) (omega arith))
