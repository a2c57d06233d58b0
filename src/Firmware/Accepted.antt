-- ===== src/Firmware/Accepted.antt =====
-- What src/firmwareupdater.cpp guarantees of an image that it accepts.
use p2000t_cartridge_studio.Bytes.{Bytes, mid, bytes_eq}
use p2000t_cartridge_studio.Text.{codes}
use p2000t_cartridge_studio.Crc.{crc32}
use p2000t_cartridge_studio.Effects.{Result, ok, err}
use p2000t_cartridge_studio.Firmware.Hex.{HexFailure, byte_at, little_u32, split_lines}
use p2000t_cartridge_studio.Firmware.Image.{
  bootloader_start, manifest_address, manifest_size, FirmwareImageInfo, Image, initial, and_then,
  read_lines, all_blank, all_true, accept, validate_application_hex,
}
use p2000t_cartridge_studio.Firmware.Memory.{
  Holds, Holds-ok, Holds-guard, Holds-map, marked, marked-le, Consistent, initial-Consistent,
  read_lines-Consistent,
}
use p2000t_cartridge_studio.Base.{
  ℕ, ◌-◌, ◌≤◌, ◌<◌, ◌≡◌, refl, Bool, true, false, not, ◌&&◌, ◌||◌, List, arith, ltb, ◌==◌, get_or,
  take, drop,
}

-- What an accepted image is: `image` is what was read, `info` is what is returned.
pub record Trusted (image : Image) (info : FirmwareImageInfo) : Type 0 where
  pub consistent : Consistent 0 image
  pub ended : image.eof_seen ≡ true
  pub counted : info.data_bytes ≡ marked image.occupied
  pub some_data : 1 ≤ info.data_bytes
  pub fits : info.data_bytes ≤ bootloader_start
  pub highest : info.highest_address ≡ image.highest_address
  pub long : 2 ≤ info.image_length
  pub short : info.image_length ≤ manifest_address
  pub length_stored :
      little_u32 (mid manifest_address manifest_size image.memory) 8 ≡ info.image_length
  pub crc_stored :
      little_u32 (mid manifest_address manifest_size image.memory) 12 ≡ info.image_crc32
  pub crc_agrees : crc32 (take info.image_length image.memory) ≡ info.image_crc32
  pub blank_between :
      all_blank (mid info.image_length (manifest_address - info.image_length) image.memory) ≡ true

-- A test that did not throw.
test_passed : (t : Bool) → not t ≡ false → t ≡ true
test_passed t h = ground arith

test_equal : (a b : ℕ) → not (a == b) ≡ false → a ≡ b
test_equal a b h = ground arith

test_some : (n : ℕ) → (n == 0) ≡ false → 1 ≤ n
test_some n h = ground arith

test_within :
    (size limit : ℕ) → (ltb size 2 || ltb limit size) ≡ false → (2 ≤ size) × (size ≤ limit)
test_within size limit h = ground arith

accept-Trusted : (image : Image) → Consistent 0 image → Holds (Trusted image) (accept image)
unfolding accept
accept-Trusted image h =
    let P = Trusted image in
    let memory = image.memory in
    let manifest = mid manifest_address manifest_size memory in
    let size = little_u32 manifest 8 in
    Holds-guard P (not image.eof_seen) _ _ λ a. Holds-guard P (image.data_bytes == 0) _ _ λ b.
      Holds-guard P
        (not (get_or image.occupied 0 false)
          || not (get_or image.occupied 1 false)
          || byte_at memory 0 == 0xFF && byte_at memory 1 == 0xFF)
        _ _
        λ d.
          Holds-guard P (not (all_true (take manifest_size (drop manifest_address image.occupied))))
            _ _
            λ e.
              Holds-guard P
                (not (bytes_eq (take 4 manifest) (codes "P2FW")) || not (byte_at manifest 4 == 1)) _
                _
                λ f.
                  Holds-guard P (not (byte_at manifest 5 == 1) || not (byte_at manifest 6 == 0)) _ _
                    λ g. Holds-guard P (ltb size 2 || ltb manifest_address size) _ _ λ i.
                      Holds-guard P (not (all_blank (mid size (manifest_address - size) memory))) _
                        _
                        λ j.
                          Holds-guard P (not (crc32 (take size memory) == little_u32 manifest 12)) _
                            _
                            λ k. Holds-ok P _ (record {
                              consistent = h;
                              ended = test_passed _ a;
                              counted = omega (arith, h.counted);
                              some_data = test_some image.data_bytes b;
                              fits =
                                  omega
                                    (arith, h.counted, marked-le image.occupied, h.occupied_size);
                              highest = refl;
                              long = (test_within size manifest_address i).0;
                              short = (test_within size manifest_address i).1;
                              length_stored = refl;
                              crc_stored = refl;
                              crc_agrees = test_equal _ _ k;
                              blank_between = test_passed _ j;
                            })

accepted_lines :
    (r : Result HexFailure Image)
    → Holds (Consistent 0) r
    → Holds (λ info. (image : Image) × (r ≡ ok image) × Trusted image info) (and_then r accept)
unfolding Holds
accepted_lines (ok image) h =
    Holds-map (Trusted image) _ (accept image) (λ info t. (image, refl, t)) (accept-Trusted image h)
accepted_lines (err e) h = tt

-- For every file, validate_application_hex throws or returns facts of the image that its lines
-- spell out: every counted byte is stored once, below the highest address, which is at most the
-- start of the bootloader; what no record covers reads as FF; there is data; an end record was
-- seen; the length in the manifest lies between 2 and the manifest; the CRC-32 in the manifest is
-- that of so many bytes; and all between them and the manifest is FF.
pub validate-Trusted :
    (contents : Bytes)
    → Holds
        (λ info.
          (image : Image) × (read_lines 0 (split_lines contents) initial ≡ ok image)
          × Trusted image info)
        (validate_application_hex contents)
unfolding validate_application_hex
validate-Trusted contents =
    accepted_lines (read_lines 0 (split_lines contents) initial)
      (read_lines-Consistent 0 (split_lines contents) initial initial-Consistent)

-- After any lines that were accepted, the test of a further record that guards data_bytes against
-- int overflow passes, so that its error cannot occur.
pub image_too_large_unreachable :
    (number count : ℕ) (lines : List Bytes)
    → count < 256
    → Holds
        (λ (image : Image). ltb (2147483647 - count) image.data_bytes ≡ false)
        (read_lines number lines initial)
image_too_large_unreachable number count lines small =
    Holds-map (Consistent 0) _ (read_lines number lines initial)
      (λ image h. ground (arith, h.counted, marked-le image.occupied, h.occupied_size))
      (read_lines-Consistent number lines initial initial-Consistent)
