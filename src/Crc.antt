-- ===== src/Crc.antt =====
-- The CRC-16/XMODEM of src/serial_interface.cpp, which tests/support/emulated_serial_transport.cpp
-- repeats, and the CRC-32 of src/firmwareupdater.cpp.
pub mod Detection
use p2000t_cartridge_studio.Bytes.{Bytes, IsBytes}
use p2000t_cartridge_studio.Base.{
  ℕ, zero, suc, ◌+◌, ◌-◌, ◌*◌, ◌/◌, ◌%◌, ◌^◌, ◌≤◌, ◌<◌, min, max, bit_and, bit_or, bit_xor, ◌≡◌,
  refl, sym, ap, subst, ◌∙◌, ◌≢◌, ◌↔◌, ◌⊎◌, inl, inr, Bool, true, false, not, ◌&&◌, ◌||◌, Option,
  none, some, List, [], ◌∷◌, ◌++◌, map, append-nil, append_assoc, arith, ltb, leb, ◌==◌,
  if◌then◌else◌, Bool-cases, Option-cases, ==_iff, ltb→lt, lt→ltb, leb→le, length, get_elem?,
  get_or, set, take, drop, replicate, length-append, length-take, length-drop, length-replicate,
  length-map, length-set, get_elem?-set_self, get_elem?-set_ne, get_elem?-ge, get_elem?-take,
  get_elem?-drop, get_elem?-append, get_elem?-replicate, list_ext, take-append-drop, bit_and_step,
  bit_or_step, bit_xor_step, bit_xor-bit_xor_right, bit_xor-parity, bit_xor-lt, bit_xor_left_cancel,
  bit_or-shifted, bit_or-zero,
}

-- One round of the inner loop: shift left in 16 bits, and add the polynomial if a bit fell out.
unfoldable pub crc16_bit : ℕ → ℕ
crc16_bit crc =
    if bit_and crc 0x8000 == 0 then crc * 2 % 2 ^ 16 else bit_xor (crc * 2) 0x1021 % 2 ^ 16

unfoldable pub crc16_bits : ℕ → ℕ → ℕ
crc16_bits zero crc = crc
crc16_bits (suc n) crc = crc16_bits n (crc16_bit crc)

-- The body of the loop over the bytes.
unfoldable pub crc16_byte : ℕ → ℕ → ℕ
unfolding crc16_bits crc16_bit
crc16_byte crc value = crc16_bits 8 (bit_xor crc (value * 2 ^ 8))

unfoldable pub crc16_from : ℕ → Bytes → ℕ
unfolding crc16_byte
crc16_from crc [] = crc
crc16_from crc (value ∷ rest) = crc16_from (crc16_byte crc value) rest

unfoldable pub crc16_xmodem : Bytes → ℕ
unfolding crc16_from
crc16_xmodem = crc16_from 0

-- One round of the inner loop of `crc32`.
unfoldable pub crc32_bit : ℕ → ℕ
crc32_bit crc = bit_xor (crc / 2) (if bit_and crc 1 == 0 then 0 else 0xEDB88320)

unfoldable pub crc32_bits : ℕ → ℕ → ℕ
crc32_bits zero crc = crc
crc32_bits (suc n) crc = crc32_bits n (crc32_bit crc)

unfoldable pub crc32_from : ℕ → Bytes → ℕ
unfolding crc32_bits crc32_bit
crc32_from crc [] = crc
crc32_from crc (value ∷ rest) = crc32_from (crc32_bits 8 (bit_xor crc value)) rest

-- `~crc` of a 32-bit number.
unfoldable pub crc32 : Bytes → ℕ
unfolding crc32_from
crc32 xs = 0xFFFF_FFFF - crc32_from 0xFFFF_FFFF xs

crc16_check :
    crc16_xmodem (b'1' ∷ b'2' ∷ b'3' ∷ b'4' ∷ b'5' ∷ b'6' ∷ b'7' ∷ b'8' ∷ b'9' ∷ []) ≡ 0x31C3
unfolding crc16_xmodem
crc16_check = refl

crc32_check : crc32 (b'1' ∷ b'2' ∷ b'3' ∷ b'4' ∷ b'5' ∷ b'6' ∷ b'7' ∷ b'8' ∷ b'9' ∷ []) ≡ 0xCBF43926
unfolding crc32
crc32_check = refl
