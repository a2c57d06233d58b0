-- ===== src/Crc/Detection.antt =====
-- What the two checksums detect. Each round of either loop is injective, so a message in which one
-- byte is changed never has the checksum of the original.
use native.Mathlib.Decide.{dec_lt}
use p2000t_cartridge_studio.Bytes.{Bytes, IsBytes}
use p2000t_cartridge_studio.Crc.{crc16_bit, crc16_bits, crc16_byte, crc16_from, crc16_xmodem}
use p2000t_cartridge_studio.Base.{
  ℕ, zero, suc, ◌+◌, ◌*◌, ◌/◌, ◌^◌, ◌≤◌, ◌<◌, bit_and, bit_xor, ◌≡◌, refl, ◌∙◌, ◌≢◌, [], ◌∷◌, ◌++◌,
  arith, bit_xor-parity, bit_xor-lt, bit_xor_left_cancel, bit_xor_right_cancel, bit_and-pow,
  bit_xor-div,
}

-- The bit that `crc & 0x8000` reads in a 16-bit number.
top_bit : (c : ℕ) → c < 2 ^ 16 → bit_and c 0x8000 ≡ c / 2 ^ 15 * 2 ^ 15
top_bit c h = omega (arith, bit_and-pow 15 c)

crc16_bit-lt : (c : ℕ) → crc16_bit c < 2 ^ 16
unfolding crc16_bit
crc16_bit-lt c = ground arith

crc16_bit_low : (c : ℕ) → c < 2 ^ 15 → crc16_bit c ≡ c * 2
unfolding crc16_bit
crc16_bit_low c h = ground (arith, top_bit c)

carried : (c : ℕ) → 2 ^ 15 ≤ c → c < 2 ^ 16 → bit_xor (c * 2) 0x1021 / 2 ^ 16 ≡ 1
carried c h k =
    let upper : c * 2 / 2 ^ 16 ≡ 1 = omega arith in bit_xor-div 16 (c * 2) 0x1021 ∙ rw upper refl

crc16_bit_high : (c : ℕ) → 2 ^ 15 ≤ c → c < 2 ^ 16 → crc16_bit c + 2 ^ 16 ≡ bit_xor (c * 2) 0x1021
unfolding crc16_bit
crc16_bit_high c h k = ground (arith, top_bit c, carried c)

-- The lowest bit of the result tells which branch was taken, and either branch can be undone.
pub crc16_bit-injective : (a b : ℕ) → a < 2 ^ 16 → b < 2 ^ 16 → crc16_bit a ≡ crc16_bit b → a ≡ b
crc16_bit-injective a b p q e = elim (dec_lt a (2 ^ 15)) [
  | yes low_a ↦ elim (dec_lt b (2 ^ 15)) [
    | yes low_b ↦ omega (arith, crc16_bit_low a low_a, crc16_bit_low b low_b)
    | no high_b ↦ absurd (
        omega (
          arith,
          crc16_bit_low a low_a,
          crc16_bit_high b (omega arith) q,
          bit_xor-parity (b * 2) 0x1021,
        ))
  ]
  | no high_a ↦ elim (dec_lt b (2 ^ 15)) [
    | yes low_b ↦ absurd (
        omega (
          arith,
          crc16_bit_low b low_b,
          crc16_bit_high a (omega arith) p,
          bit_xor-parity (a * 2) 0x1021,
        ))
    | no high_b ↦
        let same : bit_xor (a * 2) 0x1021 ≡ bit_xor (b * 2) 0x1021 =
          omega (arith, crc16_bit_high a (omega arith) p, crc16_bit_high b (omega arith) q) in
        omega (arith, bit_xor_left_cancel (a * 2) (b * 2) 0x1021 same)
  ]
]

crc16_bits-lt : (n c : ℕ) → c < 2 ^ 16 → crc16_bits n c < 2 ^ 16
unfolding crc16_bits
crc16_bits-lt zero c h = h
crc16_bits-lt (suc n) c h = crc16_bits-lt n (crc16_bit c) (crc16_bit-lt c)

crc16_bits-injective :
    (n a b : ℕ) → a < 2 ^ 16 → b < 2 ^ 16 → crc16_bits n a ≡ crc16_bits n b → a ≡ b
unfolding crc16_bits
crc16_bits-injective zero a b p q e = e
crc16_bits-injective (suc n) a b p q e =
    crc16_bit-injective a b p q
      (crc16_bits-injective n (crc16_bit a) (crc16_bit b) (crc16_bit-lt a) (crc16_bit-lt b) e)

loaded-lt : (c v : ℕ) → c < 2 ^ 16 → v < 256 → bit_xor c (v * 2 ^ 8) < 2 ^ 16
loaded-lt c v h k = bit_xor-lt 16 c (v * 2 ^ 8) h (omega arith)

crc16_byte-lt : (c v : ℕ) → c < 2 ^ 16 → v < 256 → crc16_byte c v < 2 ^ 16
unfolding crc16_byte
crc16_byte-lt c v h k = crc16_bits-lt 8 _ (loaded-lt c v h k)

-- One byte read takes different states to different states,
crc16_byte-injective :
    (a b v : ℕ) → a < 2 ^ 16 → b < 2 ^ 16 → v < 256 → crc16_byte a v ≡ crc16_byte b v → a ≡ b
unfolding crc16_byte
crc16_byte-injective a b v p q h e =
    bit_xor_left_cancel a b (v * 2 ^ 8)
      (crc16_bits-injective 8 _ _ (loaded-lt a v p h) (loaded-lt b v q h) e)

-- and from one state different bytes lead to different states.
crc16_byte_value-injective :
    (c v w : ℕ) → c < 2 ^ 16 → v < 256 → w < 256 → crc16_byte c v ≡ crc16_byte c w → v ≡ w
unfolding crc16_byte
crc16_byte_value-injective c v w h p q e =
    let same = crc16_bits-injective 8 _ _ (loaded-lt c v h p) (loaded-lt c w h q) e in
    omega (arith, bit_xor_right_cancel c (v * 2 ^ 8) (w * 2 ^ 8) same)

pub crc16_from-lt : (c : ℕ) (xs : Bytes) → c < 2 ^ 16 → IsBytes xs → crc16_from c xs < 2 ^ 16
unfolding crc16_from
crc16_from-lt c [] h k = h
crc16_from-lt c (v ∷ xs) h k = crc16_from-lt (crc16_byte c v) xs (crc16_byte-lt c v h k.0) k.1

-- The checksum of any bytes fits 16 bits.
pub crc16_xmodem-lt : (xs : Bytes) → IsBytes xs → crc16_xmodem xs < 2 ^ 16
unfolding crc16_xmodem
crc16_xmodem-lt xs h = crc16_from-lt 0 xs (omega arith) h

crc16_from-injective :
    (xs : Bytes) (a b : ℕ)
    → a < 2 ^ 16
    → b < 2 ^ 16
    → IsBytes xs
    → crc16_from a xs ≡ crc16_from b xs
    → a ≡ b
unfolding crc16_from
crc16_from-injective [] a b p q h e = e
crc16_from-injective (v ∷ xs) a b p q h e = crc16_byte-injective a b v p q h.0 (
    crc16_from-injective xs (crc16_byte a v) (crc16_byte b v) (crc16_byte-lt a v p h.0)
      (crc16_byte-lt b v q h.0) h.1 e)

crc16_from_changed :
    (front back : Bytes) (c v w : ℕ)
    → c < 2 ^ 16
    → IsBytes (front ++ v ∷ back)
    → w < 256
    → crc16_from c (front ++ v ∷ back) ≡ crc16_from c (front ++ w ∷ back)
    → v ≡ w
unfolding crc16_from
crc16_from_changed [] back c v w h k l e = crc16_byte_value-injective c v w h k.0 l (
    crc16_from-injective back (crc16_byte c v) (crc16_byte c w) (crc16_byte-lt c v h k.0)
      (crc16_byte-lt c w h l) k.1 e)
crc16_from_changed (x ∷ front) back c v w h k l e =
    crc16_from_changed front back (crc16_byte c x) v w (crc16_byte-lt c x h k.0) k.1 l e

-- Two messages of bytes that differ in exactly one byte have different CRC-16 checksums.
pub crc16_xmodem_detects :
    (front back : Bytes) (v w : ℕ)
    → IsBytes (front ++ v ∷ back)
    → w < 256
    → v ≢ w
    → crc16_xmodem (front ++ v ∷ back) ≢ crc16_xmodem (front ++ w ∷ back)
unfolding crc16_xmodem
crc16_xmodem_detects front back v w h k ne e =
    ne (crc16_from_changed front back 0 v w (omega arith) h k e)
