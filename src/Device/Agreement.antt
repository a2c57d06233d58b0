-- ===== src/Device/Agreement.antt =====
-- The parser of firmware/protocol.c and the emulated cartridge of
-- src/tests/support/emulated_serial_transport.cpp, side by side.
pub mod Digits
pub mod Commands
pub mod Dispatch
pub mod Payload
pub mod Heard
use native.Mathlib.Nat.{mod-eq_of_lt}
use p2000t_cartridge_studio.RomSizes.{romsize, blocksize, banksize, numblocks, numbanks}
use p2000t_cartridge_studio.Bytes.{Bytes, bytes_eq, starts_with, mid, bytes_eq_iff}
use p2000t_cartridge_studio.Text.{codes, is_upper_hex, all_upper_hex, hex_digit_value, hex_number}
use p2000t_cartridge_studio.Crc.{crc16_xmodem, crc16_from}
use p2000t_cartridge_studio.Emulator.{
  Backend, Emulated, sst39sf020, parse_block, parse_bank, erase_range, program_range,
  queue_response, respond_range, read_range, erase_bank_command, write_block_command, erase_all,
  dispatch,
}
use p2000t_cartridge_studio.Device.Protocol.{
  ProtocolOps, Protocol, protocol_crc, digit_value, digits_number, block_number, bank_number, Fed,
  read_bank_command, erase_bank_response, read_block_response, block_command, respond,
}
use p2000t_cartridge_studio.Base.{
  ℕ, zero, suc, ◌+◌, ◌-◌, ◌*◌, ◌/◌, ◌%◌, ◌^◌, ◌≤◌, ◌<◌, min, max, bit_and, bit_or, bit_xor, ◌≡◌,
  refl, sym, ap, subst, ◌∙◌, ◌≢◌, ◌↔◌, ◌⊎◌, inl, inr, Bool, true, false, not, ◌&&◌, ◌||◌, Option,
  none, some, List, [], ◌∷◌, ◌++◌, map, append-nil, append_assoc, arith, ltb, leb, ◌==◌,
  if◌then◌else◌, Bool-cases, if_both, option_both, Option-cases, ==_iff, ltb→lt, lt→ltb, leb→le,
  length, get_elem?, get_or, set, take, drop, replicate, length-append, length-take, length-drop,
  length-replicate, length-map, length-set, get_elem?-set_self, get_elem?-set_ne, get_elem?-ge,
  get_elem?-take, get_elem?-drop, get_elem?-append, get_elem?-replicate, list_ext, take-append-drop,
  get_or_append_exact, take-length, drop-length, take_append_exact, drop_append_exact,
  take-append_le, drop-append_le, bit_and_step, bit_or_step, bit_xor_step, bit_xor-bit_xor_right,
  bit_xor-parity, bit_xor-lt, bit_xor_left_cancel, bit_xor_right_cancel, bit_xor_comm,
  bit_or-shifted, bit_or-zero, bit_and-zero, bit_and-pow, bit_xor-div, bit_and-one,
}

-- What a driver of the flash promises, with a relation of its states to the cartridge that the emulator
-- stores. It is of the supported chip, and no fault is injected.
pub record Implements {D : Type 0} (ops : ProtocolOps D) (R : D → Backend → Type 0) : Type 0 where
  pub supported : (d : D) (b : Backend) → R d b → b.chip_id ≡ sst39sf020
  pub faultless : (d : D) (b : Backend) → R d b → b.corrupt_next_read_crc ≡ false
  pub named : (d : D) (b : Backend) → R d b → b.board_info ≡ codes "P2000T-FW p01.00"
  pub identifies :
      (d : D) (b : Backend)
      → R d b
      → ((ops.read_id d).0 ≡ b.chip_id / 2 ^ 8 ∷ b.chip_id % 256 ∷ []) × R (ops.read_id d).1 b
  pub reads :
      (d : D) (b : Backend) (block : ℕ)
      → block < 1024
      → R d b
      → ((ops.read_block block d).0 ≡ 0)
        × ((ops.read_block block d).1 ≡ mid (block * blocksize) blocksize b.flash)
        × R (ops.read_block block d).2 b
  pub erases :
      (d : D) (b : Backend)
      → R d b
      → ((ops.erase d).0 ≡ 0) × R (ops.erase d).1 (erase_range 0 romsize b)
  pub erases_bank :
      (d : D) (b : Backend) (bank : ℕ)
      → bank < 16
      → R d b
      → ((ops.erase_bank bank d).0 ≡ 0)
        × R (ops.erase_bank bank d).1 (erase_range (bank * banksize) banksize b)
  pub programs :
      (d : D) (b : Backend) (block : ℕ) (content : Bytes)
      → block < 1024
      → length content ≡ 256
      → R d b
      → ((ops.program_block block content d).0
          ≡ (if (program_range (block * blocksize) content b).0 then 0 else 6))
        × R (ops.program_block block content d).1 (program_range (block * blocksize) content b).1
  pub boots : (d : D) (b : Backend) → R d b → R (ops.boot d) b

-- A bank and its CRC, as send_bank of firmware/main.c sends them.
abbrev pub with_crc : Bytes → Bytes
with_crc content = let crc = crc16_xmodem content in content ++ (crc / 2 ^ 8 ∷ crc % 256 ∷ [])

abbrev pub bank_stream : Bool → ℕ → Bytes → Bytes
bank_stream false bank flash = []
bank_stream true bank flash = with_crc (mid (bank * banksize) banksize flash)

-- The firmware's answer to a command, with the bank that it announces, and the emulator's.
pub record Agree {D : Type 0} (R : D → Backend → Type 0) (before : Bytes) (r : Fed D) (e : Emulated)
    : Type 0 where
  pub output :
      e.read_buffer
      ≡ before ++ (r.0 ++ bank_stream (r.1.bank_read_pending) (r.1.bank) e.backend.flash)
  pub board : R (r.2) e.backend
  pub mode : r.1.writing ≡ e.pending_block_write
  pub target : r.1.writing ≡ true → (r.1.block ≡ e.pending_block) × (r.1.received ≡ 0)

-- Between commands: the firmware's `writing` and `bank_read_pending`, the emulator's `pending_block_write`.
pub record Ready (writing pending expects : Bool) : Type 0 where
  pub reads_command : writing ≡ false
  pub no_bank : pending ≡ false
  pub expects_command : expects ≡ false

abbrev pub Waiting : Protocol → Emulated → Type 0
Waiting p e = Ready p.writing p.bank_read_pending e.pending_block_write

pub respond_range_plain :
    (offset size : ℕ) (e : Emulated)
    → e.backend.corrupt_next_read_crc ≡ false
    → respond_range offset size e
      ≡ queue_response (0 ∷ with_crc (mid offset size e.backend.flash)) e
unfolding respond_range queue_response
respond_range_plain offset size e plain =
    let spoilt =
      λ (c : Bool). record e { backend = record (e.backend) { corrupt_next_read_crc = c } } in
    subst
      (λ (c : Bool).
        respond_range offset size (spoilt c)
        ≡ queue_response (0 ∷ with_crc (mid offset size e.backend.flash)) (spoilt c))
      (sym plain) refl
