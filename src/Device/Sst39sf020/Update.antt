-- ===== src/Device/Sst39sf020/Update.antt =====
-- firmware/sst39sf020.c: programming and erasure of the flash at the level of the pins.
use p2000t_cartridge_studio.Bytes.{Bytes}
use p2000t_cartridge_studio.Device.Sst39sf020.{
  Chip, Event, serviced, delayed_ms, happen, delay_us, idle, command_write, unlock, erase_prefix,
  read_byte, correct_chip, sst_read_block,
}
use p2000t_cartridge_studio.Base.{
  ℕ, zero, suc, ◌+◌, ◌*◌, ◌%◌, ◌^◌, bit_and, bit_xor, Bool, true, false, not, ◌&&◌, Option, none,
  some, List, [], ◌∷◌, leb, ◌==◌, if◌then◌else◌,
}

abbrev pub sst_service : Chip → Chip
sst_service c = happen serviced c

abbrev pub service_after_ms : Chip → Chip
service_after_ms c = sst_service (happen (delayed_ms 1) c)

-- `address & 0xff`, not zero: the service of sst_erase_bank is left out there.
abbrev pub service_at : ℕ → Chip → Chip
service_at offset c = if offset % 256 == 0 then sst_service c else c

module _ (pind : List Event → ℕ) where
  -- A status and the chip.
  abbrev pub Done : Type 0
  Done = ℕ × Chip

  abbrev pub finished : ℕ → Chip → Done
  finished value c = (value, idle c)

  -- The test for bits that would have to become one.
  unfoldable pub check_bits : ℕ → Bytes → Chip → Bool × Chip
  unfolding read_byte
  check_bits addr [] c = (true, c)
  check_bits addr (b ∷ bs) c =
      let (old, c₁) = read_byte pind addr c in
      let rest = check_bits (addr + 1) bs c₁ in if bit_and old b == b then rest else (false, c₁)

  -- The loop over `attempts` of a byte program; false when none is left.
  unfoldable pub poll_program : ℕ → ℕ → ℕ → Chip → Bool × Chip
  unfolding read_byte
  poll_program zero addr value c = (false, c)
  poll_program (suc attempts) addr value c =
      let (now, c₁) = read_byte pind addr c in
      let rest = poll_program attempts addr value (if attempts == 0 then c₁ else delay_us 1 c₁) in
      if bit_and (bit_xor now value) 128 == 0 then (true, c₁) else rest

  -- After the polling of a byte: `none` for success.
  unfoldable pub verify_byte : ℕ → ℕ → Bool × Chip → Option ℕ × Chip
  unfolding read_byte
  verify_byte addr value (false, c) = (some 4, c)
  verify_byte addr value (true, c) =
      let (now, c₁) = read_byte pind addr (delay_us 1 c) in
      if now == value then (none, sst_service c₁) else (some 5, c₁)

  unfoldable pub program_byte : ℕ → ℕ → Chip → Option ℕ × Chip
  unfolding read_byte command_write poll_program verify_byte
  program_byte addr value c =
      let (old, c₁) = read_byte pind addr c in
      let c₂ = command_write addr value (command_write 21845 160 (unlock c₁)) in
      if old == value then (none, c₁) else verify_byte addr value (poll_program 100 addr value c₂)

  unfoldable pub program_bytes : ℕ → Bytes → Chip → Option ℕ × Chip
  unfolding program_byte
  program_bytes addr [] c = (none, c)
  program_bytes addr (b ∷ bs) c =
      let (failure, c₁) = program_byte addr b c in
      let rest = program_bytes (addr + 1) bs c₁ in
      elim failure [ none ↦ rest | some value ↦ (some value, c₁) ]

  unfoldable pub sst_program_block : ℕ → Bytes → Chip → ℕ × Chip
  unfolding correct_chip check_bits program_bytes idle
  sst_program_block block content c =
      let (correct, c₁) = correct_chip pind c in
      let (possible, c₂) = check_bits (block * 2 ^ 8) content c₁ in
      let (failure, c₃) = program_bytes (block * 2 ^ 8) content c₂ in
      if leb 1024 block
      then (2, c)
      else if not correct
      then (3, c₁)
      else if not possible
      then finished 6 c₂
      else finished (elim failure [ none ↦ 0 | some value ↦ value ]) c₃

  -- The loop over `attempts` of an erasure.
  unfoldable pub poll_erase : ℕ → ℕ → Chip → Bool × Chip
  unfolding read_byte
  poll_erase zero addr c = (false, c)
  poll_erase (suc attempts) addr c =
      let (now, c₁) = read_byte pind addr c in
      let rest = poll_erase attempts addr (if attempts == 0 then c₁ else service_after_ms c₁) in
      if bit_and now 128 == 0 then rest else (true, c₁)

  abbrev pub blank : Bytes → Bool
  blank [] = true
  blank (b ∷ bs) = b == 255 && blank bs

  -- The blank check of `left` blocks from `block` on.
  unfoldable pub check_blocks : ℕ → ℕ → Chip → Bool × Chip
  unfolding sst_read_block
  check_blocks zero block c = (true, c)
  check_blocks (suc left) block c =
      let (value, content, c₁) = sst_read_block pind block c in
      let rest = check_blocks left (block + 1) (sst_service c₁) in
      if value == 0 && blank content then rest else (false, c₁)

  unfoldable pub sst_erase : Chip → ℕ × Chip
  unfolding correct_chip command_write poll_erase check_blocks idle
  sst_erase c =
      let (correct, c₁) = correct_chip pind c in
      let (ready, c₂) = poll_erase 1000 0 (command_write 21845 16 (erase_prefix c₁)) in
      let (erased, c₃) = check_blocks 1024 0 c₂ in
      if not correct
      then (3, c₁)
      else if not ready
      then finished 4 c₂
      else finished (if erased then 0 else 5) c₃

  unfoldable pub erase_sector : ℕ → Chip → ℕ × Chip
  unfolding command_write poll_erase
  erase_sector start c =
      let (ready, c₁) = poll_erase 1000 start (command_write start 48 (erase_prefix c)) in
      (if ready then 0 else 4, c₁)

  -- The loop over the sectors of a bank.
  unfoldable pub erase_sectors : ℕ → ℕ → ℕ → Chip → ℕ × Chip
  unfolding erase_sector
  erase_sectors zero sector start c = (0, c)
  erase_sectors (suc left) sector start c =
      let (value, c₁) = erase_sector (start + sector * 2 ^ 12) c in
      let rest = erase_sectors left (sector + 1) start c₁ in
      if value == 0 then rest else (value, c₁)

  -- The blank check of `left` bytes from `start + offset` on.
  unfoldable pub check_bytes : ℕ → ℕ → ℕ → Chip → Bool × Chip
  unfolding read_byte
  check_bytes zero start offset c = (true, c)
  check_bytes (suc left) start offset c =
      let (now, c₁) = read_byte pind (start + offset) c in
      let rest = check_bytes left start (offset + 1) (service_at offset c₁) in
      if now == 255 then rest else (false, c₁)

  unfoldable pub sst_erase_bank : ℕ → Chip → ℕ × Chip
  unfolding correct_chip erase_sectors check_bytes idle
  sst_erase_bank bank c =
      let (correct, c₁) = correct_chip pind c in
      let (value, c₂) = erase_sectors 4 0 (bank * 2 ^ 14) c₁ in
      let (erased, c₃) = check_bytes 16384 (bank * 2 ^ 14) 0 c₂ in
      if leb 16 bank
      then (2, c)
      else if not correct
      then (3, c₁)
      else if not (value == 0)
      then finished value c₂
      else finished (if erased then 0 else 5) c₃
