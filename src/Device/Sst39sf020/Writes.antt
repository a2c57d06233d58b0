-- ===== src/Device/Sst39sf020/Writes.antt =====
-- firmware/sst39sf020.c: what the driver writes to the flash when it programs a block or erases a bank.
use p2000t_cartridge_studio.Bytes.{Bytes}
use p2000t_cartridge_studio.Device.Sst39sf020.{
  Event, delayed_us, delayed_ms, serviced, Chip, delay_us, read_byte, id_command, unlock,
  sst_read_id, correct_chip,
}
use p2000t_cartridge_studio.Device.Sst39sf020.Update.{
  check_bits, poll_program, verify_byte, program_byte, program_bytes, poll_erase, erase_sector,
  erase_sectors, check_bytes,
}
use p2000t_cartridge_studio.Device.Sst39sf020.Cycles.{
  Cycle, read_cycle, write_cycle, Passed, idle-Passed, command_write-Passed, happen-Passed,
  read_byte-Passed,
}
use p2000t_cartridge_studio.Base.{
  ℕ, zero, suc, ◌+◌, ◌*◌, ◌%◌, ◌^◌, ◌≤◌, ◌<◌, bit_and, bit_xor, ◌≡◌, refl, Bool, true, false, ◌&&◌,
  ◌||◌, Option, List, [], ◌∷◌, arith, ltb, leb, ◌==◌, if_both, option_both, length,
}

-- The cycles of command sequences before their last one, and of the identification.
abbrev pub unlocks : ℕ → ℕ → Bool
unlocks addr value =
    addr == 21845 && (value == 170 || value == 144 || value == 240) || addr == 10922 && value == 85

-- A cycle of a byte program inside a block.
abbrev pub in_block : ℕ → Cycle → Bool
in_block block (read_cycle addr) = true
in_block block (write_cycle addr value) =
    unlocks addr value
    || addr == 21845 && value == 160
    || leb (block * 256) addr && ltb addr (block * 256 + 256)

-- A cycle of a sector erasure inside a bank.
abbrev pub in_bank : ℕ → Cycle → Bool
in_bank bank (read_cycle addr) = true
in_bank bank (write_cycle addr value) =
    unlocks addr value
    || addr == 21845 && value == 128
    || leb (bank * 16384) addr && ltb addr (bank * 16384 + 16384) && value == 48

module _ (pind : List Event → ℕ) (ok : Cycle → Bool)
    (reads_pass : (addr : ℕ) → ok (read_cycle addr) ≡ true)
    (unlocks_pass : (addr value : ℕ)
      → unlocks addr value ≡ true
      → ok (write_cycle addr value) ≡ true) where
  abbrev Fine : Chip → Type 0
  Fine c = Passed ok c

  read_byte-Fine : (addr : ℕ) (c : Chip) → Fine c → Fine (read_byte pind addr c).1
  read_byte-Fine addr c h = read_byte-Passed ok pind reads_pass addr c h

  unlock-Fine : (c : Chip) → Fine c → Fine (unlock c)
  unlock-Fine c h =
      command_write-Passed ok 10922 85 _ (omega arith) (unlocks_pass 10922 85 refl)
        (command_write-Passed ok 21845 170 c (omega arith) (unlocks_pass 21845 170 refl) h)

  id_command-Fine :
      (command : ℕ) (c : Chip) → unlocks 21845 command ≡ true → Fine c → Fine (id_command command c)
  unfolding id_command
  id_command-Fine command c e h = happen-Passed ok (delayed_us 150) _ refl (
      command_write-Passed ok 21845 command _ (omega arith) (unlocks_pass 21845 command e)
        (unlock-Fine c h))

  pub correct_chip-Fine : (c : Chip) → Fine c → Fine (correct_chip pind c).1
  unfolding correct_chip sst_read_id
  correct_chip-Fine c h = idle-Passed ok _ (
      id_command-Fine 240 _ refl
        (read_byte-Fine 1 _ (read_byte-Fine 0 _ (id_command-Fine 144 c refl h))))

  pub check_bits-Fine :
      (addr : ℕ) (content : Bytes) (c : Chip) → Fine c → Fine (check_bits pind addr content c).1
  unfolding check_bits
  check_bits-Fine addr [] c h = h
  check_bits-Fine addr (b ∷ bs) c h =
      let read = read_byte-Fine addr c h in
      if_both (λ (r : Bool × Chip). Fine (r.1)) (bit_and (read_byte pind addr c).0 b == b) _ _
        (λ e. check_bits-Fine (addr + 1) bs _ read) (λ e. read)

  poll_program-Fine :
      (attempts addr value : ℕ) (c : Chip)
      → Fine c
      → Fine (poll_program pind attempts addr value c).1
  unfolding poll_program
  poll_program-Fine zero addr value c h = h
  poll_program-Fine (suc attempts) addr value c h =
      let read = read_byte-Fine addr c h in
      if_both (λ (r : Bool × Chip). Fine (r.1))
        (bit_and (bit_xor (read_byte pind addr c).0 value) 128 == 0) _ _ (λ e. read)
        (λ e. poll_program-Fine attempts addr value _ (
          if_both Fine (attempts == 0) _ _ (λ z. read)
            (λ z. happen-Passed ok (delayed_us 1) _ refl read)))

  verify_byte-Fine :
      (addr value : ℕ) (ready : Bool) (c : Chip)
      → Fine c
      → Fine (verify_byte pind addr value (ready, c)).1
  unfolding verify_byte
  verify_byte-Fine addr value false c h = h
  verify_byte-Fine addr value true c h =
      let read = read_byte-Fine addr _ (happen-Passed ok (delayed_us 1) c refl h) in
      if_both (λ (r : Option ℕ × Chip). Fine (r.1))
        ((read_byte pind addr (delay_us 1 c)).0 == value) _ _
        (λ e. happen-Passed ok serviced _ refl read) (λ e. read)

  program_byte-Fine :
      (addr value : ℕ) (c : Chip)
      → addr < 2 ^ 18
      → ok (write_cycle 21845 160) ≡ true
      → ok (write_cycle addr value) ≡ true
      → Fine c
      → Fine (program_byte pind addr value c).1
  unfolding program_byte
  program_byte-Fine addr value c inside start allowed h =
      let read = read_byte-Fine addr c h in
      let programmed =
        command_write-Passed ok addr value _ inside allowed
          (command_write-Passed ok 21845 160 _ (omega arith) start (unlock-Fine _ read)) in
      if_both (λ (r : Option ℕ × Chip). Fine (r.1)) ((read_byte pind addr c).0 == value) _ _
        (λ e. read)
        (λ e. verify_byte-Fine addr value _ _ (poll_program-Fine 100 addr value _ programmed))

  poll_erase-Fine :
      (attempts addr : ℕ) (c : Chip) → Fine c → Fine (poll_erase pind attempts addr c).1
  unfolding poll_erase
  poll_erase-Fine zero addr c h = h
  poll_erase-Fine (suc attempts) addr c h =
      let read = read_byte-Fine addr c h in
      if_both (λ (r : Bool × Chip). Fine (r.1)) (bit_and (read_byte pind addr c).0 128 == 0) _ _
        (λ e. poll_erase-Fine attempts addr _ (
          if_both Fine (attempts == 0) _ _ (λ z. read)
            (λ z. happen-Passed ok serviced _ refl (happen-Passed ok (delayed_ms 1) _ refl read))))
        (λ e. read)

  erase_sector-Fine :
      (start : ℕ) (c : Chip)
      → start < 2 ^ 18
      → ok (write_cycle 21845 128) ≡ true
      → ok (write_cycle start 48) ≡ true
      → Fine c
      → Fine (erase_sector pind start c).1
  unfolding erase_sector
  erase_sector-Fine start c inside prefix allowed h = poll_erase-Fine 1000 start _ (
      command_write-Passed ok start 48 _ inside allowed (
        unlock-Fine _ (command_write-Passed ok 21845 128 _ (omega arith) prefix (unlock-Fine c h))))

  pub check_bytes-Fine :
      (left start offset : ℕ) (c : Chip) → Fine c → Fine (check_bytes pind left start offset c).1
  unfolding check_bytes
  check_bytes-Fine zero start offset c h = h
  check_bytes-Fine (suc left) start offset c h =
      let read = read_byte-Fine (start + offset) c h in
      if_both (λ (r : Bool × Chip). Fine (r.1)) ((read_byte pind (start + offset) c).0 == 255) _ _
        (λ e. check_bytes-Fine left start (offset + 1) _ (
          if_both Fine (offset % 256 == 0) _ _ (λ z. happen-Passed ok serviced _ refl read)
            (λ z. read)))
        (λ e. read)

  pub program_bytes-Fine :
      (addr limit : ℕ) (content : Bytes) (c : Chip)
      → addr + length content ≤ limit
      → limit ≤ 2 ^ 18
      → ok (write_cycle 21845 160) ≡ true
      → ((a value : ℕ) → addr ≤ a → a < limit → ok (write_cycle a value) ≡ true)
      → Fine c
      → Fine (program_bytes pind addr content c).1
  unfolding program_bytes
  program_bytes-Fine addr limit [] c fits inside start allowed h = h
  program_bytes-Fine addr limit (b ∷ bs) c fits inside start allowed h =
      let programmed =
        program_byte-Fine addr b c (omega arith) start (allowed addr b (omega arith) (omega arith))
          h in
      option_both (λ (r : Option ℕ × Chip). Fine (r.1)) (program_byte pind addr b c).0 _ _
        (λ e.
          program_bytes-Fine (addr + 1) limit bs _ (omega arith) inside start
            (λ a value above below. allowed a value (omega arith) below) programmed)
        (λ value e. programmed)

  pub erase_sectors-Fine :
      (left sector start : ℕ) (c : Chip)
      → start + (sector + left) * 2 ^ 12 ≤ 2 ^ 18
      → ok (write_cycle 21845 128) ≡ true
      → ((a : ℕ) → start ≤ a → a < start + (sector + left) * 2 ^ 12 → ok (write_cycle a 48) ≡ true)
      → Fine c
      → Fine (erase_sectors pind left sector start c).1
  unfolding erase_sectors
  erase_sectors-Fine zero sector start c inside prefix allowed h = h
  erase_sectors-Fine (suc left) sector start c inside prefix allowed h =
      let erased =
        erase_sector-Fine (start + sector * 2 ^ 12) c (omega arith) prefix
          (allowed (start + sector * 2 ^ 12) (omega arith) (omega arith)) h in
      if_both (λ (r : ℕ × Chip). Fine (r.1))
        ((erase_sector pind (start + sector * 2 ^ 12) c).0 == 0) _ _
        (λ e.
          erase_sectors-Fine left (sector + 1) start _ (omega arith) prefix
            (λ a above below. allowed a above (omega arith)) erased)
        (λ e. erased)
