-- ===== src/Device/Sst39sf020/Safety.antt =====
-- firmware/sst39sf020.c: the electrical safety of every operation of the driver, whatever the flash answers.
use p2000t_cartridge_studio.Bytes.{Bytes}
use p2000t_cartridge_studio.Device.Sst39sf020.{
  Pins, Event, delayed_us, delayed_ms, serviced, Chip, delay_us, idle, sst_init, command_write,
  erase_prefix, read_byte, sst_read_id, correct_chip, sst_read_block,
}
use p2000t_cartridge_studio.Device.Sst39sf020.Update.{
  check_bits, poll_program, verify_byte, program_byte, program_bytes, sst_program_block, poll_erase,
  blank, check_blocks, sst_erase, erase_sector, erase_sectors, check_bytes, sst_erase_bank,
}
use p2000t_cartridge_studio.Device.Sst39sf020.Rest.{
  all_quiet, released, Calm, Settled, Settled-Calm, idle-Settled, command_write-Calm, happen-Calm,
  unlock-Calm, erase_prefix-Calm, read_byte-Calm, sst_read_id-Settled, sst_read_block-Settled,
  sst_read_block_settles,
}
use p2000t_cartridge_studio.Base.{
  ℕ, zero, suc, ◌+◌, ◌*◌, ◌%◌, ◌^◌, ◌≤◌, bit_and, bit_xor, ◌≡◌, refl, sym, subst, Bool, true, false,
  not, ◌&&◌, Option, List, [], ◌∷◌, arith, leb, ◌==◌, if_both, option_both,
}

-- A call of the driver by the main program.
pub data Operation : Type 0 where
  identify : Operation
  read : ℕ → Operation
  program : ℕ → Bytes → Operation
  erase : Operation
  erase_one : ℕ → Operation

module _ (pind : List Event → ℕ) where
  correct_chip-Settled : (c : Chip) → Calm c → Settled (correct_chip pind c).1
  unfolding correct_chip
  correct_chip-Settled c h = sst_read_id-Settled pind c h

  check_bits-Calm :
      (addr : ℕ) (content : Bytes) (c : Chip) → Calm c → Calm (check_bits pind addr content c).1
  unfolding check_bits
  check_bits-Calm addr [] c h = h
  check_bits-Calm addr (b ∷ bs) c h =
      let read = read_byte-Calm pind addr c h in
      if_both (λ (r : Bool × Chip). Calm (r.1)) (bit_and (read_byte pind addr c).0 b == b) _ _
        (λ e. check_bits-Calm (addr + 1) bs _ read) (λ e. read)

  poll_program-Calm :
      (attempts addr value : ℕ) (c : Chip)
      → Calm c
      → Calm (poll_program pind attempts addr value c).1
  unfolding poll_program
  poll_program-Calm zero addr value c h = h
  poll_program-Calm (suc attempts) addr value c h =
      let read = read_byte-Calm pind addr c h in
      if_both (λ (r : Bool × Chip). Calm (r.1))
        (bit_and (bit_xor (read_byte pind addr c).0 value) 128 == 0) _ _ (λ e. read)
        (λ e. poll_program-Calm attempts addr value _ (
          if_both Calm (attempts == 0) _ _ (λ z. read)
            (λ z. happen-Calm (delayed_us 1) _ refl read)))

  verify_byte-Calm :
      (addr value : ℕ) (ready : Bool) (c : Chip)
      → Calm c
      → Calm (verify_byte pind addr value (ready, c)).1
  unfolding verify_byte
  verify_byte-Calm addr value false c h = h
  verify_byte-Calm addr value true c h =
      let read = read_byte-Calm pind addr _ (happen-Calm (delayed_us 1) c refl h) in
      if_both (λ (r : Option ℕ × Chip). Calm (r.1))
        ((read_byte pind addr (delay_us 1 c)).0 == value) _ _
        (λ e. happen-Calm serviced _ refl read) (λ e. read)

  program_byte-Calm : (addr value : ℕ) (c : Chip) → Calm c → Calm (program_byte pind addr value c).1
  unfolding program_byte
  program_byte-Calm addr value c h =
      let read = read_byte-Calm pind addr c h in
      let programmed =
        command_write-Calm addr value _ (command_write-Calm 21845 160 _ (unlock-Calm _ read)) in
      if_both (λ (r : Option ℕ × Chip). Calm (r.1)) ((read_byte pind addr c).0 == value) _ _
        (λ e. read)
        (λ e. verify_byte-Calm addr value _ _ (poll_program-Calm 100 addr value _ programmed))

  program_bytes-Calm :
      (addr : ℕ) (content : Bytes) (c : Chip) → Calm c → Calm (program_bytes pind addr content c).1
  unfolding program_bytes
  program_bytes-Calm addr [] c h = h
  program_bytes-Calm addr (b ∷ bs) c h =
      let programmed = program_byte-Calm addr b c h in
      option_both (λ (r : Option ℕ × Chip). Calm (r.1)) (program_byte pind addr b c).0 _ _
        (λ e. program_bytes-Calm (addr + 1) bs _ programmed) (λ value e. programmed)

  poll_erase-Calm :
      (attempts addr : ℕ) (c : Chip) → Calm c → Calm (poll_erase pind attempts addr c).1
  unfolding poll_erase
  poll_erase-Calm zero addr c h = h
  poll_erase-Calm (suc attempts) addr c h =
      let read = read_byte-Calm pind addr c h in
      if_both (λ (r : Bool × Chip). Calm (r.1)) (bit_and (read_byte pind addr c).0 128 == 0) _ _
        (λ e. poll_erase-Calm attempts addr _ (
          if_both Calm (attempts == 0) _ _ (λ z. read)
            (λ z. happen-Calm serviced _ refl (happen-Calm (delayed_ms 1) _ refl read))))
        (λ e. read)

  check_blocks-Calm :
      (left block : ℕ) (c : Chip)
      → block + left ≤ 1024
      → Calm c
      → Calm (check_blocks pind left block c).1
  unfolding check_blocks
  check_blocks-Calm zero block c bound h = h
  check_blocks-Calm (suc left) block c bound h =
      let read = Settled-Calm _ (sst_read_block-Settled pind block c (omega arith) h) in
      if_both (λ (r : Bool × Chip). Calm (r.1))
        ((sst_read_block pind block c).0 == 0 && blank pind (sst_read_block pind block c).1) _ _
        (λ e. check_blocks-Calm left (block + 1) _ (omega arith) (happen-Calm serviced _ refl read))
        (λ e. read)

  erase_sector-Calm : (start : ℕ) (c : Chip) → Calm c → Calm (erase_sector pind start c).1
  unfolding erase_sector
  erase_sector-Calm start c h =
      poll_erase-Calm 1000 start _ (command_write-Calm start 48 _ (erase_prefix-Calm c h))

  erase_sectors-Calm :
      (left sector start : ℕ) (c : Chip) → Calm c → Calm (erase_sectors pind left sector start c).1
  unfolding erase_sectors
  erase_sectors-Calm zero sector start c h = h
  erase_sectors-Calm (suc left) sector start c h =
      let erased = erase_sector-Calm (start + sector * 2 ^ 12) c h in
      if_both (λ (r : ℕ × Chip). Calm (r.1))
        ((erase_sector pind (start + sector * 2 ^ 12) c).0 == 0) _ _
        (λ e. erase_sectors-Calm left (sector + 1) start _ erased) (λ e. erased)

  check_bytes-Calm :
      (left start offset : ℕ) (c : Chip) → Calm c → Calm (check_bytes pind left start offset c).1
  unfolding check_bytes
  check_bytes-Calm zero start offset c h = h
  check_bytes-Calm (suc left) start offset c h =
      let read = read_byte-Calm pind (start + offset) c h in
      if_both (λ (r : Bool × Chip). Calm (r.1)) ((read_byte pind (start + offset) c).0 == 255) _ _
        (λ e. check_bytes-Calm left start (offset + 1) _ (
          if_both Calm (offset % 256 == 0) _ _ (λ z. happen-Calm serviced _ refl read) (λ z. read)))
        (λ e. read)

  sst_program_block-Settled :
      (block : ℕ) (content : Bytes) (c : Chip)
      → Settled c
      → Settled (sst_program_block pind block content c).1
  unfolding sst_program_block
  sst_program_block-Settled block content c h =
      let known = correct_chip-Settled c (Settled-Calm c h) in
      let checked = check_bits-Calm (block * 2 ^ 8) content _ (Settled-Calm _ known) in
      let result = λ (r : ℕ × Chip). Settled (r.1) in
      if_both result (leb 1024 block) _ _ (λ e. h)
        (λ e.
          if_both result (not (correct_chip pind c).0) _ _ (λ e. known)
            (λ e.
              if_both result
                (not (check_bits pind (block * 2 ^ 8) content (correct_chip pind c).1).0) _ _
                (λ e. idle-Settled _ checked)
                (λ e. idle-Settled _ (program_bytes-Calm (block * 2 ^ 8) content _ checked))))

  sst_erase-Settled : (c : Chip) → Settled c → Settled (sst_erase pind c).1
  unfolding sst_erase
  sst_erase-Settled c h =
      let known = correct_chip-Settled c (Settled-Calm c h) in
      let erased =
        poll_erase-Calm 1000 0 _
          (command_write-Calm 21845 16 _ (erase_prefix-Calm _ (Settled-Calm _ known))) in
      let result = λ (r : ℕ × Chip). Settled (r.1) in
      let ready =
        (poll_erase pind 1000 0
          (command_write 21845 16 (erase_prefix (correct_chip pind c).1))).0 in
      if_both result (not (correct_chip pind c).0) _ _ (λ e. known)
        (λ e.
          if_both result (not ready) _ _ (λ e. idle-Settled _ erased)
            (λ e. idle-Settled _ (check_blocks-Calm 1024 0 _ (omega arith) erased)))

  sst_erase_bank-Settled :
      (bank : ℕ) (c : Chip) → Settled c → Settled (sst_erase_bank pind bank c).1
  unfolding sst_erase_bank
  sst_erase_bank-Settled bank c h =
      let known = correct_chip-Settled c (Settled-Calm c h) in
      let erased = erase_sectors-Calm 4 0 (bank * 2 ^ 14) _ (Settled-Calm _ known) in
      let result = λ (r : ℕ × Chip). Settled (r.1) in
      let value = (erase_sectors pind 4 0 (bank * 2 ^ 14) (correct_chip pind c).1).0 in
      if_both result (leb 16 bank) _ _ (λ e. h)
        (λ e.
          if_both result (not (correct_chip pind c).0) _ _ (λ e. known)
            (λ e.
              if_both result (not (value == 0)) _ _ (λ e. idle-Settled _ erased)
                (λ e. idle-Settled _ (check_bytes-Calm 16384 (bank * 2 ^ 14) 0 _ erased))))

  unfoldable pub operate : Operation → Chip → Chip
  operate identify c = (sst_read_id pind c).1
  operate (read block) c = (sst_read_block pind block c).2
  operate (program block content) c = (sst_program_block pind block content c).1
  operate erase c = (sst_erase pind c).1
  operate (erase_one bank) c = (sst_erase_bank pind bank c).1

  abbrev pub operate_all : List Operation → Chip → Chip
  operate_all [] c = c
  operate_all (o ∷ os) c = operate_all os (operate o c)

  operate-Settled : (o : Operation) (c : Chip) → Settled c → Settled (operate o c)
  unfolding operate
  operate-Settled identify c h = sst_read_id-Settled pind c (Settled-Calm c h)
  operate-Settled (read block) c h = sst_read_block_settles pind block c h
  operate-Settled (program block content) c h = sst_program_block-Settled block content c h
  operate-Settled erase c h = sst_erase-Settled c h
  operate-Settled (erase_one bank) c h = sst_erase_bank-Settled bank c h

  operate_all-Settled : (os : List Operation) (c : Chip) → Settled c → Settled (operate_all os c)
  operate_all-Settled [] c h = h
  operate_all-Settled (o ∷ os) c h = operate_all-Settled os _ (operate-Settled o c h)

  sst_init-Settled :
      (p : Pins)
      → p.b_outputs ≡ false
      → p.f_outputs ≡ false
      → Settled (sst_init (record { pins = p; events = [] }))
  unfolding sst_init idle
  sst_init-Settled p b f =
      subst
        (λ (x : Bool).
          Settled (sst_init (record { pins = record p { b_outputs = x }; events = [] })))
        (sym b)
        (subst
          (λ (x : Bool). Settled (
            sst_init
              (record { pins = record p { b_outputs = false; f_outputs = x }; events = [] })))
          (sym f) (record { at_rest = refl; undisturbed = refl }))

  -- Whatever the flash answers, after a reset of the controller, sst_init and any operations of
  -- the driver, the pins are as idle leaves them; and in no state of the pins on the way do
  -- controller and flash drive the data bus together, is a write pulse given outside of a write
  -- cycle with address and data driven, or is a latch open while its inputs are not driven, as
  -- far as those lines are outputs.
  pub operate_all_quiet :
      (os : List Operation) (p : Pins)
      → p.b_outputs ≡ false
      → p.f_outputs ≡ false
      → (let c = operate_all os (sst_init (record { pins = p; events = [] })) in
          (c.pins ≡ released) × (all_quiet c.events ≡ true))
  operate_all_quiet os p b f =
      let h = operate_all-Settled os _ (sst_init-Settled p b f) in (h.at_rest, h.undisturbed)
