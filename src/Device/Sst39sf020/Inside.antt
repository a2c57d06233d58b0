-- ===== src/Device/Sst39sf020/Inside.antt =====
-- firmware/sst39sf020.c: programming and erasure stay inside their block and their bank.
use p2000t_cartridge_studio.Bytes.{Bytes}
use p2000t_cartridge_studio.Device.Sst39sf020.{Event, Chip, correct_chip}
use p2000t_cartridge_studio.Device.Sst39sf020.Update.{
  check_bits, sst_program_block, erase_sectors, sst_erase_bank,
}
use p2000t_cartridge_studio.Device.Sst39sf020.Cycles.{write_cycle, Passed, idle-Passed}
use p2000t_cartridge_studio.Base.{
  ℕ, ◌+◌, ◌*◌, ◌^◌, ◌≤◌, ◌<◌, ◌≡◌, refl, Bool, true, false, not, ◌&&◌, ◌||◌, List, arith, leb, ◌==◌,
  if_both, length,
}
use p2000t_cartridge_studio.Device.Sst39sf020.Writes.{
  unlocks, in_block, in_bank, correct_chip-Fine, check_bits-Fine, program_bytes-Fine,
  erase_sectors-Fine, check_bytes-Fine,
}

or_first : (b c d : Bool) → b ≡ true → (b || c || d) ≡ true
or_first true c d h = refl
or_first false c d h = absurd (ground (arith, h))

or_last : (b c : Bool) → c ≡ true → b || c ≡ true
or_last true c h = refl
or_last false c h = h

in_block-unlocks :
    (block addr value : ℕ)
    → unlocks addr value ≡ true
    → in_block block (write_cycle addr value) ≡ true
in_block-unlocks block addr value h = or_first (unlocks addr value) _ _ h

in_block_region :
    (block addr value : ℕ)
    → block * 2 ^ 8 ≤ addr
    → addr < block * 2 ^ 8 + 256
    → in_block block (write_cycle addr value) ≡ true
in_block_region block addr value above below =
    or_last (unlocks addr value || addr == 21845 && value == 160) _ (ground (arith, above, below))

in_bank-unlocks :
    (bank addr value : ℕ) → unlocks addr value ≡ true → in_bank bank (write_cycle addr value) ≡ true
in_bank-unlocks bank addr value h = or_first (unlocks addr value) _ _ h

in_bank_region :
    (bank addr : ℕ)
    → bank * 2 ^ 14 ≤ addr
    → addr < bank * 2 ^ 14 + (0 + 4) * 2 ^ 12
    → in_bank bank (write_cycle addr 48) ≡ true
in_bank_region bank addr above below =
    or_last (unlocks addr 48 || addr == 21845 && 48 == 128) _ (ground (arith, above, below))

module _ (pind : List Event → ℕ) where
  -- Whatever the flash answers, if the bus cycles so far, as the latches and the control lines
  -- form them, are reads, cycles of the unlocking, identification and byte-program sequences,
  -- or writes inside a block, and the pins are at rest, then that still holds after
  -- sst_program_block of this block with 256 bytes.
  pub sst_program_block_inside :
      (block : ℕ) (content : Bytes) (c : Chip)
      → length content ≡ 256
      → Passed (in_block block) c
      → Passed (in_block block) (sst_program_block pind block content c).1
  unfolding sst_program_block
  sst_program_block_inside block content c size h =
      let ok = in_block block in
      let known = correct_chip-Fine pind ok (λ a. refl) (in_block-unlocks block) c h in
      let checked =
        check_bits-Fine pind ok (λ a. refl) (in_block-unlocks block) (block * 2 ^ 8) content _
          known in
      let result = λ (r : ℕ × Chip). Passed ok (r.1) in
      if_both result (leb 1024 block) _ _ (λ e. h)
        (λ e.
          if_both result (not (correct_chip pind c).0) _ _ (λ _. known)
            (λ _.
              if_both result
                (not (check_bits pind (block * 2 ^ 8) content (correct_chip pind c).1).0) _ _
                (λ _. idle-Passed ok _ checked)
                (λ _. idle-Passed ok _ (
                  program_bytes-Fine pind ok (λ a. refl) (in_block-unlocks block) (block * 2 ^ 8)
                    (block * 2 ^ 8 + 256) content _ (omega arith) (ground (arith, e)) refl
                    (in_block_region block) checked))))

  -- Whatever the flash answers, if the bus cycles so far, as the latches and the control lines
  -- form them, are reads, cycles of the unlocking, identification and erasure sequences that
  -- come before the last, or sector erasures (30) inside a bank, and the pins are at rest, then
  -- that still holds after sst_erase_bank of this bank, so that no other sector and never the
  -- whole chip is erased.
  pub sst_erase_bank_inside :
      (bank : ℕ) (c : Chip)
      → Passed (in_bank bank) c
      → Passed (in_bank bank) (sst_erase_bank pind bank c).1
  unfolding sst_erase_bank
  sst_erase_bank_inside bank c h =
      let ok = in_bank bank in
      let known = correct_chip-Fine pind ok (λ a. refl) (in_bank-unlocks bank) c h in
      let result = λ (r : ℕ × Chip). Passed ok (r.1) in
      let value = (erase_sectors pind 4 0 (bank * 2 ^ 14) (correct_chip pind c).1).0 in
      if_both result (leb 16 bank) _ _ (λ e. h)
        (λ e.
          let erased =
            erase_sectors-Fine pind ok (λ a. refl) (in_bank-unlocks bank) 4 0 (bank * 2 ^ 14) _
              (ground (arith, e)) refl (in_bank_region bank) known in
          if_both result (not (correct_chip pind c).0) _ _ (λ _. known)
            (λ _.
              if_both result (not (value == 0)) _ _ (λ _. idle-Passed ok _ erased)
                (λ _. idle-Passed ok _ (
                  check_bytes-Fine pind ok (λ a. refl) (in_bank-unlocks bank) 16384 (bank * 2 ^ 14)
                    0 _ erased))))
