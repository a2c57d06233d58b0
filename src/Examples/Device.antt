-- ===== src/Examples/Device.antt =====
-- Concrete runs of the firmware: a flash that counts what is written to it, and one that always reads 191.
use p2000t_cartridge_studio.Device.Sst39sf020.{Chip}
use p2000t_cartridge_studio.Device.Sst39sf020.Update.{sst_program_block, sst_erase_bank}
use p2000t_cartridge_studio.Device.Sst39sf020.Cycles.{Cycle, Passed}
use p2000t_cartridge_studio.Device.Sst39sf020.Writes.{in_block, in_bank}
use p2000t_cartridge_studio.Device.Sst39sf020.Inside.{
  sst_program_block_inside, sst_erase_bank_inside,
}
use p2000t_cartridge_studio.Bytes.{Bytes}
use p2000t_cartridge_studio.Text.{codes}
use p2000t_cartridge_studio.Device.Protocol.{ProtocolOps, Protocol, respond}
use p2000t_cartridge_studio.Device.Protocol.Invariant.{
  Valid, Call, feed, tick, take_bank_read, reset, at_power_up, calls, reached-Valid,
}
use p2000t_cartridge_studio.Device.Protocol.Silence.{listening, ticked}
use p2000t_cartridge_studio.Device.Protocol.Framing.{
  Arrival, bytes_of, feed_all, feed_all-eight, feed_all-LineEnds, feed_all_resynchronizes,
}
use p2000t_cartridge_studio.Device.Sst39sf020.{Pins, Event, sst_init}
use p2000t_cartridge_studio.Device.Sst39sf020.Rest.{released, all_quiet}
use p2000t_cartridge_studio.Device.Sst39sf020.Safety.{
  Operation, identify, read, program, erase, erase_one, operate_all, operate_all_quiet,
}
use p2000t_cartridge_studio.Base.{
  ℕ, Bool, length-replicate, ◌+◌, ◌≡◌, refl, true, false, List, [], ◌∷◌, ◌++◌, arith, replicate,
}

abbrev counted : ProtocolOps ℕ
counted = record {
  read_id = λ n. (191 ∷ 182 ∷ [], n);
  read_block = λ block n. (0, replicate 256 255, n);
  program_block = λ block content n. (0, n + 1);
  erase = λ n. (0, n + 1);
  erase_bank = λ bank n. (0, n + 1);
  boot = λ n. n;
}

abbrev version_bytes : Bytes
version_bytes = 1 ∷ 2 ∷ 3 ∷ []

abbrev some_calls : List Call
some_calls = reset ∷ feed 87 ∷ feed 82 ∷ tick 999 ∷ feed 66 ∷ take_bank_read ∷ []

reached-Valid_example : Valid ((calls version_bytes counted some_calls (at_power_up, 0)).0)
reached-Valid_example = reached-Valid version_bytes counted some_calls 0

-- DEVIDSST, with some silence between the letters.
abbrev letters : List Arrival
letters =
    ([], b'E')
    ∷ (1 ∷ [], b'V')
    ∷ ([], b'I')
    ∷ (400 ∷ 599 ∷ [], b'D')
    ∷ ([], b'S')
    ∷ ([], b'S')
    ∷ (1 ∷ 1 ∷ [], b'T')
    ∷ []

feed_all-eight_example :
    feed_all version_bytes counted
      ((1 ∷ 2 ∷ [], b'D') ∷ letters)
      (listening 0 (replicate 8 0) at_power_up)
      5
    ≡ respond version_bytes counted
        (b'D' ∷ bytes_of letters)
        (listening 0 (b'D' ∷ bytes_of letters) at_power_up)
        5
unfolding replicate
feed_all-eight_example =
    feed_all-eight version_bytes counted (1 ∷ 2 ∷ []) b'D' letters (replicate 8 0) at_power_up 5
      refl refl
      (
        omega arith,
        (
          omega arith,
          (
            omega arith,
            (omega arith, (omega arith, (omega arith, (omega arith, (omega arith, tt))))),
          ),
        ),
      )
      (ground arith, ground arith)

-- Three letters of another command stand in the buffer.
abbrev halfway : Protocol
halfway = record at_power_up { command = codes "WRB" ++ replicate 5 0; used = 3 }

-- In steps, each of which is short.
abbrev a_second : List ℕ
a_second = 400 ∷ 400 ∷ 200 ∷ []

feed_all_resynchronizes_example :
    feed_all version_bytes counted ((a_second, b'D') ∷ letters) halfway 5
    ≡ respond version_bytes counted
        (b'D' ∷ bytes_of letters)
        (listening 0 (b'D' ∷ bytes_of letters) (ticked a_second halfway))
        5
unfolding replicate
feed_all_resynchronizes_example =
    feed_all_resynchronizes version_bytes counted a_second b'D' letters halfway 5 (omega arith)
      (omega arith) refl refl refl refl
      (
        omega arith,
        (
          omega arith,
          (omega arith, (omega arith, (omega arith, (omega arith, (omega arith, tt))))),
        ),
      )
      (ground arith, ground arith)

-- CR and LF, with a long silence between them.
abbrev ends : List Arrival
ends = ([], 13) ∷ (a_second, 10) ∷ []

feed_all-LineEnds_example :
    feed_all version_bytes counted ends (listening 0 (replicate 8 0) at_power_up) 5
    ≡ ([], listening 0 (replicate 8 0) at_power_up, 5)
feed_all-LineEnds_example =
    feed_all-LineEnds version_bytes counted ends (replicate 8 0) at_power_up 5 (refl, (refl, tt))

abbrev stuck : List Event → ℕ
stuck events = 191

abbrev pins_at_reset : Pins
pins_at_reset = record {
  we = false;
  ce = false;
  oe = false;
  addr_oe = false;
  le_low = false;
  le_high = false;
  le_upper = false;
  b_outputs = false;
  f_outputs = false;
  ddrd = 0;
  portd = 0;
}

abbrev work : List Operation
work = identify ∷ read 7 ∷ program 3 (1 ∷ 2 ∷ []) ∷ erase ∷ erase_one 15 ∷ []

operate_all_quiet_example :
    let c = operate_all stuck work (sst_init (record { pins = pins_at_reset; events = [] })) in
    (c.pins ≡ released) × (all_quiet c.events ≡ true)
operate_all_quiet_example = operate_all_quiet stuck work pins_at_reset refl refl

abbrev quiet_chip : Chip
quiet_chip = record { pins = released; events = [] }

quiet_chip-Passed : (ok : Cycle → Bool) → Passed ok quiet_chip
quiet_chip-Passed ok = record {
  addr_oe = true;
  ddrd = 0;
  portd = 0;
  at_rest = refl;
  no_write = refl;
  all_passed = refl;
}

sst_program_block_inside_example :
    Passed (in_block 5) (sst_program_block stuck 5 (replicate 256 0) quiet_chip).1
sst_program_block_inside_example =
    sst_program_block_inside stuck 5 (replicate 256 0) quiet_chip (length-replicate {A = ℕ} 256 0)
      (quiet_chip-Passed (in_block 5))

sst_erase_bank_inside_example : Passed (in_bank 15) (sst_erase_bank stuck 15 quiet_chip).1
sst_erase_bank_inside_example =
    sst_erase_bank_inside stuck 15 quiet_chip (quiet_chip-Passed (in_bank 15))
