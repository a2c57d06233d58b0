-- ===== src/Examples/Agreement.antt =====
-- Concrete runs of the firmware against the emulated cartridge: a driver that is the specification itself,
-- and a serial line that keeps what is sent.
use p2000t_cartridge_studio.RomSizes.{romsize, blocksize, banksize}
use p2000t_cartridge_studio.Bytes.{Bytes, mid}
use p2000t_cartridge_studio.Text.{codes}
use p2000t_cartridge_studio.Emulator.{
  Backend, Emulated, sst39sf020, program_range, erase_range, handle_command, handle_payload,
}
use p2000t_cartridge_studio.Device.Protocol.{ProtocolOps}
use p2000t_cartridge_studio.Device.Protocol.Invariant.{at_power_up}
use p2000t_cartridge_studio.Device.Main.{Board, send_bank}
use p2000t_cartridge_studio.Device.Main.Sending.{Line, send_bank-with_crc}
use p2000t_cartridge_studio.Device.Agreement.{Implements, Agree, with_crc}
use p2000t_cartridge_studio.Device.Agreement.Heard.{recorded, feed_all-handle_command}
use p2000t_cartridge_studio.Device.Protocol.Silence.{listening}
use p2000t_cartridge_studio.Device.Protocol.Framing.{Arrival, feed_all}
use p2000t_cartridge_studio.Device.Agreement.Payload.{
  receiving, feed_each, feed_each-handle_payload,
}
use p2000t_cartridge_studio.Base.{
  ℕ, ◌*◌, ◌/◌, ◌%◌, ◌^◌, ◌≡◌, refl, ap, ◌∙◌, true, false, none, List, [], ◌∷◌, ◌++◌, arith,
  if◌then◌else◌, replicate, length-replicate,
}

abbrev exact : ProtocolOps Backend
exact = record {
  read_id = λ b. (b.chip_id / 2 ^ 8 ∷ b.chip_id % 256 ∷ [], b);
  read_block = λ block b. (0, mid (block * blocksize) blocksize b.flash, b);
  program_block = λ block content b.
      (let (done, b') = program_range (block * blocksize) content b in (if done then 0 else 6, b'));
  erase = λ b. (0, erase_range 0 romsize b);
  erase_bank = λ bank b. (0, erase_range (bank * banksize) banksize b);
  boot = λ b. b;
}

-- The same cartridge, of the supported chip and without faults.
abbrev Equal : Backend → Backend → Type 0
Equal d b =
    (d ≡ b)
    × (b.chip_id ≡ sst39sf020)
    × (b.corrupt_next_read_crc ≡ false)
    × (b.board_info ≡ codes "P2000T-FW p01.00")

program_range_keeps :
    (offset : ℕ) (content : Bytes) (b : Backend)
    → (let b' = (program_range offset content b).1 in
        (b'.chip_id ≡ b.chip_id)
        × (b'.corrupt_next_read_crc ≡ b.corrupt_next_read_crc)
        × (b'.board_info ≡ b.board_info))
unfolding program_range
program_range_keeps offset content b = ground arith

exact-Implements : Implements exact Equal
unfolding erase_range
exact-Implements = record {
  supported = λ d b r. r.1;
  faultless = λ d b r. r.2;
  named = λ d b r. r.3;
  identifies = λ d b r. (ap (λ (x : Backend). x.chip_id / 2 ^ 8 ∷ x.chip_id % 256 ∷ []) (r.0), r);
  reads = λ d b block h r.
      (refl, ap (λ (x : Backend). mid (block * blocksize) blocksize x.flash) (r.0), r);
  erases = λ d b r. (refl, (ap (erase_range 0 romsize) (r.0), r.1, r.2, r.3));
  erases_bank =
      λ d b bank h r. (refl, (ap (erase_range (bank * banksize) banksize) (r.0), r.1, r.2, r.3));
  programs = λ d b block content h size r.
      (let (chip, fault, info) = program_range_keeps (block * blocksize) content b in
        (
          ap (λ (x : Backend). if (program_range (block * blocksize) content x).0 then 0 else 6)
              (r.0),
          (
            ap (λ (x : Backend). (program_range (block * blocksize) content x).1) (r.0),
            chip ∙ r.1,
            fault ∙ r.2,
            info ∙ r.3,
          ),
        ));
  boots = λ d b r. r;
}

abbrev cartridge : Backend
cartridge = record {
  flash = replicate romsize 0xFF;
  board_info = codes "P2000T-FW p01.00";
  chip_id = sst39sf020;
  command_history = [];
  corrupt_next_echo = false;
  corrupt_next_read_crc = false;
}

abbrev emulated : Emulated
emulated = record {
  backend = cartridge;
  open_state = true;
  write_buffer = [];
  read_buffer = [];
  ready_read_pending = false;
  read_chunk_size = 0;
  pending_block_write = false;
  pending_block = 0;
  looks = 0;
}

abbrev version_bytes : Bytes
version_bytes = 1 ∷ 2 ∷ 3 ∷ []

abbrev no_time : ℕ → ℕ
no_time n = 0

-- RDBK000F, with some silence between its letters.
abbrev letters : List Arrival
letters =
    ([], b'D')
    ∷ (10 ∷ 20 ∷ [], b'B')
    ∷ ([], b'K')
    ∷ ([], b'0')
    ∷ (999 ∷ [], b'0')
    ∷ ([], b'0')
    ∷ ([], b'F')
    ∷ []

abbrev requested : Emulated
requested = record emulated { write_buffer = codes "RDBK000F" }

feed_all-handle_command_example :
    Agree Equal []
      (feed_all version_bytes exact
        ((5 ∷ [], b'R') ∷ letters)
        (listening 0 (replicate 8 0) at_power_up)
        (recorded (codes "RDBK000F") cartridge))
      (handle_command version_bytes no_time requested)
unfolding replicate
feed_all-handle_command_example =
    feed_all-handle_command version_bytes no_time exact Equal exact-Implements (5 ∷ []) b'R' letters
      (replicate 8 0) at_power_up (recorded (codes "RDBK000F") cartridge) requested refl refl
      (
        omega arith,
        (
          omega arith,
          (
            omega arith,
            (omega arith, (omega arith, (omega arith, (omega arith, (omega arith, tt))))),
          ),
        ),
      )
      (ground arith, ground arith)
      (record { reads_command = refl; no_bank = refl; expects_command = refl }) refl refl
      (refl, refl, refl, refl)

feed_each-handle_payload_example :
    Agree Equal []
      (feed_each version_bytes exact
        (7 ∷ replicate 257 0)
        (receiving 0 (replicate 258 0) at_power_up)
        cartridge)
      (handle_payload version_bytes no_time
        (record emulated { write_buffer = 7 ∷ replicate 257 0; pending_block = 0 }))
feed_each-handle_payload_example =
    feed_each-handle_payload version_bytes no_time exact Equal exact-Implements 7 (replicate 257 0)
      (replicate 258 0) at_power_up cartridge emulated (length-replicate {A = ℕ} 257 0)
      (length-replicate {A = ℕ} 258 0) refl (omega arith) (refl, refl, refl, refl)

-- The contents of a flash and what was sent to the host.
abbrev Desk : Type 0
Desk = Bytes × Bytes

abbrev desk : Board Desk
desk = record {
  sst_read_id = λ b. (191 ∷ 182 ∷ [], b);
  sst_read_block = λ block b. (0, mid (block * blocksize) blocksize (b.0), b);
  sst_program_block = λ block content b. (0, b);
  sst_erase = λ b. (0, b);
  sst_erase_bank = λ bank b. (0, b);
  configured = λ b. true;
  dtr = λ b. true;
  frame_number = λ b. 0;
  receive_byte = λ b. (none, b);
  send_byte = λ byte b. (b.0, b.1 ++ byte ∷ []);
  send_data = λ content b. (true, (b.0, b.1 ++ content));
  wdt_reset = λ b. b;
  usb_task = λ b. b;
  parser_events = λ b. (false, b);
  flush = λ b. b;
  delay_ms = λ n b. b;
  detach = λ b. b;
  restart = λ b. b;
}

abbrev flash_of : Desk → Bytes
flash_of b = b.0

abbrev sent_of : Desk → Bytes
sent_of b = b.1

desk-Line : Line desk flash_of sent_of
desk-Line = record {
  reads = λ block b h. (refl, refl, refl, refl);
  sends = λ content b. (refl, refl, refl);
}

abbrev blank_desk : Desk
blank_desk = (replicate romsize 0xFF, [])

send_bank-with_crc_example :
    let r = send_bank desk 5 blank_desk in
    (r.0 ≡ true)
    × (flash_of (r.1) ≡ flash_of blank_desk)
    × (sent_of (r.1)
        ≡ sent_of blank_desk ++ with_crc (mid (5 * banksize) banksize (flash_of blank_desk)))
send_bank-with_crc_example =
    send_bank-with_crc desk flash_of sent_of desk-Line 5 blank_desk (omega arith)
      (length-replicate {A = ℕ} romsize 0xFF)
