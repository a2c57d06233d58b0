-- ===== src/Examples.antt =====
-- Concrete runs to which the theorems apply: a cartridge of the supported chip that holds FF, a bank of
-- 42, and a worker whose port is closed or open.
mod Device
mod FirmwareFile
mod Agreement
mod Tools
use p2000t_cartridge_studio.RomSizes.{romsize, blocksize, banksize}
use p2000t_cartridge_studio.Bytes.{bytes_eq, Bytes, is_empty, IsBytes, mid, overwrite}
use p2000t_cartridge_studio.Text.{codes}
use p2000t_cartridge_studio.Crc.{crc16_xmodem}
use p2000t_cartridge_studio.Crc.Detection.{crc16_xmodem_detects}
use p2000t_cartridge_studio.Effects.{Result, ok}
use p2000t_cartridge_studio.Serial.{SerialInterface}
use p2000t_cartridge_studio.Serial.Wire.{wait_for_response}
use p2000t_cartridge_studio.Serial.Commands.{
  get_chip_id, read_bank, read_block, erase_bank, erase_chip, burn_block,
}
use p2000t_cartridge_studio.Emulator.{Backend, Emulated, sst39sf020, clears_bits}
use p2000t_cartridge_studio.Emulator.Session.{Cartridge, Port, Session, wait_for_response-Session}
use p2000t_cartridge_studio.Emulator.Protocol.{
  Yields, enough, get_chip_id-Session, read_bank-Session, read_block-Session, erase_bank-Session,
  erase_chip-Session,
}
use p2000t_cartridge_studio.Emulator.Burn.{write_outcome, after_write, burn_block-Session}
use p2000t_cartridge_studio.Emulator.Answers.{fill}
use p2000t_cartridge_studio.Emulator.Erased.{IsBytes-replicate}
use p2000t_cartridge_studio.Emulator.Connect.{Attached}
use p2000t_cartridge_studio.Worker.{flash_result_ready, read_result_ready}
use p2000t_cartridge_studio.Worker.Blocks.{block_signals}
use p2000t_cartridge_studio.Worker.Flash.{FlashJob, set_bank, set_complete_rom, run_flash}
use p2000t_cartridge_studio.Worker.FlashLoop.{Worker}
use p2000t_cartridge_studio.Worker.Prepared.{Programs}
use p2000t_cartridge_studio.Worker.FlashRun.{Done, Interrupted, run_flash-outcome}
use p2000t_cartridge_studio.Worker.Flashing.{bank_flashed, rom_flashed, outside_kept}
use p2000t_cartridge_studio.Worker.Read.{ReadJob, set_bank_range, run_read}
use p2000t_cartridge_studio.Worker.ReadLoop.{bank_signals}
use p2000t_cartridge_studio.Worker.ReadRun.{banks_read, flash_then_read}
use p2000t_cartridge_studio.Firmware.Hex.{split_lines}
use p2000t_cartridge_studio.Firmware.Image.{Image, initial, read_lines, validate_application_hex}
use p2000t_cartridge_studio.Firmware.Memory.{Holds}
use p2000t_cartridge_studio.Firmware.Accepted.{
  Trusted, validate-Trusted, image_too_large_unreachable,
}
use p2000t_cartridge_studio.Firmware.Compatibility.{is_supported}
use p2000t_cartridge_studio.Firmware.Releases.{releases, position, is_supported-position}
use p2000t_cartridge_studio.Installer.{
  InstallError, Probe, expected_signature, check_connection, Scan, scan_record,
}
use p2000t_cartridge_studio.Installer.Connection.{Stable, Accepts, check_connection-Stable}
use p2000t_cartridge_studio.LogBuffer.{log_all, max_messages, trim_messages, log_all-recent}
use p2000t_cartridge_studio.Worker.Endings.{unsupported_chip_kept, erase_run}
use p2000t_cartridge_studio.Worker.Prepared.{erased}
use p2000t_cartridge_studio.Worker.{
  erase_result_ready, thread_cancelled, thread_abort, after_verified_erase,
}
use p2000t_cartridge_studio.Serial.{unsupported_chip}
use p2000t_cartridge_studio.BankSelector.{
  switched_bank, dip_switch_positions, switched_bank-dip_switch_positions,
}
use p2000t_cartridge_studio.Base.{
  if◌then◌else◌, ◌≤◌, ◌<◌, List, ◌-◌, drop, ℕ, ◌-◌, ◌*◌, ◌≡◌, refl, ◌≢◌, ◌⊎◌, inl, Bool, true,
  false, ◌&&◌, none, [], ◌∷◌, ◌++◌, arith, ltb, leb, length, replicate, length-replicate,
}

abbrev version : Bytes
version = codes "0.2.5"

-- A clock that goes on by 7 ms at each look.
abbrev time : ℕ → ℕ
time looks = looks * 7

abbrev never : ℕ → Bool
never n = false

-- An interruption request before the second poll.
abbrev at_once : ℕ → Bool
at_once n = ltb 0 n

abbrev cartridge : Cartridge
cartridge = record {
  contents = replicate romsize 0xFF;
  chip = sst39sf020;
  identity = codes "P2000T-FW v0.2.5";
}

abbrev cartridge_whole : length cartridge.contents ≡ romsize
cartridge_whole = length-replicate {A = ℕ} romsize 0xFF

abbrev bank_image : Bytes
bank_image = replicate banksize 0x42

abbrev bank_image_sized : length bank_image ≡ banksize
bank_image_sized = length-replicate {A = ℕ} banksize 0x42

abbrev bank_image_bytes : IsBytes bank_image
bank_image_bytes = IsBytes-replicate banksize 0x42 (omega arith)

abbrev rom_image : Bytes
rom_image = replicate romsize 0x42

abbrev block_image : Bytes
block_image = replicate blocksize 0x42

abbrev backend : Backend
backend = record {
  flash = cartridge.contents;
  board_info = cartridge.identity;
  chip_id = cartridge.chip;
  command_history = [];
  corrupt_next_echo = false;
  corrupt_next_read_crc = false;
}

abbrev shut : Emulated
shut = record {
  backend = backend;
  open_state = false;
  write_buffer = [];
  read_buffer = [];
  ready_read_pending = false;
  read_chunk_size = 0;
  pending_block_write = false;
  pending_block = 0;
  looks = 0;
}

abbrev closed_interface : SerialInterface (Port version time)
closed_interface = record {
  portname = codes "COM3";
  port = false;
  receive_buffer = [];
  link = shut;
}

has_name : is_empty (codes "COM3") ≡ false
unfolding is_empty
has_name = refl

abbrev closed_attached : Attached version time cartridge closed_interface
closed_attached = record {
  contents_are = refl;
  chip_is = refl;
  identity_is = refl;
  echo_intact = refl;
  crc_intact = refl;
  unchunked = refl;
  named = has_name;
  absent = refl;
  nothing_received = refl;
}

-- An open session in which `arriving` was sent and not yet read.
abbrev arriving_interface : Bytes → SerialInterface (Port version time)
arriving_interface arriving = record {
  portname = codes "COM3";
  port = true;
  receive_buffer = [];
  link = record shut { open_state = true; read_buffer = arriving };
}

abbrev arriving_session :
    (arriving : Bytes) → Session version time cartridge none arriving (arriving_interface arriving)
arriving_session arriving = record {
  wired = record {
    contents_are = refl;
    chip_is = refl;
    identity_is = refl;
    echo_intact = refl;
    crc_intact = refl;
    is_opened = refl;
    nothing_unread = refl;
    unchunked = refl;
    payload_awaited = refl;
  };
  named = has_name;
  present = refl;
  on_the_way = refl;
}

abbrev open_interface : SerialInterface (Port version time)
open_interface = arriving_interface []

abbrev open_session : Session version time cartridge none [] open_interface
open_session = arriving_session []

abbrev worker_of : (interrupted : ℕ → Bool) → Bytes → Worker version time 0 interrupted
worker_of interrupted content = record {
  content = content;
  serial_interface = closed_interface;
  signals = [];
  polls = 0;
}

abbrev old_job : FlashJob × Bytes
old_job = (record { complete_rom = false; erase_only = false; bank_index = 0 }, [])

abbrev bank_job : FlashJob
bank_job = record { complete_rom = false; erase_only = false; bank_index = 3 }

abbrev bank_programs : Programs bank_job bank_image cartridge
bank_programs = record {
  fits = record { inside = omega arith; known = refl; whole = cartridge_whole };
  writes = refl;
  sized = bank_image_sized;
  bytes = bank_image_bytes;
}

flash_then_read_example :
    (job : FlashJob) × (range : ReadJob) × (set_bank 3 bank_image old_job ≡ ok (job, bank_image))
    × (set_bank_range 3 1 ≡ ok range)
    × (let flashed =
          run_flash
            (Port version time)
            (enough 0)
            never
            job
            (record (worker_of never []) { content = bank_image }) in
        let r =
          run_read
            (Port version time)
            (enough 0)
            never
            range
            (record (worker_of never []) { serial_interface = (flashed.1).serial_interface }) in
        (r.0 ≡ ok tt) × ((r.1).content ≡ bank_image))
flash_then_read_example =
    flash_then_read version time 0 never {c = cartridge} 3 bank_image old_job (worker_of never [])
      (worker_of never []) (omega arith) bank_image_sized bank_image_bytes refl cartridge_whole
      closed_attached (λ n. refl)

bank_flashed_example :
    (job : FlashJob) × (set_bank 3 bank_image old_job ≡ ok (job, bank_image))
    × (let r =
          run_flash
            (Port version time)
            (enough 0)
            never
            job
            (record (worker_of never []) { content = bank_image }) in
        (r.0 ≡ ok tt)
        × Attached version time
            (record cartridge { contents = overwrite (3 * banksize) bank_image cartridge.contents })
            (r.1).serial_interface
        × ((r.1).signals ≡ [] ++ (block_signals 64 0 64 ++ flash_result_ready ∷ [])))
bank_flashed_example =
    bank_flashed version time 0 never {c = cartridge} 3 bank_image old_job (worker_of never [])
      (omega arith) bank_image_sized bank_image_bytes refl cartridge_whole closed_attached
      (λ n. refl)

rom_flashed_example :
    (job : FlashJob) × (set_complete_rom rom_image old_job ≡ ok (job, rom_image))
    × (let r =
          run_flash
            (Port version time)
            (enough 0)
            never
            job
            (record (worker_of never []) { content = rom_image }) in
        (r.0 ≡ ok tt)
        × Attached version time (record cartridge { contents = rom_image }) (r.1).serial_interface
        × ((r.1).signals ≡ [] ++ (block_signals 1024 0 1024 ++ flash_result_ready ∷ [])))
rom_flashed_example =
    rom_flashed version time 0 never {c = cartridge} rom_image old_job (worker_of never [])
      (length-replicate {A = ℕ} romsize 0x42) (IsBytes-replicate romsize 0x42 (omega arith)) refl
      cartridge_whole closed_attached (λ n. refl)

run_flash-outcome_example :
    let r =
      run_flash (Port version time) (enough 0) at_once bank_job (worker_of at_once bank_image) in
    Done version time 0 at_once bank_job bank_image cartridge [] r
    ⊎ Interrupted version time 0 at_once bank_job bank_image cartridge [] r
run_flash-outcome_example =
    run_flash-outcome version time 0 at_once {job = bank_job} {content = bank_image} {c = cartridge}
      (worker_of at_once bank_image) bank_programs refl closed_attached

outside_kept_example :
    let r =
      run_flash (Port version time) (enough 0) at_once bank_job (worker_of at_once bank_image) in
    mid 0 banksize (r.1).serial_interface.link.backend.flash ≡ mid 0 banksize cartridge.contents
outside_kept_example =
    outside_kept version time 0 at_once {job = bank_job} {content = bank_image} {c = cartridge} 0
      banksize (worker_of at_once bank_image) bank_programs refl closed_attached (inl (omega arith))

banks_read_example :
    let r =
      run_read
        (Port version time)
        (enough 0)
        never
        (record { first_bank = 2; bank_count = 3 })
        (worker_of never []) in
    (r.0 ≡ ok tt)
    × Attached version time cartridge (r.1).serial_interface
    × ((r.1).content ≡ mid (2 * banksize) (3 * banksize) cartridge.contents)
    × ((r.1).signals ≡ [] ++ (bank_signals 3 0 3 ++ read_result_ready ∷ []))
banks_read_example =
    banks_read version time 0 never {c = cartridge} (record { first_bank = 2; bank_count = 3 })
      (worker_of never []) (omega arith) refl cartridge_whole closed_attached (λ n. refl)

burn_block-Session_example :
    let possible = clears_bits (mid (5 * blocksize) blocksize cartridge.contents) block_image in
    Yields version time 0
      (burn_block (Port version time) (enough 0) 5 block_image open_interface)
      (write_outcome version time 0 possible 5)
      (after_write possible 5 block_image cartridge)
burn_block-Session_example =
    burn_block-Session version time 0 {c = cartridge} 5 block_image open_interface open_session
      (omega arith) (length-replicate {A = ℕ} blocksize 0x42)
      (IsBytes-replicate blocksize 0x42 (omega arith)) refl cartridge_whole

read_bank-Session_example :
    Yields version time 0
      (read_bank (Port version time) (enough 0) 15 open_interface)
      (ok (mid (15 * banksize) banksize cartridge.contents))
      cartridge
read_bank-Session_example =
    read_bank-Session version time 0 {c = cartridge} 15 open_interface open_session (omega arith)
      refl cartridge_whole

read_block-Session_example :
    Yields version time 0
      (read_block (Port version time) (enough 0) 1023 open_interface)
      (ok (mid (1023 * blocksize) blocksize cartridge.contents))
      cartridge
read_block-Session_example =
    read_block-Session version time 0 {c = cartridge} 1023 open_interface open_session (omega arith)
      refl cartridge_whole

erase_bank-Session_example :
    Yields version time 0
      (erase_bank (Port version time) (enough 0) 7 open_interface)
      (ok tt)
      (fill (7 * banksize) banksize cartridge)
erase_bank-Session_example =
    erase_bank-Session version time 0 {c = cartridge} 7 open_interface open_session (omega arith)
      refl

erase_chip-Session_example :
    Yields version time 0
      (erase_chip (Port version time) (enough 0) open_interface)
      (ok tt)
      (fill 0 romsize cartridge)
erase_chip-Session_example =
    erase_chip-Session version time 0 {c = cartridge} open_interface open_session refl

get_chip_id-Session_example :
    Yields version time 0
      (get_chip_id (Port version time) (enough 0) open_interface)
      (ok sst39sf020)
      cartridge
get_chip_id-Session_example =
    get_chip_id-Session version time 0 {c = cartridge} open_interface open_session (omega arith)

wait_for_response-Session_example :
    (s' : SerialInterface (Port version time)) × (wait_for_response
        (Port version time)
        1
        2
        3000
        (arriving_interface (1 ∷ 2 ∷ 3 ∷ []))
      ≡ (ok (1 ∷ 2 ∷ []), s'))
    × Session version time cartridge none (3 ∷ []) s'
wait_for_response-Session_example =
    wait_for_response-Session version time {c = cartridge} {w = none} (1 ∷ 2 ∷ []) (3 ∷ []) 2 refl 0
      3000 (arriving_interface (1 ∷ 2 ∷ 3 ∷ [])) (arriving_session (1 ∷ 2 ∷ 3 ∷ []))

crc16_xmodem_detects_example :
    crc16_xmodem ((1 ∷ 2 ∷ []) ++ 3 ∷ (4 ∷ [])) ≢ crc16_xmodem ((1 ∷ 2 ∷ []) ++ 7 ∷ (4 ∷ []))
crc16_xmodem_detects_example =
    crc16_xmodem_detects (1 ∷ 2 ∷ []) (4 ∷ []) 3 7
      (omega arith, (omega arith, (omega arith, (omega arith, tt)))) (omega arith) (ground arith)

is_supported-position_example : is_supported (codes "0.2.5") (codes "0.1.2") ≡ (
    ltb (position releases (codes "0.2.5")) 9
    && leb (position releases (codes "0.1.2")) (position releases (codes "0.2.5")))
is_supported-position_example = is_supported-position (codes "0.2.5") (codes "0.1.2")

-- What a factory-fresh microcontroller reads.
abbrev fresh_probe : Probe
fresh_probe = record {
  signature = expected_signature;
  low = 0x5E;
  high = 0x99;
  extended = 0xF3;
  lock = 0xFF;
}

abbrev steady : ℕ → Result InstallError Probe
steady i = ok fresh_probe

fresh_accepted : check_connection steady 5 false ≡ ok fresh_probe
unfolding check_connection bytes_eq
fresh_accepted = refl

check_connection-Stable_example :
    (1 ≤ 5)
    × Stable steady 1 5 fresh_probe
    × (bytes_eq fresh_probe.signature expected_signature ≡ true)
    × Accepts false fresh_probe
check_connection-Stable_example = check_connection-Stable steady 5 false fresh_probe fresh_accepted

-- A data record at the last address of the 32-bit space: its end wraps to 1, and the test for data beyond
-- the flash does not see it.
wrapped_record_passes :
    let scan : Scan = record {
      base = 0xFFFF0000;
      eof = false;
      application = true;
      bootloader = true;
    } in
    scan_record (2 ∷ 0xFF ∷ 0xFF ∷ 0 ∷ 0xAA ∷ 0xAA ∷ 0xAC ∷ []) scan ≡ ok scan
unfolding scan_record
wrapped_record_passes = refl

abbrev log_lines : List Bytes
log_lines = replicate 5001 (codes "ready")

log_all-recent_example :
    (trims : ℕ) × (log_all log_lines [] ≡ drop (trims * trim_messages) log_lines)
    × (length (log_all log_lines []) ≤ max_messages)
    × ((trims ≡ 0) ⊎ (max_messages - trim_messages < length (log_all log_lines [])))
log_all-recent_example = log_all-recent log_lines

-- A cartridge with an SST39SF040.
abbrev larger_cartridge : Cartridge
larger_cartridge = record cartridge { chip = 0xBFB7 }

abbrev larger_interface : SerialInterface (Port version time)
larger_interface = record closed_interface {
  link = record shut { backend = record backend { chip_id = 0xBFB7 } };
}

abbrev larger_attached : Attached version time larger_cartridge larger_interface
larger_attached = record {
  contents_are = refl;
  chip_is = refl;
  identity_is = refl;
  echo_intact = refl;
  crc_intact = refl;
  unchunked = refl;
  named = has_name;
  absent = refl;
  nothing_received = refl;
}

abbrev larger_worker : Worker version time 0 never
larger_worker = record (worker_of never bank_image) { serial_interface = larger_interface }

unsupported_chip_kept_example :
    let r = run_flash (Port version time) (enough 0) never bank_job larger_worker in
    (r.0 ≡ ok tt)
    × Attached version time larger_cartridge (r.1).serial_interface
    × ((r.1).signals ≡ [] ++ thread_abort (unsupported_chip 0xBFB7) ∷ [])
unsupported_chip_kept_example =
    unsupported_chip_kept version time 0 never {c = larger_cartridge} bank_job larger_worker
      (ground (arith, bank_image_sized)) (omega arith) (omega arith) larger_attached

abbrev erase_job : FlashJob
erase_job = record { complete_rom = false; erase_only = true; bank_index = 9 }

erase_run_example :
    let r = run_flash (Port version time) (enough 0) never erase_job (worker_of never []) in
    (r.0 ≡ ok tt)
    × Attached version time (erased erase_job cartridge) (r.1).serial_interface
    × ((r.1).signals
        ≡ [] ++ (if false then thread_cancelled after_verified_erase else erase_result_ready) ∷ [])
erase_run_example =
    erase_run version time 0 never {c = cartridge} erase_job (worker_of never [])
      (record { inside = omega arith; known = refl; whole = cartridge_whole }) refl closed_attached

switched_bank-dip_switch_positions_example : switched_bank (dip_switch_positions 11) 0 ≡ 11
switched_bank-dip_switch_positions_example = switched_bank-dip_switch_positions 11 (omega arith)
