-- ===== src/Emulator.antt =====
-- tests/support/emulated_serial_transport.cpp: a cartridge in memory, which speaks the protocol of the
-- firmware. It implements SerialTransport; the children prove what a client sees of it.
pub mod Session
pub mod Exchange
pub mod Answers
pub mod Protocol
pub mod Burn
pub mod Connect
pub mod Erased
use p2000t_cartridge_studio.RomSizes.{romsize, blocksize, numblocks, banksize, numbanks}
use p2000t_cartridge_studio.Bytes.{Bytes, mid, overwrite, bytes_eq, starts_with, u16_of}
use p2000t_cartridge_studio.Crc.{crc16_xmodem}
use p2000t_cartridge_studio.Text.{codes, all_upper_hex, hex_number}
use p2000t_cartridge_studio.Transport.{SerialTransport}
use p2000t_cartridge_studio.Base.{
  ℕ, zero, suc, ◌+◌, ◌-◌, ◌*◌, ◌/◌, ◌%◌, ◌^◌, ◌≤◌, ◌<◌, min, max, bit_and, bit_or, bit_xor, ◌≡◌,
  refl, sym, ap, subst, ◌∙◌, ◌≢◌, ◌↔◌, ◌⊎◌, inl, inr, Bool, true, false, not, ◌&&◌, ◌||◌, Option,
  none, some, List, [], ◌∷◌, ◌++◌, map, append-nil, append_assoc, arith, ltb, leb, ◌==◌,
  if◌then◌else◌, Bool-cases, Option-cases, ==_iff, ltb→lt, lt→ltb, leb→le, length, get_elem?,
  get_or, set, take, drop, replicate, length-append, length-take, length-drop, length-replicate,
  length-map, length-set, get_elem?-set_self, get_elem?-set_ne, get_elem?-ge, get_elem?-take,
  get_elem?-drop, get_elem?-append, get_elem?-replicate, list_ext, take-append-drop, bit_and_step,
  bit_or_step, bit_xor_step, bit_xor-bit_xor_right, bit_xor-parity, bit_xor-lt, bit_xor_left_cancel,
  bit_xor_right_cancel, bit_xor_comm, bit_or-shifted, bit_or-zero, bit_and-zero, bit_and-pow,
  bit_xor-div, bit_and-one,
}

-- FirmwareEmulatorBackend: the flash and what the tests set up.
pub record Backend : Type 0 where
  pub flash : Bytes
  pub board_info : Bytes
  pub chip_id : ℕ
  pub command_history : List Bytes
  pub corrupt_next_echo : Bool
  pub corrupt_next_read_crc : Bool

-- EmulatedSerialTransport, with its backend; `looks` counts the readings of the clock.
pub record Emulated : Type 0 where
  pub backend : Backend
  pub open_state : Bool
  pub write_buffer : Bytes
  pub read_buffer : Bytes
  pub ready_read_pending : Bool
  pub read_chunk_size : ℕ
  pub pending_block_write : Bool
  pub pending_block : ℕ
  pub looks : ℕ

abbrev pub sst39sf020 : ℕ
sst39sf020 = 0xBFB6

unfoldable pub parse_block : Bytes → Option ℕ
parse_block suffix =
    let block = hex_number 0 suffix in
    if length suffix == 4 && all_upper_hex suffix && ltb block numblocks then some block else none

unfoldable pub parse_bank : Bytes → Option ℕ
parse_bank suffix =
    let bank = hex_number 0 suffix in
    if length suffix == 2 && all_upper_hex suffix && ltb bank numbanks then some bank else none

-- `(old_value & new_value) != new_value` for no byte: programming only clears bits.
unfoldable pub clears_bits : Bytes → Bytes → Bool
clears_bits [] new = true
clears_bits (o ∷ old) [] = true
clears_bits (o ∷ old) (n ∷ new) = bit_and o n == n && clears_bits old new

unfoldable pub program_range : ℕ → Bytes → Backend → Bool × Backend
program_range offset content b =
    if ltb (length b.flash) (offset + length content)
    then (false, b)
    else if not (clears_bits (mid offset (length content) b.flash) content)
    then (false, b)
    else (true, record b { flash = overwrite offset content b.flash })

unfoldable pub erase_range : ℕ → ℕ → Backend → Backend
erase_range offset size b = record b {
  flash = overwrite offset (replicate (min size (length b.flash - offset)) 0xFF) b.flash;
}

unfoldable pub command_echo : Bytes → Backend → Bytes × Backend
command_echo [] b = ([], b)
command_echo (c ∷ cs) b =
    if b.corrupt_next_echo
    then ((if c == b'X' then b'Y' else b'X') ∷ cs, record b { corrupt_next_echo = false })
    else (c ∷ cs, b)

unfoldable pub queue_response : Bytes → Emulated → Emulated
queue_response response e = record e {
  read_buffer = e.read_buffer ++ response;
  ready_read_pending = true;
}

abbrev status : ℕ → Bytes
status value = value ∷ []

-- The response to a read of `size` bytes, with the CRC that a test may have spoilt.
unfoldable pub respond_range : ℕ → ℕ → Emulated → Emulated
unfolding queue_response
respond_range offset size e =
    let content = mid offset size e.backend.flash in
    let crc = crc16_xmodem content in
    let sent = if e.backend.corrupt_next_read_crc then bit_xor crc 1 else crc in
    let consumed = record e { backend = record (e.backend) { corrupt_next_read_crc = false } } in
    queue_response (status 0 ++ (content ++ (sent / 2 ^ 8 ∷ sent % 256 ∷ []))) consumed

-- The commands in the order of the source's tests; the argument is that of `prefix`.
unfoldable pub read_range : Option ℕ → ℕ → Emulated → Emulated
unfolding respond_range
read_range none unit e = queue_response (status 2) e
read_range (some n) unit e =
    if not (e.backend.chip_id == sst39sf020)
    then queue_response (status 3) e
    else respond_range (n * unit) unit e

unfoldable pub erase_bank_command : Option ℕ → Emulated → Emulated
unfolding queue_response erase_range
erase_bank_command none e = queue_response (status 2) e
erase_bank_command (some bank) e =
    if not (e.backend.chip_id == sst39sf020)
    then queue_response (status 3) e
    else queue_response (status 0)
        (record e { backend = erase_range (bank * banksize) banksize e.backend })

unfoldable pub write_block_command : Option ℕ → Emulated → Emulated
unfolding queue_response
write_block_command none e = queue_response (status 2) e
write_block_command (some block) e =
    queue_response (status 0) (record e { pending_block = block; pending_block_write = true })

unfoldable pub erase_all : Emulated → Emulated
unfolding queue_response erase_range
erase_all e =
    if not (e.backend.chip_id == sst39sf020)
    then queue_response (status 3) e
    else queue_response (status 0) (record e { backend = erase_range 0 romsize e.backend })

-- P2000T_VERSION_MAJOR, _MINOR and _PATCH are set by the build.
module _ (version : Bytes) (time : ℕ → ℕ) where
  unfoldable pub dispatch : Bytes → Emulated → Emulated
  unfolding read_range erase_bank_command write_block_command erase_all
  dispatch command e =
      if bytes_eq command (codes "READINFO")
      then queue_response e.backend.board_info e
      else if bytes_eq command (codes "READVERS")
      then queue_response version e
      else if bytes_eq command (codes "DEVIDSST")
      then queue_response (e.backend.chip_id / 2 ^ 8 ∷ e.backend.chip_id % 256 ∷ []) e
      else if bytes_eq command (codes "ERASEALL")
      then erase_all e
      else if bytes_eq command (codes "BOOTLOAD")
      then queue_response (status 0) e
      else if starts_with (codes "RDBANK") command
      then read_range (parse_bank (drop 6 command)) banksize e
      else if starts_with (codes "ERBANK") command
      then erase_bank_command (parse_bank (drop 6 command)) e
      else if starts_with (codes "RDBK") command
      then read_range (parse_block (drop 4 command)) blocksize e
      else if starts_with (codes "WRBK") command
      then write_block_command (parse_block (drop 4 command)) e
      else queue_response (codes "ERRORCMD") e

  -- One round of the loop on a command.
  unfoldable pub handle_command : Emulated → Emulated
  unfolding command_echo queue_response
  handle_command e =
      let command = take 8 e.write_buffer in
      let (echo, backend) =
        command_echo command
          (record (e.backend) { command_history = e.backend.command_history ++ command ∷ [] }) in
      dispatch command
        (queue_response echo (record e { backend = backend; write_buffer = drop 8 e.write_buffer }))

  -- One round of the loop on the payload of a write.
  unfoldable pub handle_payload : Emulated → Emulated
  handle_payload e =
      let content = take blocksize e.write_buffer in
      let received_crc =
        u16_of (get_or e.write_buffer blocksize 0) (get_or e.write_buffer (blocksize + 1) 0) in
      let rest = record e {
        write_buffer = drop (blocksize + 2) e.write_buffer;
        pending_block_write = false;
      } in
      let (done, backend) = program_range (e.pending_block * blocksize) content e.backend in
      if not (received_crc == crc16_xmodem content)
      then queue_response (status 1) rest
      else if not (e.backend.chip_id == sst39sf020)
      then queue_response (status 3) rest
      else queue_response (status (if done then 0 else 6)) (record rest { backend = backend })

  -- Each round takes bytes off the buffer, so its length is fuel enough.
  unfoldable pub process_write_buffer : ℕ → Emulated → Emulated
  process_write_buffer zero e = e
  process_write_buffer (suc fuel) e =
      let after_payload = process_write_buffer fuel (handle_payload e) in
      let after_command = process_write_buffer fuel (handle_command e) in
      if e.pending_block_write
      then (if ltb (length e.write_buffer) (blocksize + 2) then e else after_payload)
      else (if ltb (length e.write_buffer) 8 then e else after_command)

  unfoldable pub write : Bytes → Emulated → Option ℕ × Emulated
  write content e =
      let buffered = e.write_buffer ++ content in
      if not e.open_state then (none, e) else (
        some (length content),
        process_write_buffer (length buffered + 1) (record e { write_buffer = buffered }),
      )

  unfoldable pub read_all : Emulated → Bytes × Emulated
  read_all e =
      let size = length e.read_buffer in
      let count = if ltb 0 e.read_chunk_size then min size e.read_chunk_size else size in
      let left = drop count e.read_buffer in
      (
        take count e.read_buffer,
        record e {
          read_buffer = left;
          ready_read_pending = ltb 0 (length left) || e.ready_read_pending;
        },
      )

  unfoldable pub close : Emulated → Emulated
  close e = record e {
    open_state = false;
    write_buffer = [];
    read_buffer = [];
    ready_read_pending = false;
    pending_block_write = false;
  }

  unfoldable pub wait_for_ready_read : Emulated → Bool × Emulated
  wait_for_ready_read e = (e.ready_read_pending, record e { ready_read_pending = false })

  -- The fields of a transport that create_transport has just made.
  unfoldable pub fresh_transport : Emulated → Emulated
  fresh_transport e = record e {
    open_state = false;
    write_buffer = [];
    read_buffer = [];
    ready_read_pending = false;
    pending_block_write = false;
    pending_block = 0;
  }

  abbrev pub emulated_transport : SerialTransport
  emulated_transport = record {
    State = Emulated;
    create = λ _ e. (true, fresh_transport e);
    opens = λ e. (true, record e { open_state = true });
    close = close;
    is_open = λ e. e.open_state;
    set_data_terminal_ready = λ _ e. e;
    error_string = λ _. [];
    write = write;
    wait_for_bytes_written = λ _ e. (true, e);
    bytes_to_write = λ _. 0;
    wait_for_ready_read = λ _. wait_for_ready_read;
    read_all = read_all;
    clock = λ e. (time e.looks, record e { looks = e.looks + 1 });
  }
