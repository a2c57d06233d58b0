-- ===== src/Serial/Commands.antt =====
-- src/serial_interface.cpp: the commands of the cartridge protocol, from send_command up.
use Prim.Native.String.{String}
use p2000t_cartridge_studio.RomSizes.{blocksize, numblocks, banksize, numbanks}
use p2000t_cartridge_studio.Bytes.{Bytes, bytes_eq, starts_with, u16_of}
use p2000t_cartridge_studio.Crc.{crc16_xmodem}
use p2000t_cartridge_studio.Text.{codes, hex_field, decimal_byte}
use p2000t_cartridge_studio.Effects.{pure, throw, ◌>>=◌, ◌>>◌, gets, guard}
use p2000t_cartridge_studio.Transport.{SerialTransport}
use p2000t_cartridge_studio.Serial.Wire.{port_is_open, write_bytes, wait_for_response, flush_buffer}
use p2000t_cartridge_studio.Serial.{
  board_info, board_info_length, Method, port_not_open, not_a_cartridge, block_out_of_range,
  bank_out_of_range, bad_payload, bad_command, crc_mismatch, bad_echo, status_failed, command_size,
  default_timeout_ms, bank_read_timeout_ms, erase_timeout_ms,
}
use p2000t_cartridge_studio.Base.{
  ℕ, ◌+◌, ◌/◌, ◌%◌, ◌^◌, [], ◌∷◌, ◌++◌, ltb, ◌==◌, if◌then◌else◌, length, get_or, take,
}

unfoldable pub status_description : ℕ → String
status_description status =
    if status == 0
    then "success"
    else if status == 1
    then "CRC mismatch"
    else if status == 2
    then "invalid block or bank address"
    else if status == 3
    then "wrong flash chip (expected SST39SF020, BF B6)"
    else if status == 4
    then "flash operation timed out"
    else if status == 5
    then "flash verification failed"
    else if status == 6
    then "block needs a chip erase before programming"
    else if status == 7
    then "write payload timed out; reconnect the cartridge"
    else "unknown status"

module _ (T : SerialTransport) (fuel : ℕ) where
  unfoldable pub send_command : Bytes → Method T (Unit {0})
  send_command command = do
    usable ← gets (port_is_open T)
    guard usable port_not_open
    guard (length command == command_size) bad_command
    write_bytes T fuel command default_timeout_ms
    echo ← wait_for_response T fuel command_size default_timeout_ms
    guard (bytes_eq echo command) (bad_echo command)

  unfoldable pub send_command_capture_response : Bytes → ℕ → ℕ → Method T Bytes
  send_command_capture_response command response_size timeout_ms = do
    send_command command
    wait_for_response T fuel response_size timeout_ms

  unfoldable pub require_success : ℕ → Bytes → Method T (Unit {0})
  require_success status operation =
      if status == 0
      then pure tt
      else throw (status_failed operation status (status_description status))

  -- `static_cast<uint8_t>(this->wait_for_response(1)[0])`
  unfoldable pub wait_for_status : ℕ → Method T ℕ
  wait_for_status timeout_ms = do
    response ← wait_for_response T fuel 1 timeout_ms
    pure (get_or response 0 0)

  unfoldable pub get_chip_id : Method T ℕ
  get_chip_id = do
    response ← send_command_capture_response (codes "DEVIDSST") 2 default_timeout_ms
    pure (u16_of (get_or response 0 0) (get_or response 1 0))

  -- What read_block and read_bank do with a response of `size` bytes and their CRC.
  unfoldable pub check_response : ℕ → ℕ → Bytes → Method T Bytes
  check_response index size response =
      let content = take size response in
      let received_crc = u16_of (get_or response size 0) (get_or response (size + 1) 0) in
      let expected_crc = crc16_xmodem content in
      if received_crc == expected_crc
      then pure content
      else throw (crc_mismatch index received_crc expected_crc)

  unfoldable pub read_block : ℕ → Method T Bytes
  read_block block_index = do
    guard (ltb block_index numblocks) block_out_of_range
    let command = codes "RDBK" ++ hex_field 4 block_index
    send_command command
    status ← wait_for_status default_timeout_ms
    require_success status command
    response ← wait_for_response T fuel (blocksize + 2) default_timeout_ms
    check_response block_index blocksize response

  unfoldable pub read_bank : ℕ → Method T Bytes
  read_bank bank_index = do
    guard (ltb bank_index numbanks) bank_out_of_range
    let command = codes "RDBANK" ++ hex_field 2 bank_index
    send_command command
    status ← wait_for_status default_timeout_ms
    require_success status command
    response ← wait_for_response T fuel (banksize + 2) bank_read_timeout_ms
    check_response bank_index banksize response

  unfoldable pub burn_block : ℕ → Bytes → Method T (Unit {0})
  burn_block block_index content = do
    guard (ltb block_index numblocks) block_out_of_range
    guard (length content == blocksize) bad_payload
    let command = codes "WRBK" ++ hex_field 4 block_index
    send_command command
    ready ← wait_for_status default_timeout_ms
    require_success ready (command ++ codes " ready")
    let crc = crc16_xmodem content
    write_bytes T fuel (content ++ (crc / 2 ^ 8 % 256 ∷ crc % 256 ∷ [])) default_timeout_ms
    status ← wait_for_status default_timeout_ms
    require_success status command

  unfoldable pub erase_bank : ℕ → Method T (Unit {0})
  erase_bank bank_index = do
    guard (ltb bank_index numbanks) bank_out_of_range
    let command = codes "ERBANK" ++ hex_field 2 bank_index
    send_command command
    status ← wait_for_status erase_timeout_ms
    require_success status command

  unfoldable pub erase_chip : Method T (Unit {0})
  erase_chip = do
    send_command (codes "ERASEALL")
    status ← wait_for_status erase_timeout_ms
    require_success status (codes "ERASEALL")

  unfoldable pub enter_bootloader : Method T (Unit {0})
  enter_bootloader = do
    send_command (codes "BOOTLOAD")
    status ← wait_for_status default_timeout_ms
    require_success status (codes "BOOTLOAD")

  -- `throw` unless the response to READINFO is that of a firmware before P2000T-FW.
  unfoldable pub get_board_info : Method T Bytes
  get_board_info = do
    flush_buffer T fuel
    response ← send_command_capture_response (codes "READINFO") board_info_length default_timeout_ms
    if starts_with (codes "P2000T-FW v") response then pure response else (do
      guard (bytes_eq response (codes board_info)) not_a_cartridge
      version ← send_command_capture_response (codes "READVERS") 3 default_timeout_ms
      pure (
          codes "P2000T-FW v"
          ++ (decimal_byte (get_or version 0 0)
              ++ (b'.'
                  ∷ (decimal_byte (get_or version 1 0)
                      ++ (b'.' ∷ decimal_byte (get_or version 2 0)))))))
