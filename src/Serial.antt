-- ===== src/Serial.antt =====
-- src/serial_interface.h: the state of SerialInterface and what its methods throw. The children
-- hold the methods and what is proved of them.
pub mod Wire
pub mod Commands
use Prim.Native.String.{String}
use p2000t_cartridge_studio.Base.{ℕ, Bool}
use p2000t_cartridge_studio.Bytes.{Bytes}
use p2000t_cartridge_studio.Effects.{M}
use p2000t_cartridge_studio.Transport.{SerialTransport}

-- The exceptions, one constructor for each `throw`, and what the worker threads add to them.
pub data Failure : Type 0 where
  no_port port_not_open not_a_cartridge : Failure
  open_failed : Bytes → Failure
  block_out_of_range bank_out_of_range bad_payload bad_command : Failure
  crc_mismatch : ℕ → ℕ → ℕ → Failure
  bad_echo : Bytes → Failure
  write_failed : Bytes → Failure
  queue_timed_out transmission_timed_out : Failure
  response_timed_out : ℕ → ℕ → Failure
  status_failed : Bytes → ℕ → String → Failure
  unsupported_chip : ℕ → Failure
  bad_image_size bank_range_outside : Failure
  -- No exception: the model's loop used up its fuel.
  out_of_fuel : Failure

-- `port` tells whether the smart pointer holds a transport.
pub record SerialInterface (T : SerialTransport) : Type 0 where
  pub portname : Bytes
  pub port : Bool
  pub receive_buffer : Bytes
  pub link : T.State

-- A method of SerialInterface.
abbrev pub Method : SerialTransport → Type 0 → Type 0
Method T A = M (SerialInterface T) Failure A

abbrev pub command_size : ℕ
command_size = 8

abbrev pub default_timeout_ms : ℕ
default_timeout_ms = 3000

abbrev pub bank_read_timeout_ms : ℕ
bank_read_timeout_ms = 5000

abbrev pub erase_timeout_ms : ℕ
erase_timeout_ms = 30000

-- src/version.h.in.
abbrev pub board_info : String
board_info = "P2000T-FW p01.00"

abbrev pub board_info_length : ℕ
board_info_length = 16
