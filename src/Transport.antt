-- ===== src/Transport.antt =====
-- src/serial_transport.h: the interface through which SerialInterface reaches a port. The state
-- stands for the transport object and all that it changes: the device, the driver and the clock.
use p2000t_cartridge_studio.Base.{ℕ, Bool, Option}
use p2000t_cartridge_studio.Base.Int.{ℤ}
use p2000t_cartridge_studio.Bytes.{Bytes}

pub record SerialTransport : Type 1 where
  pub State : Type 0
  -- The factory of SerialInterface makes a new transport; false is a null pointer.
  pub create : Bytes → State → Bool × State
  pub opens : State → Bool × State
  pub close : State → State
  pub is_open : State → Bool
  pub set_data_terminal_ready : Bool → State → State
  pub error_string : State → Bytes
  -- How many bytes were taken; `none` is a negative result.
  pub write : Bytes → State → Option ℕ × State
  pub wait_for_bytes_written : ℤ → State → Bool × State
  pub bytes_to_write : State → ℕ
  pub wait_for_ready_read : ℤ → State → Bool × State
  pub read_all : State → Bytes × State
  -- A look at the millisecond clock on which QElapsedTimer runs.
  pub clock : State → ℕ × State
