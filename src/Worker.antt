-- ===== src/Worker.antt =====
-- src/ioworker.h and the worker threads: what they share. A run is one call of the thread's method
-- `run`; the signals that it emits are listed in order, and requestInterruption may come at any time:
-- `interrupted n` is what the n-th call of isInterruptionRequested says.
pub mod Flash
pub mod Read
pub mod Blocks
pub mod FlashLoop
pub mod Prepared
pub mod FlashRun
pub mod Flashing
pub mod Endings
pub mod ReadLoop
pub mod ReadRun
use p2000t_cartridge_studio.Base.{ℕ, ◌+◌, Bool, List, [], ◌∷◌, ◌++◌}
use p2000t_cartridge_studio.Bytes.{Bytes}
use p2000t_cartridge_studio.Effects.{M, Result}
use p2000t_cartridge_studio.Serial.{SerialInterface, Failure, Method}
use p2000t_cartridge_studio.Serial.Wire.{close_port}
use p2000t_cartridge_studio.Transport.{SerialTransport}

-- The messages of thread_cancelled.
pub data Cancelled : Type 0 where
  after_verified_erase after_erase : Cancelled
  after_blocks : ℕ → ℕ → Cancelled
  after_banks : ℕ → ℕ → Cancelled
  read_cancelled : Cancelled

pub data Signal : Type 0 where
  flash_result_ready erase_result_ready read_result_ready : Signal
  flash_block_start flash_block_done : ℕ → ℕ → Signal
  read_bank_start read_bank_done : ℕ → ℕ → Signal
  read_block_start read_block_done : ℕ → ℕ → Signal
  thread_cancelled : Cancelled → Signal
  thread_abort : Failure → Signal

-- The members of IOWorker that the threads use, and the record of a run.
pub record IoWorker (T : SerialTransport) : Type 0 where
  pub content : Bytes
  pub serial_interface : SerialInterface T
  pub signals : List Signal
  pub polls : ℕ

abbrev pub Run : SerialTransport → Type 0 → Type 0
Run T A = M (IoWorker T) Failure A

module _ (T : SerialTransport) where
  -- A call on the serial interface, whose exceptions pass through.
  abbrev pub on_serial : {A : Type 0} → Method T A → Run T A
  on_serial m t = let (r, s) = m t.serial_interface in (r, record t { serial_interface = s })

  abbrev pub close_serial : Run T (Unit {0})
  close_serial t = (Result.ok tt, record t { serial_interface = close_port T t.serial_interface })

  abbrev pub emit : Signal → Run T (Unit {0})
  emit signal t = (Result.ok tt, record t { signals = t.signals ++ signal ∷ [] })

  abbrev pub is_interruption_requested : (ℕ → Bool) → Run T Bool
  is_interruption_requested interrupted t =
      (Result.ok (interrupted t.polls), record t { polls = t.polls + 1 })
