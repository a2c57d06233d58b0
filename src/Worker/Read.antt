-- ===== src/Worker/Read.antt =====
-- src/readthread.cpp and src/cartridgereadthread.cpp: read banks of the chip, or the first 16 KiB.
use p2000t_cartridge_studio.RomSizes.{blocksize, numbanks}
use p2000t_cartridge_studio.Effects.{Result, ok, err, pure, ◌>>=◌, ◌>>◌, modify, guard, try_catch}
use p2000t_cartridge_studio.Transport.{SerialTransport}
use p2000t_cartridge_studio.Serial.{Failure, bank_range_outside, unsupported_chip}
use p2000t_cartridge_studio.Serial.Wire.{open_port}
use p2000t_cartridge_studio.Serial.Commands.{get_chip_id, read_bank, read_block}
use p2000t_cartridge_studio.Worker.{
  Run, on_serial, close_serial, emit, is_interruption_requested, read_result_ready, read_bank_start,
  read_bank_done, read_block_start, read_block_done, thread_cancelled, after_banks, read_cancelled,
}
use p2000t_cartridge_studio.Worker.Flash.{expected_chip, abort_run}
use p2000t_cartridge_studio.Base.{
  ℕ, zero, suc, ◌+◌, ◌/◌, ◌%◌, ◌^◌, Bool, true, false, ◌||◌, [], ◌++◌, ltb, leb, ◌==◌,
  if◌then◌else◌,
}

pub record ReadJob : Type 0 where
  pub first_bank : ℕ
  pub bank_count : ℕ

-- The job of a new ReadThread: the complete chip.
abbrev pub complete_chip : ReadJob
complete_chip = record { first_bank = 0; bank_count = numbanks }

-- The sum is that of `unsigned int`.
unfoldable pub set_bank_range : ℕ → ℕ → Result Failure ReadJob
set_bank_range first count =
    if count == 0 || leb numbanks first || ltb numbanks ((first + count) % 2 ^ 32)
    then err bank_range_outside
    else ok (record { first_bank = first; bank_count = count })

module _ (T : SerialTransport) (fuel : ℕ) (interrupted : ℕ → Bool) where
  -- The loop over the banks; false if the thread was cancelled.
  unfoldable pub read_banks : ℕ → ℕ → ReadJob → Run T Bool
  read_banks zero offset job = pure true
  read_banks (suc left) offset job = do
    stop ← is_interruption_requested T interrupted
    if stop
        then (do
          close_serial T
          emit T (thread_cancelled (after_banks offset job.bank_count))
          pure false)
        else (do
          emit T (read_bank_start offset job.bank_count)
          bank ← on_serial T (read_bank T fuel (job.first_bank + offset))
          modify (λ t. record t { content = t.content ++ bank })
          emit T (read_bank_done offset job.bank_count)
          read_banks left (offset + 1) job)

  -- After the loop.
  unfoldable pub finish_read : Run T (Unit {0})
  finish_read = do
    stop ← is_interruption_requested T interrupted
    close_serial T
    emit T (if stop then thread_cancelled read_cancelled else read_result_ready)

  unfoldable pub read_body : ReadJob → Run T (Unit {0})
  read_body job = do
    modify (λ t. record t { content = [] })
    on_serial T (open_port T)
    chip_id ← on_serial T (get_chip_id T fuel)
    guard (chip_id == expected_chip) (unsupported_chip chip_id)
    done ← read_banks job.bank_count 0 job
    if done then finish_read else pure tt

  unfoldable pub run_read : ReadJob → Run T (Unit {0})
  run_read job = try_catch (read_body job) (abort_run T fuel interrupted)

  -- CartridgeReadThread: 64 blocks from the start of the chip, with no test of the chip.
  unfoldable pub read_blocks : ℕ → ℕ → ℕ → Run T (Unit {0})
  read_blocks zero block count = pure tt
  read_blocks (suc left) block count = do
    emit T (read_block_start block count)
    part ← on_serial T (read_block T fuel block)
    modify (λ t. record t { content = t.content ++ part })
    emit T (read_block_done block count)
    read_blocks left (block + 1) count

  unfoldable pub legacy_body : Run T (Unit {0})
  legacy_body = do
    on_serial T (open_port T)
    read_blocks (0x4000 / blocksize) 0 (0x4000 / blocksize)
    close_serial T
    emit T read_result_ready

  unfoldable pub run_legacy : Run T (Unit {0})
  run_legacy = try_catch legacy_body (abort_run T fuel interrupted)
